-- ===== src/Itch/Visits.antt =====
-- The rounds of `for_each_framed_message` of include/pricetime/itch_reader.hpp over a buffer.
use pricetime.Common.{
  ℕ, zero, suc, ◌+◌, ◌-◌, ◌≤◌, ◌<◌, ◌≡◌, ◌⊎◌, inl, inr, refl, ap, sym, ◌∙◌, subst, List, [], ◌∷◌,
  ◌++◌, some, length, get_or, drop, take, arith, length-append, length-drop,
}
use pricetime.Itch.{be16}
use pricetime.Itch.Reader.{
  Visit, stopped, handled, visit, walk_framed, called, resume, ReadResult, Walk,
}

-- The rounds over `bytes` handle `msgs` and come to `rest`.
pub data Read : List ℕ → List (List ℕ) → List ℕ → Type 0 where
  here : {bytes : List ℕ} → Read bytes [] bytes
  further :
      {bytes msg : List ℕ} {used : ℕ} {msgs : List (List ℕ)} {rest : List ℕ}
      → visit bytes ≡ handled msg used
      → Read (drop used bytes) msgs rest
      → Read bytes (msg ∷ msgs) rest

take_within : (n : ℕ) (xs ys : List ℕ) → n ≤ length xs → take n (xs ++ ys) ≡ take n xs
take_within zero xs ys h = refl
take_within (suc n) [] ys h = absurd (omega arith)
take_within (suc n) (x ∷ xs) ys h = ap (λ zs. x ∷ zs) (take_within n xs ys (omega arith))

drop_within : (n : ℕ) (xs ys : List ℕ) → n ≤ length xs → drop n (xs ++ ys) ≡ drop n xs ++ ys
drop_within zero xs ys h = refl
drop_within (suc n) [] ys h = absurd (omega arith)
drop_within (suc n) (x ∷ xs) ys h = drop_within n xs ys (omega arith)

pub get_or-append : (xs ys : List ℕ) → 0 < length xs → get_or (xs ++ ys) 0 0 ≡ get_or xs 0 0
get_or-append [] ys h = absurd (omega arith)
get_or-append (x ∷ xs) ys h = refl

-- Where a round that goes on leaves the buffer.
used_within :
    (bytes msg : List ℕ) (used : ℕ)
    → visit bytes ≡ handled msg used
    → (0 < used) × (used ≤ length bytes)
unfolding visit
used_within bytes msg used e = ground (arith, e)

pub Read-length :
    (bytes : List ℕ) (msgs : List (List ℕ)) (rest : List ℕ)
    → Read bytes msgs rest
    → length rest ≤ length bytes
Read-length bytes _ _ here = omega arith
Read-length bytes _ rest (further {msg = m} {used = u} {msgs = ms} e read) =
    omega
      (arith, used_within bytes m u e, length-drop u bytes, Read-length (drop u bytes) ms rest read)

-- The walk's result, where it stops at `rest` with `r`.
abbrev pub stop : ℕ → ℕ → ℕ → List (List ℕ) → List ℕ → ReadResult → Walk
stop n off size msgs rest r =
    (record r { messages = n + length msgs; offset = off + (size - length rest) }, msgs)

stop-here :
    (n off : ℕ) (bytes : List ℕ) (r : ReadResult)
    → (record r { messages = n; offset = off }, []) ≡ stop n off (length bytes) [] bytes r
stop-here n off bytes r =
    let e : n ≡ n + 0 = omega arith in
    let d : off ≡ off + (length bytes - length bytes) = omega arith in
    ap (λ k. (record r { messages = k; offset = off }, [])) e
    ∙ ap (λ k. (record r { messages = n + 0; offset = k }, [])) d

stop-further :
    (n off used : ℕ) (bytes msg : List ℕ) (msgs : List (List ℕ)) (rest : List ℕ) (r : ReadResult)
    → used ≤ length bytes
    → length rest ≤ length (drop used bytes)
    → (
      record r {
        messages = n + 1 + length msgs;
        offset = off + used + (length (drop used bytes) - length rest);
      },
      msg ∷ msgs,
    )
      ≡ stop n off (length bytes) (msg ∷ msgs) rest r
stop-further n off used bytes msg msgs rest r within short =
    let e : n + 1 + length msgs ≡ n + length (msg ∷ msgs) = omega arith in
    let d : off + used + (length (drop used bytes) - length rest)
        ≡ off + (length bytes - length rest) =
      omega (arith, length-drop used bytes) in
    ap
      (λ k. (
        record r { messages = k; offset = off + used + (length (drop used bytes) - length rest) },
        msg ∷ msgs,
      ))
      e
    ∙ ap (λ k. (record r { messages = n + length (msg ∷ msgs); offset = k }, msg ∷ msgs)) d

pub walk_framed-Read :
    (fuel n off : ℕ) (bytes : List ℕ) (msgs : List (List ℕ)) (rest : List ℕ) (r : ReadResult)
    → length bytes < fuel
    → Read bytes msgs rest
    → visit rest ≡ stopped r
    → walk_framed fuel n off bytes ≡ some (stop n off (length bytes) msgs rest r)
unfolding walk_framed
walk_framed-Read zero n off bytes msgs rest r h read e = absurd (omega arith)
walk_framed-Read (suc fuel) n off bytes [] _ r h here e =
    ap (resume n off (λ used. walk_framed fuel (n + 1) (off + used) (drop used bytes))) e
    ∙ ap some (stop-here n off bytes r)
walk_framed-Read (suc fuel) n off bytes _ rest r h
      (further {msg = m} {used = u} {msgs = ms} e' read) e =
    let (progress, within) = used_within bytes m u e' in
    let short = length-drop u bytes in
    let ih =
      walk_framed-Read fuel (n + 1) (off + u) (drop u bytes) ms rest r (omega (arith, h)) read e in
    ap (resume n off (λ used. walk_framed fuel (n + 1) (off + used) (drop used bytes))) e'
    ∙ ap (called m) ih
    ∙ (ap some
        (stop-further n off u bytes m ms rest r within (Read-length (drop u bytes) ms rest read)))

visit_cases :
    (bytes : List ℕ)
    → ((r : ReadResult) × (visit bytes ≡ stopped r))
      ⊎ ((msg : List ℕ) × (used : ℕ) × (visit bytes ≡ handled msg used))
visit_cases bytes = cases (visit bytes) refl
  where
    cases :
        (v : Visit)
        → visit bytes ≡ v
        → ((r : ReadResult) × (visit bytes ≡ stopped r))
          ⊎ ((msg : List ℕ) × (used : ℕ) × (visit bytes ≡ handled msg used))
    cases (stopped r) e = inl (r, e)
    cases (handled msg used) e = inr (msg, used, e)

-- The rounds come to an end.
pub Read-all :
    (fuel : ℕ) (bytes : List ℕ)
    → length bytes < fuel
    → (msgs : List (List ℕ)) × (rest : List ℕ) × (r : ReadResult) × Read bytes msgs rest
      × (visit rest ≡ stopped r)
Read-all zero bytes h = absurd (omega arith)
Read-all (suc fuel) bytes h = elim (visit_cases bytes) [
  | inl (r, e) ↦ ([], bytes, r, here, e)
  | inr (msg, used, e) ↦
      let (progress, within) = used_within bytes msg used e in
      let (msgs, rest, r, read, end) =
        Read-all fuel (drop used bytes) (omega (arith, h, length-drop used bytes)) in
      (msg ∷ msgs, rest, r, further e read, end)
]

pub Read-trans :
    (a b c : List ℕ) (ms ns : List (List ℕ)) → Read a ms b → Read b ns c → Read a (ms ++ ns) c
Read-trans a _ c _ ns here tail = tail
Read-trans a b c _ ns (further {used = u} {msgs = ms} e read) tail =
    further e (Read-trans (drop u a) b c ms ns read tail)

handled_as :
    (bytes msg : List ℕ) (used : ℕ)
    → visit bytes ≡ handled msg used
    → (used ≡ 2 + be16 bytes 0) × (0 < be16 bytes 0) × (used ≤ length bytes)
unfolding visit
handled_as bytes msg used e = ground (arith, e)

handled-append :
    (bytes more msg : List ℕ) (used : ℕ)
    → visit bytes ≡ handled msg used
    → (visit (bytes ++ more) ≡ handled msg used)
      × (drop used (bytes ++ more) ≡ drop used bytes ++ more)
unfolding visit
handled-append [] more msg used e = absurd (ground (arith, e))
handled-append (x ∷ []) more msg used e = absurd (ground (arith, e))
handled-append (x ∷ y ∷ body) more msg used e =
    let (at_len, filled, within) = handled_as (x ∷ y ∷ body) msg used e in
    let len = be16 (x ∷ y ∷ body) 0 in
    let total = length-append body more in
    let same = take_within len body more (omega (arith, at_len, within)) in
    let first = get_or-append body more (omega (arith, at_len, filled, within)) in
    (
      rw (first, same) (ground (arith, e, total, at_len, within)),
      drop_within used (x ∷ y ∷ body) more within,
    )

pub Read-append :
    (bytes more : List ℕ) (msgs : List (List ℕ)) (rest : List ℕ)
    → Read bytes msgs rest
    → Read (bytes ++ more) msgs (rest ++ more)
Read-append bytes more _ _ here = here
Read-append bytes more _ rest (further {msg = m} {used = u} {msgs = ms} e read) =
    let (e', d) = handled-append bytes more m u e in
    further e'
      (subst (λ b. Read b ms (rest ++ more)) (sym d) (Read-append (drop u bytes) more ms rest read))

drop-nil : (n : ℕ) → drop {A = ℕ} n [] ≡ []
drop-nil zero = refl
drop-nil (suc n) = refl

drop-drop : (n m : ℕ) (xs : List ℕ) → drop (n + m) xs ≡ drop m (drop n xs)
drop-drop zero m xs = ap (λ k. drop k xs) (omega arith)
drop-drop (suc n) m [] = drop-nil (suc n + m) ∙ sym (drop-nil m)
drop-drop (suc n) m (x ∷ xs) =
    let e : suc n + m ≡ suc (n + m) = omega arith in ap (λ k. drop k (x ∷ xs)) e ∙ drop-drop n m xs

pub Read-drop :
    (bytes : List ℕ) (msgs : List (List ℕ)) (rest : List ℕ)
    → Read bytes msgs rest
    → drop (length bytes - length rest) bytes ≡ rest
Read-drop bytes _ _ here = let e : length bytes - length bytes ≡ 0 = omega arith in rw e refl
Read-drop bytes _ rest (further {msg = m} {used = u} {msgs = ms} e read) =
    let (progress, within) = used_within bytes m u e in
    let short = Read-length (drop u bytes) ms rest read in
    let d : length bytes - length rest ≡ u + (length (drop u bytes) - length rest) =
      omega (arith, length-drop u bytes, short, within) in
    rw d (drop-drop u _ bytes ∙ Read-drop (drop u bytes) ms rest read)
