-- ===== src/Engine/Batches.antt =====
-- `send_loop` of include/pricetime/engine.hpp on the responses that it takes off its queue: as many as
-- the buffer holds go out in one call. Whether the socket sends is an argument, which sees what was
-- sent before.
use pricetime.Common.{
  ℕ, zero, suc, ◌+◌, ◌*◌, ◌≤◌, ◌≡◌, refl, ap, sym, ◌∙◌, List, [], ◌∷◌, ◌++◌, append_assoc,
  append-nil, Bool, true, if◌then◌else◌, All, All-append, length, length-append, arith,
}
use pricetime.Wire.{Response, encode_response}

-- The bytes from this response on, with so many places behind it, and the responses left.
unfoldable pub gather : ℕ → Response → List Response → List ℕ × List Response
gather zero resp q = (encode_response resp, q)
gather (suc n) resp [] = (encode_response resp, [])
gather (suc n) resp (r ∷ q) =
    let (bytes, rest) = gather n r q in (encode_response resp ++ bytes, rest)

module _ (sends : List (List ℕ) → List ℕ → Bool) where
  -- Once the socket fails, what the queue holds is dropped.
  unfoldable pub send_rounds : ℕ → List (List ℕ) → List Response → List (List ℕ)
  unfolding gather
  send_rounds zero sent q = sent
  send_rounds (suc n) sent [] = sent
  send_rounds (suc n) sent (r ∷ q) =
      let (bytes, rest) = gather 255 r q in
      send_rounds n (sent ++ bytes ∷ []) (if sends sent bytes then rest else [])

-- Every round takes a response.
unfoldable pub send_loop : (List (List ℕ) → List ℕ → Bool) → List Response → List (List ℕ)
unfolding send_rounds
send_loop sends q = send_rounds sends (length q) [] q

abbrev pub concat : List (List ℕ) → List ℕ
concat [] = []
concat (b ∷ bs) = b ++ concat bs

abbrev pub encoded : List Response → List ℕ
encoded [] = []
encoded (r ∷ q) = encode_response r ++ encoded q

record IsGathered (n : ℕ) (r : Response) (q : List Response) : Type 0 where
  whole : (gather n r q).0 ++ encoded (gather n r q).1 ≡ encode_response r ++ encoded q
  shorter : length (gather n r q).1 ≤ length q
  bound : length (gather n r q).0 ≤ 40 * (n + 1)

length-encode_response : (r : Response) → length (encode_response r) ≡ 40
unfolding encode_response
length-encode_response r = refl

gather-IsGathered : (n : ℕ) (r : Response) (q : List Response) → IsGathered n r q
unfolding gather
gather-IsGathered zero r q = record {
  whole = refl;
  shorter = omega arith;
  bound = omega (arith, length-encode_response r);
}
gather-IsGathered (suc n) r [] = record {
  whole = refl;
  shorter = omega arith;
  bound = omega (arith, length-encode_response r);
}
gather-IsGathered (suc n) r (r' ∷ q) =
    let v = gather-IsGathered n r' q in
    record {
      whole =
          append_assoc (encode_response r) (gather n r' q).0 (encoded (gather n r' q).1)
          ∙ ap (λ bs. encode_response r ++ bs) v.whole;
      shorter = omega (arith, v.shorter);
      bound = omega (
        arith,
        v.bound,
        length-encode_response r,
        length-append (encode_response r) (gather n r' q).0,
      );
    }

concat-append : (bs : List (List ℕ)) (b : List ℕ) → concat (bs ++ b ∷ []) ≡ concat bs ++ b
concat-append [] b = append-nil b
concat-append (a ∷ bs) b =
    ap (λ cs. a ++ cs) (concat-append bs b) ∙ sym (append_assoc a (concat bs) b)

-- What fits the buffer of 256 responses.
abbrev pub FitsBuffer : List ℕ → Type 0
FitsBuffer b = length b ≤ 40 * 256

module _ (sends : List (List ℕ) → List ℕ → Bool)
    (alive : (sent : List (List ℕ)) (b : List ℕ) → sends sent b ≡ true) where
  send_rounds-all :
      (n : ℕ) (sent : List (List ℕ)) (q : List Response)
      → length q ≤ n
      → All FitsBuffer sent
      → (concat (send_rounds sends n sent q) ≡ concat sent ++ encoded q)
        × All FitsBuffer (send_rounds sends n sent q)
  unfolding send_rounds
  send_rounds-all zero sent [] h v = (sym (append-nil (concat sent)), v)
  send_rounds-all zero sent (r ∷ q) h v = absurd (omega arith)
  send_rounds-all (suc n) sent [] h v = (sym (append-nil (concat sent)), v)
  send_rounds-all (suc n) sent (r ∷ q) h v =
      let g = gather-IsGathered 255 r q in
      let (bytes, rest) = gather 255 r q in
      let more = All-append FitsBuffer sent (bytes ∷ []) v (g.bound, tt) in
      let (joined, fits) =
        send_rounds-all n (sent ++ bytes ∷ []) rest (omega (arith, g.shorter)) more in
      let glued =
        joined
        ∙ ap (λ bs. bs ++ encoded rest) (concat-append sent bytes)
        ∙ append_assoc (concat sent) bytes (encoded rest)
        ∙ ap (λ bs. concat sent ++ bs) g.whole in
      rw (alive sent bytes) (glued, fits)

  -- While the socket sends, the send loop hands it the encodings of all responses of the queue,
  -- in order and with nothing between, in batches that fit the buffer of 256 responses.
  pub concat-send_loop :
      (q : List Response)
      → (concat (send_loop sends q) ≡ encoded q) × All FitsBuffer (send_loop sends q)
  unfolding send_loop
  concat-send_loop q = send_rounds-all (length q) [] q (omega arith) tt
