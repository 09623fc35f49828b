-- ===== src/Engine/Drain/Losing.antt =====
-- What the loops of include/pricetime/engine.hpp can lose as they drain their queues.
use pricetime.Common.{
  ◌≡◌, refl, ap, subst, sym, ◌∙◌, List, [], ◌∷◌, ◌++◌, Bool, true, false, append_assoc, append-nil,
  inl, inr, Bool-cases,
}
use pricetime.Engine.Drain.{
  Place, polling, checking, retrying, stopped, Drain, poll_at, poll, push, finish, Drains, start,
  pushes, finishes, polls, Spent, AtMostOne, Empties, Accounts, IsDrained,
}

module _ {A : Type 0} where
  -- Before the flag is set nothing was lost, so a push changes nothing.
  push-once :
      (ls : List A) (done : Bool) (p : Place) (q q' : List A)
      → done ≡ false
      → AtMostOne ls done p q
      → AtMostOne ls done p q'
  push-once [] done p q q' h v = tt
  push-once (a ∷ []) done p q q' h v = absurd (let z = sym v.0 ∙ h in cc)
  push-once (a ∷ b ∷ ls) done p q q' h v = v

  push-ends :
      (done : Bool) (p : Place) (q q' : List A)
      → done ≡ false
      → Empties p done q
      → Empties p done q'
  push-ends done polling q q' h v = tt
  push-ends done checking q q' h v = tt
  push-ends done retrying q q' h v = absurd (let z = sym v ∙ h in cc)
  push-ends done stopped q q' h v = absurd (let z = sym v.0 ∙ h in cc)

  finish-once :
      (ls : List A) (done : Bool) (p : Place) (q : List A)
      → AtMostOne ls done p q
      → AtMostOne ls true p q
  finish-once [] done p q v = tt
  finish-once (a ∷ []) done p q v = (refl, v.1)
  finish-once (a ∷ b ∷ ls) done p q v = v

  finish-ends : (done : Bool) (p : Place) (q : List A) → Empties p done q → Empties p true q
  finish-ends done polling q v = tt
  finish-ends done checking q v = tt
  finish-ends done retrying q v = refl
  finish-ends done stopped q v = (refl, v.1)

  -- A turn of the loop moves on, or loses its first value.
  moved-once :
      (ls : List A) (done : Bool) (p p' : Place) (q q' : List A)
      → (Spent p q → Spent p' q')
      → AtMostOne ls done p q
      → AtMostOne ls done p' q'
  moved-once [] done p p' q q' f v = tt
  moved-once (a ∷ []) done p p' q q' f v = (v.0, f v.1)
  moved-once (a ∷ b ∷ ls) done p p' q q' f v = v

  lost-once :
      (ls : List A) (done : Bool) (a : A) (q : List A)
      → done ≡ true
      → AtMostOne ls done retrying (a ∷ q)
      → AtMostOne (ls ++ a ∷ []) done polling q
  lost-once [] done a q h v = (h, tt)
  lost-once (b ∷ []) done a q h v = absurd (let z = v.1 in cc)
  lost-once (b ∷ c ∷ ls) done a q h v = absurd v

  Accounts-push :
      (ls h q s : List A) (a : A) → Accounts ls h q s → Accounts ls h (q ++ a ∷ []) (s ++ a ∷ [])
  Accounts-push [] h q s a e = ap (λ t. t ++ a ∷ []) e ∙ append_assoc h q (a ∷ [])
  Accounts-push (x ∷ ls) h q s a (xs, ys, one, e, f) = (
    xs,
    ys,
    one,
    e,
    ap (λ t. t ++ a ∷ []) f
        ∙ append_assoc xs (x ∷ (ys ++ q)) (a ∷ [])
        ∙ ap (λ t. xs ++ x ∷ t) (append_assoc ys q (a ∷ [])),
  )

  Accounts-handle :
      (ls h q s : List A) (a : A) → Accounts ls h (a ∷ q) s → Accounts ls (h ++ a ∷ []) q s
  Accounts-handle [] h q s a e = e ∙ sym (append_assoc h (a ∷ []) q)
  Accounts-handle (x ∷ ls) h q s a (xs, ys, one, e, f) = (
    xs,
    ys ++ a ∷ [],
    one,
    ap (λ t. t ++ a ∷ []) e ∙ append_assoc xs ys (a ∷ []),
    f ∙ ap (λ t. xs ++ x ∷ t) (sym (append_assoc ys (a ∷ []) q)),
  )

  Accounts-lose :
      (ls h q s : List A) (a : A) (done : Bool)
      → AtMostOne ls done retrying (a ∷ q)
      → Accounts ls h (a ∷ q) s
      → Accounts (ls ++ a ∷ []) h q s
  Accounts-lose [] h q s a done v e = (h, [], refl, sym (append-nil h), e)
  Accounts-lose (x ∷ []) h q s a done v e = absurd (let z = v.1 in cc)
  Accounts-lose (x ∷ y ∷ ls) h q s a done v e = absurd v

  poll_at-IsDrained :
      (p : Place) (q : List A) (d : Drain A)
      → d.place ≡ p
      → d.queue ≡ q
      → Accounts d.lost d.handled q d.sent
      → AtMostOne d.lost d.done p q
      → Empties p d.done q
      → IsDrained (poll_at p q d)
  unfolding poll_at
  poll_at-IsDrained polling [] d e f n v w = record {
    counted = subst (λ r. Accounts d.lost d.handled r d.sent) (sym f) n;
    once = rw f (moved-once d.lost d.done polling checking [] [] (λ _. refl) v);
    ends = tt;
  }
  poll_at-IsDrained polling (a ∷ q) d e f n v w = record {
    counted = Accounts-handle d.lost d.handled q d.sent a n;
    once = rw e (moved-once d.lost d.done polling polling (a ∷ q) q (λ _. tt) v);
    ends = rw e tt;
  }
  poll_at-IsDrained checking q d e f n v w = elim (Bool-cases d.done) [
    | inl over ↦ record {
      counted = subst (λ r. Accounts d.lost d.handled r d.sent) (sym f) n;
      once = rw (f, over) (moved-once d.lost true checking retrying q q (λ z. z) (rw over at v));
      ends = rw over refl;
    }
    | inr more ↦ record {
      counted = subst (λ r. Accounts d.lost d.handled r d.sent) (sym f) n;
      once = rw (f, more) (moved-once d.lost false checking polling q q (λ _. tt) (rw more at v));
      ends = rw more tt;
    }
  ]
  poll_at-IsDrained retrying [] d e f n v w = record {
    counted = subst (λ r. Accounts d.lost d.handled r d.sent) (sym f) n;
    once = rw f (moved-once d.lost d.done retrying stopped [] [] (λ z. z) v);
    ends = (w, f);
  }
  poll_at-IsDrained retrying (a ∷ q) d e f n v w = record {
    counted = Accounts-lose d.lost d.handled q d.sent a d.done v n;
    once = lost-once d.lost d.done a q w v;
    ends = tt;
  }
  poll_at-IsDrained stopped q d e f n v w = record {
    counted = subst (λ r. Accounts d.lost d.handled r d.sent) (sym f) n;
    once = rw (e, f) v;
    ends = rw (e, f) w;
  }

  Drains-IsDrained : {d : Drain A} → Drains d → IsDrained d
  unfolding push finish poll
  Drains-IsDrained start = record { counted = refl; once = tt; ends = tt }
  Drains-IsDrained (pushes {d} a r more) =
      let v = Drains-IsDrained r in
      record {
        counted = Accounts-push d.lost d.handled d.queue d.sent a v.counted;
        once = push-once d.lost d.done d.place d.queue (d.queue ++ a ∷ []) more v.once;
        ends = push-ends d.done d.place d.queue (d.queue ++ a ∷ []) more v.ends;
      }
  Drains-IsDrained (finishes {d} r) =
      let v = Drains-IsDrained r in
      record {
        counted = v.counted;
        once = finish-once d.lost d.done d.place d.queue v.once;
        ends = finish-ends d.done d.place d.queue v.ends;
      }
  Drains-IsDrained (polls {d} r) =
      let v = Drains-IsDrained r in
      poll_at-IsDrained d.place d.queue d refl refl v.counted v.once v.ends

  -- The flag is set between an empty queue and the second look at it.
  losing :
      (a : A)
      → (d : Drain A) × Drains d × (d.place ≡ stopped) × (d.sent ≡ a ∷ []) × (d.handled ≡ [])
  unfolding poll poll_at push finish
  losing a = (
    _,
    polls (polls (polls (polls (polls (finishes (pushes a (polls start) refl)))))),
    refl,
    refl,
    refl,
  )

  -- In every interleaving with the thread before, of which nothing is pushed behind the flag:
  -- the values pushed are, in their order, those handled and then those in the queue, where at
  -- most one value more, the only one lost, stands among or behind those handled; the loop tries
  -- again only behind the flag and stops only at an empty queue behind it. And for every value
  -- there is an interleaving that pushes it alone and stops without handling it.
  pub Drains-loses :
      {d : Drain A} (a : A)
      → Drains d
      → Accounts d.lost d.handled d.queue d.sent
        × Empties d.place d.done d.queue
        × ((d' : Drain A) × Drains d'
            × (d'.place ≡ stopped)
            × (d'.sent ≡ a ∷ [])
            × (d'.handled ≡ []))
  Drains-loses a r = let v = Drains-IsDrained r in (v.counted, v.ends, losing a)
