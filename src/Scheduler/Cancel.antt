-- ===== src/Scheduler/Cancel.antt =====
-- Cancelling: the queue is emptied and filled again, less one token.
use emulador_n64emu.Base.{
  ℕ, if◌then◌else◌, ◌≡◌, inl, inr, refl, sym, ap, ◌∙◌, subst, arith, Bool, Bool-cases, true, false,
  ◌||◌, List, [], ◌∷◌, ◌++◌, if_true, if_false,
}
use emulador_n64emu.Scheduler.{
  Entry, Scheduler, greater, push, has_token, keep_loop, push_all, is_empty, cancel,
}
use emulador_n64emu.Scheduler.Order.{IsValid, IsSorted, IsLive, NoneBefore}

-- Some pending event has the token.
pub holds : ℕ → List Entry → Bool
holds token [] = false
holds token (e ∷ q) = has_token token e || holds token q

-- The other pending events, in their order.
pub without : ℕ → List Entry → List Entry
without token [] = []
without token (e ∷ q) = let rest = without token q in if has_token token e then rest else e ∷ rest

keep_loop_lem : (token : ℕ) (q : List Entry) → keep_loop token q ≡ (holds token q, without token q)
unfolding keep_loop holds without
keep_loop_lem token [] = refl
keep_loop_lem token (e ∷ q) = elim (Bool-cases (has_token token e)) [
  | inl this ↦ ground (arith, keep_loop_lem token q)
  | inr other ↦ ground (arith, keep_loop_lem token q)
]

without-NoneBefore :
    (token : ℕ) (e : Entry) (q : List Entry) → NoneBefore e q → NoneBefore e (without token q)
unfolding without
without-NoneBefore token e [] h = tt
without-NoneBefore token e (f ∷ q) (h, hs) = elim (Bool-cases (has_token token f)) [
  | inl this ↦ rw this (without-NoneBefore token e q hs)
  | inr other ↦ rw other (h, without-NoneBefore token e q hs)
]

without-IsSorted : (token : ℕ) (q : List Entry) → IsSorted q → IsSorted (without token q)
unfolding without
without-IsSorted token [] h = tt
without-IsSorted token (f ∷ q) (h, hs) = elim (Bool-cases (has_token token f)) [
  | inl this ↦ rw this (without-IsSorted token q hs)
  | inr other ↦ rw other (without-NoneBefore token f q h, without-IsSorted token q hs)
]

without-IsLive : (token n : ℕ) (q : List Entry) → IsLive n q → IsLive n (without token q)
unfolding without
without-IsLive token n [] h = tt
without-IsLive token n (f ∷ q) (c, t, hs) = elim (Bool-cases (has_token token f)) [
  | inl this ↦ rw this (without-IsLive token n q hs)
  | inr other ↦ rw other (c, t, without-IsLive token n q hs)
]

holds-without : (token : ℕ) (q : List Entry) → holds token (without token q) ≡ false
unfolding without holds
holds-without token [] = refl
holds-without token (f ∷ q) = elim (Bool-cases (has_token token f)) [
  | inl this ↦ rw this (holds-without token q)
  | inr other ↦ rw (other, other) (holds-without token q)
]

not_before : (f e : Entry) (p q : List Entry) → NoneBefore f (p ++ e ∷ q) → greater f e ≡ false
not_before f e [] q (h, hs) = h
not_before f e (g ∷ p) q (h, hs) = not_before f e p q hs

-- An entry that belongs at the end is pushed there.
push-last : (e : Entry) (p q : List Entry) → IsSorted (p ++ e ∷ q) → push e p ≡ p ++ e ∷ []
unfolding push
push-last e [] q h = refl
push-last e (f ∷ p) q (h, hs) =
    if_false _ _ (not_before f e p q h) ∙ ap (λ l. f ∷ l) (push-last e p q hs)

append_nil : (p : List Entry) → p ++ [] ≡ p
append_nil [] = refl
append_nil (e ∷ p) = ap (λ l. e ∷ l) (append_nil p)

append_assoc : (p q r : List Entry) → (p ++ q) ++ r ≡ p ++ (q ++ r)
append_assoc [] q r = refl
append_assoc (e ∷ p) q r = ap (λ l. e ∷ l) (append_assoc p q r)

push_all-sorted : (kept p : List Entry) → IsSorted (p ++ kept) → push_all kept p ≡ p ++ kept
unfolding push_all
push_all-sorted [] p h = sym (append_nil p)
push_all-sorted (e ∷ kept) p h =
    ap (push_all kept) (push-last e p kept h)
    ∙ push_all-sorted kept (p ++ e ∷ []) (subst IsSorted (sym (append_assoc p (e ∷ []) kept)) h)
    ∙ append_assoc p (e ∷ []) kept

empty_lem :
    (token : ℕ) (q : List Entry)
    → is_empty q ≡ true
    → (holds token q ≡ false) × (without token q ≡ q)
unfolding holds without
empty_lem token [] h = (refl, refl)
empty_lem token (e ∷ q) h = cc

nothing_held :
    (token : ℕ) (q : List Entry)
    → holds token q ≡ false
    → without token q ≡ q
    → ◌≡◌ {A = Bool × List Entry} (holds token q, without token q) (false, q)
nothing_held token q h w = rw (h, w) refl

cancelled-queue :
    (token : ℕ) (s : Scheduler)
    → IsSorted s.queue
    → cancel token s ≡ (holds token s.queue, record s { queue = without token s.queue })
unfolding cancel
cancelled-queue token s h = elim (Bool-cases (is_empty s.queue)) [
  | inl empty ↦
      (let (nothing, same) = empty_lem token s.queue empty in
        if_true _ _ empty
        ∙ ap (λ r. (r.0, record s { queue = r.1 })) (sym (nothing_held token s.queue nothing same)))
  | inr full ↦
      if_false _ _ full
      ∙ ap (λ r. (r.0, record s { queue = push_all r.1 [] })) (keep_loop_lem token s.queue)
      ∙ ap (λ q. (holds token s.queue, record s { queue = q }))
          (push_all-sorted (without token s.queue) [] (without-IsSorted token s.queue h))
]

-- On a queue in order `cancel` answers whether a pending event has the token. Afterwards none has, the other pending
-- events are there in their order, and the queue is valid again.
pub cancel_lem :
    (token : ℕ) (s : Scheduler)
    → IsValid s
    → let (found, s') = cancel token s in
      IsValid s'
      × (found ≡ holds token s.queue)
      × (s'.queue ≡ without token s.queue)
      × (holds token s'.queue ≡ false)
cancel_lem token s v = rw (cancelled-queue token s v.sorted) (
  record {
    sorted = without-IsSorted token s.queue v.sorted;
    live = without-IsLive token s.next_token s.queue v.live;
  },
  refl,
  refl,
  holds-without token s.queue,
)
