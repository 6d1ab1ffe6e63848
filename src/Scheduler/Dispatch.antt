-- ===== src/Scheduler/Dispatch.antt =====
-- What `dispatch_due` fires.
use emulador_n64emu.Base.{
  ℕ, ◌+◌, ◌≤◌, ◌<◌, ltb, ◌≡◌, inl, inr, refl, ap, ◌∙◌, subst, arith, Bool-cases, List, [], ◌∷◌,
  ◌++◌, length, ltb→lt, if_true, if_false,
}
use emulador_n64emu.Scheduler.{ScheduledEvent, Entry, Scheduler, dispatch_loop, dispatch_due}
use emulador_n64emu.Scheduler.Order.{IsValid, IsSorted, IsLive, NoneBefore}

-- Every event of the list is due at `now`, or none is.
abbrev pub AllDue : ℕ → List Entry → Type 0
AllDue now [] = Unit {0}
AllDue now (e ∷ q) = (e.ev.when ≤ now) × AllDue now q

abbrev pub NoneDue : ℕ → List Entry → Type 0
NoneDue now [] = Unit {0}
NoneDue now (e ∷ q) = (now < e.ev.when) × NoneDue now q

all_later :
    (now : ℕ) (e : Entry) (q : List Entry) → now < e.ev.when → NoneBefore e q → NoneDue now q
all_later now e [] lt h = tt
all_later now e (f ∷ q) lt (h, hs) = (ground arith, all_later now e q lt hs)

suffix-IsLive : (n : ℕ) (p q : List Entry) → IsLive n (p ++ q) → IsLive n q
suffix-IsLive n [] q h = h
suffix-IsLive n (e ∷ p) q (c, t, h) = suffix-IsLive n p q h

prefix-NoneBefore : (e : Entry) (p q : List Entry) → NoneBefore e (p ++ q) → NoneBefore e p
prefix-NoneBefore e [] q h = tt
prefix-NoneBefore e (f ∷ p) q (h, hs) = (h, prefix-NoneBefore e p q hs)

prefix-IsSorted : (p q : List Entry) → IsSorted (p ++ q) → IsSorted p
prefix-IsSorted [] q h = tt
prefix-IsSorted (e ∷ p) q (h, hs) = (prefix-NoneBefore e p q h, prefix-IsSorted p q hs)

module _ {ℓ} {S : Type ℓ} (handler : ScheduledEvent → S → S) where
  -- The handler called for each event of a list, the first one first.
  pub handle_all : List Entry → S → S
  handle_all [] st = st
  handle_all (e ∷ q) st = handle_all q (handler e.ev st)

  -- The queue is split into the events that fire, the earliest first, and those that stay.
  pub record Dispatched (now fired : ℕ) (q : List Entry) (st : S) (result : ℕ × List Entry × S)
      : Type ℓ where
    pub due : List Entry
    pub rest : List Entry
    pub split : q ≡ due ++ rest
    pub all_due : AllDue now due
    pub none_due : NoneDue now rest
    pub sorted : IsSorted rest
    pub returns : result ≡ (fired + length due, rest, handle_all due st)

  dispatch_loop-Dispatched :
      (now fired next : ℕ) (q : List Entry) (st : S)
      → IsSorted q
      → IsLive next q
      → Dispatched now fired q st (dispatch_loop handler now fired q st)
  unfolding dispatch_loop handle_all
  dispatch_loop-Dispatched now fired next [] st h live = record {
    due = [];
    rest = [];
    split = refl;
    all_due = tt;
    none_due = tt;
    sorted = tt;
    returns = ap (λ n. (n, [], st)) (omega arith);
  }
  dispatch_loop-Dispatched now fired next (e ∷ q) st (h, hs) (c, t, live) =
      elim (Bool-cases (ltb now e.ev.when)) [
        | inl later ↦ record {
          due = [];
          rest = e ∷ q;
          split = refl;
          all_due = tt;
          none_due = (ltb→lt _ _ later, all_later now e q (ltb→lt _ _ later) h);
          sorted = (h, hs);
          returns = if_true _ _ later ∙ ap (λ n. (n, e ∷ q, st)) (omega arith);
        }
        | inr is_due ↦
            (let d = dispatch_loop-Dispatched now (fired + 1) next q (handler e.ev st) hs live in
              record {
                due = e ∷ d.due;
                rest = d.rest;
                split = ap (λ l. e ∷ l) d.split;
                all_due = (ground arith, d.all_due);
                none_due = d.none_due;
                sorted = d.sorted;
                returns =
                    if_false _ _ is_due
                    ∙ if_false _ _ c
                    ∙ d.returns
                    ∙ ap (λ n. (n, d.rest, handle_all d.due (handler e.ev st))) (omega arith);
              })
      ]

  -- On a queue in order `dispatch_due` fires every pending event that is due and no other, in the order of their
  -- times and, at one time, of their tokens; the handler sees them in that order. It answers how
  -- many it fired, and the events that stay are valid again.
  pub dispatch_due_lem :
      (s : Scheduler) (st : S)
      → IsValid s
      → (due : List Entry) × (rest : List Entry) × (s.queue ≡ due ++ rest)
        × AllDue s.now due
        × NoneDue s.now rest
        × IsSorted due
        × IsValid (record s { queue = rest })
        × (dispatch_due handler s st ≡ (length due, record s { queue = rest }, handle_all due st))
  unfolding dispatch_due
  dispatch_due_lem s st v =
      let d = dispatch_loop-Dispatched s.now 0 s.next_token s.queue st v.sorted v.live in
      (
        d.due,
        d.rest,
        d.split,
        d.all_due,
        d.none_due,
        prefix-IsSorted d.due d.rest (subst IsSorted d.split v.sorted),
        record {
          sorted = d.sorted;
          live =
              suffix-IsLive s.next_token d.due d.rest (subst (IsLive s.next_token) d.split v.live);
        },
        ap (λ r. (r.0, record s { queue = r.1 }, r.2)) d.returns
            ∙ ap (λ n. (n, record s { queue = d.rest }, handle_all d.due st)) (omega arith),
      )
