-- ===== src/Scheduler/Order.antt =====
-- The queue stays in order: every operation keeps the invariant, and what scheduling and
-- cancelling do to it.
use emulador_n64emu.Base.{
  ℕ, ◌+◌, ◌%◌, ◌^◌, ◌≤◌, ◌<◌, ◌≡◌, inl, inr, refl, arith, Bool-cases, true, false, List, [], ◌∷◌,
  length,
}
use emulador_n64emu.Scheduler.{
  EventKind, ScheduledEvent, Entry, Scheduler, greater, push, reset, schedule_at, keep_loop,
}

-- No entry of the list comes before `e`, or after it.
abbrev pub NoneBefore : Entry → List Entry → Type 0
NoneBefore e [] = Unit {0}
NoneBefore e (f ∷ q) = (greater e f ≡ false) × NoneBefore e q

abbrev pub IsSorted : List Entry → Type 0
IsSorted [] = Unit {0}
IsSorted (e ∷ q) = NoneBefore e q × IsSorted q

-- No entry is cancelled and every token was handed out.
abbrev pub IsLive : ℕ → List Entry → Type 0
IsLive next [] = Unit {0}
IsLive next (e ∷ q) = (e.cancelled ≡ false) × (e.ev.token < next) × IsLive next q

pub record IsValid (s : Scheduler) : Type 0 where
  pub sorted : IsSorted s.queue
  pub live : IsLive s.next_token s.queue

greater_trans : (e f g : Entry) → greater e f ≡ false → greater f g ≡ false → greater e g ≡ false
greater_trans e f g p q = ground arith

greater-asym : (e f : Entry) → greater f e ≡ true → greater e f ≡ false
greater-asym e f p = ground arith

NoneBefore-trans :
    (e f : Entry) (q : List Entry) → greater e f ≡ false → NoneBefore f q → NoneBefore e q
NoneBefore-trans e f [] p h = tt
NoneBefore-trans e f (g ∷ q) p (h, hs) = (greater_trans e f g p h, NoneBefore-trans e f q p hs)

push-NoneBefore :
    (e f : Entry) (q : List Entry) → greater f e ≡ false → NoneBefore f q → NoneBefore f (push e q)
unfolding push
push-NoneBefore e f [] p h = (p, tt)
push-NoneBefore e f (g ∷ q) p (h, hs) = elim (Bool-cases (greater g e)) [
  | inl first ↦ rw first (p, (h, hs))
  | inr later ↦ rw later (h, push-NoneBefore e f q p hs)
]

push-IsSorted : (e : Entry) (q : List Entry) → IsSorted q → IsSorted (push e q)
unfolding push
push-IsSorted e [] h = (tt, tt)
push-IsSorted e (f ∷ q) (h, hs) = elim (Bool-cases (greater f e)) [
  | inl first ↦
      rw first
        ((greater-asym e f first, NoneBefore-trans e f q (greater-asym e f first) h), (h, hs))
  | inr later ↦ rw later (push-NoneBefore e f q later h, push-IsSorted e q hs)
]

IsLive-mono : (m n : ℕ) (q : List Entry) → m ≤ n → IsLive m q → IsLive n q
IsLive-mono m n [] le h = tt
IsLive-mono m n (e ∷ q) le (c, t, h) = (c, omega arith, IsLive-mono m n q le h)

push-IsLive :
    (n : ℕ) (e : Entry) (q : List Entry)
    → e.cancelled ≡ false
    → e.ev.token < n
    → IsLive n q
    → IsLive n (push e q)
unfolding push
push-IsLive n e [] c t h = (c, t, tt)
push-IsLive n e (f ∷ q) c t (cf, tf, h) = elim (Bool-cases (greater f e)) [
  | inl first ↦ rw first (c, t, (cf, tf, h))
  | inr later ↦ rw later (cf, tf, push-IsLive n e q c t h)
]

reset-IsValid : (s : Scheduler) → IsValid (reset s)
unfolding reset
reset-IsValid s = record { sorted = tt; live = tt }

no_token : (n : ℕ) (q : List Entry) → IsLive n q → (keep_loop n q).0 ≡ false
unfolding keep_loop
no_token n [] h = refl
no_token n (e ∷ q) (c, t, h) = ground (arith, no_token n q h)

length-push : (e : Entry) (q : List Entry) → length (push e q) ≡ length q + 1
unfolding push
length-push e [] = refl
length-push e (f ∷ q) = ground (arith, length-push e q)

-- Scheduling keeps the queue in order and hands out a token that no pending event has, as long as
-- the token counter does not wrap.
pub schedule_at-IsValid :
    (when : ℕ) (kind : EventKind) (s : Scheduler)
    → IsValid s
    → s.next_token + 1 < 2 ^ 64
    → let (token, s') = schedule_at when kind s in
      IsValid s'
      × (token < s'.next_token)
      × ((keep_loop token s.queue).0 ≡ false)
      × (length s'.queue ≡ length s.queue + 1)
unfolding schedule_at
schedule_at-IsValid when kind s v h =
    let next : (s.next_token + 1) % 2 ^ 64 ≡ s.next_token + 1 = omega arith in
    let ev : ScheduledEvent = record { when = when; kind = kind; token = s.next_token } in
    let e : Entry = record { ev = ev; cancelled = false } in
    rw next (
      record {
        sorted = push-IsSorted e s.queue v.sorted;
        live =
            push-IsLive (s.next_token + 1) e s.queue refl (omega arith)
              (IsLive-mono s.next_token (s.next_token + 1) s.queue (omega arith) v.live);
      },
      omega arith,
      no_token s.next_token s.queue v.live,
      length-push e s.queue,
    )
