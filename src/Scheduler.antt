-- ===== src/Scheduler.antt =====
-- src/core/scheduler.cpp, include/n64/core/scheduler.hpp: the events on the master clock.
pub mod Order
pub mod Dispatch
pub mod Cancel
mod Tests
use emulador_n64emu.Base.{
  ℕ, zero, suc, ◌+◌, ◌-◌, ◌*◌, ◌/◌, ◌%◌, ◌^◌, ◌≤◌, ◌<◌, min, max, bit_and, bit_or, bit_xor, ◌==◌,
  ltb, leb, if◌then◌else◌, ◌≡◌, ◌≢◌, ◌↔◌, ◌⊎◌, inl, inr, refl, sym, ap, ◌∙◌, subst, arith, Bool,
  Bool-cases, true, false, not, ◌&&◌, ◌||◌, Option, Option-cases, none, some, List, [], ◌∷◌, ◌++◌,
  map, length, get_or, set, replicate, ltb→lt, lt→ltb, leb→le, ==_iff, ==-ne, bit, has_bit, set_bit,
  clear_bit, low, ℕ_discrete, dec_lt, dec_le, update, if_true, if_false,
}

pub data EventKind : Type 0 where
  vertical_interrupt horizontal_blank ai_dma_complete pi_dma_complete si_dma_complete : EventKind
  sp_task_done dp_complete count_compare user : EventKind

pub record ScheduledEvent : Type 0 where
  pub when : ℕ
  pub kind : EventKind
  pub token : ℕ

pub record Entry : Type 0 where
  pub ev : ScheduledEvent
  pub cancelled : Bool

-- `queue` is the priority queue, the entry that `top` gives first.
pub record Scheduler : Type 0 where
  pub now : ℕ
  pub next_token : ℕ
  pub queue : List Entry

-- `Entry::operator>`
abbrev pub greater : Entry → Entry → Bool
greater e f =
    if not (e.ev.when == f.ev.when) then ltb f.ev.when e.ev.when else ltb f.ev.token e.ev.token

-- `priority_queue::push`
pub push : Entry → List Entry → List Entry
push e [] = e ∷ []
push e (f ∷ q) = let rest = push e q in if greater f e then e ∷ f ∷ q else f ∷ rest

unfoldable pub reset : Scheduler → Scheduler
reset s = record { now = 0; next_token = 1; queue = [] }

unfoldable advance : ℕ → Scheduler → Scheduler
advance delta s = record s { now = (s.now + delta) % 2 ^ 64 }

pub schedule_at : ℕ → EventKind → Scheduler → ℕ × Scheduler
schedule_at when kind s =
    let ev : ScheduledEvent = record { when = when; kind = kind; token = s.next_token } in
    (
      s.next_token,
      record s {
        next_token = (s.next_token + 1) % 2 ^ 64;
        queue = push (record { ev = ev; cancelled = false }) s.queue;
      },
    )

unfoldable schedule_in : ℕ → EventKind → Scheduler → ℕ × Scheduler
schedule_in delay kind s = schedule_at ((s.now + delay) % 2 ^ 64) kind s

abbrev pub has_token : ℕ → Entry → Bool
has_token token e = (e.ev.token == token) && not e.cancelled

-- The loop that empties the queue: whether the token was found, and the entries kept.
pub keep_loop : ℕ → List Entry → Bool × List Entry
keep_loop token [] = (false, [])
keep_loop token (e ∷ q) =
    let (found, kept) = keep_loop token q in
    if has_token token e then (true, kept) else (found, e ∷ kept)

-- The loop that pushes the kept entries.
pub push_all : List Entry → List Entry → List Entry
push_all [] q = q
push_all (e ∷ kept) q = push_all kept (push e q)

abbrev pub is_empty : List Entry → Bool
is_empty [] = true
is_empty (e ∷ q) = false

pub cancel : ℕ → Scheduler → Bool × Scheduler
cancel token s =
    let (found, kept) = keep_loop token s.queue in
    if is_empty s.queue then (false, s) else (found, record s { queue = push_all kept [] })

-- The handler is a parameter: it changes a state `S` that holds no part of the scheduler.
module _ {ℓ} {S : Type ℓ} (handler : ScheduledEvent → S → S) where
  -- The loop of `dispatch_due` after `fired` events.
  pub dispatch_loop : ℕ → ℕ → List Entry → S → ℕ × List Entry × S
  dispatch_loop now fired [] st = (fired, [], st)
  dispatch_loop now fired (e ∷ q) st =
      let skipped = dispatch_loop now fired q st in
      let handled = dispatch_loop now (fired + 1) q (handler e.ev st) in
      if ltb now e.ev.when then (fired, e ∷ q, st) else if e.cancelled then skipped else handled

  pub dispatch_due : Scheduler → S → ℕ × Scheduler × S
  dispatch_due s st =
      let (fired, q, st') = dispatch_loop s.now 0 s.queue st in (fired, record s { queue = q }, st')

unfoldable pending : Scheduler → ℕ
pending s = length s.queue
