-- ===== src/Scheduler/Tests.antt =====
-- The scheduler with one event.
use emulador_n64emu.Base.{ℕ, ◌≡◌, refl, arith, false, List, [], ◌∷◌, ◌++◌, length}
use emulador_n64emu.Scheduler.{
  vertical_interrupt, user, ScheduledEvent, Entry, Scheduler, cancel, dispatch_loop, dispatch_due,
}
use emulador_n64emu.Scheduler.Order.{IsValid, IsSorted}
use emulador_n64emu.Scheduler.Cancel.{holds, without, cancel_lem}
use emulador_n64emu.Scheduler.Dispatch.{AllDue, NoneDue, handle_all, dispatch_due_lem}

-- An event at 10, and one at 30, with the clock at 20.
abbrev early : Entry
early = record { ev = record { when = 10; kind = user; token = 2 }; cancelled = false }

abbrev late : Entry
late = record { ev = record { when = 30; kind = vertical_interrupt; token = 1 }; cancelled = false }

abbrev two_events : Scheduler
two_events = record { now = 20; next_token = 3; queue = early ∷ late ∷ [] }

two_events-IsValid : IsValid two_events
two_events-IsValid = record {
  sorted = ((refl, tt), (tt, tt));
  live = (refl, omega arith, (refl, omega arith, tt));
}

-- A handler that notes the tokens it sees.
abbrev note : ScheduledEvent → List ℕ → List ℕ
note ev seen = ev.token ∷ seen

cancel_example :
    let (found, s') = cancel 1 two_events in
    IsValid s'
    × (found ≡ holds 1 two_events.queue)
    × (s'.queue ≡ without 1 two_events.queue)
    × (holds 1 s'.queue ≡ false)
cancel_example = cancel_lem 1 two_events two_events-IsValid

dispatch_due_example :
    (due : List Entry) × (rest : List Entry) × (two_events.queue ≡ due ++ rest)
    × AllDue two_events.now due
    × NoneDue two_events.now rest
    × IsSorted due
    × IsValid (record two_events { queue = rest })
    × (dispatch_due note two_events []
        ≡ (length due, record two_events { queue = rest }, handle_all note due []))
dispatch_due_example = dispatch_due_lem note two_events [] two_events-IsValid

dispatched : (dispatch_due note two_events []).2 ≡ 2 ∷ []
unfolding dispatch_due dispatch_loop
dispatched = refl
