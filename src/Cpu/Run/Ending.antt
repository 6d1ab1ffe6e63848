-- ===== src/Cpu/Run/Ending.antt =====
-- The loop of `run` ends.
use emulador_n64emu.Base.{
  ℕ, zero, suc, ◌+◌, ◌-◌, ◌≤◌, ◌<◌, ltb, ◌≡◌, inl, inr, refl, arith, Bool-cases, true, not, ◌&&◌,
  Option, none, some,
}
use emulador_n64emu.BlockCache.{BasicBlock}
use emulador_n64emu.Cpu.{Cpu}
use emulador_n64emu.Cpu.Machine.{Machine, BusInterface}
use emulador_n64emu.Cpu.Step.Block.{execute_block-le}
use emulador_n64emu.Cpu.Run.{find_block, take_block, round, run_loop, run}

module _ {B : Type 0} (io : BusInterface B) (exec_cop1_format : ℕ → Cpu → Cpu) where
  take_block-le :
      (n taken : ℕ) (found : Option BasicBlock × Machine B)
      → taken < n
      → let after = (take_block io exec_cop1_format n taken found).0 in
        (taken < after) × (after ≤ n)
  unfolding take_block
  take_block-le n taken (none, m) h = (omega arith, omega arith)
  take_block-le n taken (some block, m) h =
      let bound = (execute_block-le io exec_cop1_format block m).0 in
      (ground (arith, bound), ground (arith, bound))

  round-le :
      (n taken : ℕ) (m : Machine B)
      → taken < n
      → let after = (round io exec_cop1_format n taken m).0 in (taken < after) × (after ≤ n)
  unfolding round
  round-le n taken m h =
      let (more, most) = take_block-le n taken (find_block io exec_cop1_format m) h in
      (ground (arith, more), ground (arith, most))

  -- What the loop returns: the cycles taken, at most those asked for, and fewer only if the CPU
  -- has halted.
  abbrev pub Ran : ℕ → Option (ℕ × Machine B) → Type 0
  Ran n out =
      (taken : ℕ) × (m' : Machine B) × (out ≡ some (taken, m'))
      × (taken ≤ n)
      × (taken < n → m'.cpu.halted ≡ true)

  run_loop-Ran :
      (fuel n taken : ℕ) (m : Machine B)
      → taken ≤ n
      → n - taken < fuel
      → Ran n (run_loop io exec_cop1_format fuel n taken m)
  unfolding run_loop
  run_loop-Ran zero n taken m le more = absurd (omega arith)
  run_loop-Ran (suc fuel) n taken m le more = elim (Bool-cases (ltb taken n && not m.cpu.halted)) [
    | inl go ↦
        (let bound = round-le n taken m (ground arith) in
          rw (go, run_loop)
            (run_loop-Ran fuel n (round io exec_cop1_format n taken m).0
              (round io exec_cop1_format n taken m).1 bound.1 (omega (arith, bound.0, bound.1))))
    | inr stop ↦ rw (stop, run_loop) (taken, m, refl, le, λ h. ground arith)
  ]

  -- `run` always ends. It takes as many cycles as it was asked for, and fewer only if the CPU has
  -- halted.
  pub run-Ran : (n : ℕ) (m : Machine B) → Ran n (run io exec_cop1_format n m)
  unfolding run
  run-Ran n m = run_loop-Ran (n + 1) n 0 m (omega arith) (omega arith)
