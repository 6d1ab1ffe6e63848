-- ===== src/Rsp/Execute/Ending.antt =====
-- `run` makes as many steps as it is asked for, and fewer only if the RSP has halted.
use emulador_n64emu.Base.{
  ℕ, zero, suc, ◌+◌, ◌≤◌, ◌<◌, ◌≡◌, inl, inr, sym, subst, arith, Bool-cases, true, if_true,
  if_false,
}
use emulador_n64emu.Rsp.Machine.{RspMachine, RspInterface}
use emulador_n64emu.Rsp.Execute.{step, run_loop, run}

module _ {B : Type 0} (io : RspInterface B) where
  abbrev Ran : ℕ → ℕ × RspMachine B → Type 0
  Ran most (n, m) = (n ≤ most) × (n < most → m.rsp.halted ≡ true)

  run_loop-Ran : (left n : ℕ) (m : RspMachine B) → Ran (n + left) (run_loop io left n m)
  unfolding run_loop
  run_loop-Ran zero n m = (omega arith, λ less. absurd (omega arith))
  run_loop-Ran (suc left) n m =
      let (bound, halted) = run_loop-Ran left (n + 1) (step io m) in
      elim (Bool-cases m.rsp.halted) [
        | inl e ↦ subst (Ran (n + suc left)) (sym (if_true _ _ e)) (omega arith, λ less. e)
        | inr e ↦
            subst (Ran (n + suc left)) (sym (if_false _ _ e))
              (omega (arith, bound), λ less. halted (omega (arith, less)))
      ]

  pub run-Ran : (max_steps : ℕ) (m : RspMachine B) → Ran max_steps (run io max_steps m)
  unfolding run
  run-Ran max_steps m =
      let e : 0 + max_steps ≡ max_steps = omega arith in
      subst (λ k. Ran k (run_loop io max_steps 0 m)) e (run_loop-Ran max_steps 0 m)
