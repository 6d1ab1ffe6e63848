-- ===== src/Rdp/Commands.antt =====
-- A command list runs to its end.
use emulador_n64emu.Base.{
  ℕ, zero, suc, ◌+◌, ◌-◌, ◌*◌, ◌/◌, ◌%◌, ◌^◌, ◌≤◌, ◌<◌, leb, ◌≡◌, ◌⊎◌, inl, inr, refl, sym, subst,
  arith, Bool, Bool-cases, true, false, dec_lt, if_false,
}
use emulador_n64emu.Rdp.{
  Rdp, RdpInterface, is_pair, read_cmd64, execute_at, goes_on, command_loop, run_command_list,
}

module _ {R : Type 0} (io : RdpInterface R) (stop : ℕ) (xbus_dmem : Bool) where
  -- The commands from `pc` on are executed one by one, until none or only a part of one is left.
  pub data Executes : ℕ → Rdp R → Rdp R → Type 0 where
    ended : {pc : ℕ} {r : Rdp R} → stop ≤ pc → Executes pc r r
    truncated :
        {pc : ℕ} {r : Rdp R}
        → is_pair (read_cmd64 io pc xbus_dmem r) ≡ true
        → stop < pc + 16
        → Executes pc r r
    single :
        {pc : ℕ} {r r' : Rdp R}
        → pc + 8 ≤ stop
        → is_pair (read_cmd64 io pc xbus_dmem r) ≡ false
        → Executes (pc + 8) (io.execute_command (read_cmd64 io pc xbus_dmem r) r) r'
        → Executes pc r r'
    double :
        {pc : ℕ} {r r' : Rdp R}
        → pc + 16 ≤ stop
        → is_pair (read_cmd64 io pc xbus_dmem r) ≡ true
        → Executes
            (pc + 16)
            (io.execute_command_pair
              (read_cmd64 io pc xbus_dmem r)
              (read_cmd64 io (pc + 8) xbus_dmem r)
              r)
            r'
        → Executes pc r r'

  execute_at-pair :
      (pc : ℕ) (r : Rdp R)
      → pc + 16 < 2 ^ 32
      → is_pair (read_cmd64 io pc xbus_dmem r) ≡ true
      → execute_at io pc xbus_dmem r ≡ (
        pc + 16,
        io.execute_command_pair
            (read_cmd64 io pc xbus_dmem r)
            (read_cmd64 io (pc + 8) xbus_dmem r)
            r,
      )
  unfolding execute_at
  execute_at-pair pc r small pair =
      let next : (pc + 16) % 2 ^ 32 ≡ pc + 16 = omega arith in
      let second : (pc + 8) % 2 ^ 32 ≡ pc + 8 = omega arith in
      rw (execute_at, pair, next, second) refl

  execute_at-single :
      (pc : ℕ) (r : Rdp R)
      → pc + 8 < 2 ^ 32
      → is_pair (read_cmd64 io pc xbus_dmem r) ≡ false
      → execute_at io pc xbus_dmem r ≡ (pc + 8, io.execute_command (read_cmd64 io pc xbus_dmem r) r)
  unfolding execute_at
  execute_at-single pc r small plain =
      let next : (pc + 8) % 2 ^ 32 ≡ pc + 8 = omega arith in rw (execute_at, plain, next) refl

  -- Why the loop stops, and what holds where it goes on.
  goes_on-false :
      (pc : ℕ) (r : Rdp R)
      → stop < 2 ^ 31
      → goes_on io pc stop xbus_dmem r ≡ false
      → (stop ≤ pc) ⊎ ((is_pair (read_cmd64 io pc xbus_dmem r) ≡ true) × (stop < pc + 16))
  unfolding goes_on
  goes_on-false pc r small halt = elim (dec_lt pc stop) [
    | yes lt ↦ inr (ground arith, ground arith)
    | no ge ↦ inl (omega arith)
  ]

  goes_on-true :
      (pc : ℕ) (r : Rdp R)
      → stop < 2 ^ 31
      → goes_on io pc stop xbus_dmem r ≡ true
      → (pc < stop) × (is_pair (read_cmd64 io pc xbus_dmem r) ≡ true → pc + 16 ≤ stop)
  unfolding goes_on
  goes_on-true pc r small go = (ground arith, λ pair. ground arith)

  command_loop-Executes :
      (fuel pc : ℕ) (r : Rdp R)
      → pc % 8 ≡ 0
      → stop % 8 ≡ 0
      → stop < 2 ^ 31
      → stop ≤ pc + fuel
      → Executes pc r (command_loop io fuel pc stop xbus_dmem r)
  unfolding command_loop
  command_loop-Executes zero pc r a s small h = ended (omega arith)
  command_loop-Executes (suc fuel) pc r a s small h =
      let after = λ (t : ℕ × Rdp R). Executes pc r (command_loop io fuel t.0 stop xbus_dmem t.1) in
      elim (Bool-cases (goes_on io pc stop xbus_dmem r)) [
        | inl go ↦
            (let (below, whole) = goes_on-true pc r small go in
              elim (Bool-cases (is_pair (read_cmd64 io pc xbus_dmem r))) [
                | inl pair ↦
                    (let fits = whole pair in
                      rw (command_loop, go)
                        (subst after (sym (execute_at-pair pc r (omega arith) pair)) (
                          double fits pair (
                            command_loop-Executes fuel (pc + 16) _ (omega arith) s small
                              (omega arith)))))
                | inr plain ↦
                    rw (command_loop, go)
                      (subst after (sym (execute_at-single pc r (omega arith) plain)) (
                        single (omega arith) plain (
                          command_loop-Executes fuel (pc + 8) _ (omega arith) s small
                            (omega arith))))
              ])
        | inr halt ↦ elim (goes_on-false pc r small halt) [
          | inl past ↦ rw (command_loop, halt) (ended past)
          | inr (pair, part) ↦ rw (command_loop, halt) (truncated pair part)
        ]
      ]

-- A command list that is not empty and ends below 2 GiB is executed command by command from its
-- first double word, until its end or a rectangle that it cuts short, and leaves the RDP idle.
pub run_command_list-Executes :
    {R : Type 0} (io : RdpInterface R) (start end : ℕ) (xbus_dmem : Bool) (r : Rdp R)
    → start < end
    → end < 2 ^ 31
    → (r' : Rdp R) × Executes io
        (end / 8 * 8)
        xbus_dmem
        (start / 8 * 8)
        (record r { busy = true })
        r'
      × (run_command_list io start end xbus_dmem r ≡ record r' { busy = false })
unfolding run_command_list
run_command_list-Executes io start end xbus_dmem r some_left small =
    let pc = start / 8 * 8 in
    let stop = end / 8 * 8 in
    let begun : Rdp _ = record r { busy = true } in
    let ran =
      command_loop-Executes io stop xbus_dmem (stop - pc) pc begun (omega arith) (omega arith)
        (omega arith) (omega arith) in
    let more : leb end start ≡ false = ground arith in
    (command_loop io (stop - pc) pc stop xbus_dmem begun, ran, if_false _ _ more)
