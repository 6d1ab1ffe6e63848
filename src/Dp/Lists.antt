-- ===== src/Dp/Lists.antt =====
-- Which command lists the registers hand to the RDP.
use emulador_n64emu.Base.{
  ℕ, ◌%◌, ◌^◌, ◌<◌, ◌==◌, ltb, ◌≡◌, ◌≢◌, inl, inr, refl, sym, ◌∙◌, subst, arith, Bool, Bool-cases,
  not, ◌&&◌, set, bit, has_bit, set_bit, if_true, if_false,
}
use emulador_n64emu.Base.{bit-set_bit, bit-clear_bit, bit-set_if, bit-clear_if, set_if, clear_if}
use emulador_n64emu.Rdp.{Rdp, RdpInterface, flush, run_command_list}
use emulador_n64emu.Dp.{
  Dp, reset, reg_of, list_addr, raise_dp, status_bits, run_commands, write_end, write_status, write,
}

-- An address of a command list: a double word below 16 MiB.
abbrev pub IsListAddr : ℕ → Type 0
IsListAddr a = (a % 8 ≡ 0) × (a < 2 ^ 24)

-- Between two writes the buffer is ready and nothing is busy.
pub record IsIdle (d : Dp) : Type 0 where
  pub start_fits : IsListAddr d.start
  pub end_fits : IsListAddr d.end
  pub ready : bit 7 d.status ≡ 1
  pub not_busy : (bit 5 d.status ≡ 0) × (bit 6 d.status ≡ 0)

reset-IsIdle : (d : Dp) → IsIdle (reset d)
unfolding reset bit
reset-IsIdle d = record {
  start_fits = (refl, omega arith);
  end_fits = (refl, omega arith);
  ready = refl;
  not_busy = (refl, refl);
}

list_addr-IsListAddr : (value : ℕ) → IsListAddr (list_addr value)
list_addr-IsListAddr value = (omega arith, omega arith)

-- One pair of the status register touches one digit.
pair_keeps :
    (k i : ℕ) (clear set : Bool) (s : ℕ)
    → k ≢ i
    → bit k (set_if set i (clear_if clear i s)) ≡ bit k s
pair_keeps k i clear set s h =
    ground (arith, bit-set_if k set i (clear_if clear i s), bit-clear_if k clear i s)

-- The digits that no pair of the status register names.
status_bits-keeps : (k value status : ℕ) → 2 < k → bit k (status_bits value status) ≡ bit k status
unfolding status_bits
status_bits-keeps k value status h =
    let xbus = set_if (has_bit 1 value) 0 (clear_if (has_bit 0 value) 0 status) in
    let freeze = set_if (has_bit 3 value) 1 (clear_if (has_bit 2 value) 1 xbus) in
    pair_keeps k 2 (has_bit 4 value) (has_bit 5 value) freeze (omega arith)
    ∙ pair_keeps k 1 (has_bit 2 value) (has_bit 3 value) xbus (omega arith)
    ∙ pair_keeps k 0 (has_bit 0 value) (has_bit 1 value) status (omega arith)

module _ {R : Type 0} (io : RdpInterface R) where
  -- What a write does to the RDP: nothing, a flush, or a list from the double word `from` up to
  -- `to`, with the interrupt in both of the last.
  pub data Given (r : Rdp R) : Rdp R → Type 0 where
    nothing : Given r r
    flushed : Given r (raise_dp (flush io r))
    list :
        (from to : ℕ) (xbus_dmem : Bool)
        → IsListAddr from
        → IsListAddr to
        → from < to
        → Given r (raise_dp (run_command_list io from to xbus_dmem r))

  run_commands-IsIdle : (d : Dp) (r : Rdp R) → IsListAddr d.end → IsIdle (run_commands io d r).0
  unfolding run_commands
  run_commands-IsIdle d r e = record {
    start_fits = e;
    end_fits = e;
    ready = bit-set_bit 7 7 _;
    not_busy = (
      bit-set_bit 5 7 _ ∙ bit-clear_bit 5 2 _ ∙ bit-clear_bit 5 8 _ ∙ bit-clear_bit 5 5 _,
      bit-set_bit 6 7 _
          ∙ bit-clear_bit 6 2 _
          ∙ bit-clear_bit 6 8 _
          ∙ bit-clear_bit 6 5 _
          ∙ bit-clear_bit 6 6 _,
    );
  }

  run_commands-Given :
      (d : Dp) (r : Rdp R)
      → IsListAddr d.start
      → IsListAddr d.end
      → d.start < d.end
      → Given r (run_commands io d r).1
  unfolding run_commands
  run_commands-Given d r a b fewer = list d.start d.end _ a b fewer

  -- A state of the registers and what the write to it gave the RDP.
  abbrev pub IsGood : Rdp R → Dp × Rdp R → Type 0
  IsGood r out = IsIdle out.0 × Given r out.1

  write_end-IsGood : (value : ℕ) (d : Dp) (r : Rdp R) → IsIdle d → IsGood r (write_end io value d r)
  unfolding write_end
  write_end-IsGood value d r h =
      let d1 : Dp = record d { end = list_addr value; status = set_bit 9 d.status } in
      let idle : IsIdle d1 = record {
        start_fits = h.start_fits;
        end_fits = list_addr-IsListAddr value;
        ready = bit-set_bit 7 9 d.status ∙ h.ready;
        not_busy =
            (bit-set_bit 5 9 d.status ∙ h.not_busy.0, bit-set_bit 6 9 d.status ∙ h.not_busy.1);
      } in
      let runs = has_bit 10 d1.status && ltb d1.start d1.end && not (has_bit 1 d1.status) in
      elim (Bool-cases runs) [
        | inl go ↦
            (let fewer : d1.start < d1.end = ground (arith, go) in
              subst (IsGood r) (sym (if_true _ _ go)) (
                run_commands-IsIdle d1 r idle.end_fits,
                run_commands-Given d1 r idle.start_fits idle.end_fits fewer,
              ))
        | inr stop ↦ subst (IsGood r) (sym (if_false _ _ stop)) (idle, nothing)
      ]

  write_status-IsGood :
      (value : ℕ) (d : Dp) (r : Rdp R) → IsIdle d → IsGood r (write_status io value d r)
  unfolding write_status
  write_status-IsGood value d r h = (
    record {
      start_fits = h.start_fits;
      end_fits = h.end_fits;
      ready = status_bits-keeps 7 value d.status (omega arith) ∙ h.ready;
      not_busy = (
        status_bits-keeps 5 value d.status (omega arith) ∙ h.not_busy.0,
        status_bits-keeps 6 value d.status (omega arith) ∙ h.not_busy.1,
      );
    },
    elim (Bool-cases (has_bit 5 value)) [
      | inl e ↦ subst (Given r) (sym (if_true _ _ e)) flushed
      | inr e ↦ subst (Given r) (sym (if_false _ _ e)) nothing
    ],
  )

  -- Registers that are idle stay so at every write, which gives the RDP nothing, a flush, or one
  -- command list that is not empty and whose two ends are double words below 16 MiB.
  pub write-IsGood :
      (offset value : ℕ) (d : Dp) (r : Rdp R) → IsIdle d → IsGood r (write io offset value d r)
  unfolding write
  write-IsGood offset value d r h = elim (Bool-cases (reg_of offset == 0x00)) [
    | inl e ↦ rw (write, e) (started, nothing)
    | inr n0 ↦ elim (Bool-cases (reg_of offset == 0x04)) [
      | inl e ↦ rw (write, n0, e) (write_end-IsGood value d r h)
      | inr n4 ↦ elim (Bool-cases (reg_of offset == 0x0c)) [
        | inl e ↦ rw (write, n0, n4, e) (write_status-IsGood value d r h)
        | inr nc ↦ rw (write, n0, n4, nc) (h, nothing)
      ]
    ]
  ]
    where
      started : IsIdle (record d {
        start = list_addr value;
        current = list_addr value;
        status = set_bit 10 d.status;
      })
      started = record {
        start_fits = list_addr-IsListAddr value;
        end_fits = h.end_fits;
        ready = bit-set_bit 7 10 d.status ∙ h.ready;
        not_busy =
            (bit-set_bit 5 10 d.status ∙ h.not_busy.0, bit-set_bit 6 10 d.status ∙ h.not_busy.1);
      }
