-- ===== src/Rsp/Placed.antt =====
-- The RSP stays inside of its instruction memory, and the bus's copy of the data memory is the RSP's:
-- what one instruction keeps.
pub mod Store
pub mod Step
use emulador_n64emu.Base.{
  ℕ, ◌-◌, ◌%◌, ◌^◌, ◌<◌, ◌==◌, if◌then◌else◌, ◌≡◌, inl, inr, sym, subst, arith, Bool, Bool-cases,
  true, false, if_true, if_false,
}
use emulador_n64emu.Base.{no_more, ◌▷◌, AllCases, switch-case}
use emulador_n64emu.Cpu.Word.{op, rs, rt, rd, sa, fn, is_negative}
use emulador_n64emu.Rsp.{VectorUnit, Rsp, imem_addr, write_gpr, branch_abs, branch_rel, link}
use emulador_n64emu.Rsp.Vector.Transfer.{with_vectors, exec_cop2}
use emulador_n64emu.Rsp.Scalar.{
  branch_if, exec_special, exec_regimm, exec_immediate, exec_lwl, exec_lwr, exec_load, exec_alone,
}

-- An aligned address of the instruction memory.
abbrev pub IsImemAddr : ℕ → Type 0
IsImemAddr a = (a % 4 ≡ 0) × (a < 2 ^ 12)

pub record IsAt (dmem : ℕ → ℕ) (r : Rsp) : Type 0 where
  pub same_dmem : r.dmem ≡ dmem
  pub pc_fits : IsImemAddr r.pc
  pub next_fits : IsImemAddr r.next_pc
  pub zero_register : r.gpr 0 ≡ 0

pub imem_addr-IsImemAddr : (x : ℕ) → IsImemAddr (imem_addr x)
imem_addr-IsImemAddr x = (omega arith, omega arith)

module _ (d : ℕ → ℕ) where
  pub write_gpr-IsAt : (i v : ℕ) (r : Rsp) → IsAt d r → IsAt d (write_gpr i v r)
  unfolding write_gpr
  write_gpr-IsAt i v r h = elim (Bool-cases (i == 0)) [
    | inl e ↦ subst (IsAt d) (sym (if_true _ _ e)) h
    | inr e ↦ subst (IsAt d) (sym (if_false _ _ e)) (record {
      same_dmem = h.same_dmem;
      pc_fits = h.pc_fits;
      next_fits = h.next_fits;
      zero_register = ground (arith, h.zero_register);
    })
  ]

  branch_abs-IsAt : (t : ℕ) (r : Rsp) → IsAt d r → IsAt d (branch_abs t r)
  unfolding branch_abs
  branch_abs-IsAt t r h = record {
    same_dmem = h.same_dmem;
    pc_fits = h.pc_fits;
    next_fits = imem_addr-IsImemAddr t;
    zero_register = h.zero_register;
  }

  branch_if-IsAt : (taken : Bool) (i : ℕ) (r : Rsp) → IsAt d r → IsAt d (branch_if taken i r)
  unfolding branch_if branch_rel
  branch_if-IsAt true i r h = record {
    same_dmem = h.same_dmem;
    pc_fits = h.pc_fits;
    next_fits = imem_addr-IsImemAddr _;
    zero_register = h.zero_register;
  }
  branch_if-IsAt false i r h = h

  link-IsAt : (i : ℕ) (r : Rsp) → IsAt d r → IsAt d (link i r)
  unfolding link
  link-IsAt i r h = write_gpr-IsAt i _ r h

  pub with_vectors-IsAt : (u : VectorUnit) (r : Rsp) → IsAt d r → IsAt d (with_vectors u r)
  with_vectors-IsAt u r h = record {
    same_dmem = h.same_dmem;
    pc_fits = h.pc_fits;
    next_fits = h.next_fits;
    zero_register = h.zero_register;
  }

  pub IsAt-if : (b : Bool) (r s : Rsp) → IsAt d r → IsAt d s → IsAt d (if b then r else s)
  IsAt-if true r s h k = h
  IsAt-if false r s h k = k

  module _ (i : ℕ) (r : Rsp) (h : IsAt d r) where
    exec_special-IsAt : IsAt d (exec_special i r)
    unfolding exec_special
    exec_special-IsAt =
        let w = λ (v : ℕ). write_gpr-IsAt (rd i) v r h in
        switch-case (IsAt d) _ _ _
          (w _
            ▷ w _
            ▷ w _
            ▷ w _
            ▷ w _
            ▷ w _
            ▷ branch_abs-IsAt _ r h
            ▷ branch_abs-IsAt _ _ (link-IsAt _ r h)
            ▷ w _
            ▷ w _
            ▷ w _
            ▷ w _
            ▷ w _
            ▷ w _
            ▷ w _
            ▷ w _
            ▷ w _
            ▷ w _
            ▷ no_more)
          h

    exec_regimm-IsAt : IsAt d (exec_regimm i r)
    unfolding exec_regimm
    exec_regimm-IsAt =
        let linked = link-IsAt 31 r h in
        switch-case (IsAt d) _ _ _
          (branch_if-IsAt _ i r h
            ▷ branch_if-IsAt _ i r h
            ▷ branch_if-IsAt _ i _ linked
            ▷ branch_if-IsAt _ i _ linked
            ▷ no_more)
          h

    exec_immediate-IsAt : (other : Rsp) → IsAt d other → IsAt d (exec_immediate other i r)
    unfolding exec_immediate
    exec_immediate-IsAt other k =
        let w = λ (v : ℕ). write_gpr-IsAt (rt i) v r h in
        let b = λ (taken : Bool). branch_if-IsAt taken i r h in
        switch-case (IsAt d) _ _ _
          (branch_abs-IsAt _ r h
            ▷ branch_abs-IsAt _ _ (link-IsAt _ r h)
            ▷ b _
            ▷ b _
            ▷ b _
            ▷ b _
            ▷ w _
            ▷ w _
            ▷ w _
            ▷ w _
            ▷ w _
            ▷ w _
            ▷ w _
            ▷ w _
            ▷ no_more)
          k

    exec_load-IsAt : (other : Rsp) → IsAt d other → IsAt d (exec_load other i r)
    unfolding exec_load exec_lwl exec_lwr
    exec_load-IsAt other k =
        let w = λ (v : ℕ). write_gpr-IsAt (rt i) v r h in
        switch-case (IsAt d) _ _ _ (w _ ▷ w _ ▷ w _ ▷ w _ ▷ w _ ▷ w _ ▷ w _ ▷ no_more) k

    exec_cop2-IsAt : IsAt d (exec_cop2 i r)
    unfolding exec_cop2
    exec_cop2-IsAt =
        let w = λ (v : ℕ). write_gpr-IsAt (rt i) v r h in
        let u = λ (v : VectorUnit). with_vectors-IsAt v r h in
        IsAt-if _ _ _ (u _) (switch-case (IsAt d) _ _ _ (w _ ▷ w _ ▷ u _ ▷ u _ ▷ no_more) h)

    pub exec_alone-IsAt : IsAt d (exec_alone i r)
    unfolding exec_alone
    exec_alone-IsAt = IsAt-if _ _ _ exec_special-IsAt (
        IsAt-if _ _ _ exec_regimm-IsAt
          (IsAt-if _ _ _ exec_cop2-IsAt (exec_immediate-IsAt _ (exec_load-IsAt r h))))
