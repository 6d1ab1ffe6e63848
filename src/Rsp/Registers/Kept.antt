-- ===== src/Rsp/Registers/Kept.antt =====
-- The registers of the RSP and of the RDP keep the place of the RSP and the two copies of its data
-- memory.
use emulador_n64emu.Base.{
  ℕ, ◌==◌, if◌then◌else◌, inl, inr, refl, Bool, Bool-cases, true, false, Option, none, some,
  has_bit,
}
use emulador_n64emu.Sp.{Sp, World, reg_of, pull_mem_from_bus, status_flags, apply_status_write}
use emulador_n64emu.Sp.Dma
use emulador_n64emu.Sp.Dma.{SpDmaLen, Progress, finish_dma, completed, do_dma}
use emulador_n64emu.Rdp.Raster.{Raster}
use emulador_n64emu.Rsp.{Rsp, set_halted, set_broke, set_intr_on_break}
use emulador_n64emu.Rsp.Execute.{step}
use emulador_n64emu.Rsp.Placed.{IsAt}
use emulador_n64emu.Rsp.Placed.Store.{IsPlaced}
use emulador_n64emu.Rsp.Placed.Step.{RspLaws, step-IsPlaced}
use emulador_n64emu.Rsp.Registers.{
  Devices, Connected, world, settle, sp_written, dp_written, registers,
}

IsAt-if : (d : ℕ → ℕ) (b : Bool) (r s : Rsp) → IsAt d r → IsAt d s → IsAt d (if b then r else s)
IsAt-if d true r s h k = h
IsAt-if d false r s h k = k

-- The flags are none of what the place is about.
flagged-IsAt :
    (d : ℕ → ℕ) (halted broke intr : Bool) (r : Rsp)
    → IsAt d r
    → IsAt d (record r { halted = halted; broke = broke; intr_on_break = intr })
flagged-IsAt d halted broke intr r h = record {
  same_dmem = h.same_dmem;
  pc_fits = h.pc_fits;
  next_fits = h.next_fits;
  zero_register = h.zero_register;
}

status_flags-IsAt : (d : ℕ → ℕ) (value : ℕ) (r : Rsp) → IsAt d r → IsAt d (status_flags value r)
unfolding status_flags set_halted set_broke set_intr_on_break
status_flags-IsAt d value r h =
    let f = λ (r : Rsp) (k : IsAt d r) (a b c : Bool). flagged-IsAt d a b c r k in
    let started = IsAt-if d (has_bit 0 value) _ r (f r h _ _ _) h in
    let halted = IsAt-if d (has_bit 1 value) _ _ (f _ started _ _ _) started in
    let unbroken = IsAt-if d (has_bit 2 value) _ _ (f _ halted _ _ _) halted in
    let quiet = IsAt-if d (has_bit 7 value) _ _ (f _ unbroken _ _ _) unbroken in
    IsAt-if d (has_bit 8 value) _ _ (f _ quiet _ _ _) quiet

-- A machine that takes over the result of a write is at its place.
abbrev Kept : Option (Sp × World) → Type 0
Kept r = (d : Devices) (m : Connected) → IsPlaced m → IsPlaced (settle d m r)

settled : (s : Sp) (w : World) → IsAt w.sp_dmem w.rsp → Kept (some (s, w))
unfolding settle
settled s w h d m k = record { placed = h }

Kept-if : (b : Bool) (r q : Option (Sp × World)) → Kept r → Kept q → Kept (if b then r else q)
Kept-if true r q h k = h
Kept-if false r q h k = k

-- The last lines of a DMA take the copies of either memory over together.
completed-Kept :
    (is_imem : Bool) (l : SpDmaLen) (s : Sp) (w : World) (p : Option Progress)
    → IsAt w.sp_dmem w.rsp
    → Kept (completed is_imem l s w p)
unfolding settle finish_dma
completed-Kept is_imem l s w none h d m k = record { placed = k.placed }
completed-Kept true l s w (some p) h d m k = record {
  placed = record {
    same_dmem = h.same_dmem;
    pc_fits = h.pc_fits;
    next_fits = h.next_fits;
    zero_register = h.zero_register;
  };
}
completed-Kept false l s w (some p) h d m k = record {
  placed = record {
    same_dmem = refl;
    pc_fits = h.pc_fits;
    next_fits = h.next_fits;
    zero_register = h.zero_register;
  };
}

do_dma-Kept :
    (to_sp : Bool) (len_reg : ℕ) (s : Sp) (w : World)
    → IsAt w.sp_dmem w.rsp
    → Kept (do_dma to_sp len_reg s w)
unfolding do_dma
do_dma-Kept to_sp len_reg s w h = completed-Kept _ _ s w _ h

apply_status_write-Kept :
    (value : ℕ) (s : Sp) (w : World)
    → IsAt w.sp_dmem w.rsp
    → Kept (some (apply_status_write value s w))
unfolding settle apply_status_write pull_mem_from_bus
apply_status_write-Kept value s w h d m k = elim (Bool-cases (has_bit 0 value)) [
  | inl e ↦ rw e (record {
    placed = status_flags-IsAt w.sp_dmem value _ (record {
      same_dmem = refl;
      pc_fits = h.pc_fits;
      next_fits = h.next_fits;
      zero_register = h.zero_register;
    });
  })
  | inr e ↦ rw e (record { placed = status_flags-IsAt w.sp_dmem value w.rsp h })
]

write-Kept :
    (offset value : ℕ) (s : Sp) (w : World)
    → IsAt w.sp_dmem w.rsp
    → Kept (Dma.write offset value s w)
unfolding Dma.write
write-Kept offset value s w h =
    let same = λ (s : Sp). settled s w h in
    Kept-if (reg_of offset == 0x00) _ _ (same _) (
      Kept-if (reg_of offset == 0x04) _ _ (same _) (
        Kept-if (reg_of offset == 0x08) _ _ (do_dma-Kept true value s w h) (
          Kept-if (reg_of offset == 0x0c) _ _ (do_dma-Kept false value s w h) (
            Kept-if (reg_of offset == 0x10) _ _ (apply_status_write-Kept value s w h)
              (Kept-if (reg_of offset == 0x1c) _ _ (same _) (same s))))))

sp_written-IsPlaced :
    (offset value : ℕ) (m : Connected) (b : Option Devices)
    → IsPlaced m
    → IsPlaced (sp_written offset value m b)
unfolding world
sp_written-IsPlaced offset value m none h = h
sp_written-IsPlaced offset value m (some d) h =
    write-Kept offset value d.sp (world d m) h.placed d m h

module _ (list_read : (ℕ → ℕ) → ℕ → Raster → ℕ) where
  dp_written-IsPlaced :
      (offset value : ℕ) (m : Connected) (b : Option Devices)
      → IsPlaced m
      → IsPlaced (dp_written list_read offset value m b)
  dp_written-IsPlaced offset value m none h = h
  dp_written-IsPlaced offset value m (some d) h = record { placed = h.placed }

  registers_laws : RspLaws (registers list_read)
  registers_laws = record {
    sp_write_keeps = λ offset value m h. sp_written-IsPlaced offset value m m.bus h;
    dp_write_keeps = λ offset value m h. dp_written-IsPlaced offset value m m.bus h;
  }

  -- Every step of the RSP with its registers, the RDP, RDRAM and the block cache behind it, also one
  -- that starts a DMA or the RDP by MTC0, keeps its two program counters aligned and inside of the
  -- instruction memory, register 0 at 0, and the bus's copy of the data memory equal to the RSP's.
  pub step_registers-IsPlaced :
      (m : Connected) → IsPlaced m → IsPlaced (step (registers list_read) m)
  step_registers-IsPlaced m h = step-IsPlaced (registers list_read) registers_laws m h
