-- ===== src/Rsp.antt =====
-- src/rcp/rsp/rsp.cpp, include/n64/rcp/rsp/rsp.hpp: the state of the RSP, its flags and its program
-- counter.
pub mod Lane
pub mod Divide
pub mod Vector
pub mod Machine
pub mod VectorMemory
pub mod Scalar
pub mod Execute
pub mod Placed
pub mod Registers
mod Tests
use emulador_n64emu.Base.{
  ℕ, ◌+◌, ◌*◌, ◌/◌, ◌%◌, ◌^◌, ◌==◌, if◌then◌else◌, Bool, true, false, update,
}

-- The state of the vector unit. `vpr` holds lane `l` of register `i` at `i` and `l`, the accumulators
-- and the registers of the division are two's complement words, of 48 and of 32 bits.
pub record VectorUnit : Type 0 where
  pub vpr : ℕ → ℕ → ℕ
  pub accumulator : ℕ → ℕ
  pub vco : ℕ
  pub vcc : ℕ
  pub vce : ℕ
  pub div_in : ℕ
  pub div_out : ℕ
  pub div_high_pending : Bool

pub record Rsp : Type 0 where
  pub dmem : ℕ → ℕ
  pub imem : ℕ → ℕ
  pub gpr : ℕ → ℕ
  pub vu : VectorUnit
  pub pc : ℕ
  pub next_pc : ℕ
  pub branch_pending : Bool
  pub in_delay_slot : Bool
  pub halted : Bool
  pub broke : Bool
  pub intr_on_break : Bool
  pub cycles : ℕ
  pub retired : ℕ

abbrev pub no_vectors : VectorUnit
no_vectors = record {
  vpr = λ i l. 0;
  accumulator = λ l. 0;
  vco = 0;
  vcc = 0;
  vce = 0;
  div_in = 0;
  div_out = 0;
  div_high_pending = false;
}

abbrev pub at_reset : Rsp
at_reset = record {
  dmem = λ a. 0;
  imem = λ a. 0;
  gpr = λ i. 0;
  vu = no_vectors;
  pc = 0;
  next_pc = 4;
  branch_pending = false;
  in_delay_slot = false;
  halted = true;
  broke = false;
  intr_on_break = false;
  cycles = 0;
  retired = 0;
}

unfoldable pub reset : Rsp → Rsp
reset r = at_reset

-- `x & kImemMask`
abbrev pub imem_addr : ℕ → ℕ
imem_addr x = x % 2 ^ 12 / 4 * 4

unfoldable pub set_halted : Bool → Rsp → Rsp
set_halted h r = record r { halted = h; broke = if h then r.broke else false }

unfoldable pub set_broke : Bool → Rsp → Rsp
set_broke b r = record r { broke = b }

unfoldable pub set_intr_on_break : Bool → Rsp → Rsp
set_intr_on_break v r = record r { intr_on_break = v }

unfoldable pub set_pc : ℕ → Rsp → Rsp
set_pc pc r = record r {
  pc = imem_addr pc;
  next_pc = imem_addr (imem_addr pc + 4);
  branch_pending = false;
}

unfoldable pub write_gpr : ℕ → ℕ → Rsp → Rsp
write_gpr i v r = if i == 0 then r else record r { gpr = update r.gpr i v }

unfoldable pub branch_abs : ℕ → Rsp → Rsp
branch_abs target r = record r { next_pc = imem_addr target; branch_pending = true }

-- The offset is the signed immediate as a 32-bit word.
unfoldable pub branch_rel : ℕ → Rsp → Rsp
branch_rel offset r = record r {
  next_pc = imem_addr (((r.pc + 4) % 2 ^ 32 + offset * 4 % 2 ^ 32) % 2 ^ 32);
  branch_pending = true;
}

unfoldable pub link : ℕ → Rsp → Rsp
link i r = write_gpr i (imem_addr (r.pc + 8)) r

-- `load_word` on either memory: the four bytes from `a` on, of which the last may be those at its
-- start.
abbrev pub word_at : (ℕ → ℕ) → ℕ → ℕ
word_at mem a =
    mem (a % 2 ^ 12) * 2 ^ 24
    + mem ((a + 1) % 2 ^ 12) * 2 ^ 16
    + mem ((a + 2) % 2 ^ 12) * 2 ^ 8
    + mem ((a + 3) % 2 ^ 12)

unfoldable pub fetch : ℕ → Rsp → ℕ
fetch pc r = word_at r.imem (imem_addr pc)

unfoldable pub load_byte : ℕ → Rsp → ℕ
load_byte addr r = r.dmem (addr % 2 ^ 12)

unfoldable pub load_half : ℕ → Rsp → ℕ
load_half addr r = r.dmem (addr % 2 ^ 12) * 2 ^ 8 + r.dmem ((addr % 2 ^ 12 + 1) % 2 ^ 12)

unfoldable pub load_word : ℕ → Rsp → ℕ
load_word addr r = word_at r.dmem (addr % 2 ^ 12)
