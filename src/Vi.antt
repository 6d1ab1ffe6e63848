-- ===== src/Vi.antt =====
-- src/vi/vi.cpp, include/n64/vi/vi.hpp: the registers of the video interface, the line counter that
-- the clock drives, and its interrupt.
pub mod Frame
pub mod Picture
mod Tests
use emulador_n64emu.Base.{
  ℕ, zero, suc, ◌+◌, ◌-◌, ◌*◌, ◌/◌, ◌%◌, ◌^◌, ◌==◌, ltb, leb, if◌then◌else◌, switch, Bool, true,
  false, not, ◌&&◌, ◌||◌, [], ◌∷◌, update,
}
use emulador_n64emu.Mi
use emulador_n64emu.Mi.{Mi, vi_intr}

-- `regs` holds register `i` at `i`, for `i` below 14.
pub record Vi : Type 0 where
  pub regs : ℕ → ℕ
  pub cycle_accum : ℕ
  pub cycles_per_line : ℕ
  pub lines_per_frame : ℕ
  pub frame_count : ℕ
  pub frame_ready : Bool
  pub interrupt_line : Bool

-- The registers after a reset.
unfoldable pub reset_regs : ℕ → ℕ
reset_regs i =
    switch i
      ((0, 0x3202)
        ∷ (2, 320)
        ∷ (3, 0x002)
        ∷ (5, 0x03e5_2239)
        ∷ (6, 0x20d)
        ∷ (7, 0xc15)
        ∷ (8, 0x0c15_0c15)
        ∷ (9, 0x006c_02ec)
        ∷ (10, 0x0025_01ff)
        ∷ (11, 0x000e_0204)
        ∷ (12, 0x200)
        ∷ (13, 0x400)
        ∷ [])
      0

unfoldable pub reset : Vi → Vi
reset v = record {
  regs = reset_regs;
  cycle_accum = 0;
  cycles_per_line = 5963;
  lines_per_frame = 262;
  frame_count = 0;
  frame_ready = false;
  interrupt_line = false;
}

-- `(offset & 0x3C) / 4`
abbrev pub index_of : ℕ → ℕ
index_of offset = offset / 4 % 16

unfoldable pub read : ℕ → Vi → ℕ
read offset v = if leb 14 (index_of offset) then 0 else v.regs (index_of offset)

-- `value & 0x3FE`
abbrev pub even_line : ℕ → ℕ
even_line value = value % 2 ^ 10 / 2 * 2

unfoldable pub v_intr : Vi → ℕ
v_intr v = v.regs 3 % 2 ^ 10

unfoldable pub v_current : Vi → ℕ
v_current v = v.regs 4 % 2 ^ 10

unfoldable pub set_v_current_raw : ℕ → Vi → Vi
set_v_current_raw line v = record v { regs = update v.regs 4 (even_line line) }

unfoldable pub raise_interrupt : Vi → Mi → Vi × Mi
raise_interrupt v m = (record v { interrupt_line = true }, Mi.raise vi_intr m)

-- A write of register `idx` but for VI_CURRENT.
unfoldable pub write_reg : ℕ → ℕ → Vi → Vi
write_reg idx value v =
    let w = record v { regs = update v.regs idx value } in
    let lines = value % 2 ^ 10 in
    if idx == 6 && leb 100 lines && ltb lines 800 then record w { lines_per_frame = lines } else w

unfoldable pub write : ℕ → ℕ → Vi → Mi → Vi × Mi
write offset value v m =
    if leb 14 (index_of offset)
    then (v, m)
    else if index_of offset == 4
    then (record v { interrupt_line = false }, Mi.clear vi_intr m)
    else (write_reg (index_of offset) value v, m)

-- The counter wraps in front of `line`.
unfoldable pub wraps : ℕ → Vi → Bool
wraps line v = ltb (even_line v.lines_per_frame) line || line == 0

-- `clear_frame_ready`
unfoldable pub clear_frame_ready : Vi → Vi
clear_frame_ready v = record v { frame_ready = false }

-- The body of the loop of `tick` past the count of cycles: the counter moves, and VI_INTR is
-- compared with it.
unfoldable pub next_line : Vi → ℕ
next_line v = let next = even_line (v_current v + 2) in if wraps next v then 0 else next

unfoldable pub move_line : Vi → Vi
move_line v =
    let counted =
      if wraps (even_line (v_current v + 2)) v
      then record v {
        frame_count = (v.frame_count + 1) % 2 ^ 64;
        frame_ready = true;
        interrupt_line = false;
      }
      else v in
    set_v_current_raw (next_line v) counted

unfoldable pub match_line : ℕ → Vi → Mi → Vi × Mi
match_line line v m =
    let vintr = even_line (v_intr v) in
    if not v.interrupt_line && not (vintr == 0) && line == vintr
    then raise_interrupt v m
    else (v, m)

unfoldable pub line_step : Vi → Mi → Vi × Mi
line_step v m = match_line (next_line v) (move_line v) m

-- The loop on fuel.
unfoldable pub tick_loop : ℕ → Vi → Mi → Vi × Mi
tick_loop zero v m = (v, m)
tick_loop (suc fuel) v m =
    let paid = record v { cycle_accum = v.cycle_accum - v.cycles_per_line } in
    let (w, m') = line_step paid m in
    let rest = tick_loop fuel w m' in if leb v.cycles_per_line v.cycle_accum then rest else (v, m)

unfoldable pub tick : ℕ → Vi → Mi → Vi × Mi
tick cpu_cycles v m =
    let total = (v.cycle_accum + cpu_cycles) % 2 ^ 64 in
    if cpu_cycles == 0 || v.cycles_per_line == 0
    then (v, m)
    else tick_loop (total / v.cycles_per_line) (record v { cycle_accum = total }) m
