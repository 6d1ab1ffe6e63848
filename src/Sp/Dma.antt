-- ===== src/Sp/Dma.antt =====
-- `do_dma` of src/bus/sp_regs.cpp, between RDRAM and a memory of the RSP, and `write`.
use emulador_n64emu.Base.{
  ℕ, zero, suc, ◌+◌, ◌*◌, ◌/◌, ◌%◌, ◌^◌, ◌==◌, if◌then◌else◌, Bool, true, false, Option, none, some,
  has_bit, set_bit, clear_bit, update,
}
use emulador_n64emu.Mi
use emulador_n64emu.Mi.{Mi, sp_intr}
use emulador_n64emu.Rdram.{Rdram, load, store}
use emulador_n64emu.BlockCache.{BlockCache}
use emulador_n64emu.BlockCache.Notify.{notify_memory_write}
use emulador_n64emu.Sp.{Sp, World, reg_of, apply_status_write}

pub record SpDmaLen : Type 0 where
  pub length : ℕ
  pub count : ℕ
  pub skip : ℕ

unfoldable pub decode_len : ℕ → SpDmaLen
decode_len value = record {
  length = value % 2 ^ 12 + 1;
  count = value / 2 ^ 12 % 2 ^ 8 + 1;
  skip = value / 2 ^ 20 % 2 ^ 12;
}

-- One line from byte `i` on, with `left` bytes to go.
unfoldable pub byte_loop : ℕ → ℕ → Bool → ℕ → ℕ → (ℕ → ℕ) × Rdram → (ℕ → ℕ) × Rdram
byte_loop zero i to_sp mem dram (spmem, rdram) = (spmem, rdram)
byte_loop (suc left) i to_sp mem dram (spmem, rdram) =
    let sp_off = (mem + i) % 2 ^ 12 in
    let dr_off = (dram + i) % 2 ^ 32 in
    let moved : (ℕ → ℕ) × Rdram =
      if to_sp
      then (update spmem sp_off (load dr_off rdram), rdram)
      else (spmem, store dr_off (spmem sp_off) rdram) in
    byte_loop left (i + 1) to_sp mem dram moved

-- What the loop over the lines carries.
pub record Progress : Type 0 where
  pub mem : ℕ
  pub dram : ℕ
  pub spmem : ℕ → ℕ
  pub rdram : Rdram
  pub cache : BlockCache

-- The state with the block cache that `notify_memory_write` leaves.
abbrev pub with_cache : Progress → Option BlockCache → Option Progress
with_cache p (some c) = some (record p { cache = c })
with_cache p none = none

unfoldable pub dma_line : Bool → Bool → SpDmaLen → Progress → Option Progress
dma_line to_sp is_imem d p =
    let (spmem, rdram) = byte_loop d.length 0 to_sp p.mem p.dram (p.spmem, p.rdram) in
    let base = if is_imem then 0x0400_1000 else 0x0400_0000 in
    with_cache
      (record p {
        mem = (p.mem + d.length) % 2 ^ 12;
        dram = (p.dram + d.length + d.skip) % 2 ^ 32;
        spmem = spmem;
        rdram = rdram;
      })
      (notify_memory_write (if to_sp then base + p.mem else p.dram) d.length p.cache)

unfoldable pub line_loop : ℕ → Bool → Bool → SpDmaLen → Progress → Option Progress
line_loop zero to_sp is_imem d p = some p
line_loop (suc left) to_sp is_imem d p = elim (dma_line to_sp is_imem d p) [
  | some p' ↦ line_loop left to_sp is_imem d p'
  | none ↦ none
]

-- The state after all lines: the memory of the bus and that of the RSP, and the registers.
unfoldable pub finish_dma : Bool → SpDmaLen → Progress → Sp → World → Sp × World
finish_dma is_imem d p s w =
    let moved : World = record w { rdram = p.rdram; cache = p.cache; mi = Mi.raise sp_intr w.mi } in
    (
      record s {
        mem_addr = (if is_imem then 0x1000 else 0) + p.mem;
        dram_addr = p.dram % 2 ^ 24;
        last_dma_bytes = d.length * d.count;
        status = clear_bit 2 (set_bit 2 s.status);
      },
      if is_imem
          then record moved { sp_imem = p.spmem; rsp = record w.rsp { imem = p.spmem } }
          else record moved { sp_dmem = p.spmem; rsp = record w.rsp { dmem = p.spmem } },
    )

-- The result is `none` where `notify_memory_write` gives none.
abbrev pub completed : Bool → SpDmaLen → Sp → World → Option Progress → Option (Sp × World)
completed is_imem d s w (some p) = some (finish_dma is_imem d p s w)
completed is_imem d s w none = none

unfoldable pub do_dma : Bool → ℕ → Sp → World → Option (Sp × World)
do_dma to_sp len_reg s w =
    let d = decode_len len_reg in
    let is_imem = has_bit 12 s.mem_addr in
    let start : Progress = record {
      mem = s.mem_addr % 2 ^ 12;
      dram = s.dram_addr % 2 ^ 24;
      spmem = if is_imem then w.sp_imem else w.sp_dmem;
      rdram = w.rdram;
      cache = w.cache;
    } in
    completed is_imem d s w (line_loop d.count to_sp is_imem d start)

unfoldable pub write : ℕ → ℕ → Sp → World → Option (Sp × World)
write offset value s w =
    if reg_of offset == 0x00
    then some (record s { mem_addr = value % 2 ^ 13 }, w)
    else if reg_of offset == 0x04
    then some (record s { dram_addr = value % 2 ^ 24 }, w)
    else if reg_of offset == 0x08
    then do_dma true value s w
    else if reg_of offset == 0x0c
    then do_dma false value s w
    else if reg_of offset == 0x10
    then some (apply_status_write value s w)
    else if reg_of offset == 0x1c
    then some (record s { semaphore = 0 }, w)
    else some (s, w)
