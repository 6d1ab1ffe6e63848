-- ===== src/Rsp/Registers.antt =====
-- What the RSP of src/rcp/rsp/rsp.cpp reaches by MFC0 and MTC0: the registers of
-- src/bus/sp_regs.cpp and of src/bus/dp_regs.cpp, with RDRAM, the RDP, the block cache of the CPU
-- and the interrupt lines behind them.
pub mod Kept
use emulador_n64emu.Base.{ℕ, ◌+◌, ◌%◌, ◌^◌, Bool, Option, none, some}
use emulador_n64emu.Mi.{Mi}
use emulador_n64emu.BlockCache.{BlockCache}
use emulador_n64emu.BlockCache.Notify.{notify_memory_write}
use emulador_n64emu.Sp
use emulador_n64emu.Sp.{Sp, World, notify_break}
use emulador_n64emu.Sp.Dma
use emulador_n64emu.Dp
use emulador_n64emu.Dp.{Dp}
use emulador_n64emu.Rdp.{Rdp}
use emulador_n64emu.Rdp.Raster.{Raster}
use emulador_n64emu.Rdp.Draw.{drawing}
use emulador_n64emu.Rsp.Machine.{RspMachine, RspInterface}

-- RDRAM is that of the RDP, and so are the interrupt lines.
pub record Devices : Type 0 where
  pub sp : Sp
  pub dp : Dp
  pub rdp : Rdp Raster
  pub cache : BlockCache

-- A machine with its devices; `none` where a block cache out of order did not take a write.
abbrev pub Connected : Type 0
Connected = RspMachine (Option Devices)

unfoldable pub world : Devices → Connected → World
world d m = record {
  rdram = d.rdp.rest.rdram;
  sp_dmem = m.sp_dmem;
  sp_imem = m.sp_imem;
  rsp = m.rsp;
  cache = d.cache;
  mi = d.rdp.mi;
}

-- The machine after a write of a register.
unfoldable pub settle : Devices → Connected → Option (Sp × World) → Connected
settle d m none = record m { bus = none }
settle d m (some (s, w)) = record {
  rsp = w.rsp;
  sp_dmem = w.sp_dmem;
  sp_imem = w.sp_imem;
  bus = some (record {
    sp = s;
    dp = d.dp;
    rdp = record d.rdp { mi = w.mi; rest = record d.rdp.rest { rdram = w.rdram } };
    cache = w.cache;
  });
}

abbrev with_cache : Devices → Option BlockCache → Option Devices
with_cache d none = none
with_cache d (some c) = some (record d { cache = c })

abbrev read_of : (Devices → ℕ) → Option Devices → ℕ
read_of f none = 0
read_of f (some d) = f d

abbrev notified : ℕ → ℕ → Option Devices → Option Devices
notified paddr size none = none
notified paddr size (some d) = with_cache d (notify_memory_write paddr size d.cache)

abbrev semaphore_read : Option Devices → ℕ × Option Devices
semaphore_read none = (0, none)
semaphore_read (some d) = let (old, s) = Sp.read_semaphore d.sp in (old, some (record d { sp = s }))

abbrev broken : Bool → Option Devices → Option Devices
broken intr none = none
broken intr (some d) =
    let (s, mi) = notify_break intr d.sp d.rdp.mi in
    some (record d { sp = s; rdp = record d.rdp { mi = mi } })

abbrev pub sp_written : ℕ → ℕ → Connected → Option Devices → Connected
sp_written offset value m none = m
sp_written offset value m (some d) = settle d m (Dma.write offset value d.sp (world d m))

-- `list_read` is `Bus::read32`, by which the RDP reads its commands, given the data memory.
module _ (list_read : (ℕ → ℕ) → ℕ → Raster → ℕ) where
  abbrev pub dp_written : ℕ → ℕ → Connected → Option Devices → Connected
  dp_written offset value m none = m
  dp_written offset value m (some d) =
      let (p, r) = Dp.write (drawing (list_read m.sp_dmem)) offset value d.dp d.rdp in
      record m { bus = some (record d { dp = p; rdp = r }) }

  abbrev pub registers : RspInterface (Option Devices)
  registers = record {
    notify_memory_write = notified;
    sp_read = λ offset. read_of (λ d. Sp.read offset d.sp);
    sp_read_semaphore = semaphore_read;
    sp_status = read_of (λ d. d.sp.status);
    sp_write = λ offset value m. sp_written offset value m m.bus;
    notify_break = broken;
    dp_read = λ offset. read_of (λ d. Dp.read offset d.dp);
    dp_write = λ offset value m. dp_written offset value m m.bus;
  }
