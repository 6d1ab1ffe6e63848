-- ===== src/Rsp/Machine.antt =====
-- src/rcp/rsp/rsp.cpp: the RSP on its bus, and the stores, which keep the bus's copy of the data
-- memory.
use emulador_n64emu.Base.{ℕ, ◌+◌, ◌/◌, ◌%◌, ◌^◌, Bool, update}
use emulador_n64emu.Rsp.{Rsp}

-- `sp_dmem` and `sp_imem` are the memories of the bus, `bus` all else that the RSP reaches: the
-- registers of the RSP and of the RDP, RDRAM, the block cache and the interrupt lines.
pub record RspMachine (B : Type 0) : Type 0 where
  pub rsp : Rsp
  pub sp_dmem : ℕ → ℕ
  pub sp_imem : ℕ → ℕ
  pub bus : B

-- What the RSP calls: `Bus::notify_memory_write`, the registers of src/bus/sp_regs.cpp and of
-- src/bus/dp_regs.cpp, `notify_break` with the callback. A write of a register may start a DMA to
-- the memories and change the flags of the RSP.
pub record RspInterface (B : Type 0) : Type 0 where
  pub notify_memory_write : ℕ → ℕ → B → B
  pub sp_read : ℕ → B → ℕ
  pub sp_read_semaphore : B → ℕ × B
  pub sp_status : B → ℕ
  pub sp_write : ℕ → ℕ → RspMachine B → RspMachine B
  pub notify_break : Bool → B → B
  pub dp_read : ℕ → B → ℕ
  pub dp_write : ℕ → ℕ → RspMachine B → RspMachine B

module _ {B : Type 0} where
  abbrev pub with_rsp : Rsp → RspMachine B → RspMachine B
  with_rsp r m = record m { rsp = r }

  unfoldable pub push_mem_to_bus : RspMachine B → RspMachine B
  push_mem_to_bus m = record m { sp_dmem = m.rsp.dmem; sp_imem = m.rsp.imem }

module _ {B : Type 0} (io : RspInterface B) where
  -- Byte `a` of both data memories, for `a` below 4096.
  unfoldable pub put_byte : ℕ → ℕ → RspMachine B → RspMachine B
  put_byte a v m = record m {
    rsp = record m.rsp { dmem = update m.rsp.dmem a v };
    sp_dmem = update m.sp_dmem a v;
  }

  unfoldable pub notify : ℕ → RspMachine B → RspMachine B
  notify a m = record m { bus = io.notify_memory_write (0x0400_0000 + a) 1 m.bus }

  unfoldable pub store_byte : ℕ → ℕ → RspMachine B → RspMachine B
  store_byte addr v m = notify (addr % 2 ^ 12) (put_byte (addr % 2 ^ 12) (v % 2 ^ 8) m)

  unfoldable pub store_half : ℕ → ℕ → RspMachine B → RspMachine B
  store_half addr v m =
      let a = addr % 2 ^ 12 in
      let b = (a + 1) % 2 ^ 12 in
      notify b (notify a (put_byte b (v % 2 ^ 8) (put_byte a (v / 2 ^ 8 % 2 ^ 8) m)))

  unfoldable pub store_word : ℕ → ℕ → RspMachine B → RspMachine B
  store_word addr v m =
      let a = addr % 2 ^ 12 in
      let b = (a + 1) % 2 ^ 12 in
      let c = (a + 2) % 2 ^ 12 in
      let d = (a + 3) % 2 ^ 12 in
      let stored = put_byte d (v % 2 ^ 8) (
        put_byte c (v / 2 ^ 8 % 2 ^ 8)
          (put_byte b (v / 2 ^ 16 % 2 ^ 8) (put_byte a (v / 2 ^ 24 % 2 ^ 8) m))) in
      notify d (notify c (notify b (notify a stored)))
