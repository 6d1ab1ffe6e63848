-- ===== src/Dp.antt =====
-- src/bus/dp_regs.cpp, include/n64/bus/dp_regs.hpp: the command registers of the RDP.
pub mod Lists
mod Tests
use emulador_n64emu.Base.{
  ℕ, ◌*◌, ◌/◌, ◌%◌, ◌^◌, ◌==◌, ltb, if◌then◌else◌, not, ◌&&◌, has_bit, set_bit, clear_bit,
}
use emulador_n64emu.Base.{set_if, clear_if}
use emulador_n64emu.Mi
use emulador_n64emu.Mi.{Mi, dp_intr}
use emulador_n64emu.Rdp.{Rdp, RdpInterface, flush, run_command_list}

pub record Dp : Type 0 where
  pub start : ℕ
  pub end : ℕ
  pub current : ℕ
  pub status : ℕ

-- The bits of `status`: XBUS 0, freeze 1, flush 2, pipe busy 5, command busy 6, buffer ready 7,
-- DMA busy 8, end valid 9, start valid 10.
unfoldable pub reset : Dp → Dp
reset d = record { start = 0; end = 0; current = 0; status = 0x80 }

-- `offset & 0x1C`
abbrev pub reg_of : ℕ → ℕ
reg_of offset = offset / 4 % 8 * 4

unfoldable pub read : ℕ → Dp → ℕ
read offset d =
    if reg_of offset == 0x00
    then d.start
    else if reg_of offset == 0x04
    then d.end
    else if reg_of offset == 0x08
    then d.current
    else if reg_of offset == 0x0c
    then d.status
    else 0

-- `value & 0x00FF'FFF8`
abbrev pub list_addr : ℕ → ℕ
list_addr value = value % 2 ^ 24 / 8 * 8

-- `mi_->raise(mmio::MiIntr::DP)`
abbrev pub raise_dp : {R : Type 0} → Rdp R → Rdp R
raise_dp r = record r { mi = Mi.raise dp_intr r.mi }

-- `status_` while a list runs, and after it.
abbrev pub running : ℕ → ℕ
running status = clear_bit 7 (set_bit 6 (set_bit 5 status))

abbrev pub finished : ℕ → ℕ
finished status =
    set_bit 7
      (clear_bit 2 (clear_bit 8 (clear_bit 5 (clear_bit 6 (clear_bit 9 (clear_bit 10 status))))))

-- The three pairs of the status register.
unfoldable pub status_bits : ℕ → ℕ → ℕ
status_bits value status =
    let xbus = set_if (has_bit 1 value) 0 (clear_if (has_bit 0 value) 0 status) in
    let freeze = set_if (has_bit 3 value) 1 (clear_if (has_bit 2 value) 1 xbus) in
    set_if (has_bit 5 value) 2 (clear_if (has_bit 4 value) 2 freeze)

module _ {R : Type 0} (io : RdpInterface R) where
  unfoldable pub run_commands : Dp → Rdp R → Dp × Rdp R
  run_commands d r =
      let status = running d.status in
      (
        record d { start = d.end; current = d.end; status = finished status },
        raise_dp (run_command_list io d.start d.end (has_bit 0 status) r),
      )

  unfoldable pub write_end : ℕ → Dp → Rdp R → Dp × Rdp R
  write_end value d r =
      let d1 = record d { end = list_addr value; status = set_bit 9 d.status } in
      if has_bit 10 d1.status && ltb d1.start d1.end && not (has_bit 1 d1.status)
      then run_commands d1 r
      else (d1, r)

  unfoldable pub write_status : ℕ → Dp → Rdp R → Dp × Rdp R
  write_status value d r = (
    record d { status = status_bits value d.status },
    if has_bit 5 value then raise_dp (flush io r) else r,
  )

  unfoldable pub write : ℕ → ℕ → Dp → Rdp R → Dp × Rdp R
  write offset value d r =
      if reg_of offset == 0x00
      then (
        record d {
          start = list_addr value;
          current = list_addr value;
          status = set_bit 10 d.status;
        },
        r,
      )
      else if reg_of offset == 0x04
      then write_end value d r
      else if reg_of offset == 0x0c
      then write_status value d r
      else (d, r)
