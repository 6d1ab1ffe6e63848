-- ===== src/Dp/Tests.antt =====
-- The registers when the end of a list is written.
use emulador_n64emu.Base.{ℕ, ◌+◌, refl, arith, false, bit}
use emulador_n64emu.Rdp.{Rdp, RdpInterface}
use emulador_n64emu.Dp.{Dp, write}
use emulador_n64emu.Dp.Lists.{IsIdle, IsGood, write-IsGood}

-- An RDP that adds up the commands it is given.
abbrev adding : RdpInterface ℕ
adding = record {
  read32 = λ addr n. addr;
  execute_command = λ cmd r. record r { rest = r.rest + cmd };
  execute_command_pair = λ hi lo r. record r { rest = r.rest + hi + lo };
}

abbrev fresh : Rdp ℕ
fresh = record {
  busy = false;
  mi = record { mode = 0; intr = 0; intr_mask = 0x20; line = false };
  rest = 0;
}

-- START is valid.
abbrev begun : Dp
begun = record { start = 16; end = 0; current = 16; status = 0x480 }

begun-IsIdle : IsIdle begun
unfolding bit
begun-IsIdle = record {
  start_fits = (refl, omega arith);
  end_fits = (refl, omega arith);
  ready = refl;
  not_busy = (refl, refl);
}

write_example : IsGood adding fresh (write adding 0x04 40 begun fresh)
write_example = write-IsGood adding 0x04 40 begun fresh begun-IsIdle
