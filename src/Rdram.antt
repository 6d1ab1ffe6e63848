-- ===== src/Rdram.antt =====
-- The RDRAM that the devices share: what `Bus::rdram` hands out.
use emulador_n64emu.Base.{ℕ, ◌%◌, ◌==◌, if◌then◌else◌, update}

-- `bytes` holds byte `i` at `i`, for `i` below `size`.
pub record Rdram : Type 0 where
  pub size : ℕ
  pub bytes : ℕ → ℕ

-- `rdram[i % rdram.size()]`, and 0 where there is no RDRAM.
abbrev pub load : ℕ → Rdram → ℕ
load i m = if m.size == 0 then 0 else m.bytes (i % m.size)

abbrev pub store : ℕ → ℕ → Rdram → Rdram
store i v m = if m.size == 0 then m else record m { bytes = update m.bytes (i % m.size) v }
