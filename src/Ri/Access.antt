-- ===== src/Ri/Access.antt =====
-- The registers of the RDRAM interface are eight independent cells, two of which only clear.
use emulador_n64emu.Base.{ℕ, ◌==◌, leb, if◌then◌else◌, ◌≡◌, arith}
use emulador_n64emu.Ri.{Ri, read, write, reg_of}

-- After a write of `value` at one offset, a read at another gives the old value, unless both name
-- the same register: then it gives the value, or 0 for the two error registers.
pub read-write :
    (at offset value : ℕ) (r : Ri)
    → read at (write offset value r) ≡ (
        if reg_of at == reg_of offset
        then (if leb 0x18 (reg_of offset) then 0 else value)
        else read at r)
unfolding read write
read-write at offset value r = ground arith
