-- ===== src/Rsp/VectorMemory.antt =====
-- src/rcp/rsp/rsp_vector.cpp, `exec_vector_memory`: the loads and stores of vector registers. Each
-- loop runs from `i` on, with `left` rounds to go; `address` is below 4096.
use emulador_n64emu.Base.{
  ℕ, zero, suc, ◌+◌, ◌-◌, ◌*◌, ◌/◌, ◌%◌, ◌^◌, min, ◌==◌, leb, if◌then◌else◌, switch, Bool, true, [],
  ◌∷◌,
}
use emulador_n64emu.Cpu.Word.{rs, rt, rd}
use emulador_n64emu.Rsp.{load_byte, load_half}
use emulador_n64emu.Rsp.Lane.{sign_extend7}
use emulador_n64emu.Rsp.Vector.Transfer.{vector_byte, set_vector_byte, set_lane, with_vectors}
use emulador_n64emu.Rsp.Machine.{RspMachine, RspInterface, with_rsp, store_byte, store_half}

-- The shift that scales the offset, by the kind of access; there are twelve.
unfoldable pub scale_of : ℕ → ℕ
scale_of subop =
    if leb subop 3 then subop else if leb subop 5 then 4 else if leb subop 7 then 3 else 4

module _ {B : Type 0} (io : RspInterface B) where
  abbrev lane_value : ℕ → ℕ → RspMachine B → ℕ
  lane_value reg lane m = m.rsp.vu.vpr reg lane

  unfoldable pub load_lane : ℕ → ℕ → ℕ → RspMachine B → RspMachine B
  load_lane reg lane value m =
      with_rsp (with_vectors (set_lane reg lane (value % 2 ^ 16) m.rsp.vu) m.rsp) m

  -- Lanes of eight bits at the stride `step`: those of LPV, LUV, LHV and LFV.
  unfoldable pub packed_loop : ℕ → ℕ → Bool → ℕ → ℕ → ℕ → ℕ → ℕ → RspMachine B → RspMachine B
  packed_loop zero i is_store vt first step shift address m = m
  packed_loop (suc left) i is_store vt first step shift address m =
      let addr = address + i * step in
      packed_loop left (i + 1) is_store vt first step shift address (
        if is_store
        then store_byte io addr (lane_value vt (first + i) m / 2 ^ shift) m
        else load_lane vt (first + i) (load_byte addr m.rsp * 2 ^ shift) m)

  -- Bytes of the register from `element` on, without a turn.
  unfoldable pub byte_loop : ℕ → ℕ → Bool → ℕ → ℕ → ℕ → RspMachine B → RspMachine B
  byte_loop zero i is_store vt element address m = m
  byte_loop (suc left) i is_store vt element address m =
      byte_loop left (i + 1) is_store vt element address (
        if is_store
        then store_byte io (address + i) (vector_byte vt (element + i) m.rsp.vu) m
        else with_rsp
            (with_vectors
              (set_vector_byte vt (element + i) (load_byte (address + i) m.rsp) m.rsp.vu) m.rsp)
            m)

  -- Bytes of the register from `element` on, which go round: those of SWV, LRV and SRV.
  unfoldable pub rotated_loop : ℕ → ℕ → Bool → ℕ → ℕ → ℕ → RspMachine B → RspMachine B
  rotated_loop zero i is_store vt element address m = m
  rotated_loop (suc left) i is_store vt element address m =
      let byte = (element + i) % 16 in
      rotated_loop left (i + 1) is_store vt element address (
        if is_store
        then store_byte io (address + i) (vector_byte vt byte m.rsp.vu) m
        else with_rsp
            (with_vectors (set_vector_byte vt byte (load_byte (address + i) m.rsp) m.rsp.vu) m.rsp)
            m)

  -- LTV and STV: a transposition across a bank of registers.
  unfoldable pub transpose_loop : ℕ → ℕ → Bool → ℕ → ℕ → ℕ → RspMachine B → RspMachine B
  transpose_loop zero lane is_store vt element address m = m
  transpose_loop (suc left) lane is_store vt element address m =
      let addr = address + lane * 2 in
      transpose_loop left (lane + 1) is_store vt element address (
        if is_store
        then store_half io addr (lane_value ((vt + (element / 2 + lane) % 8) % 32) lane m) m
        else load_lane ((vt + lane) % 32) ((lane + 8 - element / 2) % 8) (load_half addr m.rsp) m)

  -- The switch on the kind of access.
  unfoldable pub access : ℕ → Bool → ℕ → ℕ → ℕ → RspMachine B → RspMachine B
  access subop is_store vt element address m =
      let first = element / 2 % 8 in
      let packed = λ (shift : ℕ).
        if element == 0 then packed_loop 8 0 is_store vt 0 1 shift address m else m in
      let half = if element == 0 then packed_loop 8 0 is_store vt 0 2 7 address m else m in
      let quad =
        byte_loop (min (16 - address % 16) (16 - element)) 0 is_store vt element address m in
      let right = address % 16 in
      switch subop
        ((0, byte_loop (min 1 (16 - element)) 0 is_store vt element address m)
          ∷ (1, byte_loop (min 2 (16 - element)) 0 is_store vt element address m)
          ∷ (2, byte_loop (min 4 (16 - element)) 0 is_store vt element address m)
          ∷ (3, byte_loop (min 8 (16 - element)) 0 is_store vt element address m)
          ∷ (4, quad)
          ∷ (5, rotated_loop right 0 is_store vt (element + 16 - right) (address - right) m)
          ∷ (6, packed 8)
          ∷ (7, packed 7)
          ∷ (8, half)
          ∷ (9, packed_loop (min 4 (8 - first)) 0 is_store vt first 4 7 address m)
          ∷ (10, if is_store then rotated_loop 16 0 true vt element address m else m)
          ∷ (11, transpose_loop 8 0 is_store vt element address m)
          ∷ [])
        m

  unfoldable pub exec_vector_memory : ℕ → Bool → RspMachine B → RspMachine B
  exec_vector_memory i is_store m =
      let offset = sign_extend7 i * 2 ^ scale_of (rd i) in
      let address = (m.rsp.gpr (rs i) + offset) % 2 ^ 12 in
      access (rd i) is_store (rt i) (i / 2 ^ 7 % 16) address m
