-- ===== src/Rsp/Placed/Store.antt =====
-- The stores of the RSP write both copies of the data memory.
use emulador_n64emu.Base.{ℕ, zero, suc, ◌+◌, ◌==◌, if◌then◌else◌, ap, Bool, true, false, update}
use emulador_n64emu.Base.{no_more, ◌▷◌, switch-case}
use emulador_n64emu.Rsp.{VectorUnit, Rsp}
use emulador_n64emu.Rsp.Vector.Transfer.{with_vectors}
use emulador_n64emu.Rsp.Machine.{
  RspMachine, RspInterface, with_rsp, put_byte, notify, store_byte, store_half, store_word,
}
use emulador_n64emu.Rsp.VectorMemory.{
  load_lane, packed_loop, byte_loop, rotated_loop, transpose_loop, access, exec_vector_memory,
}
use emulador_n64emu.Rsp.Placed.{IsAt, with_vectors-IsAt}

-- The bus's copy of the data memory is the RSP's, and the RSP is inside of its instructions.
pub record IsPlaced {B : Type 0} (m : RspMachine B) : Type 0 where
  pub placed : IsAt m.sp_dmem m.rsp

module _ {B : Type 0} (io : RspInterface B) where
  put_byte-IsPlaced : (a v : ℕ) (m : RspMachine B) → IsPlaced m → IsPlaced (put_byte io a v m)
  unfolding put_byte
  put_byte-IsPlaced a v m h = record {
    placed = record {
      same_dmem = ap (λ t. update t a v) h.placed.same_dmem;
      pc_fits = h.placed.pc_fits;
      next_fits = h.placed.next_fits;
      zero_register = h.placed.zero_register;
    };
  }

  notify-IsPlaced : (a : ℕ) (m : RspMachine B) → IsPlaced m → IsPlaced (notify io a m)
  unfolding notify
  notify-IsPlaced a m h = record { placed = h.placed }

  pub store_byte-IsPlaced :
      (a v : ℕ) (m : RspMachine B) → IsPlaced m → IsPlaced (store_byte io a v m)
  unfolding store_byte
  store_byte-IsPlaced a v m h = notify-IsPlaced _ _ (put_byte-IsPlaced _ _ m h)

  pub store_half-IsPlaced :
      (a v : ℕ) (m : RspMachine B) → IsPlaced m → IsPlaced (store_half io a v m)
  unfolding store_half
  store_half-IsPlaced a v m h =
      notify-IsPlaced _ _
        (notify-IsPlaced _ _ (put_byte-IsPlaced _ _ _ (put_byte-IsPlaced _ _ m h)))

  pub store_word-IsPlaced :
      (a v : ℕ) (m : RspMachine B) → IsPlaced m → IsPlaced (store_word io a v m)
  unfolding store_word
  store_word-IsPlaced a v m h =
      let n = notify-IsPlaced in
      let p = put_byte-IsPlaced in
      n _ _ (n _ _ (n _ _ (n _ _ (p _ _ _ (p _ _ _ (p _ _ _ (p _ _ m h)))))))

  pub IsPlaced-if :
      (b : Bool) (m n : RspMachine B) → IsPlaced m → IsPlaced n → IsPlaced (if b then m else n)
  IsPlaced-if true m n h k = h
  IsPlaced-if false m n h k = k

  pub with_rsp-IsPlaced : (r : Rsp) (m : RspMachine B) → IsAt m.sp_dmem r → IsPlaced (with_rsp r m)
  with_rsp-IsPlaced r m h = record { placed = h }

  vectors-IsPlaced :
      (u : VectorUnit) (m : RspMachine B)
      → IsPlaced m
      → IsPlaced (with_rsp (with_vectors u m.rsp) m)
  vectors-IsPlaced u m h = with_rsp-IsPlaced _ m (with_vectors-IsAt m.sp_dmem u m.rsp h.placed)

  load_lane-IsPlaced :
      (reg lane v : ℕ) (m : RspMachine B) → IsPlaced m → IsPlaced (load_lane io reg lane v m)
  unfolding load_lane
  load_lane-IsPlaced reg lane v m h = vectors-IsPlaced _ m h

  packed_loop-IsPlaced :
      (left i : ℕ) (is_store : Bool) (vt first stride shift address : ℕ) (m : RspMachine B)
      → IsPlaced m
      → IsPlaced (packed_loop io left i is_store vt first stride shift address m)
  unfolding packed_loop
  packed_loop-IsPlaced zero i is_store vt first stride shift address m h = h
  packed_loop-IsPlaced (suc left) i is_store vt first stride shift address m h =
      packed_loop-IsPlaced left (i + 1) is_store vt first stride shift address _
        (IsPlaced-if is_store _ _ (store_byte-IsPlaced _ _ m h) (load_lane-IsPlaced _ _ _ m h))

  byte_loop-IsPlaced :
      (left i : ℕ) (is_store : Bool) (vt element address : ℕ) (m : RspMachine B)
      → IsPlaced m
      → IsPlaced (byte_loop io left i is_store vt element address m)
  unfolding byte_loop
  byte_loop-IsPlaced zero i is_store vt element address m h = h
  byte_loop-IsPlaced (suc left) i is_store vt element address m h =
      byte_loop-IsPlaced left (i + 1) is_store vt element address _
        (IsPlaced-if is_store _ _ (store_byte-IsPlaced _ _ m h) (vectors-IsPlaced _ m h))

  rotated_loop-IsPlaced :
      (left i : ℕ) (is_store : Bool) (vt element address : ℕ) (m : RspMachine B)
      → IsPlaced m
      → IsPlaced (rotated_loop io left i is_store vt element address m)
  unfolding rotated_loop
  rotated_loop-IsPlaced zero i is_store vt element address m h = h
  rotated_loop-IsPlaced (suc left) i is_store vt element address m h =
      rotated_loop-IsPlaced left (i + 1) is_store vt element address _
        (IsPlaced-if is_store _ _ (store_byte-IsPlaced _ _ m h) (vectors-IsPlaced _ m h))

  transpose_loop-IsPlaced :
      (left lane : ℕ) (is_store : Bool) (vt element address : ℕ) (m : RspMachine B)
      → IsPlaced m
      → IsPlaced (transpose_loop io left lane is_store vt element address m)
  unfolding transpose_loop
  transpose_loop-IsPlaced zero lane is_store vt element address m h = h
  transpose_loop-IsPlaced (suc left) lane is_store vt element address m h =
      transpose_loop-IsPlaced left (lane + 1) is_store vt element address _
        (IsPlaced-if is_store _ _ (store_half-IsPlaced _ _ m h) (load_lane-IsPlaced _ _ _ m h))

  access-IsPlaced :
      (subop : ℕ) (is_store : Bool) (vt element address : ℕ) (m : RspMachine B)
      → IsPlaced m
      → IsPlaced (access io subop is_store vt element address m)
  unfolding access
  access-IsPlaced subop is_store vt element address m h =
      let bytes = λ (n : ℕ). byte_loop-IsPlaced n 0 is_store vt element address m h in
      let packed = λ (stride shift : ℕ).
        IsPlaced-if (element == 0) _ m
          (packed_loop-IsPlaced 8 0 is_store vt 0 stride shift address m h) h in
      switch-case IsPlaced _ _ _
        (bytes _
          ▷ bytes _
          ▷ bytes _
          ▷ bytes _
          ▷ bytes _
          ▷ rotated_loop-IsPlaced _ 0 is_store vt _ _ m h
          ▷ packed _ _
          ▷ packed _ _
          ▷ packed _ _
          ▷ packed_loop-IsPlaced _ 0 is_store vt _ 4 7 address m h
          ▷ IsPlaced-if is_store _ m (rotated_loop-IsPlaced 16 0 true vt element address m h) h
          ▷ transpose_loop-IsPlaced 8 0 is_store vt element address m h
          ▷ no_more)
        h

  pub exec_vector_memory-IsPlaced :
      (i : ℕ) (is_store : Bool) (m : RspMachine B)
      → IsPlaced m
      → IsPlaced (exec_vector_memory io i is_store m)
  unfolding exec_vector_memory
  exec_vector_memory-IsPlaced i is_store m h = access-IsPlaced _ is_store _ _ _ m h
