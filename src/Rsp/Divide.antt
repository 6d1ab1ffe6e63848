-- ===== src/Rsp/Divide.antt =====
-- src/rcp/rsp/rsp_vector.cpp: the estimates of a reciprocal and of a reciprocal square root.
use emulador_n64emu.Base.{
  ℕ, zero, suc, ◌+◌, ◌-◌, ◌*◌, ◌/◌, ◌%◌, ◌^◌, min, bit_xor, ◌==◌, ltb, leb, if◌then◌else◌, Bool,
  ◌&&◌,
}
use emulador_n64emu.Cpu.Word.{is_negative, negate}

-- The loops of `integer_square_root` on fuel. The first looks for the largest power of four up to
-- `value`.
unfoldable pub start_bit : ℕ → ℕ → ℕ → ℕ
start_bit zero value probe = probe
start_bit (suc fuel) value probe =
    let rest = start_bit fuel value (probe / 4) in if ltb value probe then rest else probe

unfoldable pub root_loop : ℕ → ℕ → ℕ → ℕ → ℕ
root_loop zero value result probe = result
root_loop (suc fuel) value result probe =
    let fits = leb (result + probe) value in
    let rest =
      root_loop fuel (if fits then value - (result + probe) else value)
        (if fits then result / 2 + probe else result / 2) (probe / 4) in
    if probe == 0 then result else rest

unfoldable pub integer_square_root : ℕ → ℕ
integer_square_root value = root_loop 32 value 0 (start_bit 32 value (2 ^ 62)) % 2 ^ 32

unfoldable pub division_rom : ℕ → ℕ
division_rom address =
    let index = address - 512 in
    let exponent = if index % 2 == 0 then 41 else 42 in
    let full =
      if ltb address 512
      then 2 ^ 26 / (address + 512)
      else integer_square_root (2 ^ exponent / (index / 2 + 256)) in
    (min full 0x1_ffff + 2 ^ 32 - 0x1_0000) % 2 ^ 16

-- `std::countl_zero` of a `u32`: the loop halves `value` until it is 0.
unfoldable pub countl_zero_loop : ℕ → ℕ → ℕ
countl_zero_loop zero value = 0
countl_zero_loop (suc left) value =
    let rest = countl_zero_loop left (value / 2) in if value == 0 then suc left else rest

unfoldable pub countl_zero : ℕ → ℕ
countl_zero value = countl_zero_loop 32 value

unfoldable pub magnitude_of : ℕ → Bool → ℕ
magnitude_of input double_precision =
    if is_negative 32 input
    then if double_precision && ltb input (2 ^ 32 - 0x8000)
      then 2 ^ 32 - 1 - input
      else negate 32 input
    else input

-- The input and the result are words of 32 bits.
unfoldable pub division_estimate : ℕ → Bool → Bool → ℕ
division_estimate input square_root double_precision =
    let magnitude = magnitude_of input double_precision in
    let shift =
      if magnitude == 0 then if double_precision then 0 else 16 else countl_zero magnitude in
    let normalized = if magnitude == 0 then magnitude else magnitude * 2 ^ shift % 2 ^ 32 in
    let plain = normalized / 2 ^ 22 % 2 ^ 9 in
    let address = if square_root then plain / 2 * 2 + 0x200 + shift % 2 else plain in
    let opposite = bit_xor shift 31 in
    let output_shift = if square_root then opposite / 2 else opposite in
    let output = (0x4000_0000 + division_rom address * 2 ^ 14) / 2 ^ output_shift in
    if input == 0
    then 0x7fff_ffff
    else if input == 2 ^ 32 - 0x8000
    then 0xffff_0000
    else if is_negative 32 input
    then 2 ^ 32 - 1 - output
    else output
