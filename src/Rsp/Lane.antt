-- ===== src/Rsp/Lane.antt =====
-- src/rcp/rsp/rsp_vector.cpp: the arithmetic of one lane. A signed value is its two's complement word
-- of 64 bits, but for a lane of 16 and an accumulator of 48.
use emulador_n64emu.Base.{
  ℕ, zero, suc, ◌+◌, ◌-◌, ◌*◌, ◌/◌, ◌%◌, ◌^◌, ltb, if◌then◌else◌, Bool, has_bit, set_bit, clear_bit,
}
use emulador_n64emu.Cpu.Word.{sext, is_negative, negate, less_signed}

unfoldable pub signed_lane : ℕ → ℕ
signed_lane value = sext 16 value

unfoldable pub lane_bits : ℕ → ℕ
lane_bits value = value % 2 ^ 16

-- `from_accumulator_bits`: the value of an accumulator as a word of 64 bits.
unfoldable pub accumulator_value : ℕ → ℕ
accumulator_value raw = sext 48 raw

unfoldable pub wrap_accumulator : ℕ → ℕ
wrap_accumulator value = value % 2 ^ 48

unfoldable pub replace_accumulator_low : ℕ → ℕ → ℕ
replace_accumulator_low acc low_word = acc / 2 ^ 16 * 2 ^ 16 + low_word

unfoldable pub accumulator_shift16 : ℕ → ℕ
accumulator_shift16 acc =
    if is_negative 64 acc then negate 64 ((negate 64 acc + 0xffff) / 0x1_0000) else acc / 0x1_0000

unfoldable pub arithmetic_shift1 : ℕ → ℕ
arithmetic_shift1 value =
    if is_negative 64 value then negate 64 ((negate 64 value + 1) / 2) else value / 2

unfoldable pub replace_accumulator_upper : ℕ → ℕ → ℕ
replace_accumulator_upper acc upper = upper * 2 ^ 16 + acc % 2 ^ 16

unfoldable pub signed_clamp : ℕ → ℕ
signed_clamp value =
    if less_signed value (negate 64 0x8000)
    then 0x8000
    else if less_signed 0x7fff value
    then 0x7fff
    else lane_bits value

unfoldable pub signed_accumulator_clamp : ℕ → ℕ
signed_accumulator_clamp acc = signed_clamp (accumulator_shift16 (accumulator_value acc))

unfoldable pub unsigned_accumulator_clamp : ℕ → ℕ
unsigned_accumulator_clamp acc =
    let value = accumulator_shift16 (accumulator_value acc) in
    if is_negative 64 value then 0 else if ltb 0xffff value then 0xffff else value

unfoldable pub accumulator_low_clamp : ℕ → ℕ
accumulator_low_clamp acc =
    let middle = accumulator_shift16 (accumulator_value acc) in
    if less_signed 0x7fff middle
    then 0xffff
    else if less_signed middle (negate 64 0x8000)
    then 0
    else lane_bits acc

unfoldable pub sign_extend7 : ℕ → ℕ
sign_extend7 value =
    if has_bit 6 (value % 2 ^ 7) then value % 2 ^ 7 + 2 ^ 64 - 2 ^ 7 else value % 2 ^ 7

-- The number of a flag of a lane in VCO or VCC.
abbrev pub flag_of : ℕ → Bool → ℕ
flag_of lane high = lane + (if high then 8 else 0)

unfoldable pub flag : ℕ → ℕ → Bool → Bool
flag value lane high = has_bit (flag_of lane high) value

unfoldable pub set_flag : ℕ → ℕ → Bool → Bool → ℕ
set_flag value lane enabled high =
    if enabled then set_bit (flag_of lane high) value else clear_bit (flag_of lane high) value

-- `set_flag` in the loop over the lanes, from `lane` on, with `left` to go.
unfoldable pub set_flags : ℕ → ℕ → (ℕ → Bool) → Bool → ℕ → ℕ
set_flags zero lane enabled high value = value
set_flags (suc left) lane enabled high value =
    set_flags left (lane + 1) enabled high (set_flag value lane (enabled lane) high)

-- Row `element` of `kElementSelect`: the lane that stands in for `lane`.
unfoldable pub element_select : ℕ → ℕ → ℕ
element_select element lane =
    if ltb element 2
    then lane
    else if ltb element 4
    then lane / 2 * 2 + (element - 2)
    else if ltb element 8
    then lane / 4 * 4 + (element - 4)
    else element - 8
