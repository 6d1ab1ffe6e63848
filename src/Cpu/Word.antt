-- ===== src/Cpu/Word.antt =====
-- src/cpu/cpu.cpp, include/n64/cpu/cpu.hpp: the fields of an instruction, and the arithmetic on
-- 32-bit and 64-bit words. A signed value is its two's complement word.
pub mod Product
pub mod Size
pub mod Overflow
use emulador_n64emu.Base.{
  ℕ, zero, suc, ◌+◌, ◌-◌, ◌*◌, ◌/◌, ◌%◌, ◌^◌, ◌≤◌, ◌<◌, min, max, bit_and, bit_or, bit_xor, ◌==◌,
  ltb, leb, if◌then◌else◌, ◌≡◌, ◌≢◌, ◌↔◌, ◌⊎◌, inl, inr, refl, sym, ap, ◌∙◌, subst, arith, Bool,
  Bool-cases, true, false, not, ◌&&◌, ◌||◌, Option, Option-cases, none, some, List, [], ◌∷◌, ◌++◌,
  map, length, get_or, set, replicate, ltb→lt, lt→ltb, leb→le, ==_iff, ==-ne, bit, has_bit, set_bit,
  clear_bit, low, ℕ_discrete, dec_lt, dec_le, update, if_true, if_false,
}

unfoldable pub op : ℕ → ℕ
op i = i / 2 ^ 26

unfoldable pub rs : ℕ → ℕ
rs i = i / 2 ^ 21 % 32

unfoldable pub rt : ℕ → ℕ
rt i = i / 2 ^ 16 % 32

unfoldable pub rd : ℕ → ℕ
rd i = i / 2 ^ 11 % 32

unfoldable pub sa : ℕ → ℕ
sa i = i / 2 ^ 6 % 32

unfoldable pub fn : ℕ → ℕ
fn i = i % 64

unfoldable pub imm : ℕ → ℕ
imm i = i % 2 ^ 16

unfoldable pub target : ℕ → ℕ
target i = i % 2 ^ 26

-- `static_cast<u64>(static_cast<s64>(x))` for a signed `x` of `w` bits.
unfoldable pub sext : ℕ → ℕ → ℕ
sext w x = if ltb (x % 2 ^ w) (2 ^ (w - 1)) then x % 2 ^ w else x % 2 ^ w + 2 ^ 64 - 2 ^ w

unfoldable pub sext32 : ℕ → ℕ
sext32 x = sext 32 x

unfoldable pub sext16 : ℕ → ℕ
sext16 x = sext 16 x

unfoldable pub sext8 : ℕ → ℕ
sext8 x = sext 8 x

-- The signed immediate as a 64-bit word.
unfoldable pub simm : ℕ → ℕ
simm i = sext 16 i

-- Sums and differences of `u64` and of `s64` have the same words.
unfoldable pub add64 : ℕ → ℕ → ℕ
add64 a b = (a + b) % 2 ^ 64

unfoldable pub sub64 : ℕ → ℕ → ℕ
sub64 a b = (a + 2 ^ 64 - b) % 2 ^ 64

-- The sign of a word of `w` bits, and its negation.
unfoldable pub is_negative : ℕ → ℕ → Bool
is_negative w x = leb (2 ^ (w - 1)) x

unfoldable pub negate : ℕ → ℕ → ℕ
negate w x = (2 ^ w - x) % 2 ^ w

abbrev pub same_sign : Bool → Bool → Bool
same_sign p q = if p then q else not q

unfoldable pub magnitude : ℕ → ℕ → ℕ
magnitude w x = if is_negative w x then negate w x else x

-- `a < b` on signed words of 64 bits.
unfoldable pub less_signed : ℕ → ℕ → Bool
less_signed a b =
    if is_negative 64 a
    then (if is_negative 64 b then ltb a b else true)
    else (if is_negative 64 b then false else ltb a b)

-- `x >> s` on a signed word of `w` bits.
unfoldable pub shift_right_signed : ℕ → ℕ → ℕ → ℕ
shift_right_signed w x s =
    if is_negative w x then 2 ^ w - 1 - (2 ^ w - 1 - x) / 2 ^ s else x / 2 ^ s

-- The overflow flag and the result.
unfoldable pub add_overflow_s32 : ℕ → ℕ → Bool × ℕ
add_overflow_s32 a b =
    let wide = add64 (sext 32 a) (sext 32 b) in
    (not (wide == sext 32 (wide % 2 ^ 32)), wide % 2 ^ 32)

unfoldable pub sub_overflow_s32 : ℕ → ℕ → Bool × ℕ
sub_overflow_s32 a b =
    let wide = sub64 (sext 32 a) (sext 32 b) in
    (not (wide == sext 32 (wide % 2 ^ 32)), wide % 2 ^ 32)

abbrev max_s64 : ℕ
max_s64 = 2 ^ 63 - 1

abbrev min_s64 : ℕ
min_s64 = 2 ^ 63

unfoldable pub add_overflow_s64 : ℕ → ℕ → Bool × ℕ
add_overflow_s64 a b =
    if less_signed 0 b && less_signed (sub64 max_s64 b) a
      || (less_signed b 0 && less_signed a (sub64 min_s64 b))
    then (true, 0)
    else (false, add64 a b)

unfoldable pub sub_overflow_s64 : ℕ → ℕ → Bool × ℕ
sub_overflow_s64 a b =
    if less_signed 0 b && less_signed a (add64 min_s64 b)
      || (less_signed b 0 && less_signed (add64 max_s64 b) a)
    then (true, 0)
    else (false, sub64 a b)

-- HI and LO of a product, by a type of 128 bits.
unfoldable pub mult_u64 : ℕ → ℕ → ℕ × ℕ
mult_u64 a b = (a * b / 2 ^ 64 % 2 ^ 64, a * b % 2 ^ 64)

-- The same without such a type.
unfoldable pub mult_u64_portable : ℕ → ℕ → ℕ × ℕ
mult_u64_portable a b =
    let a_lo = a % 2 ^ 32 in
    let a_hi = a / 2 ^ 32 in
    let b_lo = b % 2 ^ 32 in
    let b_hi = b / 2 ^ 32 in
    let p0 = a_lo * b_lo % 2 ^ 64 in
    let p1 = a_lo * b_hi % 2 ^ 64 in
    let p2 = a_hi * b_lo % 2 ^ 64 in
    let p3 = a_hi * b_hi % 2 ^ 64 in
    let mid = (p0 / 2 ^ 32 + p1 % 2 ^ 32 + p2 % 2 ^ 32) % 2 ^ 64 in
    ((p3 + p1 / 2 ^ 32 + p2 / 2 ^ 32 + mid / 2 ^ 32) % 2 ^ 64, p0 % 2 ^ 32 + mid * 2 ^ 32 % 2 ^ 64)

-- `__int128` of an `s64`.
unfoldable pub sext128 : ℕ → ℕ
sext128 x = if is_negative 64 x then x + 2 ^ 128 - 2 ^ 64 else x

unfoldable pub mult_s64 : ℕ → ℕ → ℕ × ℕ
mult_s64 a b = let r = sext128 a * sext128 b % 2 ^ 128 in (r / 2 ^ 64, r % 2 ^ 64)

unfoldable pub mult_s64_portable : ℕ → ℕ → ℕ × ℕ
mult_s64_portable a b =
    let (hi, lo) = mult_u64_portable (magnitude 64 a) (magnitude 64 b) in
    let lo' = (2 ^ 64 - lo) % 2 ^ 64 in
    let hi' = (2 ^ 64 - 1 - hi + (if lo' == 0 then 1 else 0)) % 2 ^ 64 in
    if same_sign (is_negative 64 a) (is_negative 64 b) then (hi, lo) else (hi', lo')

-- `num / den` and `num % den` of signed words of `w` bits: towards zero.
unfoldable pub quotient_signed : ℕ → ℕ → ℕ → ℕ
quotient_signed w num den =
    let q = magnitude w num / magnitude w den in
    if same_sign (is_negative w num) (is_negative w den) then q else negate w q

unfoldable pub remainder_signed : ℕ → ℕ → ℕ → ℕ
remainder_signed w num den =
    let r = magnitude w num % magnitude w den in if is_negative w num then negate w r else r
