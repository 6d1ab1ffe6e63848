-- ===== src/Cpu/Word/Overflow.antt =====
-- The overflow tests are exact.
use emulador_n64emu.Base.{
  ℕ, ◌+◌, ◌-◌, ◌%◌, ◌^◌, ◌<◌, ltb, leb, if◌then◌else◌, ◌≡◌, arith, Bool, not, ◌&&◌,
}
use emulador_n64emu.Cpu.Word.{
  sext, add64, sub64, is_negative, less_signed, add_overflow_s32, sub_overflow_s32,
  add_overflow_s64, sub_overflow_s64,
}

-- A signed word of `w` bits above the least one: its value plus `2 ^ (w - 1)`.
abbrev pub above_least : ℕ → ℕ → ℕ
above_least w x = if is_negative w x then x - 2 ^ (w - 1) else x + 2 ^ (w - 1)

-- The sum of two signed values is that of a word.
abbrev pub sum_fits : ℕ → ℕ → ℕ → Bool
sum_fits w a b =
    let sum = above_least w a + above_least w b in
    leb (2 ^ (w - 1)) sum && ltb sum (2 ^ (w - 1) + 2 ^ w)

-- The difference of two signed values is that of a word.
abbrev pub difference_fits : ℕ → ℕ → ℕ → Bool
difference_fits w a b =
    let least = above_least w b in
    leb least (above_least w a + 2 ^ (w - 1)) && ltb (above_least w a) (least + 2 ^ (w - 1))

pub add_overflow_s64_lem :
    (a b : ℕ)
    → a < 2 ^ 64
    → b < 2 ^ 64
    → ((add_overflow_s64 a b).0 ≡ not (sum_fits 64 a b))
      × ((add_overflow_s64 a b).1 ≡ (if sum_fits 64 a b then add64 a b else 0))
unfolding add_overflow_s64 less_signed sub64 is_negative
add_overflow_s64_lem a b p q = (ground arith, ground arith)

pub sub_overflow_s64_lem :
    (a b : ℕ)
    → a < 2 ^ 64
    → b < 2 ^ 64
    → ((sub_overflow_s64 a b).0 ≡ not (difference_fits 64 a b))
      × ((sub_overflow_s64 a b).1 ≡ (if difference_fits 64 a b then sub64 a b else 0))
unfolding sub_overflow_s64 less_signed add64 is_negative
sub_overflow_s64_lem a b p q = (ground arith, ground arith)

pub add_overflow_s32_lem :
    (a b : ℕ)
    → a < 2 ^ 32
    → b < 2 ^ 32
    → ((add_overflow_s32 a b).0 ≡ not (sum_fits 32 a b))
      × ((add_overflow_s32 a b).1 ≡ (a + b) % 2 ^ 32)
unfolding add_overflow_s32 sext add64 is_negative
add_overflow_s32_lem a b p q = (ground arith, ground arith)

pub sub_overflow_s32_lem :
    (a b : ℕ)
    → a < 2 ^ 32
    → b < 2 ^ 32
    → ((sub_overflow_s32 a b).0 ≡ not (difference_fits 32 a b))
      × ((sub_overflow_s32 a b).1 ≡ (a + 2 ^ 32 - b) % 2 ^ 32)
unfolding sub_overflow_s32 sext sub64 is_negative
sub_overflow_s32_lem a b p q = (ground arith, ground arith)
