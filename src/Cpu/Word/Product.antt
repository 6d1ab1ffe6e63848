-- ===== src/Cpu/Word/Product.antt =====
-- The portable products are those of a 128-bit type.
use emulador_n64emu.Base.{ℕ, ◌+◌, ◌*◌, ◌/◌, ◌%◌, ◌^◌, ◌≤◌, ◌<◌, ◌≡◌, ap, ◌∙◌, arith}
use native.Mathlib.Nat.{add-mul, mul-add, mul-le-mul}
use emulador_n64emu.Cpu.Word.{mult_u64, mult_u64_portable}

-- What four partial products of halves and their carries make.
module _ (x p0 p1 p2 p3 : ℕ) where
  combined :
      p0 ≤ 0xffff_ffff * 0xffff_ffff
      → p1 ≤ 0xffff_ffff * 0xffff_ffff
      → p2 ≤ 0xffff_ffff * 0xffff_ffff
      → p3 ≤ 0xffff_ffff * 0xffff_ffff
      → x ≡ p3 * 2 ^ 64 + (p1 + p2) * 2 ^ 32 + p0
      → let q0 = p0 % 2 ^ 64 in
        let q1 = p1 % 2 ^ 64 in
        let q2 = p2 % 2 ^ 64 in
        let q3 = p3 % 2 ^ 64 in
        let mid = (q0 / 2 ^ 32 + q1 % 2 ^ 32 + q2 % 2 ^ 32) % 2 ^ 64 in
        ((q3 + q1 / 2 ^ 32 + q2 / 2 ^ 32 + mid / 2 ^ 32) % 2 ^ 64 ≡ x / 2 ^ 64 % 2 ^ 64)
        × (q0 % 2 ^ 32 + mid * 2 ^ 32 % 2 ^ 64 ≡ x % 2 ^ 64)
  combined h0 h1 h2 h3 e = (omega (arith, e), omega (arith, e))

expand :
    (ah al bh bl : ℕ)
    → (ah * 2 ^ 32 + al) * (bh * 2 ^ 32 + bl)
      ≡ ah * bh * 2 ^ 64 + (al * bh + ah * bl) * 2 ^ 32 + al * bl
expand ah al bh bl = omega (
  arith,
  add-mul (ah * 2 ^ 32) al (bh * 2 ^ 32 + bl),
  mul-add (ah * 2 ^ 32) (bh * 2 ^ 32) bl,
  mul-add al (bh * 2 ^ 32) bl,
)

halves : (a b : ℕ) → a * b ≡ (a / 2 ^ 32 * 2 ^ 32 + a % 2 ^ 32) * (b / 2 ^ 32 * 2 ^ 32 + b % 2 ^ 32)
halves a b =
    let split : (x : ℕ) → x ≡ x / 2 ^ 32 * 2 ^ 32 + x % 2 ^ 32 = λ x. omega arith in
    ap (λ x. x * b) (split a) ∙ ap (λ y. (a / 2 ^ 32 * 2 ^ 32 + a % 2 ^ 32) * y) (split b)

below : (a b m n : ℕ) → a ≤ m → b ≤ n → a * b ≤ m * n
below a b m n p q = mul-le-mul p q

-- The 64-bit product without a 128-bit type is that with one.
pub mult_u64_portable_lem :
    (a b : ℕ) → a < 2 ^ 64 → b < 2 ^ 64 → mult_u64_portable a b ≡ mult_u64 a b
unfolding mult_u64_portable mult_u64
mult_u64_portable_lem a b p q =
    let ah = a / 2 ^ 32 in
    let al = a % 2 ^ 32 in
    let bh = b / 2 ^ 32 in
    let bl = b % 2 ^ 32 in
    let whole : a * b ≡ (ah * 2 ^ 32 + al) * (bh * 2 ^ 32 + bl) = halves a b in
    let m : ℕ = 0xffff_ffff in
    let (hi, lo) =
      combined (a * b) (al * bl) (al * bh) (ah * bl) (ah * bh)
        (below al bl m m (omega arith) (omega arith)) (below al bh m m (omega arith) (omega arith))
        (below ah bl m m (omega arith) (omega arith)) (below ah bh m m (omega arith) (omega arith))
        (whole ∙ expand ah al bh bl) in
    ap
      (λ h. (
        h,
        al * bl % 2 ^ 64 % 2 ^ 32
            + (al * bl % 2 ^ 64 / 2 ^ 32 + al * bh % 2 ^ 64 % 2 ^ 32 + ah * bl % 2 ^ 64 % 2 ^ 32)
              % 2 ^ 64
              * 2 ^ 32
              % 2 ^ 64,
      ))
      hi
    ∙ ap (λ l. (a * b / 2 ^ 64 % 2 ^ 64, l)) lo
