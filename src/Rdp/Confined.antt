-- ===== src/Rdp/Confined.antt =====
-- The commands of the RDP write RDRAM from the colour image on and inside of its size only.
pub mod Drawing
pub mod Command
use emulador_n64emu.Base.{
  ℕ, zero, suc, ◌+◌, ◌-◌, ◌*◌, ◌/◌, ◌%◌, ◌^◌, ◌≤◌, ◌<◌, min, max, bit_and, bit_or, bit_xor,
  bit_and-lt, bit_or-lt, bit_xor-lt, ◌==◌, ltb, leb, if◌then◌else◌, switch, ◌≡◌, ◌≢◌, ◌↔◌, ◌⊎◌, inl,
  inr, refl, sym, ap, ◌∙◌, subst, arith, Bool, Bool-cases, true, false, not, ◌&&◌, ◌||◌, Option,
  Option-cases, none, some, List, [], ◌∷◌, ◌++◌, map, length, get_or, set, replicate, ltb→lt,
  lt→ltb, leb→le, ==_iff, ==-ne, bit, has_bit, set_bit, clear_bit, low, ℕ_discrete, dec_lt, dec_le,
  update, if_true, if_false,
}
use native.Mathlib.Nat.{mul-le-mul}
use emulador_n64emu.Rdram.{Rdram}
use emulador_n64emu.Rdp.Raster.{Image, image_of, field}
use emulador_n64emu.Rdp.Pixel.{pixel_addr, put_half, put_word, put_pixel, downsample}

-- What a command leaves for the colour image, whose addresses then fit in 32 bits.
pub record IsBounded (c : Image) : Type 0 where
  pub address_fits : c.address < 2 ^ 26
  pub width_fits : c.width ≤ 1024

pub image_of-IsBounded : (cmd : ℕ) → IsBounded (image_of cmd)
unfolding image_of field
image_of-IsBounded cmd = record { address_fits = omega arith; width_fits = omega arith }

-- The bytes in front of the image and past the memory.
abbrev pub Outside : Image → Rdram → ℕ → Type 0
Outside c m a = (a < c.address) ⊎ (m.size ≤ a)

pub record IsKept (c : Image) (m : Rdram) (m' : Rdram) : Type 0 where
  pub same_size : m'.size ≡ m.size
  pub same_byte : (a : ℕ) → Outside c m a → m'.bytes a ≡ m.bytes a

apart :
    (c : Image) (m : Rdram) (a k : ℕ) → Outside c m a → c.address ≤ k → k < m.size → a == k ≡ false
apart c m a k (inl h) low high = ==-ne a k (λ e. absurd (omega (arith, h, low, e)))
apart c m a k (inr h) low high = ==-ne a k (λ e. absurd (omega (arith, h, high, e)))

module _ (c : Image) (m₀ : Rdram) where
  IsKept-if :
      (b : Bool) (m n : Rdram) → IsKept c m₀ m → IsKept c m₀ n → IsKept c m₀ (if b then m else n)
  IsKept-if true m n h k = h
  IsKept-if false m n h k = k

  put_byte-IsKept :
      (k v : ℕ) (m : Rdram)
      → c.address ≤ k
      → k < m₀.size
      → IsKept c m₀ m
      → IsKept c m₀ (record m { bytes = update m.bytes k v })
  put_byte-IsKept k v m low high h = record {
    same_size = h.same_size;
    same_byte = λ a out. if_false _ _ (apart c m₀ a k out low high) ∙ h.same_byte a out;
  }

  put_half-IsKept :
      (addr p : ℕ) (m : Rdram)
      → c.address ≤ addr
      → addr + 4 < 2 ^ 32
      → IsKept c m₀ m
      → IsKept c m₀ (put_half addr p m)
  unfolding put_half
  put_half-IsKept addr p m low fits h = elim (Bool-cases (leb m.size ((addr + 1) % 2 ^ 32))) [
    | inl e ↦ subst (IsKept c m₀) (sym (if_true _ _ e)) h
    | inr e ↦
        let size = h.same_size in
        let inside : addr + 1 < m₀.size = ground arith in
        subst (IsKept c m₀) (sym (if_false _ _ e)) (
          put_byte-IsKept (addr + 1) _ _ (omega arith) inside
            (put_byte-IsKept addr _ m low (omega arith) h))
  ]

  put_word-IsKept :
      (addr p : ℕ) (m : Rdram)
      → c.address ≤ addr
      → addr + 4 < 2 ^ 32
      → IsKept c m₀ m
      → IsKept c m₀ (put_word addr p m)
  unfolding put_word
  put_word-IsKept addr p m low fits h = elim (Bool-cases (leb m.size ((addr + 3) % 2 ^ 32))) [
    | inl e ↦ subst (IsKept c m₀) (sym (if_true _ _ e)) h
    | inr e ↦
        let size = h.same_size in
        let inside : addr + 3 < m₀.size = ground arith in
        subst (IsKept c m₀) (sym (if_false _ _ e)) (
          put_byte-IsKept (addr + 3) _ _ (omega arith) inside (
            put_byte-IsKept (addr + 2) _ _ (omega arith) (omega arith) (
              put_byte-IsKept (addr + 1) _ _ (omega arith) (omega arith)
                (put_byte-IsKept addr _ m low (omega arith) h))))
  ]

module _ (c : Image) (b : IsBounded c) where
  -- The address of a pixel does not wrap.
  pixel_addr-fits :
      (x y n : ℕ)
      → x < c.width
      → y ≤ 1024
      → n ≤ 4
      → (c.address ≤ pixel_addr x y n c) × (pixel_addr x y n c + 4 < 2 ^ 32)
  unfolding pixel_addr
  pixel_addr-fits x y n hx hy hn =
      let line : y * c.width ≤ 1024 * 1024 = mul-le-mul hy b.width_fits in
      let rows : y * c.width * n ≤ 1024 * 1024 * 4 = mul-le-mul line hn in
      let before : x ≤ 1024 = omega (arith, hx, b.width_fits) in
      let column : x * n ≤ 1024 * 4 = mul-le-mul before hn in
      let address = b.address_fits in
      (omega (arith, rows, column, address), omega (arith, rows, column, address))

  pub put_pixel-IsKept :
      (m₀ : Rdram) (x y pix16 pix32 : ℕ) (use32 : Bool) (m : Rdram)
      → x < c.width
      → y ≤ 1024
      → IsKept c m₀ m
      → IsKept c m₀ (put_pixel x y pix16 pix32 use32 c m)
  unfolding put_pixel
  put_pixel-IsKept m₀ x y pix16 pix32 use32 m hx hy h =
      let (low2, fits2) = pixel_addr-fits x y 2 hx hy (omega arith) in
      let (low4, fits4) = pixel_addr-fits x y 4 hx hy (omega arith) in
      let half = λ (p : ℕ). put_half-IsKept c m₀ (pixel_addr x y 2 c) p m low2 fits2 h in
      IsKept-if c m₀ (c.size == 2 && not use32) _ _ (half pix16) (
        IsKept-if c m₀ (c.size == 3 || use32) _ _
          (IsKept-if c m₀ (c.size == 2) _ _ (half (downsample pix32))
            (put_word-IsKept c m₀ (pixel_addr x y 4 c) pix32 m low4 fits4 h))
          h)
