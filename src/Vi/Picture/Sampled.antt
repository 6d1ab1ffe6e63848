-- ===== src/Vi/Picture/Sampled.antt =====
-- The copy of a picture on RDRAM is that of the single samples, which read the bus.
use emulador_n64emu.Base.{
  ℕ, ◌+◌, ◌*◌, ◌%◌, ◌^◌, ◌≤◌, ◌<◌, ◌==◌, ltb, leb, if◌then◌else◌, ◌≡◌, ◌⊎◌, inl, inr, sym, ap, ◌∙◌,
  arith, Bool, Bool-cases, true, false, not, ◌&&◌, ◌||◌, Option, none, some, List, [], ◌∷◌, ==_iff,
  ==-ne, if_true, if_false,
}
use native.Mathlib.Nat.{mul-le-mul, add-mul, mod-eq_of_lt}
use emulador_n64emu.Bus.{Bus, physical, in_rdram, word16, word32}
use emulador_n64emu.Bus.Read.{read16_const, read32_const}
use emulador_n64emu.Vi.{Vi}
use emulador_n64emu.Vi.Picture.{
  Rgba, bytes_of, decode_5551, decode_8888, unpack, bytes_per_pixel, fb_width, fb_height,
  line_pitch_bytes, origin, is_blank, pixel_addr, picture, sample_pixel, copy_5551, copy_8888,
  copy_sample, copy_framebuffer_rgba,
}
use emulador_n64emu.Vi.Picture.Packed.{row_loop-ext, unpack-rgba5551, decode-word32}

-- A pixel at column `x` of `w` and row `y` of `h` ends inside of what the picture takes.
pixel_end :
    (o x y w h bpp size : ℕ)
    → x < w
    → y < h
    → w ≤ 640
    → h ≤ 480
    → bpp ≤ 4
    → o < 2 ^ 24
    → o + h * (w * bpp) ≤ size
    → ((o + y * (w * bpp) + x * bpp) % 2 ^ 32 + bpp ≤ size)
      × ((o + y * (w * bpp) + x * bpp) % 2 ^ 32 + bpp < 0x03f0_0000)
pixel_end o x y w h bpp size hx hy hw hh hb ho fits =
    let column : (x + 1) * bpp ≤ w * bpp = mul-le-mul (omega arith) (omega arith) in
    let row : (y + 1) * (w * bpp) ≤ h * (w * bpp) = mul-le-mul (omega arith) (omega arith) in
    let line : w * bpp ≤ 640 * 4 = mul-le-mul hw hb in
    let all : h * (w * bpp) ≤ 480 * (640 * 4) = mul-le-mul hh line in
    let e1 = add-mul x 1 bpp in
    let e2 = add-mul y 1 (w * bpp) in
    (omega (arith, column, row, all, e1, e2, ho, fits), omega (arith, column, row, all, e1, e2, ho))

fb_width-le : (v : Vi) → fb_width v ≤ 640
unfolding fb_width
fb_width-le v = omega arith

fb_height-le : (v : Vi) → fb_height v ≤ 480
unfolding fb_height
fb_height-le v = omega arith

bytes_per_pixel-le : (v : Vi) → bytes_per_pixel v ≤ 4
unfolding bytes_per_pixel
bytes_per_pixel-le v = ground arith

bytes_per_pixel-cases :
    (v : Vi) → (bytes_per_pixel v ≡ 0) ⊎ (bytes_per_pixel v ≡ 2) ⊎ (bytes_per_pixel v ≡ 4)
unfolding bytes_per_pixel
bytes_per_pixel-cases v = ground arith

module _ {D : Type 0} (bus : Bus D) (addr : ℕ) (below : addr < 0x03f0_0000) where
  at_itself : physical addr ≡ addr
  at_itself = omega (arith, below)

  low_address : in_rdram (physical addr) ≡ true
  unfolding in_rdram
  low_address = ground (arith, at_itself, below)

  read16-inside : addr + 1 < bus.rdram.size → read16_const addr bus ≡ word16 bus.rdram.bytes addr
  unfolding read16_const
  read16-inside fits =
      let p = physical addr in
      let off : p % bus.rdram.size ≡ addr =
        ap (λ a. a % bus.rdram.size) at_itself ∙ mod-eq_of_lt (omega arith) in
      let taken : (in_rdram p
            && not (bus.rdram.size == 0)
            && ltb (p % bus.rdram.size + 1) bus.rdram.size)
          ≡ true =
        ground (arith, low_address, off) in
      if_true _ _ taken ∙ ap (word16 bus.rdram.bytes) off

  read32-inside : addr + 3 < bus.rdram.size → read32_const addr bus ≡ word32 bus.rdram.bytes addr
  unfolding read32_const
  read32-inside fits =
      let p = physical addr in
      let off : p % bus.rdram.size ≡ addr =
        ap (λ a. a % bus.rdram.size) at_itself ∙ mod-eq_of_lt (omega arith) in
      let taken : (in_rdram p
            && not (bus.rdram.size == 0)
            && ltb (p % bus.rdram.size + 3) bus.rdram.size)
          ≡ true =
        ground (arith, low_address, off) in
      if_true _ _ taken ∙ ap (word32 bus.rdram.bytes) off

module _ {D : Type 0} (bus : Bus D) (v : Vi)
    (fits : origin v + fb_height v * line_pitch_bytes v ≤ bus.rdram.size) where
  inside :
      (x y : ℕ)
      → x < fb_width v
      → y < fb_height v
      → (pixel_addr x y v + bytes_per_pixel v ≤ bus.rdram.size)
        × (pixel_addr x y v + bytes_per_pixel v < 0x03f0_0000)
  unfolding line_pitch_bytes
  inside x y hx hy =
      pixel_end (origin v) x y (fb_width v) (fb_height v) (bytes_per_pixel v) bus.rdram.size hx hy
        (fb_width-le v) (fb_height-le v) (bytes_per_pixel-le v) (omega arith) fits

  module _ (shown : is_blank v ≡ false) (x y : ℕ) (hx : x < fb_width v) (hy : y < fb_height v) where
    -- Neither guard of a sample holds.
    sampled : sample_pixel bus v x y ≡ (
        if bytes_per_pixel v == 2
        then some (decode_5551 (read16_const (pixel_addr x y v) bus))
        else some (decode_8888 (read32_const (pixel_addr x y v) bus)))
    unfolding sample_pixel
    sampled =
        let addr = pixel_addr x y v in
        let (ends, below) = inside x y hx hy in
        let there : (is_blank v || leb (fb_width v) x || leb (fb_height v) y) ≡ false =
          ground (arith, shown) in
        let end : (addr + bytes_per_pixel v) % 2 ^ 32 ≡ addr + bytes_per_pixel v =
          omega (arith, below) in
        let reached : (ltb bus.rdram.size ((addr + bytes_per_pixel v) % 2 ^ 32)
              && leb bus.rdram.size (origin v))
            ≡ false =
          ground (arith, end, ends) in
        if_false _ _ there ∙ if_false _ _ reached

    copied : (c : Rgba) → sample_pixel bus v x y ≡ some c → copy_sample bus v x y ≡ bytes_of c
    unfolding copy_sample
    copied c e =
        ap (λ (o : Option Rgba). elim o [ some k ↦ bytes_of k | none ↦ 0 ∷ 0 ∷ 0 ∷ 255 ∷ [] ]) e

    copy_5551-sample : bytes_per_pixel v ≡ 2 → copy_5551 bus v x y ≡ copy_sample bus v x y
    unfolding copy_5551
    copy_5551-sample two =
        let addr = pixel_addr x y v in
        let (ends, below) = inside x y hx hy in
        let taken : ltb ((addr + 1) % 2 ^ 32) bus.rdram.size ≡ true =
          ground (arith, below, ends, two) in
        let read = read16-inside bus addr (omega (arith, below)) (omega (arith, ends, two)) in
        let sample : sample_pixel bus v x y ≡ some (decode_5551 (word16 bus.rdram.bytes addr)) =
          sampled
          ∙ if_true _ _ ((==_iff (bytes_per_pixel v) 2).1 two)
          ∙ ap (λ p. some (decode_5551 p)) read in
        ap unpack (if_true _ _ taken)
        ∙ unpack-rgba5551 (word16 bus.rdram.bytes addr)
        ∙ sym (copied _ sample)

    copy_8888-sample :
        bytes_per_pixel v ≡ 4
        → ((a : ℕ) → bus.rdram.bytes a < 256)
        → copy_8888 bus v x y ≡ copy_sample bus v x y
    unfolding copy_8888
    copy_8888-sample four small =
        let addr = pixel_addr x y v in
        let (ends, below) = inside x y hx hy in
        let taken : ltb ((addr + 3) % 2 ^ 32) bus.rdram.size ≡ true =
          ground (arith, below, ends, four) in
        let read = read32-inside bus addr (omega (arith, below)) (omega (arith, ends, four)) in
        let sample : sample_pixel bus v x y ≡ some (decode_8888 (word32 bus.rdram.bytes addr)) =
          sampled
          ∙ if_false _ _ (==-ne (bytes_per_pixel v) 2 (λ two. absurd (omega (arith, two, four))))
          ∙ ap (λ p. some (decode_8888 p)) read in
        if_true _ _ taken ∙ sym (copied _ sample ∙ decode-word32 bus.rdram.bytes addr small)

-- Where the format, the width and the height are not 0, RDRAM holds bytes, and the picture ends inside
-- of RDRAM: the copy of the framebuffer, whichever of its paths it takes, is the picture that the
-- samples of its pixels give, four bytes for each, row by row.
pub copy_framebuffer_rgba-sample_pixel :
    {D : Type 0} (bus : Bus D) (v : Vi)
    → is_blank v ≡ false
    → origin v + fb_height v * line_pitch_bytes v ≤ bus.rdram.size
    → ((a : ℕ) → bus.rdram.bytes a < 256)
    → copy_framebuffer_rgba bus v ≡ (true, picture v (copy_sample bus v))
unfolding copy_framebuffer_rgba
copy_framebuffer_rgba-sample_pixel bus v shown fits small =
    let reaches = not (bus.rdram.size == 0) && ltb (origin v) bus.rdram.size in
    let same : (f : ℕ → ℕ → List ℕ)
        → ((i j : ℕ) → i < fb_width v → j < fb_height v → f i j ≡ copy_sample bus v i j)
        → picture v f ≡ picture v (copy_sample bus v) =
      λ f h.
        row_loop-ext f (copy_sample bus v) (fb_height v) 0 (fb_width v) (fb_height v) (omega arith)
          h in
    if_false _ _ shown ∙ (elim (Bool-cases (reaches && bytes_per_pixel v == 2)) [
      | inl e ↦
          if_true _ _ e
          ∙ ap {B = Bool × List ℕ} (λ l. (true, l))
              (same (copy_5551 bus v)
                (λ i j hi hj. copy_5551-sample bus v fits shown i j hi hj (ground (arith, e))))
      | inr n ↦ if_false _ _ n ∙ (elim (Bool-cases (reaches && bytes_per_pixel v == 4)) [
        | inl e ↦
            if_true _ _ e
            ∙ ap {B = Bool × List ℕ} (λ l. (true, l))
                (same (copy_8888 bus v) (λ i j hi hj.
                  copy_8888-sample bus v fits shown i j hi hj (ground (arith, e)) small))
        | inr m ↦ if_false _ _ m
      ])
    ])
