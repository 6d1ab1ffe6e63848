-- ===== src/Vi/Picture.antt =====
-- src/vi/vi.cpp: the framebuffer in RDRAM as bytes of red, green, blue and opacity.
pub mod Packed
pub mod Sampled
use emulador_n64emu.Base.{
  ℕ, zero, suc, ◌+◌, ◌-◌, ◌*◌, ◌/◌, ◌%◌, ◌^◌, ◌≤◌, ◌<◌, min, max, bit_and, bit_or, bit_xor,
  bit_and-lt, bit_or-lt, bit_xor-lt, ◌==◌, ltb, leb, if◌then◌else◌, switch, ◌≡◌, ◌≢◌, ◌↔◌, ◌⊎◌, inl,
  inr, refl, sym, ap, ◌∙◌, subst, arith, Bool, Bool-cases, true, false, not, ◌&&◌, ◌||◌, Option,
  Option-cases, none, some, List, [], ◌∷◌, ◌++◌, map, length, get_or, set, replicate, ltb→lt,
  lt→ltb, leb→le, ==_iff, ==-ne, bit, has_bit, set_bit, clear_bit, low, ℕ_discrete, dec_lt, dec_le,
  update, if_true, if_false,
}
use emulador_n64emu.Bus.{Bus, word16}
use emulador_n64emu.Bus.Read.{read16_const, read32_const}
use emulador_n64emu.Vi.{Vi}

-- A colour by its channels, and as four bytes of the picture.
pub record Rgba : Type 0 where
  pub r : ℕ
  pub g : ℕ
  pub b : ℕ
  pub a : ℕ

abbrev pub bytes_of : Rgba → List ℕ
bytes_of c = c.r ∷ c.g ∷ c.b ∷ c.a ∷ []

-- Five bits as eight.
unfoldable pub expand5 : ℕ → ℕ
expand5 v = v * 8 + v / 4

unfoldable pub decode_5551 : ℕ → Rgba
decode_5551 p = record {
  r = expand5 (p / 2 ^ 11 % 32);
  g = expand5 (p / 2 ^ 6 % 32);
  b = expand5 (p / 2 % 32);
  a = if p % 2 == 0 then 0 else 0xff;
}

unfoldable pub decode_8888 : ℕ → Rgba
decode_8888 p = record {
  r = p / 2 ^ 24 % 2 ^ 8;
  g = p / 2 ^ 16 % 2 ^ 8;
  b = p / 2 ^ 8 % 2 ^ 8;
  a = p % 2 ^ 8;
}

-- An entry of `k5551Lut`, and the four bytes that are stored for it.
unfoldable pub rgba5551 : ℕ → ℕ
rgba5551 p = let c = decode_5551 p in c.r + c.g * 2 ^ 8 + c.b * 2 ^ 16 + c.a * 2 ^ 24

unfoldable pub unpack : ℕ → List ℕ
unpack rgba =
    (rgba % 2 ^ 8) ∷ (rgba / 2 ^ 8 % 2 ^ 8) ∷ (rgba / 2 ^ 16 % 2 ^ 8) ∷ (rgba / 2 ^ 24 % 2 ^ 8) ∷ []

unfoldable pub bytes_per_pixel : Vi → ℕ
bytes_per_pixel v =
    let format = v.regs 0 % 4 in if format == 2 then 2 else if format == 3 then 4 else 0

unfoldable pub fb_width : Vi → ℕ
fb_width v =
    let w = v.regs 2 % 2 ^ 12 in
    let start = v.regs 9 / 2 ^ 16 % 2 ^ 10 in
    let stop = v.regs 9 % 2 ^ 10 in min (if w == 0 && ltb start stop then stop - start else w) 640

unfoldable pub fb_height : Vi → ℕ
fb_height v =
    let start = v.regs 10 / 2 ^ 16 % 2 ^ 10 in
    let stop = v.regs 10 % 2 ^ 10 in
    let h = if ltb start stop then (stop - start) / 2 else 0 in min (if h == 0 then 240 else h) 480

unfoldable pub line_pitch_bytes : Vi → ℕ
line_pitch_bytes v = fb_width v * bytes_per_pixel v

-- `origin() & ~3`
abbrev pub origin : Vi → ℕ
origin v = v.regs 1 % 2 ^ 24 / 4 * 4

-- No picture.
unfoldable pub is_blank : Vi → Bool
is_blank v = bytes_per_pixel v == 0 || fb_width v == 0 || fb_height v == 0

abbrev pub pixel_addr : ℕ → ℕ → Vi → ℕ
pixel_addr x y v = (origin v + y * line_pitch_bytes v + x * bytes_per_pixel v) % 2 ^ 32

-- The loops over the pixels of a row and over the rows: the picture is filled in this order.
unfoldable pub pixel_loop : ℕ → ℕ → ℕ → (ℕ → ℕ → List ℕ) → List ℕ
pixel_loop zero x y pixel = []
pixel_loop (suc left) x y pixel = pixel x y ++ pixel_loop left (x + 1) y pixel

unfoldable pub row_loop : ℕ → ℕ → ℕ → (ℕ → ℕ → List ℕ) → List ℕ
row_loop zero y w pixel = []
row_loop (suc left) y w pixel = pixel_loop w 0 y pixel ++ row_loop left (y + 1) w pixel

abbrev pub picture : Vi → (ℕ → ℕ → List ℕ) → List ℕ
picture v pixel = row_loop (fb_height v) 0 (fb_width v) pixel

module _ {D : Type 0} (bus : Bus D) (v : Vi) where
  unfoldable pub sample_pixel : ℕ → ℕ → Option Rgba
  sample_pixel x y =
      let size = bus.rdram.size in
      let bpp = bytes_per_pixel v in
      let addr = pixel_addr x y v in
      if is_blank v || leb (fb_width v) x || leb (fb_height v) y
      then none
      else if ltb size ((addr + bpp) % 2 ^ 32) && leb size (origin v)
      then none
      else if bpp == 2
      then some (decode_5551 (read16_const addr bus))
      else some (decode_8888 (read32_const addr bus))

  -- The bodies of the loops: on RDRAM for both formats, and with reads of the bus.
  unfoldable pub copy_5551 : ℕ → ℕ → List ℕ
  copy_5551 x y =
      let addr = pixel_addr x y v in
      unpack (
        if ltb ((addr + 1) % 2 ^ 32) bus.rdram.size
        then rgba5551 (word16 bus.rdram.bytes addr)
        else 0xff00_0000)

  unfoldable pub copy_8888 : ℕ → ℕ → List ℕ
  copy_8888 x y =
      let addr = pixel_addr x y v in
      let bytes = bus.rdram.bytes in
      if ltb ((addr + 3) % 2 ^ 32) bus.rdram.size
      then bytes addr ∷ bytes (addr + 1) ∷ bytes (addr + 2) ∷ bytes (addr + 3) ∷ []
      else 0 ∷ 0 ∷ 0 ∷ 255 ∷ []

  unfoldable pub copy_sample : ℕ → ℕ → List ℕ
  copy_sample x y = elim (sample_pixel x y) [ some c ↦ bytes_of c | none ↦ 0 ∷ 0 ∷ 0 ∷ 255 ∷ [] ]

  unfoldable pub copy_framebuffer_rgba : Bool × List ℕ
  copy_framebuffer_rgba =
      let inside = not (bus.rdram.size == 0) && ltb (origin v) bus.rdram.size in
      if is_blank v
      then (false, [])
      else if inside && bytes_per_pixel v == 2
      then (true, picture v copy_5551)
      else if inside && bytes_per_pixel v == 4
      then (true, picture v copy_8888)
      else (true, picture v copy_sample)
