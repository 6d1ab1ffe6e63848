-- ===== src/Rdp/Pixel.antt =====
-- src/rcp/rdp/rdp.cpp: a pixel of the colour image. No caller passes a coordinate below 0.
use emulador_n64emu.Base.{
  ℕ, ◌+◌, ◌*◌, ◌/◌, ◌%◌, ◌^◌, ◌==◌, ltb, leb, if◌then◌else◌, Bool, true, false, not, ◌&&◌, ◌||◌,
  update,
}
use emulador_n64emu.Rdram.{Rdram}
use emulador_n64emu.Rdp.Raster.{Image, Raster}

unfoldable pub clip_point : ℕ → ℕ → Raster → Bool
clip_point x y r =
    let c = r.scissor in
    if c.is_set && (ltb x c.xh || leb c.xl x || ltb y c.yh || leb c.yl y)
    then false
    else not (r.color_image.valid && leb r.color_image.width x)

-- The address of a pixel of `bytes` bytes.
unfoldable pub pixel_addr : ℕ → ℕ → ℕ → Image → ℕ
pixel_addr x y bytes c = (c.address + y * c.width * bytes + x * bytes) % 2 ^ 32

-- The two and the four bytes of a pixel, where they are inside of RDRAM.
unfoldable pub put_half : ℕ → ℕ → Rdram → Rdram
put_half addr p m = if leb m.size ((addr + 1) % 2 ^ 32) then m else record m {
  bytes = update (update m.bytes addr (p / 2 ^ 8 % 2 ^ 8)) (addr + 1) (p % 2 ^ 8);
}

unfoldable pub put_word : ℕ → ℕ → Rdram → Rdram
put_word addr p m = if leb m.size ((addr + 3) % 2 ^ 32) then m else record m {
  bytes =
      update
        (update (update (update m.bytes addr (p / 2 ^ 24 % 2 ^ 8)) (addr + 1) (p / 2 ^ 16 % 2 ^ 8))
          (addr + 2) (p / 2 ^ 8 % 2 ^ 8))
        (addr + 3) (p % 2 ^ 8);
}

-- A pixel of 32 bits in 5551.
unfoldable pub downsample : ℕ → ℕ
downsample p =
    p / 2 ^ 24 % 2 ^ 8 / 8 * 2 ^ 11
    + p / 2 ^ 16 % 2 ^ 8 / 8 * 2 ^ 6
    + p / 2 ^ 8 % 2 ^ 8 / 8 * 2
    + (if p % 2 ^ 8 == 0 then 0 else 1)

-- What a pixel that is not clipped writes to RDRAM.
unfoldable pub put_pixel : ℕ → ℕ → ℕ → ℕ → Bool → Image → Rdram → Rdram
put_pixel x y pix16 pix32 use32 c m =
    if c.size == 2 && not use32
    then put_half (pixel_addr x y 2 c) pix16 m
    else if c.size == 3 || use32
    then if c.size == 2
      then put_half (pixel_addr x y 2 c) (downsample pix32) m
      else put_word (pixel_addr x y 4 c) pix32 m
    else m

unfoldable pub write_color_pixel : ℕ → ℕ → ℕ → ℕ → Bool → Raster → Raster
write_color_pixel x y pix16 pix32 use32 r =
    if r.color_image.valid && clip_point x y r && not (r.rdram.size == 0)
    then record r { rdram = put_pixel x y pix16 pix32 use32 r.color_image r.rdram }
    else r

abbrev counted : Raster → Raster
counted r = record r { fill_pixels = (r.fill_pixels + 1) % 2 ^ 64 }

unfoldable pub write_fill_pixel : ℕ → ℕ → Raster → Raster
write_fill_pixel x y r =
    let upper = pixel_addr x y 2 r.color_image / 2 % 2 == 0 in
    let pix = if upper then r.fill_color / 2 ^ 16 % 2 ^ 16 else r.fill_color % 2 ^ 16 in
    if r.color_image.valid && clip_point x y r
    then if r.color_image.size == 2
      then counted (write_color_pixel x y pix 0 false r)
      else if r.color_image.size == 3
      then counted (write_color_pixel x y 0 r.fill_color true r)
      else r
    else r
