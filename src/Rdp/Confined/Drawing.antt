-- ===== src/Rdp/Confined/Drawing.antt =====
-- The pixels and rectangles that a command draws keep the RDRAM outside of the colour image.
use emulador_n64emu.Base.{
  ℕ, zero, suc, ◌+◌, ◌-◌, ◌/◌, ◌%◌, ◌^◌, ◌≤◌, ◌<◌, ◌==◌, if◌then◌else◌, ◌≡◌, inl, inr, sym, subst,
  arith, Bool, Bool-cases, true, false, not, ◌&&◌, Option, none, some, if_true, if_false,
}
use emulador_n64emu.Cpu.Word.{shift_right_signed}
use emulador_n64emu.Rdram.{Rdram}
use emulador_n64emu.Rdp.Raster.{Image, Raster, field}
use emulador_n64emu.Rdp.Texture.{sample_tile}
use emulador_n64emu.Rdp.Pixel.{
  clip_point, pixel_addr, put_pixel, write_color_pixel, write_fill_pixel,
}
use emulador_n64emu.Rdp.Draw.{
  Sides, sides_of, fill_row, fill_rows, write_texel, Texturing, texture_row, texture_rows,
}
use emulador_n64emu.Rdp.Confined.{IsBounded, IsKept, put_pixel-IsKept}

-- The colour image is still `c`, and RDRAM differs from `m` in its bytes only.
pub record Draws (c : Image) (m : Rdram) (r : Raster) : Type 0 where
  pub same_image : r.color_image ≡ c
  pub kept : IsKept c m r.rdram

clip_point-lt :
    (x y : ℕ) (r : Raster)
    → (r.color_image.valid && clip_point x y r && not (r.rdram.size == 0)) ≡ true
    → x < r.color_image.width
unfolding clip_point
clip_point-lt x y r h = ground arith

module _ (c : Image) (b : IsBounded c) (m : Rdram) where
  pub Draws-if :
      (t : Bool) (r s : Raster) → Draws c m r → Draws c m s → Draws c m (if t then r else s)
  Draws-if true r s h k = h
  Draws-if false r s h k = k

  write_color_pixel-Draws :
      (x y pix16 pix32 : ℕ) (use32 : Bool) (r : Raster)
      → y ≤ 1024
      → Draws c m r
      → Draws c m (write_color_pixel x y pix16 pix32 use32 r)
  unfolding write_color_pixel
  write_color_pixel-Draws x y pix16 pix32 use32 r hy h =
      elim (Bool-cases (r.color_image.valid && clip_point x y r && not (r.rdram.size == 0))) [
        | inl e ↦
            let x_fits = subst (λ i. x < i.width) h.same_image (clip_point-lt x y r e) in
            subst (Draws c m) (sym (if_true _ _ e)) (record {
              same_image = h.same_image;
              kept =
                  subst (λ i. IsKept c m (put_pixel x y pix16 pix32 use32 i r.rdram))
                    (sym h.same_image)
                    (put_pixel-IsKept c b m x y pix16 pix32 use32 r.rdram x_fits hy h.kept);
            })
        | inr e ↦ subst (Draws c m) (sym (if_false _ _ e)) h
      ]

  write_fill_pixel-Draws :
      (x y : ℕ) (r : Raster) → y ≤ 1024 → Draws c m r → Draws c m (write_fill_pixel x y r)
  unfolding write_fill_pixel
  write_fill_pixel-Draws x y r hy h =
      let upper = pixel_addr x y 2 r.color_image / 2 % 2 == 0 in
      let pix = if upper then r.fill_color / 2 ^ 16 % 2 ^ 16 else r.fill_color % 2 ^ 16 in
      let half = write_color_pixel-Draws x y pix 0 false r hy h in
      let word = write_color_pixel-Draws x y 0 r.fill_color true r hy h in
      Draws-if (r.color_image.valid && clip_point x y r) _ _
        (Draws-if (r.color_image.size == 2) _ _
          (record { same_image = half.same_image; kept = half.kept })
          (Draws-if (r.color_image.size == 3) _ _
            (record { same_image = word.same_image; kept = word.kept }) h))
        h

  fill_row-Draws :
      (left x y : ℕ) (r : Raster) → y ≤ 1024 → Draws c m r → Draws c m (fill_row left x y r)
  unfolding fill_row
  fill_row-Draws zero x y r hy h = h
  fill_row-Draws (suc left) x y r hy h =
      fill_row-Draws left (x + 1) y _ hy (write_fill_pixel-Draws x y r hy h)

  pub fill_rows-Draws :
      (left y : ℕ) (q : Sides) (r : Raster)
      → y + left ≤ 1024
      → Draws c m r
      → Draws c m (fill_rows left y q r)
  unfolding fill_rows
  fill_rows-Draws zero y q r hy h = h
  fill_rows-Draws (suc left) y q r hy h =
      fill_rows-Draws left (y + 1) q _ (omega arith)
        (fill_row-Draws (q.to_x - q.from_x) q.from_x y r (omega arith) h)

  write_texel-Draws :
      (tile_idx s_fx t_fx x y : ℕ) (r : Raster)
      → y ≤ 1024
      → Draws c m r
      → Draws c m (write_texel tile_idx s_fx t_fx x y r)
  unfolding write_texel
  write_texel-Draws tile_idx s_fx t_fx x y r hy h =
      texel (sample_tile tile_idx (shift_right_signed 32 s_fx 5) (shift_right_signed 32 t_fx 5) r)
    where
      texel :
          (o : Option (Bool × ℕ))
          → Draws c m (elim o [
            | some (is32, texel) ↦
                record (write_color_pixel x y
                  (if is32 then 0 else texel)
                  (if is32 then texel else 0)
                  is32
                  r) { tex_pixels = (r.tex_pixels + 1) % 2 ^ 64 }
            | none ↦ r
          ])
      texel (some (is32, v)) =
          let drawn =
            write_color_pixel-Draws x y (if is32 then 0 else v) (if is32 then v else 0) is32 r hy
              h in
          record { same_image = drawn.same_image; kept = drawn.kept }
      texel none = h

  texture_row-Draws :
      (left x y s_fx t_fx : ℕ) (t : Texturing) (r : Raster)
      → y ≤ 1024
      → Draws c m r
      → Draws c m (texture_row left x y s_fx t_fx t r)
  unfolding texture_row
  texture_row-Draws zero x y s_fx t_fx t r hy h = h
  texture_row-Draws (suc left) x y s_fx t_fx t r hy h =
      texture_row-Draws left (x + 1) y _ t_fx t _ hy
        (write_texel-Draws t.tile_idx s_fx t_fx x y r hy h)

  pub texture_rows-Draws :
      (left y t_fx : ℕ) (q : Sides) (t : Texturing) (r : Raster)
      → y + left ≤ 1024
      → Draws c m r
      → Draws c m (texture_rows left y t_fx q t r)
  unfolding texture_rows
  texture_rows-Draws zero y t_fx q t r hy h = h
  texture_rows-Draws (suc left) y t_fx q t r hy h =
      texture_rows-Draws left (y + 1) _ q t _ (omega arith)
        (texture_row-Draws (q.to_x - q.from_x) q.from_x y t.s0_fx t_fx t r (omega arith) h)

pub sides_of-fits : (cmd : ℕ) → let q = sides_of cmd in q.from_y + (q.to_y - q.from_y) ≤ 1024
unfolding sides_of field
sides_of-fits cmd = ground arith
