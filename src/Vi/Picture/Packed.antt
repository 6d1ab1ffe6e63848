-- ===== src/Vi/Picture/Packed.antt =====
-- The loops over a picture, and the four bytes of a pixel.
use emulador_n64emu.Base.{
  ℕ, zero, suc, ◌+◌, ◌*◌, ◌/◌, ◌%◌, ◌^◌, ◌≤◌, ◌<◌, ◌≡◌, refl, arith, List, [], ◌∷◌,
}
use emulador_n64emu.Bus.{word32}
use emulador_n64emu.Vi.Picture.{
  bytes_of, expand5, decode_5551, decode_8888, rgba5551, unpack, pixel_loop, row_loop,
}

-- The pictures of two pixel functions that agree are the same.
pixel_loop-ext :
    (f g : ℕ → ℕ → List ℕ) (left x y w : ℕ)
    → x + left ≤ w
    → ((i : ℕ) → i < w → f i y ≡ g i y)
    → pixel_loop left x y f ≡ pixel_loop left x y g
unfolding pixel_loop
pixel_loop-ext f g zero x y w fits same = refl
pixel_loop-ext f g (suc left) x y w fits same =
    rw
      (same x (omega (arith, fits)), pixel_loop-ext f g left (x + 1) y w (omega (arith, fits)) same)
      refl

pub row_loop-ext :
    (f g : ℕ → ℕ → List ℕ) (left y w h : ℕ)
    → y + left ≤ h
    → ((i j : ℕ) → i < w → j < h → f i j ≡ g i j)
    → row_loop left y w f ≡ row_loop left y w g
unfolding row_loop
row_loop-ext f g zero y w h fits same = refl
row_loop-ext f g (suc left) y w h fits same =
    let row =
      pixel_loop-ext f g w 0 y w (omega arith) (λ i less. same i y less (omega (arith, fits))) in
    rw (row, row_loop-ext f g left (y + 1) w h (omega (arith, fits)) same) refl

-- Four bytes packed into a word and taken out again.
unpacked :
    (r g b a : ℕ)
    → r < 256
    → g < 256
    → b < 256
    → a < 256
    → unpack (r + g * 2 ^ 8 + b * 2 ^ 16 + a * 2 ^ 24) ≡ r ∷ g ∷ b ∷ a ∷ []
unfolding unpack
unpacked r g b a hr hg hb ha =
    let word = r + g * 2 ^ 8 + b * 2 ^ 16 + a * 2 ^ 24 in
    let e0 : word % 2 ^ 8 ≡ r = omega arith in
    let e1 : word / 2 ^ 8 % 2 ^ 8 ≡ g = omega arith in
    let e2 : word / 2 ^ 16 % 2 ^ 8 ≡ b = omega arith in
    let e3 : word / 2 ^ 24 % 2 ^ 8 ≡ a = omega arith in rw (e0, e1, e2, e3) refl

expand5-lt : (v : ℕ) → v < 32 → expand5 v < 256
unfolding expand5
expand5-lt v h = omega (arith, h)

-- The bytes of an entry of the table are the channels.
pub unpack-rgba5551 : (p : ℕ) → unpack (rgba5551 p) ≡ bytes_of (decode_5551 p)
unfolding rgba5551 decode_5551
unpack-rgba5551 p =
    unpacked _ _ _ _ (expand5-lt _ (omega arith)) (expand5-lt _ (omega arith))
      (expand5-lt _ (omega arith)) (ground arith)

pub decode-word32 :
    (mem : ℕ → ℕ) (i : ℕ)
    → ((a : ℕ) → mem a < 256)
    → bytes_of (decode_8888 (word32 mem i)) ≡ mem i ∷ mem (i + 1) ∷ mem (i + 2) ∷ mem (i + 3) ∷ []
unfolding decode_8888
decode-word32 mem i small =
    let word = word32 mem i in
    let s0 = small i in
    let s1 = small (i + 1) in
    let s2 = small (i + 2) in
    let s3 = small (i + 3) in
    let e0 : word / 2 ^ 24 % 2 ^ 8 ≡ mem i = omega (arith, s0, s1, s2, s3) in
    let e1 : word / 2 ^ 16 % 2 ^ 8 ≡ mem (i + 1) = omega (arith, s0, s1, s2, s3) in
    let e2 : word / 2 ^ 8 % 2 ^ 8 ≡ mem (i + 2) = omega (arith, s0, s1, s2, s3) in
    let e3 : word % 2 ^ 8 ≡ mem (i + 3) = omega (arith, s0, s1, s2, s3) in rw (e0, e1, e2, e3) refl
