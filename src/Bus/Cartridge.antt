-- ===== src/Bus/Cartridge.antt =====
-- src/bus/bus.cpp: a cartridge image is brought to big-endian order when it is loaded.
use emulador_n64emu.Base.{
  ℕ, zero, suc, ◌+◌, ◌-◌, ◌*◌, ◌/◌, ◌%◌, ◌^◌, ◌==◌, ltb, if◌then◌else◌, ◌≡◌, refl, sym, ap, ◌∙◌,
  subst, arith, Bool, true, false, List, [], ◌∷◌, length, get_or, if_false,
}
use emulador_n64emu.Bus.{Bus}

-- The loops of `normalize_cart_endian`: the bytes of each pair, and of each group of four, in
-- reverse order; what is left at the end stays.
unfoldable pub swap_pairs : List ℕ → List ℕ
swap_pairs (a ∷ b ∷ rest) = b ∷ a ∷ swap_pairs rest
swap_pairs rest = rest

unfoldable pub swap_words : List ℕ → List ℕ
swap_words (a ∷ b ∷ c ∷ d ∷ rest) = d ∷ c ∷ b ∷ a ∷ swap_words rest
swap_words rest = rest

unfoldable pub magic_of : List ℕ → ℕ
magic_of data_bytes =
    get_or data_bytes 0 0 * 2 ^ 24
    + get_or data_bytes 1 0 * 2 ^ 16
    + get_or data_bytes 2 0 * 2 ^ 8
    + get_or data_bytes 3 0

unfoldable pub normalize_cart_endian : List ℕ → List ℕ
normalize_cart_endian image =
    let magic = magic_of image in
    if ltb (length image) 4
    then image
    else if magic == 0x8037_1240
    then image
    else if magic == 0x3780_4012
    then swap_pairs image
    else if magic == 0x4012_3780
    then swap_words image
    else image

module _ {D : Type 0} where
  unfoldable pub load_cartridge : List ℕ → Bus D → Bool × Bus D
  load_cartridge [] b = (false, b)
  load_cartridge (x ∷ rest) b = (true, record b { cart = normalize_cart_endian (x ∷ rest) })

  unfoldable pub load_pif_rom : List ℕ → Bus D → Bool × Bus D
  load_pif_rom [] b = (false, b)
  load_pif_rom (x ∷ rest) b =
      if ltb 0x2000 (length (x ∷ rest)) then (false, b) else (true, record b { pif_rom = x ∷ rest })

-- The place of byte `i` in its group of `n` when whole groups are reversed in an image of `size`
-- bytes; what is left at the end stays.
abbrev pub mirrored : ℕ → ℕ → ℕ → ℕ
mirrored n size i = if ltb (i / n * n + (n - 1)) size then i / n * n + (n - 1 - i % n) else i

length-swap_pairs : (xs : List ℕ) → length (swap_pairs xs) ≡ length xs
unfolding swap_pairs
length-swap_pairs [] = refl
length-swap_pairs (a ∷ []) = refl
length-swap_pairs (a ∷ b ∷ rest) = ap (λ n. suc (suc n)) (length-swap_pairs rest)

length-swap_words : (xs : List ℕ) → length (swap_words xs) ≡ length xs
unfolding swap_words
length-swap_words [] = refl
length-swap_words (a ∷ []) = refl
length-swap_words (a ∷ b ∷ []) = refl
length-swap_words (a ∷ b ∷ c ∷ []) = refl
length-swap_words (a ∷ b ∷ c ∷ d ∷ rest) =
    ap (λ n. suc (suc (suc (suc n)))) (length-swap_words rest)

place_in_group : (xs : List ℕ) (i j : ℕ) → i ≡ j → get_or xs j 0 ≡ get_or xs i 0
place_in_group xs i j e = ap (λ j. get_or xs j 0) (sym e)

swap_pairs-mirrored :
    (xs : List ℕ) (i : ℕ) → get_or (swap_pairs xs) i 0 ≡ get_or xs (mirrored 2 (length xs) i) 0
unfolding swap_pairs
swap_pairs-mirrored [] i = refl
swap_pairs-mirrored (a ∷ []) i =
    let stays : mirrored 2 1 i ≡ i = ground arith in ap (λ j. get_or (a ∷ []) j 0) (sym stays)
swap_pairs-mirrored (a ∷ b ∷ rest) zero =
    place_in_group (a ∷ b ∷ rest) (mirrored 2 (length (a ∷ b ∷ rest)) 0) 1 (ground arith)
swap_pairs-mirrored (a ∷ b ∷ rest) (suc zero) =
    place_in_group (a ∷ b ∷ rest) (mirrored 2 (length (a ∷ b ∷ rest)) 1) 0 (ground arith)
swap_pairs-mirrored (a ∷ b ∷ rest) (suc (suc i)) =
    let n = length rest in
    let further : mirrored 2 (suc (suc n)) (suc (suc i)) ≡ suc (suc (mirrored 2 n i)) =
      ground arith in
    swap_pairs-mirrored rest i ∙ ap (λ j. get_or (a ∷ b ∷ rest) j 0) (sym further)

swap_words-mirrored :
    (xs : List ℕ) (i : ℕ) → get_or (swap_words xs) i 0 ≡ get_or xs (mirrored 4 (length xs) i) 0
unfolding swap_words
swap_words-mirrored [] i = refl
swap_words-mirrored (a ∷ []) i =
    let stays : mirrored 4 1 i ≡ i = ground arith in ap (λ j. get_or (a ∷ []) j 0) (sym stays)
swap_words-mirrored (a ∷ b ∷ []) i =
    let stays : mirrored 4 2 i ≡ i = ground arith in ap (λ j. get_or (a ∷ b ∷ []) j 0) (sym stays)
swap_words-mirrored (a ∷ b ∷ c ∷ []) i =
    let stays : mirrored 4 3 i ≡ i = ground arith in
    ap (λ j. get_or (a ∷ b ∷ c ∷ []) j 0) (sym stays)
swap_words-mirrored (a ∷ b ∷ c ∷ d ∷ rest) zero =
    place_in_group (a ∷ b ∷ c ∷ d ∷ rest) (mirrored 4 (length (a ∷ b ∷ c ∷ d ∷ rest)) 0) 3
      (ground arith)
swap_words-mirrored (a ∷ b ∷ c ∷ d ∷ rest) (suc zero) =
    place_in_group (a ∷ b ∷ c ∷ d ∷ rest) (mirrored 4 (length (a ∷ b ∷ c ∷ d ∷ rest)) 1) 2
      (ground arith)
swap_words-mirrored (a ∷ b ∷ c ∷ d ∷ rest) (suc (suc zero)) =
    place_in_group (a ∷ b ∷ c ∷ d ∷ rest) (mirrored 4 (length (a ∷ b ∷ c ∷ d ∷ rest)) 2) 1
      (ground arith)
swap_words-mirrored (a ∷ b ∷ c ∷ d ∷ rest) (suc (suc (suc zero))) =
    place_in_group (a ∷ b ∷ c ∷ d ∷ rest) (mirrored 4 (length (a ∷ b ∷ c ∷ d ∷ rest)) 3) 0
      (ground arith)
swap_words-mirrored (a ∷ b ∷ c ∷ d ∷ rest) (suc (suc (suc (suc i)))) =
    let n = length rest in
    let further : mirrored 4 (suc (suc (suc (suc n)))) (suc (suc (suc (suc i))))
        ≡ suc (suc (suc (suc (mirrored 4 n i)))) =
      ground arith in
    swap_words-mirrored rest i ∙ ap (λ j. get_or (a ∷ b ∷ c ∷ d ∷ rest) j 0) (sym further)

long_enough : (a b c d : ℕ) (rest : List ℕ) → ltb (length (a ∷ b ∷ c ∷ d ∷ rest)) 4 ≡ false
long_enough a b c d rest = ground arith

-- Each byte of `loaded` is the byte of `file` at the same place of the group of `n`, counted from
-- the other end; what is left at the end stays.
pub record Mirrors (n : ℕ) (file loaded : List ℕ) : Type 0 where
  pub same_size : length loaded ≡ length file
  pub bytes : (i : ℕ) → get_or loaded i 0 ≡ get_or file (mirrored n (length file) i) 0

-- An image that begins with 80 37 12 40 loads as it is. One that begins with 37 80 40 12 loads with
-- the bytes of each pair reversed, and one that begins with 40 12 37 80 with those of each group of
-- four, in both cases with its size and with what is left after the last whole group as it was.
pub normalize_cart_endian-Mirrors :
    (rest : List ℕ)
    → let native = 0x80 ∷ 0x37 ∷ 0x12 ∷ 0x40 ∷ rest in
      let paired = 0x37 ∷ 0x80 ∷ 0x40 ∷ 0x12 ∷ rest in
      let little = 0x40 ∷ 0x12 ∷ 0x37 ∷ 0x80 ∷ rest in
      (normalize_cart_endian native ≡ native)
      × Mirrors 2 paired (normalize_cart_endian paired)
      × Mirrors 4 little (normalize_cart_endian little)
unfolding normalize_cart_endian magic_of
normalize_cart_endian-Mirrors rest =
    let paired = 0x37 ∷ 0x80 ∷ 0x40 ∷ 0x12 ∷ rest in
    let little = 0x40 ∷ 0x12 ∷ 0x37 ∷ 0x80 ∷ rest in
    (
      if_false _ _ (long_enough 0x80 0x37 0x12 0x40 rest),
      subst (Mirrors 2 paired) (sym (if_false _ _ (long_enough 0x37 0x80 0x40 0x12 rest)))
          (record { same_size = length-swap_pairs paired; bytes = swap_pairs-mirrored paired }),
      subst (Mirrors 4 little) (sym (if_false _ _ (long_enough 0x40 0x12 0x37 0x80 rest)))
          (record { same_size = length-swap_words little; bytes = swap_words-mirrored little }),
    )
