-- ===== src/CartHeader.antt =====
-- src/cart/header.cpp, include/n64/cart/header.hpp: the 64-byte header of a cartridge, and what
-- follows from the boot code.
use emulador_n64emu.Base.{
  ℕ, zero, suc, ◌+◌, ◌-◌, ◌*◌, ◌/◌, ◌%◌, ◌^◌, bit_xor, ◌==◌, ltb, leb, if◌then◌else◌, Bool, true,
  false, ◌||◌, List, [], ◌∷◌, length, get_or, replicate,
}

pub data CicType : Type 0 where
  unknown cic6101 cic6102 cic6103 cic6105 cic6106 cic5101 cic_x103 cic_x105 cic_x106 : CicType

pub data TvType : Type 0 where
  pal ntsc mpal : TvType

-- `name` has the 20 characters before the closing 0; a `char` is its byte.
pub record CartHeader : Type 0 where
  pub pi_bsd_dom1 : ℕ
  pub clock_rate : ℕ
  pub pc : ℕ
  pub release : ℕ
  pub crc1 : ℕ
  pub crc2 : ℕ
  pub name : List ℕ
  pub media : ℕ
  pub cart_id : ℕ × ℕ
  pub country : ℕ
  pub version : ℕ
  pub tv : TvType
  pub cic : CicType
  pub cic_seed : ℕ
  pub entrypoint : ℕ
  pub ipl3_crc32 : ℕ

-- One round of the inner loop, and the eight of them.
pub crc_round : ℕ → ℕ
crc_round crc = bit_xor (crc / 2) (if crc % 2 == 1 then 0xedb8_8320 else 0)

pub crc_rounds : ℕ → ℕ → ℕ
crc_rounds zero crc = crc
crc_rounds (suc n) crc = crc_rounds n (crc_round crc)

pub crc_loop : ℕ → List ℕ → ℕ
crc_loop crc [] = crc
crc_loop crc (b ∷ data_left) = crc_loop (crc_rounds 8 (bit_xor crc b)) data_left

pub crc32_bytes : List ℕ → ℕ
crc32_bytes bytes = 0xffff_ffff - crc_loop 0xffff_ffff bytes

unfoldable pub cic_from_ipl3_crc : ℕ → CicType
cic_from_ipl3_crc crc =
    if crc == 0x6170_a4a1
    then cic6101
    else if crc == 0x90bb_6cb5
    then cic6102
    else if crc == 0x0b05_0ee0
    then cic6102
    else if crc == 0x98bc_2c86
    then cic6103
    else if crc == 0xacc8_580a
    then cic6105
    else if crc == 0x0e01_8fff
    then cic6106
    else if crc == 0xa536_c0f0
    then cic6106
    else if crc == 0xc2a1_67c6
    then cic5101
    else if crc == 0x009e_9ea3
    then cic_x103
    else unknown

unfoldable pub seed_of : CicType → ℕ
seed_of cic6103 = 0x78
seed_of cic_x103 = 0x78
seed_of cic6105 = 0x91
seed_of cic_x105 = 0x91
seed_of cic6106 = 0x85
seed_of cic_x106 = 0x85
seed_of cic5101 = 0xac
seed_of _ = 0x3f

-- The subtraction of a `u32` wraps.
unfoldable pub fixup_entrypoint : CicType → ℕ → ℕ
fixup_entrypoint cic6103 raw_pc = (raw_pc + 2 ^ 32 - 0x0010_0000) % 2 ^ 32
fixup_entrypoint cic_x103 raw_pc = (raw_pc + 2 ^ 32 - 0x0010_0000) % 2 ^ 32
fixup_entrypoint cic5101 raw_pc = (raw_pc + 2 ^ 32 - 0x0010_0000) % 2 ^ 32
fixup_entrypoint cic6106 raw_pc = (raw_pc + 2 ^ 32 - 0x0020_0000) % 2 ^ 32
fixup_entrypoint cic_x106 raw_pc = (raw_pc + 2 ^ 32 - 0x0020_0000) % 2 ^ 32
fixup_entrypoint _ raw_pc = raw_pc

abbrev one_of : ℕ → List ℕ → Bool
one_of x [] = false
one_of x (y ∷ ys) = (x == y) || one_of x ys

-- E, J, U and 7; then P, D, F, I, S, H, X, Y and W; then B and N.
unfoldable tv_from_country : ℕ → TvType
tv_from_country country =
    if one_of country (0x45 ∷ 0x4a ∷ 0x55 ∷ 0x37 ∷ [])
    then ntsc
    else if one_of country (0x50 ∷ 0x44 ∷ 0x46 ∷ 0x49 ∷ 0x53 ∷ 0x48 ∷ 0x58 ∷ 0x59 ∷ 0x57 ∷ [])
    then pal
    else if one_of country (0x42 ∷ 0x4e ∷ [])
    then mpal
    else ntsc

-- `rom.subspan(first, n)`
abbrev drop_bytes : ℕ → List ℕ → List ℕ
drop_bytes zero xs = xs
drop_bytes (suc n) [] = []
drop_bytes (suc n) (x ∷ xs) = drop_bytes n xs

abbrev take_bytes : ℕ → List ℕ → List ℕ
take_bytes zero xs = []
take_bytes (suc n) [] = []
take_bytes (suc n) (x ∷ xs) = x ∷ take_bytes n xs

abbrev pub ipl3_of : List ℕ → List ℕ
ipl3_of rom = take_bytes 0xfc0 (drop_bytes 0x40 rom)

abbrev pub is_known : CicType → Bool
is_known unknown = false
is_known _ = true

unfoldable count_nonzero : List ℕ → ℕ
count_nonzero [] = 0
count_nonzero (b ∷ bs) = if b == 0 then count_nonzero bs else count_nonzero bs + 1

-- The branches for a sparse boot code and for any other give the same.
pub detect_cic : List ℕ → CicType
detect_cic rom =
    let found = cic_from_ipl3_crc (crc32_bytes (ipl3_of rom)) in
    if ltb (length rom) 0x1000
    then cic6102
    else if is_known found
    then found
    else if ltb (count_nonzero (ipl3_of rom)) 64
    then cic6102
    else cic6102

-- `rom[i]`, in range wherever it is read.
abbrev pub byte_at : List ℕ → ℕ → ℕ
byte_at rom i = get_or rom i 0

unfoldable pub be_u32 : List ℕ → ℕ → ℕ
be_u32 rom i =
    if ltb (length rom) (i + 4)
    then 0
    else byte_at rom i * 2 ^ 24
      + byte_at rom (i + 1) * 2 ^ 16
      + byte_at rom (i + 2) * 2 ^ 8
      + byte_at rom (i + 3)

abbrev bytes_from : List ℕ → ℕ → ℕ → List ℕ
bytes_from rom i zero = []
bytes_from rom i (suc n) = byte_at rom i ∷ bytes_from rom (i + 1) n

abbrev pub empty_header : CartHeader
empty_header = record {
  pi_bsd_dom1 = 0;
  clock_rate = 0;
  pc = 0;
  release = 0;
  crc1 = 0;
  crc2 = 0;
  name = replicate 20 0;
  media = 0;
  cart_id = (0, 0);
  country = 0;
  version = 0;
  tv = ntsc;
  cic = unknown;
  cic_seed = 0x3f;
  entrypoint = 0;
  ipl3_crc32 = 0;
}

abbrev pub default_entrypoint : ℕ → ℕ
default_entrypoint pc = if pc == 0 then 0x8000_0400 else pc

pub parse_cart_header : List ℕ → CartHeader
parse_cart_header rom =
    let cic = detect_cic rom in
    if ltb (length rom) 0x40 then empty_header else record {
      pi_bsd_dom1 = be_u32 rom 0x00;
      clock_rate = be_u32 rom 0x04;
      pc = be_u32 rom 0x08;
      release = be_u32 rom 0x0c;
      crc1 = be_u32 rom 0x10;
      crc2 = be_u32 rom 0x14;
      name = bytes_from rom 0x20 20;
      media = byte_at rom 0x38;
      cart_id = (byte_at rom 0x3c, byte_at rom 0x3d);
      country = byte_at rom 0x3e;
      version = byte_at rom 0x3f;
      tv = tv_from_country (byte_at rom 0x3e);
      cic = cic;
      cic_seed = seed_of cic;
      entrypoint = default_entrypoint (fixup_entrypoint cic (be_u32 rom 0x08));
      ipl3_crc32 = if leb 0x1000 (length rom) then crc32_bytes (ipl3_of rom) else 0;
    }
