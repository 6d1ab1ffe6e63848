-- ===== src/Cpu/Tlb/Offset.antt =====
-- A page is mapped as a whole: the low 12 bits of an address are those of its translation.
use emulador_n64emu.Base.{
  ℕ, ◌+◌, ◌-◌, ◌*◌, ◌%◌, ◌^◌, ◌<◌, ltb, leb, if◌then◌else◌, ◌≡◌, refl, ap, ◌∙◌, sym, arith, Bool,
  ◌&&◌, bit, low, bit-low, bit_ext, bit-bit_and, bit-bit_or, bit-lt, bit_and, bit_or, field_mask,
  bit-field_mask,
}
use emulador_n64emu.Cpu.{Cpu, TlbEntry}
use emulador_n64emu.Cpu.Tlb.{pair_mask, page_size, physical_of, chosen_lo, translate_address}
use emulador_n64emu.Cpu.Tlb.Segments.{IfMapped, translate_address-IfMapped}

low_eq_mod : (x : ℕ) → low 12 x ≡ x % 2 ^ 12
unfolding low
low_eq_mod x = omega arith

pub low_eq_mod_13 : (x : ℕ) → low 13 x ≡ x % 2 ^ 13
unfolding low
low_eq_mod_13 x = omega arith

pub low_digits : (k w a b : ℕ) → low w a ≡ low w b → k < w → bit k a ≡ bit k b
low_digits k w a b h lt = ground (arith, bit-low k w a, bit-low k w b, ap (bit k) h)

ones : field_mask 0 13 ≡ 0x1fff
unfolding field_mask
ones = refl

small_ones : field_mask 0 12 ≡ 4095
unfolding field_mask
small_ones = refl

ones-bit : (k : ℕ) → bit k 0x1fff ≡ (if leb 0 k && ltb k (0 + 13) then 1 else 0)
ones-bit k = ap (bit k) (sym ones) ∙ bit-field_mask 0 13 k

low_13 : (e : TlbEntry) → low 13 (pair_mask e) ≡ low 13 0x1fff
unfolding pair_mask
low_13 e = bit_ext _ _ (λ k. ground (
  arith,
  bit-low k 13 (pair_mask e),
  bit-low k 13 0x1fff,
  bit-bit_or k (bit_and e.page_mask 0x01ff_e000) 0x1fff,
  ones-bit k,
  bit-lt k (bit_and e.page_mask 0x01ff_e000),
))

pub pair_mask-low : (e : TlbEntry) → pair_mask e % 2 ^ 13 ≡ 0x1fff
pair_mask-low e = omega (arith, low_eq_mod_13 (pair_mask e), low_13 e, low_eq_mod_13 0x1fff)

-- The offset mask of a page has its 12 low bits set.
offset_mask-low : (e : TlbEntry) → low 12 (page_size e - 1) ≡ low 12 4095
offset_mask-low e = omega (arith, low_eq_mod (page_size e - 1), low_eq_mod 4095, pair_mask-low e)

offset_mask-bit : (e : TlbEntry) (k : ℕ) → k < 12 → bit k (page_size e - 1) ≡ 1
offset_mask-bit e k h =
    ground (
      arith,
      low_digits k 12 _ _ (offset_mask-low e) h,
      ap (bit k) small_ones,
      bit-field_mask 0 12 k,
    )

base_mask-low : (e : TlbEntry) → low 12 (2 ^ 64 - 1 - (page_size e - 1)) ≡ low 12 0
base_mask-low e =
    omega (arith, low_eq_mod (2 ^ 64 - 1 - (page_size e - 1)), low_eq_mod 0, pair_mask-low e)

no_ones : field_mask 0 0 ≡ 0
unfolding field_mask
no_ones = refl

pub no_digit : (k : ℕ) → bit k 0 ≡ 0
no_digit k = ground (arith, bit-field_mask 0 0 k, ap (bit k) no_ones)

base_mask-bit : (e : TlbEntry) (k : ℕ) → k < 12 → bit k (2 ^ 64 - 1 - (page_size e - 1)) ≡ 0
base_mask-bit e k h = ground (arith, low_digits k 12 _ _ (base_mask-low e) h, no_digit k)

-- Cutting to 29 bits keeps the digits below 12.
cut : (x k : ℕ) → k < 12 → bit k (x % 2 ^ 32 % 2 ^ 29) ≡ bit k x
cut x k h = low_digits k 12 _ _ (omega (arith, low_eq_mod x, low_eq_mod (x % 2 ^ 32 % 2 ^ 29))) h

physical_of-bit : (v : ℕ) (e : TlbEntry) (lo k : ℕ) → k < 12 → bit k (physical_of v e lo) ≡ bit k v
unfolding physical_of
physical_of-bit v e lo k lt =
    let m = page_size e - 1 in
    let base = bit_and (bit_and lo 0x3fff_ffc0 * 2 ^ 6) (2 ^ 64 - 1 - m) in
    cut (bit_or base (bit_and v m)) k lt
    ∙ ground (
      arith,
      bit-bit_or k base (bit_and v m),
      bit-bit_and k (bit_and lo 0x3fff_ffc0 * 2 ^ 6) (2 ^ 64 - 1 - m),
      bit-bit_and k v m,
      base_mask-bit e k lt,
      offset_mask-bit e k lt,
      bit-lt k v,
    )

same_low_digits :
    (k a b : ℕ) → ((j : ℕ) → j < 12 → bit j a ≡ bit j b) → bit k (low 12 a) ≡ bit k (low 12 b)
same_low_digits k a b h = ground (arith, bit-low k 12 a, bit-low k 12 b, h k)

physical_of-offset : (v : ℕ) (e : TlbEntry) (lo : ℕ) → physical_of v e lo % 4096 ≡ v % 4096
physical_of-offset v e lo = omega (
  arith,
  low_eq_mod (physical_of v e lo),
  low_eq_mod v,
  bit_ext _ _ (λ k. same_low_digits k (physical_of v e lo) v (physical_of-bit v e lo)),
)

-- Every translation, through the TLB or not, keeps the 12 low bits of the address.
pub translate_address-offset :
    (vaddr : ℕ) (is_store : Bool) (c : Cpu)
    → IfMapped (translate_address vaddr is_store c) (λ p. p % 4096 ≡ vaddr % 4096)
translate_address-offset vaddr is_store c =
    translate_address-IfMapped vaddr is_store c (λ p. p % 4096 ≡ vaddr % 4096) (omega arith)
      (λ e. omega (arith, physical_of-offset (vaddr % 2 ^ 32) e (chosen_lo (vaddr % 2 ^ 32) e)))
