-- ===== src/Cpu/Tlb/Segments.antt =====
-- Which addresses each mode may use, and the bound on what they are translated to.
use emulador_n64emu.Base.{
  ℕ, ◌/◌, ◌%◌, ◌^◌, ◌≤◌, ◌<◌, ◌==◌, leb, if◌then◌else◌, ◌≡◌, ◌⊎◌, inl, inr, arith, Bool, true,
  false, ◌&&◌, some, List, [], ◌∷◌,
}
use emulador_n64emu.Cpu.{Cpu, TlbEntry}
use emulador_n64emu.Cpu.Cop0Reg.{entry_hi, status}
use emulador_n64emu.Cpu.Tlb.{
  Translation, mapped, address_error, mode_of, entry_matches, use_entry, physical_of, chosen_lo,
  tlb_loop, translate_address, translate,
}

-- What follows from a translation that succeeds.
abbrev pub IfMapped : Translation → (ℕ → Type 0) → Type 0
IfMapped (mapped p) P = P p
IfMapped _ P = Unit {0}

IfMapped-if :
    (b : Bool) (t u : Translation) (P : ℕ → Type 0)
    → IfMapped t P
    → IfMapped u P
    → IfMapped (if b then t else u) P
IfMapped-if true t u P h k = h
IfMapped-if false t u P h k = k

-- A property of the physical addresses that the entries give holds of what the loop gives.
tlb_loop-IfMapped :
    (v asid : ℕ) (is_store : Bool) (P : ℕ → Type 0)
    → ((e : TlbEntry) → P (physical_of v e (chosen_lo v e)))
    → (l : List TlbEntry) → IfMapped (tlb_loop v asid is_store l) P
unfolding tlb_loop use_entry
tlb_loop-IfMapped v asid is_store P each [] = tt
tlb_loop-IfMapped v asid is_store P each (e ∷ rest) =
    IfMapped-if (entry_matches v asid e) (use_entry v is_store e) (tlb_loop v asid is_store rest) P
      (IfMapped-if (chosen_lo v e / 2 % 2 == 0) _ _ P tt
        (IfMapped-if (is_store && (chosen_lo v e / 4 % 2 == 0)) _ _ P tt (each e)))
      (tlb_loop-IfMapped v asid is_store P each rest)

-- There are three ways out of `translate_address`.
translate_address-cases :
    (vaddr : ℕ) (is_store : Bool) (c : Cpu)
    → (translate_address vaddr is_store c ≡ address_error)
      ⊎ (translate_address vaddr is_store c ≡ mapped (vaddr % 2 ^ 32 % 2 ^ 29))
      ⊎ (translate_address vaddr is_store c
          ≡ tlb_loop (vaddr % 2 ^ 32) (c.cop0 entry_hi % 2 ^ 8) is_store c.tlb)
unfolding translate_address
translate_address-cases vaddr is_store c = ground arith

-- A property of the addresses of the direct segments and of the entries holds of every
-- translation.
pub translate_address-IfMapped :
    (vaddr : ℕ) (is_store : Bool) (c : Cpu) (P : ℕ → Type 0)
    → P (vaddr % 2 ^ 32 % 2 ^ 29)
    → ((e : TlbEntry) → P (physical_of (vaddr % 2 ^ 32) e (chosen_lo (vaddr % 2 ^ 32) e)))
    → IfMapped (translate_address vaddr is_store c) P
translate_address-IfMapped vaddr is_store c P direct each =
    elim (translate_address-cases vaddr is_store c) [
      | inl e ↦ rw e tt
      | inr (inl e) ↦ rw e direct
      | inr (inr e) ↦
          rw e (tlb_loop-IfMapped (vaddr % 2 ^ 32) (c.cop0 entry_hi % 2 ^ 8) is_store P each c.tlb)
    ]

-- Every address that is translated lies on the 29-bit bus.
pub translate_address-lt :
    (vaddr : ℕ) (is_store : Bool) (c : Cpu)
    → IfMapped (translate_address vaddr is_store c) (λ p. p < 2 ^ 29)
translate_address-lt vaddr is_store c =
    translate_address-IfMapped vaddr is_store c (λ p. p < 2 ^ 29) (omega arith)
      (λ e. unfold physical_of in omega arith)

-- From 0x8000_0000 on, user mode gets an address error everywhere, and supervisor mode outside of
-- 0xc000_0000 to 0xdfff_ffff, which go through the TLB.
pub translate_address-outside_kernel :
    (v : ℕ) (is_store : Bool) (c : Cpu)
    → 1 ≤ mode_of (c.cop0 status)
    → 0x8000_0000 ≤ v
    → v < 2 ^ 32
    → let mode = mode_of (c.cop0 status) in
      (translate_address v is_store c ≡ (
        if (mode == 1) && leb 0xc000_0000 v && leb v 0xdfff_ffff
        then tlb_loop v (c.cop0 entry_hi % 2 ^ 8) is_store c.tlb
        else address_error))
unfolding translate_address
translate_address-outside_kernel v is_store c mode low fits = ground arith

use_entry-load-of-store :
    (v p : ℕ) (e : TlbEntry) → use_entry v true e ≡ mapped p → use_entry v false e ≡ mapped p
unfolding use_entry
use_entry-load-of-store v p e h = ground arith

tlb_loop-load-of-store :
    (v asid p : ℕ) (l : List TlbEntry)
    → tlb_loop v asid true l ≡ mapped p
    → tlb_loop v asid false l ≡ mapped p
unfolding tlb_loop
tlb_loop-load-of-store v asid p [] h = cc
tlb_loop-load-of-store v asid p (e ∷ rest) h =
    ground (arith, use_entry-load-of-store v p e, tlb_loop-load-of-store v asid p rest)

-- Where a store may go, a load may go, to the same physical address.
pub translate-load-of-store :
    (vaddr p : ℕ) (c : Cpu) → translate vaddr true c ≡ some p → translate vaddr false c ≡ some p
unfolding translate translate_address
translate-load-of-store vaddr p c h =
    ground (arith, tlb_loop-load-of-store (vaddr % 2 ^ 32) (c.cop0 entry_hi % 2 ^ 8) p c.tlb)
