-- ===== src/Cpu/Sound.antt =====
-- The registers keep to the machine's widths.
pub mod Cop0
pub mod Gpr
pub mod Special
pub mod Registers
pub mod Fpu
pub mod Memory
pub mod Access
pub mod Load
pub mod Store
pub mod Execute
pub mod Step
use emulador_n64emu.Base.{
  ℕ, zero, suc, ◌+◌, ◌-◌, ◌*◌, ◌/◌, ◌%◌, ◌^◌, ◌≤◌, ◌<◌, min, max, bit_and, bit_or, bit_xor, ◌==◌,
  ltb, leb, if◌then◌else◌, switch, AllCases, switch-case, ◌≡◌, ◌≢◌, ◌↔◌, ◌⊎◌, inl, inr, refl, sym,
  ap, ◌∙◌, subst, arith, Bool, Bool-cases, true, false, not, ◌&&◌, ◌||◌, Option, Option-cases, none,
  some, List, [], ◌∷◌, ◌++◌, map, length, get_or, set, replicate, ltb→lt, lt→ltb, leb→le, ==_iff,
  ==-ne, bit, has_bit, set_bit, clear_bit, low, ℕ_discrete, dec_lt, dec_le, update, if_true,
  if_false,
}
use emulador_n64emu.Cpu.{Cpu, TlbEntry, no_entry}

-- Every register of a file is a word of `w` bits.
abbrev pub IsWords : ℕ → (ℕ → ℕ) → Type 0
IsWords w f = (i : ℕ) → f i < 2 ^ w

abbrev pub IsEntry : TlbEntry → Type 0
IsEntry e =
    (e.page_mask < 2 ^ 32) × (e.entry_hi < 2 ^ 32) × (e.entry_lo0 < 2 ^ 32) × (e.entry_lo1 < 2 ^ 32)

unfoldable pub IsTlb : List TlbEntry → Type 0
IsTlb [] = Unit {0}
IsTlb (e ∷ rest) = IsEntry e × IsTlb rest

pub record IsSized (gpr : ℕ → ℕ) (hi lo : ℕ) (fpr cop0 : ℕ → ℕ) (tlb : List TlbEntry) : Type 0 where
  pub zero_register : gpr 0 ≡ 0
  pub general : IsWords 64 gpr
  pub high : hi < 2 ^ 64
  pub low_word : lo < 2 ^ 64
  pub floating : IsWords 64 fpr
  pub control : IsWords 32 cop0
  pub entries : IsTlb tlb
  pub size : length tlb ≡ 32

-- Register 0 is 0, every register holds a word of its width, and the TLB has 32 entries.
pub record IsSound (c : Cpu) : Type 0 where
  pub sized : IsSized c.gpr c.hi c.lo c.fpr c.cop0 c.tlb

-- One part of the state replaced.
module _ {gpr : ℕ → ℕ} {hi lo : ℕ} {fpr cop0 : ℕ → ℕ} {tlb : List TlbEntry}
    (s : IsSized gpr hi lo fpr cop0 tlb) where
  pub set_general : (gpr' : ℕ → ℕ) → gpr' 0 ≡ 0 → IsWords 64 gpr' → IsSized gpr' hi lo fpr cop0 tlb
  set_general gpr' z h = record {
    zero_register = z;
    general = h;
    high = s.high;
    low_word = s.low_word;
    floating = s.floating;
    control = s.control;
    entries = s.entries;
    size = s.size;
  }

  pub set_high_low : (h l : ℕ) → h < 2 ^ 64 → l < 2 ^ 64 → IsSized gpr h l fpr cop0 tlb
  set_high_low h l p q = record {
    zero_register = s.zero_register;
    general = s.general;
    high = p;
    low_word = q;
    floating = s.floating;
    control = s.control;
    entries = s.entries;
    size = s.size;
  }

  pub set_floating : (fpr' : ℕ → ℕ) → IsWords 64 fpr' → IsSized gpr hi lo fpr' cop0 tlb
  set_floating fpr' h = record {
    zero_register = s.zero_register;
    general = s.general;
    high = s.high;
    low_word = s.low_word;
    floating = h;
    control = s.control;
    entries = s.entries;
    size = s.size;
  }

  pub set_control : (cop0' : ℕ → ℕ) → IsWords 32 cop0' → IsSized gpr hi lo fpr cop0' tlb
  set_control cop0' h = record {
    zero_register = s.zero_register;
    general = s.general;
    high = s.high;
    low_word = s.low_word;
    floating = s.floating;
    control = h;
    entries = s.entries;
    size = s.size;
  }

  pub set_entries :
      (tlb' : List TlbEntry) → IsTlb tlb' → length tlb' ≡ 32 → IsSized gpr hi lo fpr cop0 tlb'
  set_entries tlb' h n = record {
    zero_register = s.zero_register;
    general = s.general;
    high = s.high;
    low_word = s.low_word;
    floating = s.floating;
    control = s.control;
    entries = h;
    size = n;
  }

pub IsSound-if : (b : Bool) (c d : Cpu) → IsSound c → IsSound d → IsSound (if b then c else d)
IsSound-if true c d s t = s
IsSound-if false c d s t = t

pub IsSound-switch :
    (k : ℕ) (cases : List (ℕ × Cpu)) (d : Cpu)
    → AllCases IsSound cases
    → IsSound d
    → IsSound (switch k cases d)
IsSound-switch k cases d s t = switch-case IsSound k cases d s t

pub IsWords-if :
    (w : ℕ) (b : Bool) (f g : ℕ → ℕ) → IsWords w f → IsWords w g → IsWords w (if b then f else g)
IsWords-if w true f g s t = s
IsWords-if w false f g s t = t

pub if-lt : (n : ℕ) (b : Bool) (x y : ℕ) → x < n → y < n → (if b then x else y) < n
if-lt n true x y p q = p
if-lt n false x y p q = q

pub update-IsWords :
    (w : ℕ) (f : ℕ → ℕ) (i v : ℕ) → IsWords w f → v < 2 ^ w → IsWords w (update f i v)
update-IsWords w f i v h q j = if-lt (2 ^ w) (j == i) v (f j) q (h j)

pub get_or-IsTlb : (tlb : List TlbEntry) (i : ℕ) → IsTlb tlb → IsEntry (get_or tlb i no_entry)
unfolding IsTlb
get_or-IsTlb [] i h = omega arith
get_or-IsTlb (e ∷ rest) zero h = h.0
get_or-IsTlb (e ∷ rest) (suc i) h = get_or-IsTlb rest i h.1

pub set-IsTlb :
    (tlb : List TlbEntry) (i : ℕ) (e : TlbEntry) → IsEntry e → IsTlb tlb → IsTlb (set tlb i e)
unfolding IsTlb
set-IsTlb [] i e p h = h
set-IsTlb (x ∷ rest) zero e p h = (p, h.1)
set-IsTlb (x ∷ rest) (suc i) e p h = (h.0, set-IsTlb rest i e p h.1)
