-- ===== src/BlockCache/Invariant.antt =====
-- What holds of the cache between two calls, and that the operations on one slot keep it.
use emulador_n64emu.Base.{
  ℕ, ◌%◌, ◌≤◌, ◌<◌, ◌≡◌, fun_ext, arith, Bool, true, false, Option, none, some, length,
}
use emulador_n64emu.BlockCache.{Slot, BlockCache, index_of, update, set_position, drop_slot}
use emulador_n64emu.BlockCache.Fetch.{direct_mapped}
use emulador_n64emu.BlockCache.Linked.{IsLinked}
use emulador_n64emu.BlockCache.Count.{count_true}

abbrev pub positions : (ℕ → Slot) → ℕ → Option ℕ
positions t i = (t i).aliased_position

abbrev pub valids : (ℕ → Slot) → ℕ → Bool
valids t i = (t i).valid

-- A valid slot `i` holds a block for its tag, that is word-aligned, short, and either listed as
-- aliased or direct-mapped, so that the physical address leads back to `i`.
pub record IsPlaced (i : ℕ) (s : Slot) : Type 0 where
  pub in_table : index_of s.tag_pc ≡ i
  pub tagged : s.block.start_pc ≡ s.tag_pc
  pub aligned : s.block.paddr % 4 ≡ 0
  pub not_empty : 0 < length s.block.insns
  pub short : length s.block.insns ≤ 33
  pub direct : s.aliased_position ≡ none → direct_mapped s.tag_pc s.block.paddr ≡ true

pub record IsValid (c : BlockCache) : Type 0 where
  pub linked : IsLinked (positions c.table) c.aliased
  pub placed : (i : ℕ) → (c.table i).valid ≡ true → IsPlaced i (c.table i)
  pub listed_valid : (i p : ℕ) → (c.table i).aliased_position ≡ some p → (c.table i).valid ≡ true
  pub counted : c.count ≡ count_true 65536 (valids c.table)

pub positions-set_position :
    (t : ℕ → Slot) (i : ℕ) (v : Option ℕ)
    → positions (set_position t i v) ≡ update (positions t) i v
positions-set_position t i v = fun_ext λ j. ground arith

valids-set_position : (t : ℕ → Slot) (i : ℕ) (v : Option ℕ) → valids (set_position t i v) ≡ valids t
valids-set_position t i v = fun_ext λ j. ground arith

pub positions-drop_slot : (t : ℕ → Slot) (i : ℕ) → positions (drop_slot t i) ≡ positions t
positions-drop_slot t i = fun_ext λ j. ground arith

pub valids-drop_slot : (t : ℕ → Slot) (i : ℕ) → valids (drop_slot t i) ≡ update (valids t) i false
valids-drop_slot t i = fun_ext λ j. ground arith
