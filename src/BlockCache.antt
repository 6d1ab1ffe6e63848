-- ===== src/BlockCache.antt =====
-- src/cpu/block_cache.cpp, include/n64/cpu/block_cache.hpp: the direct-mapped cache of
-- pre-fetched basic blocks, and the list of its slots that the physical address cannot find.
pub mod Linked
pub mod Decode
pub mod Fetch
pub mod Count
pub mod Invariant
pub mod Unmark
pub mod Drop
pub mod Purge
pub mod Coherence
pub mod Install
pub mod Compile
pub mod Notify
mod Tests
use emulador_n64emu.Base.{
  ℕ, zero, suc, ◌+◌, ◌-◌, ◌*◌, ◌/◌, ◌%◌, ◌^◌, ltb, leb, ◌==◌, if◌then◌else◌, Bool, true, false, not,
  ◌&&◌, Option, none, some, List, [], ◌∷◌, ◌++◌, length, get_or, set,
}
pub use emulador_n64emu.Base.{update}

pub record BasicBlock : Type 0 where
  pub start_pc : ℕ
  pub paddr : ℕ
  pub insns : List ℕ
  pub ends_with_branch : Bool

-- `aliased_position` is `none` for `kNotAliased`.
pub record Slot : Type 0 where
  pub tag_pc : ℕ
  pub block : BasicBlock
  pub valid : Bool
  pub aliased_position : Option ℕ

abbrev max_block_insns : ℕ
max_block_insns = 32

abbrev direct_table_size : ℕ
direct_table_size = 65536

-- `table` holds slot `i` of `table_` at `i`, for `i` below `direct_table_size`.
pub record BlockCache : Type 0 where
  pub table : ℕ → Slot
  pub aliased : List ℕ
  pub count : ℕ
  pub hits : ℕ
  pub misses : ℕ

-- `slot.aliased_position = position`
abbrev pub set_position : (ℕ → Slot) → ℕ → Option ℕ → ℕ → Slot
set_position t i position j = if j == i then record (t j) { aliased_position = position } else t j

-- `std::vector::back` and `pop_back`
abbrev pub back : List ℕ → ℕ
back xs = get_or xs (length xs - 1) 0

abbrev pub pop_back : List ℕ → List ℕ
pop_back [] = []
pop_back (x ∷ []) = []
pop_back (x ∷ y ∷ xs) = x ∷ pop_back (y ∷ xs)

-- The empty slot of the constructor.
abbrev pub no_slot : Slot
no_slot = record {
  tag_pc = 2 ^ 64 - 1;
  block = record { start_pc = 0; paddr = 0; insns = []; ends_with_branch = false };
  valid = false;
  aliased_position = none;
}

abbrev pub empty_cache : BlockCache
empty_cache = record { table = λ _. no_slot; aliased = []; count = 0; hits = 0; misses = 0 }

-- `(vaddr >> 2) & kDirectTableMask`
abbrev pub index_of : ℕ → ℕ
index_of vaddr = vaddr / 4 % 65536

pub mark_physically_aliased : ℕ → BlockCache → BlockCache
mark_physically_aliased i c = elim (c.table i).aliased_position [
  | some p ↦ c
  | none ↦ record c {
    table = set_position c.table i (some (length c.aliased));
    aliased = c.aliased ++ (i ∷ []);
  }
]

pub unmark_physically_aliased : ℕ → BlockCache → BlockCache
unmark_physically_aliased i c = elim (c.table i).aliased_position [
  | none ↦ c
  | some p ↦ record c {
    table = set_position (set_position c.table (back c.aliased) (some p)) i none;
    aliased = pop_back (set c.aliased p (back c.aliased));
  }
]

-- `slot.valid = false; slot.tag_pc = ~0ull;`
abbrev pub drop_slot : (ℕ → Slot) → ℕ → ℕ → Slot
drop_slot t i j = if j == i then record (t j) { valid = false; tag_pc = 2 ^ 64 - 1 } else t j

pub invalidate_slot : ℕ → BlockCache → BlockCache
invalidate_slot i c =
    if (c.table i).valid
    then (let c' = unmark_physically_aliased i c in
        record c' { table = drop_slot c'.table i; count = c'.count - 1 })
    else c

unfoldable pub clear : BlockCache → BlockCache
clear c = record c {
  table = λ j. record (c.table j) { valid = false; tag_pc = 2 ^ 64 - 1; aliased_position = none };
  aliased = [];
  count = 0;
}

-- `lookup` returns the block, and counts the hit or the miss.
pub lookup : ℕ → BlockCache → Option BasicBlock × BlockCache
lookup vaddr c =
    let slot = c.table (index_of vaddr) in
    if slot.valid && (slot.tag_pc == vaddr)
    then (some slot.block, record c { hits = (c.hits + 1) % 2 ^ 64 })
    else (none, record c { misses = (c.misses + 1) % 2 ^ 64 })

-- The bytes of the block and the `size` bytes from `paddr` have one in common.
abbrev pub overlaps : ℕ → ℕ → BasicBlock → Bool
overlaps paddr size block =
    ltb paddr (block.paddr + length block.insns * 4) && ltb block.paddr (paddr + size)

-- One round of the first loop of `invalidate`.
pub check_word : ℕ → ℕ → ℕ → BlockCache → BlockCache
check_word paddr size word c =
    let slot = c.table (word % 65536) in
    if slot.valid && overlaps paddr size slot.block then invalidate_slot (word % 65536) c else c

pub word_loop : ℕ → ℕ → ℕ → ℕ → BlockCache → BlockCache
word_loop paddr size zero word c = c
word_loop paddr size (suc left) word c =
    word_loop paddr size left (word + 1) (check_word paddr size word c)

-- The second loop, on fuel; `none` is a loop that has not ended.
pub aliased_loop : ℕ → ℕ → ℕ → ℕ → BlockCache → Option BlockCache
aliased_loop paddr size zero k c = none
aliased_loop paddr size (suc fuel) k c = elim (ltb k (length c.aliased)) [
  | false ↦ some c
  | true ↦ elim (overlaps paddr size (c.table (get_or c.aliased k 0)).block) [
    | true ↦ aliased_loop paddr size fuel k (invalidate_slot (get_or c.aliased k 0) c)
    | false ↦ aliased_loop paddr size fuel (k + 1) c
  ]
]

-- `first_word > kMaxBlockInsns ? first_word - kMaxBlockInsns : 0`, and the rounds up to the last
-- word.
abbrev pub first_candidate : ℕ → ℕ
first_candidate paddr = paddr / 4 - 32

abbrev pub rounds : ℕ → ℕ → ℕ
rounds paddr size = (paddr + size - 1) / 4 + 1 - first_candidate paddr

-- The fuel is one round for each listed slot and one for the end of the loop.
pub invalidate : ℕ → ℕ → BlockCache → Option BlockCache
invalidate paddr size c =
    if size == 0
    then some (clear c)
    else if leb (65536 * 4) size
    then some (clear c)
    else (let c' = word_loop paddr size (rounds paddr size) (first_candidate paddr) c in
        aliased_loop paddr size (length c'.aliased + 1) 0 c')
