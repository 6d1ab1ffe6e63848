-- ===== src/BlockCache/Coherence.antt =====
-- `invalidate`: no block survives that overlaps the written range, and no other block is lost.
use emulador_n64emu.Base.{
  ◌≢◌, ◌⊎◌, subst, ℕ, ◌+◌, ◌*◌, ◌/◌, ◌%◌, ◌≤◌, ◌<◌, ◌==◌, leb, ◌≡◌, refl, arith, true, false,
  Bool-cases, inl, inr, Option, none, some, Option-cases, length,
}
use emulador_n64emu.BlockCache.{
  Slot, BlockCache, overlaps, first_candidate, rounds, word_loop, aliased_loop, clear, invalidate,
  empty_cache,
}
use emulador_n64emu.BlockCache.Linked.{IsLinked-nil}
use emulador_n64emu.BlockCache.Count.{count_true-none}
use emulador_n64emu.BlockCache.Invariant.{IsPlaced, IsValid}
use emulador_n64emu.BlockCache.Purge.{
  Purged-trans, IsClean, IsClean-Purged, WordsClean, word_loop-WordsClean, AliasedClean,
  aliased_loop-AliasedClean,
}

clear-IsValid : (c : BlockCache) → IsValid (clear c)
unfolding clear
clear-IsValid c = record {
  linked = IsLinked-nil;
  placed = λ i h. cc;
  listed_valid = λ i p h. cc;
  counted = omega (arith, count_true-none 65536);
}

pub empty_cache-IsValid : IsValid empty_cache
empty_cache-IsValid = record {
  linked = IsLinked-nil;
  placed = λ i h. cc;
  listed_valid = λ i p h. cc;
  counted = omega (arith, count_true-none 65536);
}

-- A slot that is not on the list is the one of a word of its block's physical address.
direct_home :
    (i : ℕ) (s : Slot) → IsPlaced i s → s.aliased_position ≡ none → s.block.paddr / 4 % 65536 ≡ i
direct_home i s h e = ground (arith, h.direct e, h.in_table)

-- That word is among the candidates of the first loop, if the block overlaps the range.
candidate :
    (paddr size i : ℕ) (s : Slot)
    → IsPlaced i s
    → overlaps paddr size s.block ≡ true
    → (first_candidate paddr ≤ s.block.paddr / 4)
      × (s.block.paddr / 4 < first_candidate paddr + rounds paddr size)
candidate paddr size i s h o = ground (arith, h.aligned, h.short)

-- `after` is what `invalidate` returns: no valid slot holds a block with a byte of the range, and
-- a block outside of the range stays in its slot, unless the range is empty or 256 KiB or more.
pub record Invalidated (paddr size : ℕ) (c : BlockCache) (result : Option BlockCache) : Type 0 where
  pub after : BlockCache
  pub returns : result ≡ some after
  pub still : IsValid after
  pub gone :
      (j byte : ℕ)
      → (after.table j).valid ≡ true
      → paddr ≤ byte
      → byte < paddr + size
      → let block = (after.table j).block in
        (byte < block.paddr) ⊎ (block.paddr + length block.insns * 4 ≤ byte)
  pub spared :
      (j : ℕ)
      → size ≢ 0
      → size < 262144
      → (c.table j).valid ≡ true
      → let block = (c.table j).block in
        (paddr + size ≤ block.paddr) ⊎ (block.paddr + length block.insns * 4 ≤ paddr)
        → ((after.table j).valid ≡ true) × ((after.table j).block ≡ block)

clean_everywhere :
    (paddr size : ℕ) (c c' : BlockCache) (result : Option BlockCache)
    → WordsClean paddr size (rounds paddr size) (first_candidate paddr) c c'
    → (r : AliasedClean paddr size c' result) → (j : ℕ) → (r.after.table j).valid ≡ true
    → overlaps paddr size (r.after.table j).block ≡ false
clean_everywhere paddr size c c' result w r j full =
    elim (Option-cases (r.after.table j).aliased_position) [
      | inr (p, e) ↦
          (let (below, is_j) = r.purged.still.linked.listed j p e in
            rw is_j at (r.clean p below below))
      | inl e ↦ elim (Bool-cases (overlaps paddr size (r.after.table j).block)) [
        | inr apart ↦ apart
        | inl hit ↦
            (let home = direct_home j (r.after.table j) (r.purged.still.placed j full) e in
              let (lo, hi) =
                candidate paddr size j (r.after.table j) (r.purged.still.placed j full) hit in
              let word = (r.after.table j).block.paddr / 4 in
              let clean : IsClean paddr size c' j =
                subst (IsClean paddr size c') home (w.clean word lo hi) in
              IsClean-Purged paddr size j r.purged clean full)
      ]
    ]

cleared :
    (paddr size : ℕ) (c : BlockCache)
    → (size ≡ 0) ⊎ (262144 ≤ size)
    → Invalidated paddr size c (some (clear c))
unfolding clear
cleared paddr size c h = record {
  after = clear c;
  returns = refl;
  still = clear-IsValid c;
  gone = λ j byte full p q. cc;
  spared = λ j ne lt full apart. absurd (omega arith);
}

swept :
    (paddr size : ℕ) (c : BlockCache)
    → IsValid c
    → let c' = word_loop paddr size (rounds paddr size) (first_candidate paddr) c in
      Invalidated paddr size c (aliased_loop paddr size (length c'.aliased + 1) 0 c')
swept paddr size c v =
    let c' = word_loop paddr size (rounds paddr size) (first_candidate paddr) c in
    let w = word_loop-WordsClean paddr size (rounds paddr size) (first_candidate paddr) c v in
    let r =
      aliased_loop-AliasedClean paddr size (length c'.aliased + 1) 0 c' (omega arith) (omega arith)
        w.purged.still (λ p q. absurd (omega arith)) in
    let both = Purged-trans paddr size w.purged r.purged in
    record {
      after = r.after;
      returns = r.returns;
      still = r.purged.still;
      gone = λ j byte full p q. ground (arith, clean_everywhere paddr size c c' _ w r j full);
      spared = λ j ne lt full apart. (both.spared j full (ground arith), both.same_block j);
    }

-- On a cache in order `invalidate` ends. Afterwards the invariant still holds and no valid slot holds a block that
-- has a byte of the `size` bytes from `paddr`. A range that is not empty and below 256 KiB leaves
-- each block outside of it in its slot.
pub invalidate_lem :
    (paddr size : ℕ) (c : BlockCache)
    → IsValid c
    → Invalidated paddr size c (invalidate paddr size c)
unfolding invalidate
invalidate_lem paddr size c v = elim (Bool-cases (size == 0)) [
  | inl e ↦ rw e (cleared paddr size c (inl (ground arith)))
  | inr e ↦ elim (Bool-cases (leb 262144 size)) [
    | inl big ↦ rw (e, big) (cleared paddr size c (inr (ground arith)))
    | inr small ↦ rw (e, small) (swept paddr size c v)
  ]
]
