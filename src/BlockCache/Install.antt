-- ===== src/BlockCache/Install.antt =====
-- `compile` keeps the invariant, and the block that it returns is found by `lookup`.
use emulador_n64emu.Base.{
  ℕ, ℕ_discrete, ◌+◌, ◌%◌, ◌≤◌, ◌<◌, if◌then◌else◌, ◌≡◌, fun_ext, ◌∙◌, arith, true, Bool-cases, inl,
  inr, none, some, Option-cases, length,
}
use emulador_n64emu.BlockCache.{
  BasicBlock, BlockCache, index_of, update, unmark_physically_aliased, mark_physically_aliased,
  lookup,
}
use emulador_n64emu.BlockCache.Linked.{IsLinked}
use emulador_n64emu.BlockCache.Count.{count_true, count_true-update}
use emulador_n64emu.BlockCache.Fetch.{direct_mapped, install}
use emulador_n64emu.BlockCache.Invariant.{IsValid, positions, valids}
use emulador_n64emu.BlockCache.Unmark.{
  Relisted, Relisted-refl, unmark-Relisted, unmark-unlisted, mark-Relisted, mark-listed,
}
use emulador_n64emu.BlockCache.Drop.{IsPlaced-same}

-- What `install` asks of a block.
pub record IsBlock (b : BasicBlock) : Type 0 where
  pub aligned : b.paddr % 4 ≡ 0
  pub not_empty : 0 < length b.insns
  pub short : length b.insns ≤ 33

module _ (b : BasicBlock) (c : BlockCache) (v : IsValid c) (good : IsBlock b) where
  home : ℕ
  home = index_of b.start_pc

  unlisted : BlockCache
  unlisted = unmark_physically_aliased home c

  filled : BlockCache
  filled = record unlisted {
    table =
        update unlisted.table home
          (record (unlisted.table home) { tag_pc = b.start_pc; block = b; valid = true });
    count = if (unlisted.table home).valid then unlisted.count else unlisted.count + 1;
  }

  off_list : Relisted home c unlisted
  unfolding unlisted
  off_list = unmark-Relisted home c v.linked

  not_listed : (unlisted.table home).aliased_position ≡ none
  unfolding unlisted
  not_listed = unmark-unlisted home c

  positions-filled : positions filled.table ≡ positions unlisted.table
  unfolding filled
  positions-filled = fun_ext λ j. ground arith

  valids-filled : valids filled.table ≡ update (valids c.table) home true
  unfolding filled
  valids-filled = fun_ext λ j. ground (arith, off_list.slots.same_valid j)

  counted-filled : filled.count ≡ count_true 65536 (valids filled.table)
  unfolding filled home
  counted-filled = rw valids-filled (
      ground (
        arith,
        v.counted,
        off_list.slots.same_count,
        off_list.slots.same_valid home,
        count_true-update 65536 home (valids c.table) true,
      ))

  -- The rest of `install` may put the slot on the list, and must if it is not direct-mapped.
  filled-IsValid :
      (c' : BlockCache)
      → Relisted home filled c'
      → ((c'.table home).aliased_position ≡ none → direct_mapped b.start_pc b.paddr ≡ true)
      → IsValid c'
  unfolding filled
  filled-IsValid c' r direct = record {
    linked = r.linked;
    placed = λ i full. elim (ℕ_discrete i home) [
      | yes e ↦ rw e (record {
        in_table = rw (r.slots.same_tag home) (unfold home in ground arith);
        tagged = ground (arith, r.slots.same_tag home, r.slots.same_block home);
        aligned = ground (arith, good.aligned, r.slots.same_block home);
        not_empty = ground (arith, good.not_empty, r.slots.same_block home);
        short = ground (arith, good.short, r.slots.same_block home);
        direct = λ h. ground (arith, direct h, r.slots.same_tag home, r.slots.same_block home);
      })
      | no ne ↦
          IsPlaced-same i (c.table i) (c'.table i)
            (ground (arith, r.slots.same_tag i, off_list.slots.same_tag i))
            (ground (arith, r.slots.same_block i, off_list.slots.same_block i))
            (ground (arith, r.others i ne, off_list.others i ne))
            (v.placed i (ground (arith, r.slots.same_valid i, off_list.slots.same_valid i)))
    ];
    listed_valid = λ i p h. elim (ℕ_discrete i home) [
      | yes e ↦ ground (arith, r.slots.same_valid i)
      | no ne ↦ elim (Option-cases (c.table i).aliased_position) [
        | inl free ↦ ground (arith, r.others i ne, off_list.others i ne)
        | inr (q, at) ↦
            ground (arith, v.listed_valid i q at, r.slots.same_valid i, off_list.slots.same_valid i)
      ]
    ];
    counted =
        let same : valids c'.table ≡ valids filled.table = fun_ext r.slots.same_valid in
        rw same (r.slots.same_count ∙ counted-filled);
  }

  IsLinked-filled : IsLinked (positions filled.table) unlisted.aliased
  IsLinked-filled = rw positions-filled off_list.linked

  not_listed-filled : (filled.table home).aliased_position ≡ none
  unfolding filled
  not_listed-filled = ground (arith, not_listed)

  -- Installing a block keeps the invariant.
  pub install-IsValid : IsValid (install b c)
  unfolding install home unlisted filled
  install-IsValid = elim (Bool-cases (direct_mapped b.start_pc b.paddr)) [
    | inl d ↦ rw d (filled-IsValid filled (Relisted-refl home filled IsLinked-filled) (λ _. d))
    | inr d ↦ rw d (
        filled-IsValid (mark_physically_aliased home filled)
          (mark-Relisted home filled IsLinked-filled not_listed-filled)
          (λ h. ground (arith, mark-listed home filled)))
  ]

  -- The slot of the block then holds it.
  slot-install :
      let s = (install b c).table home in (s.valid ≡ true) × (s.tag_pc ≡ b.start_pc) × (s.block ≡ b)
  unfolding install home unlisted filled
  slot-install = elim (Bool-cases (direct_mapped b.start_pc b.paddr)) [
    | inl d ↦ rw d (ground arith)
    | inr d ↦
        (let r = mark-Relisted home filled IsLinked-filled not_listed-filled in
          rw d (
            ground
              (arith, r.slots.same_valid home, r.slots.same_tag home, r.slots.same_block home)))
  ]

  pub lookup-install : (lookup b.start_pc (install b c)).0 ≡ some b
  unfolding lookup home
  lookup-install = ground (arith, slot-install)
