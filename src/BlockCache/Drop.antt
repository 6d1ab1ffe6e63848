-- ===== src/BlockCache/Drop.antt =====
-- `invalidate_slot`: the slot is emptied, no other loses its block, and the invariant is kept.
use emulador_n64emu.Base.{
  ℕ, ◌-◌, ◌≡◌, ◌≢◌, inl, inr, sym, subst, fun_ext, arith, true, false, none, some, Option-cases,
  set,
}
use emulador_n64emu.BlockCache.{
  Slot, BlockCache, back, pop_back, drop_slot, unmark_physically_aliased, invalidate_slot,
}
use emulador_n64emu.BlockCache.Linked.{IsLinked}
use emulador_n64emu.BlockCache.Count.{count_true, count_true-update}
use emulador_n64emu.BlockCache.Invariant.{
  IsPlaced, IsValid, valids, positions-drop_slot, valids-drop_slot,
}
use emulador_n64emu.BlockCache.Unmark.{is_listed, Relisted, unmark-Relisted, unmark-unlisted}

-- A slot of which only the listing may have changed, and not from listed to not listed.
pub IsPlaced-same :
    (i : ℕ) (s s' : Slot)
    → s'.tag_pc ≡ s.tag_pc
    → s'.block ≡ s.block
    → is_listed s'.aliased_position ≡ is_listed s.aliased_position
    → IsPlaced i s
    → IsPlaced i s'
IsPlaced-same i s s' tag block listed h = record {
  in_table = rw tag h.in_table;
  tagged = rw (tag, block) h.tagged;
  aligned = rw block h.aligned;
  not_empty = rw block h.not_empty;
  short = rw block h.short;
  direct = λ e. rw (tag, block) (h.direct (ground arith));
}

pub record Dropped (i : ℕ) (c c' : BlockCache) : Type 0 where
  pub gone : (c'.table i).valid ≡ false
  pub other_valid : (j : ℕ) → j ≢ i → (c'.table j).valid ≡ (c.table j).valid
  pub other_block : (j : ℕ) → (c'.table j).block ≡ (c.table j).block
  pub still : IsValid c'

dropped : ℕ → BlockCache → BlockCache
dropped i c =
    let c' = unmark_physically_aliased i c in
    record c' { table = drop_slot c'.table i; count = c'.count - 1 }

module _ (i : ℕ) (c : BlockCache) (v : IsValid c) (full : (c.table i).valid ≡ true) where
  unmarked : BlockCache
  unmarked = unmark_physically_aliased i c

  relisted : Relisted i c unmarked
  unfolding unmarked
  relisted = unmark-Relisted i c v.linked

  unlisted : (unmarked.table i).aliased_position ≡ none
  unfolding unmarked
  unlisted = unmark-unlisted i c

  dropped-IsPlaced :
      (j : ℕ)
      → (drop_slot unmarked.table i j).valid ≡ true
      → IsPlaced j (drop_slot unmarked.table i j)
  dropped-IsPlaced j h =
      let ne : j ≢ i = ground arith in
      let s = relisted.slots in
      IsPlaced-same j (c.table j) (drop_slot unmarked.table i j) (ground (arith, s.same_tag j))
        (ground (arith, s.same_block j)) (ground (arith, relisted.others j ne))
        (v.placed j (ground (arith, s.same_valid j)))

  dropped-listed_valid :
      (j p : ℕ)
      → (drop_slot unmarked.table i j).aliased_position ≡ some p
      → (drop_slot unmarked.table i j).valid ≡ true
  dropped-listed_valid j p h = elim (Option-cases (c.table j).aliased_position) [
    | inl e ↦ ground (arith, unlisted, relisted.others j)
    | inr (q, e) ↦ ground (arith, unlisted, relisted.slots.same_valid j, v.listed_valid j q e)
  ]

  dropped-counted : unmarked.count - 1 ≡ count_true 65536 (valids (drop_slot unmarked.table i))
  dropped-counted =
      let same : valids unmarked.table ≡ valids c.table = fun_ext relisted.slots.same_valid in
      let placed = v.placed i full in
      rw (valids-drop_slot unmarked.table i, same)
        (ground (
          arith,
          relisted.slots.same_count,
          v.counted,
          placed.in_table,
          count_true-update 65536 i (valids c.table) false,
        ))

  dropped-IsValid : IsValid (dropped i c)
  unfolding dropped unmarked
  dropped-IsValid = record {
    linked =
        subst (λ q. IsLinked q unmarked.aliased) (sym (positions-drop_slot unmarked.table i))
          relisted.linked;
    placed = dropped-IsPlaced;
    listed_valid = dropped-listed_valid;
    counted = dropped-counted;
  }

  invalidate_slot-eq : invalidate_slot i c ≡ dropped i c
  unfolding invalidate_slot dropped
  invalidate_slot-eq = rw full

  dropped-Dropped : Dropped i c (dropped i c)
  unfolding dropped unmarked
  dropped-Dropped = record {
    gone = ground arith;
    other_valid = λ j ne. ground (arith, relisted.slots.same_valid j);
    other_block = λ j. ground (arith, relisted.slots.same_block j);
    still = dropped-IsValid;
  }

  -- `invalidate_slot` of a valid slot.
  pub invalidate_slot-Dropped : Dropped i c (invalidate_slot i c)
  invalidate_slot-Dropped = rw invalidate_slot-eq dropped-Dropped

-- The list after `invalidate_slot` of the slot that it holds at `p`.
pub aliased-invalidate_slot :
    (i p : ℕ) (c : BlockCache)
    → (c.table i).valid ≡ true
    → (c.table i).aliased_position ≡ some p
    → (invalidate_slot i c).aliased ≡ pop_back (set c.aliased p (back c.aliased))
unfolding invalidate_slot unmark_physically_aliased
aliased-invalidate_slot i p c full e = ground arith
