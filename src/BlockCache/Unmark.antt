-- ===== src/BlockCache/Unmark.antt =====
-- Taking a slot off the list of aliased slots, and putting one on it.
use emulador_n64emu.Base.{
  ℕ, ◌-◌, ◌≡◌, ◌≢◌, inl, inr, refl, sym, subst, fun_ext, arith, Bool, true, false, Option, none,
  some, Option-cases, [], ◌∷◌, ◌++◌, length, set,
}
use emulador_n64emu.BlockCache.{
  Slot, BlockCache, back, pop_back, set_position, update, unmark_physically_aliased,
  mark_physically_aliased,
}
use emulador_n64emu.BlockCache.Linked.{IsLinked, IsLinked-unmark, IsLinked-mark}
use emulador_n64emu.BlockCache.Invariant.{positions, positions-set_position}

abbrev pub is_listed : Option ℕ → Bool
is_listed none = false
is_listed (some p) = true

-- The slots hold what they held.
pub record SameSlots (c c' : BlockCache) : Type 0 where
  pub same_valid : (j : ℕ) → (c'.table j).valid ≡ (c.table j).valid
  pub same_tag : (j : ℕ) → (c'.table j).tag_pc ≡ (c.table j).tag_pc
  pub same_block : (j : ℕ) → (c'.table j).block ≡ (c.table j).block
  pub same_count : c'.count ≡ c.count

-- Only slot `i` has changed its place on the list.
pub record Relisted (i : ℕ) (c c' : BlockCache) : Type 0 where
  pub slots : SameSlots c c'
  pub linked : IsLinked (positions c'.table) c'.aliased
  pub others :
      (j : ℕ)
      → j ≢ i
      → is_listed (c'.table j).aliased_position ≡ is_listed (c.table j).aliased_position

unmark_none :
    (i : ℕ) (c : BlockCache)
    → (c.table i).aliased_position ≡ none
    → unmark_physically_aliased i c ≡ c
unfolding unmark_physically_aliased
unmark_none i c e = ground arith

unmark_some :
    (i p : ℕ) (c : BlockCache)
    → (c.table i).aliased_position ≡ some p
    → unmark_physically_aliased i c ≡ record c {
      table = set_position (set_position c.table (back c.aliased) (some p)) i none;
      aliased = pop_back (set c.aliased p (back c.aliased));
    }
unfolding unmark_physically_aliased
unmark_some i p c e = rw (e, unmark_physically_aliased)

positions-unmark :
    (t : ℕ → Slot) (r p i : ℕ)
    → positions (set_position (set_position t r (some p)) i none)
      ≡ update (update (positions t) r (some p)) i none
positions-unmark t r p i = fun_ext λ j. ground arith

unmark_at :
    (i p : ℕ) (c : BlockCache)
    → IsLinked (positions c.table) c.aliased
    → (c.table i).aliased_position ≡ some p
    → Relisted i c (record c {
      table = set_position (set_position c.table (back c.aliased) (some p)) i none;
      aliased = pop_back (set c.aliased p (back c.aliased));
    })
unmark_at i p c l e = record {
  slots = record {
    same_valid = λ j. ground arith;
    same_tag = λ j. ground arith;
    same_block = λ j. ground arith;
    same_count = refl;
  };
  linked =
      subst (λ q. IsLinked q (pop_back (set c.aliased p (back c.aliased))))
        (sym (positions-unmark c.table (back c.aliased) p i))
        (IsLinked-unmark (positions c.table) c.aliased i p l e);
  others = λ j ne. ground (arith, l.listed i p, l.kept (length c.aliased - 1));
}

pub Relisted-refl :
    (i : ℕ) (c : BlockCache) → IsLinked (positions c.table) c.aliased → Relisted i c c
Relisted-refl i c l = record {
  slots = record {
    same_valid = λ j. refl;
    same_tag = λ j. refl;
    same_block = λ j. refl;
    same_count = refl;
  };
  linked = l;
  others = λ j ne. refl;
}

-- `unmark_physically_aliased` takes its slot off the list and changes nothing else of any slot.
pub unmark-Relisted :
    (i : ℕ) (c : BlockCache)
    → IsLinked (positions c.table) c.aliased
    → Relisted i c (unmark_physically_aliased i c)
unmark-Relisted i c l = elim (Option-cases (c.table i).aliased_position) [
  | inl e ↦ rw (unmark_none i c e) (Relisted-refl i c l)
  | inr (p, e) ↦ rw (unmark_some i p c e) (unmark_at i p c l e)
]

pub unmark-unlisted :
    (i : ℕ) (c : BlockCache) → ((unmark_physically_aliased i c).table i).aliased_position ≡ none
unfolding unmark_physically_aliased
unmark-unlisted i c = ground arith

mark_at :
    (i : ℕ) (c : BlockCache)
    → IsLinked (positions c.table) c.aliased
    → (c.table i).aliased_position ≡ none
    → Relisted i c (record c {
      table = set_position c.table i (some (length c.aliased));
      aliased = c.aliased ++ i ∷ [];
    })
mark_at i c l e = record {
  slots = record {
    same_valid = λ j. ground arith;
    same_tag = λ j. ground arith;
    same_block = λ j. ground arith;
    same_count = refl;
  };
  linked =
      subst (λ q. IsLinked q (c.aliased ++ i ∷ []))
        (sym (positions-set_position c.table i (some (length c.aliased))))
        (IsLinked-mark (positions c.table) c.aliased i l e);
  others = λ j ne. ground arith;
}

mark_none :
    (i : ℕ) (c : BlockCache)
    → (c.table i).aliased_position ≡ none
    → mark_physically_aliased i c ≡ record c {
      table = set_position c.table i (some (length c.aliased));
      aliased = c.aliased ++ i ∷ [];
    }
unfolding mark_physically_aliased
mark_none i c e = rw (e, mark_physically_aliased)

-- `mark_physically_aliased` puts a slot that is not listed on the list.
pub mark-Relisted :
    (i : ℕ) (c : BlockCache)
    → IsLinked (positions c.table) c.aliased
    → (c.table i).aliased_position ≡ none
    → Relisted i c (mark_physically_aliased i c)
mark-Relisted i c l e = rw (mark_none i c e) (mark_at i c l e)

pub mark-listed :
    (i : ℕ) (c : BlockCache)
    → is_listed ((mark_physically_aliased i c).table i).aliased_position ≡ true
unfolding mark_physically_aliased
mark-listed i c = ground arith
