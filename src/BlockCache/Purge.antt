-- ===== src/BlockCache/Purge.antt =====
-- The two loops of `invalidate`: what each removes, and that the second one ends.
use emulador_n64emu.Base.{
  ℕ, ℕ_discrete, zero, suc, ◌+◌, ◌-◌, ◌%◌, ◌≤◌, ◌<◌, ltb, ltb→lt, ◌≡◌, inl, inr, refl, ◌∙◌, arith,
  true, false, Bool-cases, Option, some, length, get_or, set, length-set, get_or-set_ne,
}
use emulador_n64emu.BlockCache.{
  BlockCache, overlaps, check_word, word_loop, aliased_loop, back, pop_back, invalidate_slot,
}
use emulador_n64emu.BlockCache.Linked.{length-pop_back, get_or-pop_back}
use emulador_n64emu.BlockCache.Invariant.{IsValid}
use emulador_n64emu.BlockCache.Drop.{invalidate_slot-Dropped, aliased-invalidate_slot}

module _ (paddr size : ℕ) where
  -- From `c` to `c'` only slots whose block overlaps the range have been emptied.
  pub record Purged (c c' : BlockCache) : Type 0 where
    pub still : IsValid c'
    pub no_new : (j : ℕ) → (c'.table j).valid ≡ true → (c.table j).valid ≡ true
    pub same_block : (j : ℕ) → (c'.table j).block ≡ (c.table j).block
    pub spared :
        (j : ℕ)
        → (c.table j).valid ≡ true
        → overlaps paddr size (c.table j).block ≡ false
        → (c'.table j).valid ≡ true

  -- Slot `j` holds no block that overlaps the range.
  abbrev pub IsClean : BlockCache → ℕ → Type 0
  IsClean c j = (c.table j).valid ≡ true → overlaps paddr size (c.table j).block ≡ false

  pub Purged-refl : {c : BlockCache} → IsValid c → Purged c c
  Purged-refl v = record {
    still = v;
    no_new = λ j h. h;
    same_block = λ j. refl;
    spared = λ j h o. h;
  }

  pub Purged-trans : {a b c : BlockCache} → Purged a b → Purged b c → Purged a c
  Purged-trans p q = record {
    still = q.still;
    no_new = λ j h. p.no_new j (q.no_new j h);
    same_block = λ j. q.same_block j ∙ p.same_block j;
    spared = λ j h o. q.spared j (p.spared j h o) (rw (p.same_block j) o);
  }

  -- A slot that is clean stays clean.
  pub IsClean-Purged : {c c' : BlockCache} (j : ℕ) → Purged c c' → IsClean c j → IsClean c' j
  IsClean-Purged j p h full = rw (p.same_block j) (h (p.no_new j full))

  invalidate_slot-Purged :
      (i : ℕ) (c : BlockCache)
      → IsValid c
      → (c.table i).valid ≡ true
      → overlaps paddr size (c.table i).block ≡ true
      → Purged c (invalidate_slot i c)
  invalidate_slot-Purged i c v full o =
      let d = invalidate_slot-Dropped i c v full in
      record {
        still = d.still;
        no_new = λ j h. ground (arith, d.gone, d.other_valid j);
        same_block = λ j. d.other_block j;
        spared = λ j h e. ground (arith, d.gone, d.other_valid j);
      }

  record Checked (word : ℕ) (c c' : BlockCache) : Type 0 where
    purged : Purged c c'
    clean : IsClean c' (word % 65536)

  check_word-Checked :
      (word : ℕ) (c : BlockCache) → IsValid c → Checked word c (check_word paddr size word c)
  unfolding check_word
  check_word-Checked word c v = elim (Bool-cases (c.table (word % 65536)).valid) [
    | inr empty ↦ rw empty (record { purged = Purged-refl v; clean = λ h. cc })
    | inl full ↦ elim (Bool-cases (overlaps paddr size (c.table (word % 65536)).block)) [
      | inr apart ↦ rw (full, apart) (record { purged = Purged-refl v; clean = λ h. apart })
      | inl hit ↦
          rw (full, hit)
            (record {
              purged = invalidate_slot-Purged (word % 65536) c v full hit;
              clean = λ h. cc ((invalidate_slot-Dropped (word % 65536) c v full).gone);
            })
    ]
  ]

  -- After the first loop the slot of each word of the range is clean.
  pub record WordsClean (left word : ℕ) (c c' : BlockCache) : Type 0 where
    pub purged : Purged c c'
    pub clean : (w : ℕ) → word ≤ w → w < word + left → IsClean c' (w % 65536)

  pub word_loop-WordsClean :
      (left word : ℕ) (c : BlockCache)
      → IsValid c
      → WordsClean left word c (word_loop paddr size left word c)
  unfolding word_loop
  word_loop-WordsClean zero word c v = record {
    purged = Purged-refl v;
    clean = λ w p q. absurd (omega arith);
  }
  word_loop-WordsClean (suc left) word c v =
      let step = check_word-Checked word c v in
      let rest =
        word_loop-WordsClean left (word + 1) (check_word paddr size word c) step.purged.still in
      record {
        purged = Purged-trans step.purged rest.purged;
        clean = λ w p q. elim (ℕ_discrete w word) [
          | yes e ↦ rw e (IsClean-Purged (word % 65536) rest.purged step.clean)
          | no ne ↦ rest.clean w (omega arith) (omega arith)
        ];
      }

  -- The slots on the list from position 0 up to `k` do not overlap the range.
  abbrev ListClean : ℕ → BlockCache → Type 0
  ListClean k c =
      (p : ℕ)
      → p < k
      → p < length c.aliased
      → overlaps paddr size (c.table (get_or c.aliased p 0)).block ≡ false

  pub record AliasedClean (c : BlockCache) (result : Option BlockCache) : Type 0 where
    pub after : BlockCache
    pub returns : result ≡ some after
    pub purged : Purged c after
    pub clean : ListClean (length after.aliased) after

  AliasedClean-after :
      {c c' : BlockCache} {result : Option BlockCache}
      → Purged c c'
      → AliasedClean c' result
      → AliasedClean c result
  AliasedClean-after p rest = record {
    after = rest.after;
    returns = rest.returns;
    purged = Purged-trans p rest.purged;
    clean = rest.clean;
  }

  -- Dropping the slot at `k` moves only the last slot of the list, and to `k`.
  module _ (k : ℕ) (c : BlockCache) (v : IsValid c) (h : k < length c.aliased) where
    at_k : ℕ
    at_k = get_or c.aliased k 0

    abbrev after_drop : BlockCache
    after_drop = invalidate_slot at_k c

    full_at_k : (c.table at_k).valid ≡ true
    unfolding at_k
    full_at_k = v.listed_valid at_k k (v.linked.kept k h)

    aliased-drop : after_drop.aliased ≡ pop_back (set c.aliased k (back c.aliased))
    unfolding at_k
    aliased-drop = aliased-invalidate_slot at_k k c full_at_k (v.linked.kept k h)

    length-drop : length after_drop.aliased ≡ length c.aliased - 1
    length-drop = ground (
      arith,
      aliased-drop,
      length-pop_back (set c.aliased k (back c.aliased)),
      length-set c.aliased k (back c.aliased),
    )

    get_or-drop : (p : ℕ) → p < k → get_or after_drop.aliased p 0 ≡ get_or c.aliased p 0
    get_or-drop p q = ground (
      arith,
      aliased-drop,
      get_or-pop_back (set c.aliased k (back c.aliased)) p,
      length-set c.aliased k (back c.aliased),
      get_or-set_ne c.aliased k p (back c.aliased) 0,
    )

    ListClean-drop : ListClean k c → ListClean k after_drop
    ListClean-drop clean p q r =
        rw (get_or-drop p q, (invalidate_slot-Dropped at_k c v full_at_k).other_block)
          (clean p q (omega arith))

    drop-Purged : overlaps paddr size (c.table at_k).block ≡ true → Purged c after_drop
    drop-Purged hit = invalidate_slot-Purged at_k c v full_at_k hit

  pub aliased_loop-AliasedClean :
      (fuel k : ℕ) (c : BlockCache)
      → length c.aliased < fuel + k
      → k ≤ length c.aliased
      → IsValid c
      → ListClean k c
      → AliasedClean c (aliased_loop paddr size fuel k c)
  unfolding aliased_loop at_k
  aliased_loop-AliasedClean zero k c enough within v clean = absurd (omega arith)
  aliased_loop-AliasedClean (suc fuel) k c enough within v clean =
      elim (Bool-cases (ltb k (length c.aliased))) [
        | inr ended ↦
            rw (ended, aliased_loop)
              (record {
                after = c;
                returns = refl;
                purged = Purged-refl v;
                clean = λ p q r. clean p (ground arith) r;
              })
        | inl more ↦
            elim (Bool-cases (overlaps paddr size (c.table (get_or c.aliased k 0)).block)) [
              | inr apart ↦
                  rw (more, apart, aliased_loop)
                    (aliased_loop-AliasedClean fuel (k + 1) c (omega arith) (ground arith) v
                      (λ p q r. elim (ℕ_discrete p k) [
                        | yes e ↦ rw e apart
                        | no ne ↦ clean p (omega arith) r
                      ]))
              | inl hit ↦
                  rw (more, hit, aliased_loop)
                    (let h : k < length c.aliased = ltb→lt k (length c.aliased) more in
                      let step = drop-Purged k c v h hit in
                      AliasedClean-after step (
                        aliased_loop-AliasedClean fuel k (after_drop k c v h)
                          (omega (arith, length-drop k c v h)) (omega (arith, length-drop k c v h))
                          step.still (ListClean-drop k c v h clean)))
            ]
      ]
