-- ===== src/BlockCache/Linked.antt =====
-- The list of aliased slots and the positions that the slots keep in it point at one another.
use emulador_n64emu.Base.{
  ℕ, zero, suc, ◌-◌, ◌<◌, ◌==◌, if◌then◌else◌, ◌≡◌, refl, arith, Option, none, some, List, [], ◌∷◌,
  ◌++◌, length, get_or, set, length-set, length-append, get_or-set_self, get_or-set_ne,
  get_or-append_left, get_or-append_length,
}
use emulador_n64emu.BlockCache.{back, pop_back, update}

pub length-pop_back : (xs : List ℕ) → length (pop_back xs) ≡ length xs - 1
length-pop_back [] = refl
length-pop_back (x ∷ []) = refl
length-pop_back (x ∷ y ∷ xs) = omega (arith, length-pop_back (y ∷ xs))

pub get_or-pop_back :
    (xs : List ℕ) (i : ℕ) → i < length xs - 1 → get_or (pop_back xs) i 0 ≡ get_or xs i 0
get_or-pop_back [] i h = refl
get_or-pop_back (x ∷ []) i h = absurd (omega arith)
get_or-pop_back (x ∷ y ∷ xs) zero h = refl
get_or-pop_back (x ∷ y ∷ xs) (suc i) h = get_or-pop_back (y ∷ xs) i (omega arith)

-- `pos i` is the position that slot `i` keeps.
pub record IsLinked (pos : ℕ → Option ℕ) (a : List ℕ) : Type 0 where
  pub listed : (i p : ℕ) → pos i ≡ some p → (p < length a) × (get_or a p 0 ≡ i)
  pub kept : (p : ℕ) → p < length a → pos (get_or a p 0) ≡ some p

pub IsLinked-nil : IsLinked (λ _. none) []
IsLinked-nil = record { listed = λ i p h. cc; kept = λ p h. absurd (omega arith) }

-- `mark_physically_aliased` of a slot that is not listed.
pub IsLinked-mark :
    (pos : ℕ → Option ℕ) (a : List ℕ) (i : ℕ)
    → IsLinked pos a
    → pos i ≡ none
    → IsLinked (update pos i (some (length a))) (a ++ i ∷ [])
IsLinked-mark pos a i l free = record {
  listed = λ j p h. ground (
    arith,
    l.listed j p,
    length-append a (i ∷ []),
    get_or-append_left a (i ∷ []) p 0,
    get_or-append_length a i 0,
  );
  kept = λ p h. ground (
    arith,
    l.kept p,
    length-append a (i ∷ []),
    get_or-append_left a (i ∷ []) p 0,
    get_or-append_length a i 0,
  );
}

-- `unmark_physically_aliased` of a slot that is listed at `p`: the last slot takes its place.
module _ (pos : ℕ → Option ℕ) (a : List ℕ) (i p : ℕ) (l : IsLinked pos a)
    (at : pos i ≡ some p) where
  moved : List ℕ
  moved = pop_back (set a p (back a))

  length-moved : length moved ≡ length a - 1
  unfolding moved
  length-moved = ground (arith, length-pop_back (set a p (back a)), length-set a p (back a))

  get_or-moved :
      (q : ℕ) → q < length a - 1 → get_or moved q 0 ≡ (if q == p then back a else get_or a q 0)
  unfolding moved
  get_or-moved q h = ground (
    arith,
    length-set a p (back a),
    get_or-pop_back (set a p (back a)) q,
    get_or-set_self a p (back a) 0,
    get_or-set_ne a p q (back a) 0,
  )

  pub IsLinked-unmark :
      IsLinked (update (update pos (back a) (some p)) i none) (pop_back (set a p (back a)))
  unfolding moved
  IsLinked-unmark = record {
    listed = λ j q h. ground (
      arith,
      length-moved,
      get_or-moved q,
      l.listed i p,
      l.listed j q,
      l.listed (back a) (length a - 1),
      l.kept (length a - 1),
    );
    kept = λ q h. ground (
      arith,
      length-moved,
      get_or-moved q,
      l.listed i p,
      l.kept q,
      l.kept p,
      l.kept (length a - 1),
    );
  }
