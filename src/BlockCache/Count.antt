-- ===== src/BlockCache/Count.antt =====
-- How many slots of the table are valid.
use emulador_n64emu.Base.{ℕ, zero, suc, ◌+◌, ◌≤◌, ◌<◌, if◌then◌else◌, Bool, false, ◌≡◌, refl, arith}
use emulador_n64emu.BlockCache.{update}

abbrev to_ℕ : Bool → ℕ
to_ℕ b = if b then 1 else 0

pub count_true : ℕ → (ℕ → Bool) → ℕ
count_true zero v = 0
count_true (suc n) v = count_true n v + to_ℕ (v n)

count_true-update_above :
    (n i : ℕ) (v : ℕ → Bool) (b : Bool) → n ≤ i → count_true n (update v i b) ≡ count_true n v
unfolding count_true
count_true-update_above zero i v b h = refl
count_true-update_above (suc n) i v b h =
    ground (arith, count_true-update_above n i v b (omega arith))

pub count_true-update :
    (n i : ℕ) (v : ℕ → Bool) (b : Bool)
    → i < n
    → count_true n (update v i b) + to_ℕ (v i) ≡ count_true n v + to_ℕ b
unfolding count_true
count_true-update zero i v b h = absurd (omega arith)
count_true-update (suc n) i v b h =
    ground (arith, count_true-update n i v b, count_true-update_above n i v b)

pub count_true-none : (n : ℕ) → count_true n (λ _. false) ≡ 0
unfolding count_true
count_true-none zero = refl
count_true-none (suc n) = omega (arith, count_true-none n)

-- If the count is zero there is none.
pub count_true-zero : (n : ℕ) (v : ℕ → Bool) → count_true n v ≡ 0 → (i : ℕ) → i < n → v i ≡ false
unfolding count_true
count_true-zero zero v e i h = absurd (omega arith)
count_true-zero (suc n) v e i h = ground (arith, count_true-zero n v (omega arith) i)
