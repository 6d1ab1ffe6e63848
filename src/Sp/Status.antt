-- ===== src/Sp/Status.antt =====
-- The status register and the flags of the RSP say the same.
use emulador_n64emu.Base.{
  ℕ, zero, suc, ◌+◌, ◌*◌, ◌<◌, if◌then◌else◌, ◌≡◌, ◌≢◌, refl, ap, ◌∙◌, arith, Bool, bit, has_bit,
}
use emulador_n64emu.Base.{set_if, clear_if, bit-set_if, bit-clear_if}
use emulador_n64emu.Rsp.{Rsp, set_halted, set_broke, set_intr_on_break}
use emulador_n64emu.Sp.{
  Sp, World, pull_mem_from_bus, signal_loop, status_bits, status_flags, apply_status_write,
}

-- The halt, broke and interrupt bits are the flags.
pub record IsCoherent (s : Sp) (r : Rsp) : Type 0 where
  pub halt : has_bit 0 s.status ≡ r.halted
  pub broken : has_bit 1 s.status ≡ r.broke
  pub on_break : has_bit 6 s.status ≡ r.intr_on_break

-- The signals are above bit 6.
signal_loop-keeps :
    (left i k value status : ℕ) → k < 7 → bit k (signal_loop left i value status) ≡ bit k status
unfolding signal_loop
signal_loop-keeps zero i k value status h = refl
signal_loop-keeps (suc left) i k value status h =
    let cleared = clear_if (has_bit (9 + i * 2) value) (7 + i) status in
    signal_loop-keeps left (i + 1) k value _ h
    ∙ ground (
      arith,
      bit-set_if k (has_bit (10 + i * 2) value) (7 + i) cleared,
      bit-clear_if k (has_bit (9 + i * 2) value) (7 + i) status,
    )

-- A guarded write of another digit, and of this one.
set_if_other : (j k x : ℕ) (b : Bool) → j ≢ k → bit j (set_if b k x) ≡ bit j x
set_if_other j k x b h = ground (arith, bit-set_if j b k x)

clear_if_other : (j k x : ℕ) (b : Bool) → j ≢ k → bit j (clear_if b k x) ≡ bit j x
clear_if_other j k x b h = ground (arith, bit-clear_if j b k x)

set_if_self : (k x : ℕ) (b : Bool) → bit k (set_if b k x) ≡ (if b then 1 else bit k x)
set_if_self k x b = ground (arith, bit-set_if k b k x)

clear_if_self : (k x : ℕ) (b : Bool) → bit k (clear_if b k x) ≡ (if b then 0 else bit k x)
clear_if_self k x b = ground (arith, bit-clear_if k b k x)

-- The digits of the status register after the pairs.
halt_digit :
    (value s : ℕ)
    → bit 0 (status_bits value s)
      ≡ (if has_bit 1 value then 1 else if has_bit 0 value then 0 else bit 0 s)
unfolding status_bits
halt_digit value s =
    set_if_other 0 6 _ _ (omega arith)
    ∙ clear_if_other 0 6 _ _ (omega arith)
    ∙ set_if_other 0 5 _ _ (omega arith)
    ∙ clear_if_other 0 5 _ _ (omega arith)
    ∙ clear_if_other 0 1 _ _ (omega arith)
    ∙ set_if_self 0 _ _
    ∙ ap (λ d. if has_bit 1 value then 1 else d)
        (clear_if_other 0 1 _ _ (omega arith) ∙ clear_if_self 0 s (has_bit 0 value))

broke_digit :
    (value s : ℕ)
    → bit 1 (status_bits value s)
      ≡ (if has_bit 2 value then 0 else if has_bit 0 value then 0 else bit 1 s)
unfolding status_bits
broke_digit value s =
    set_if_other 1 6 _ _ (omega arith)
    ∙ clear_if_other 1 6 _ _ (omega arith)
    ∙ set_if_other 1 5 _ _ (omega arith)
    ∙ clear_if_other 1 5 _ _ (omega arith)
    ∙ clear_if_self 1 _ _
    ∙ ap (λ d. if has_bit 2 value then 0 else d)
        (set_if_other 1 0 _ _ (omega arith)
          ∙ clear_if_self 1 _ _
          ∙ ap (λ d. if has_bit 0 value then 0 else d) (clear_if_other 1 0 s _ (omega arith)))

on_break_digit :
    (value s : ℕ)
    → bit 6 (status_bits value s)
      ≡ (if has_bit 8 value then 1 else if has_bit 7 value then 0 else bit 6 s)
unfolding status_bits
on_break_digit value s =
    set_if_self 6 _ _
    ∙ ap (λ d. if has_bit 8 value then 1 else d)
        (clear_if_self 6 _ _
          ∙ ap (λ d. if has_bit 7 value then 0 else d)
              (set_if_other 6 5 _ _ (omega arith)
                ∙ clear_if_other 6 5 _ _ (omega arith)
                ∙ clear_if_other 6 1 _ _ (omega arith)
                ∙ set_if_other 6 0 _ _ (omega arith)
                ∙ clear_if_other 6 1 _ _ (omega arith)
                ∙ clear_if_other 6 0 s _ (omega arith)))

-- A write of the status register keeps its halt, broke and interrupt bits the flags of the RSP.
pub apply_status_write-IsCoherent :
    (value : ℕ) (s : Sp) (w : World)
    → IsCoherent s w.rsp
    → let (s', w') = apply_status_write value s w in IsCoherent s' w'.rsp
unfolding apply_status_write status_flags set_halted set_broke set_intr_on_break pull_mem_from_bus
    has_bit
apply_status_write-IsCoherent value s w h = record {
  halt = ground (
    arith,
    signal_loop-keeps 8 0 0 value (status_bits value s.status) (omega arith),
    halt_digit value s.status,
  );
  broken = ground (
    arith,
    signal_loop-keeps 8 0 1 value (status_bits value s.status) (omega arith),
    broke_digit value s.status,
  );
  on_break = ground (
    arith,
    signal_loop-keeps 8 0 6 value (status_bits value s.status) (omega arith),
    on_break_digit value s.status,
  );
}
