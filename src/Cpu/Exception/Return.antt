-- ===== src/Cpu/Exception/Return.antt =====
-- ERET after an exception, and when an interrupt is taken.
use emulador_n64emu.Base.{
  ℕ, ◌+◌, ◌<◌, ◌≤◌, leb, ltb, field_mask, bit-field_mask, if◌then◌else◌, ◌≡◌, ◌≢◌, ◌↔◌, min, arith,
  ℕ_discrete, ◌⊎◌, bit, bit_and, bit-bit_and, bit-lt, set_digit, ne_zero_of_bit, Bool, Bool-cases,
  inl, inr, true, false, ◌&&◌,
}
use emulador_n64emu.Cpu.{Cpu, status_ie, status_exl, status_erl}
use emulador_n64emu.Cpu.Cop0Reg.{cause, error_epc, status}
use emulador_n64emu.Cpu.ExcCode.{int}
use emulador_n64emu.Cpu.Exception.{
  interrupt_due, pending_interrupts, raise_exception, check_interrupts, do_eret,
}
use emulador_n64emu.Cpu.Exception.Raise.{restart_address, status-raise, epc-raise}

-- ERET undoes the entry into a handler: an exception with EXL and ERL clear, followed by ERET, restores
-- Status and goes on at the restart address, with no branch pending.
pub do_eret-raise :
    (exc_code bad ce : ℕ) (tlb_refill : Bool) (c : Cpu)
    → status_exl (c.cop0 status) ≡ false
    → status_erl (c.cop0 status) ≡ false
    → let c' = do_eret (raise_exception exc_code bad ce tlb_refill c) in
      (c'.cop0 status ≡ c.cop0 status)
      × (c'.pc ≡ restart_address c)
      × (c'.next_pc ≡ restart_address c)
      × (c'.branch_pending ≡ false)
unfolding do_eret
do_eret-raise exc_code bad ce tlb_refill c exl erl =
    ground
      (arith, status-raise exc_code bad ce tlb_refill c, epc-raise exc_code bad ce tlb_refill c)

-- While a reset or error handler runs (ERL), ERET goes to ErrorEPC and clears ERL, not EXL.
pub do_eret_erl :
    (c : Cpu)
    → status_erl (c.cop0 status) ≡ true
    → let c' = do_eret c in
      (c'.pc ≡ c.cop0 error_epc)
      × (status_erl (c'.cop0 status) ≡ false)
      × (status_exl (c'.cop0 status) ≡ status_exl (c.cop0 status))
unfolding do_eret
do_eret_erl c erl = ground arith

-- Line `k` of the eight is pending and enabled.
abbrev pub Due : Cpu → ℕ → Type 0
Due c k = (8 ≤ k) × (k < 16) × (bit k (c.cop0 cause) ≡ 1) × (bit k (c.cop0 status) ≡ 1)

bit-pending_interrupts :
    (c : Cpu) (k : ℕ)
    → bit k (pending_interrupts c)
      ≡ (if leb 8 k && ltb k (8 + 8) then min (bit k (c.cop0 cause)) (bit k (c.cop0 status)) else 0)
unfolding field_mask
bit-pending_interrupts c k = ground (
  arith,
  bit-bit_and k (bit_and (c.cop0 cause) (c.cop0 status)) 0xff00,
  bit-bit_and k (c.cop0 cause) (c.cop0 status),
  bit-field_mask 8 8 k,
  bit-lt k (c.cop0 cause),
  bit-lt k (c.cop0 status),
)

pending_iff : (c : Cpu) → (pending_interrupts c ≢ 0) ↔ ((k : ℕ) × Due c k)
pending_iff c = (λ ne. found ne, λ (k, d). nonzero k d)
  where
    found : pending_interrupts c ≢ 0 → (k : ℕ) × Due c k
    found ne =
        let (k, one) = set_digit (pending_interrupts c) ne in
        (
          k,
          ground (
            arith,
            bit-pending_interrupts c k,
            bit-lt k (c.cop0 cause),
            bit-lt k (c.cop0 status),
          ),
        )

    nonzero : (k : ℕ) → Due c k → pending_interrupts c ≢ 0
    nonzero k d =
        ne_zero_of_bit k (pending_interrupts c) (ground (arith, bit-pending_interrupts c k))

due_after_raise :
    (exc_code bad ce : ℕ) (tlb_refill : Bool) (c : Cpu)
    → interrupt_due (raise_exception exc_code bad ce tlb_refill c) ≡ false
due_after_raise exc_code bad ce tlb_refill c =
    rw (status-raise exc_code bad ce tlb_refill c) (ground arith)

check_twice : (c : Cpu) → check_interrupts (check_interrupts c) ≡ check_interrupts c
unfolding check_interrupts
check_twice c = elim (Bool-cases (interrupt_due c)) [
  | inl h ↦ rw (h, due_after_raise int 0 0 false c)
  | inr h ↦ rw (h, h)
]

by_cause :
    (c : Cpu)
    → (check_interrupts c ≡ raise_exception int 0 0 false c)
        × (status_ie (c.cop0 status) ≡ true)
        × (status_exl (c.cop0 status) ≡ false)
        × (status_erl (c.cop0 status) ≡ false)
        × ((k : ℕ) × Due c k)
      ⊎ (check_interrupts c ≡ c)
        × ((status_ie (c.cop0 status) ≡ false)
            ⊎ (status_exl (c.cop0 status) ≡ true)
            ⊎ (status_erl (c.cop0 status) ≡ true)
            ⊎ ¬ ((k : ℕ) × Due c k))
unfolding check_interrupts
by_cause c = elim (ℕ_discrete (pending_interrupts c) 0) [
  | yes z ↦ inr (ground arith, inr (inr (inr (λ due. absurd ((pending_iff c).1 due z)))))
  | no ne ↦ elim (Bool-cases (status_ie (c.cop0 status))) [
    | inr off ↦ inr (ground arith, inl off)
    | inl on ↦ elim (Bool-cases (status_exl (c.cop0 status))) [
      | inl handler ↦ inr (ground arith, inr (inl handler))
      | inr outside ↦ elim (Bool-cases (status_erl (c.cop0 status))) [
        | inl error ↦ inr (ground arith, inr (inr (inl error)))
        | inr normal ↦ inl (ground arith, on, outside, normal, (pending_iff c).0 ne)
      ]
    ]
  ]
]

-- `check_interrupts` either raises the interrupt exception, with interrupts enabled, no handler
-- running and one of the eight lines both pending in Cause and enabled in Status, or changes
-- nothing, with one of these missing. Right after it has raised one it raises no other.
pub check_interrupts_lem :
    (c : Cpu)
    → ((check_interrupts c ≡ raise_exception int 0 0 false c)
          × (status_ie (c.cop0 status) ≡ true)
          × (status_exl (c.cop0 status) ≡ false)
          × (status_erl (c.cop0 status) ≡ false)
          × ((k : ℕ) × Due c k)
        ⊎ (check_interrupts c ≡ c)
          × ((status_ie (c.cop0 status) ≡ false)
              ⊎ (status_exl (c.cop0 status) ≡ true)
              ⊎ (status_erl (c.cop0 status) ≡ true)
              ⊎ ¬ ((k : ℕ) × Due c k)))
      × (check_interrupts (check_interrupts c) ≡ check_interrupts c)
check_interrupts_lem c = (by_cause c, check_twice c)
