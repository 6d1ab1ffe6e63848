-- ===== src/Cpu/Exception/Raise.antt =====
-- What an exception does to the registers that software reads.
use emulador_n64emu.Base.{
  ℕ, ◌+◌, ◌/◌, ◌%◌, ◌^◌, ◌<◌, if◌then◌else◌, ◌≡◌, ◌≢◌, ◌↔◌, ◌⊎◌, refl, arith, ==-ne, Bool,
  Bool-cases, inl, inr, true, false, not, ◌&&◌, ◌∙◌, if_false,
}
use emulador_n64emu.BlockCache.{update}
use emulador_n64emu.Cpu.{Cpu, get_field, put_field, status_exl, status_bev}
use emulador_n64emu.Cpu.Cop0Reg.{bad_vaddr, cause, context, entry_hi, epc, error_epc, status}
use emulador_n64emu.Cpu.Exception.{
  kernel_mode, before_pc, interrupt_due, is_address_code, is_tlb_code, raised_cause, raised_epc,
  raised_context, raised_entry_hi, raise_exception,
}

-- Where execution has to go on, and whether BD is set: the address of the instruction, or that of
-- the branch before it if it stands in a delay slot.
abbrev pub restart_address : Cpu → ℕ
restart_address c = if c.in_delay_slot then before_pc c.pc else c.pc % 2 ^ 32

abbrev branch_delay : Cpu → ℕ
branch_delay c = get_field 31 1 (c.cop0 cause)

pub record Raised (exc_code bad ce : ℕ) (tlb_refill : Bool) (c c' : Cpu) : Type 0 where
  pub code_set : get_field 2 5 (c'.cop0 cause) ≡ exc_code
  pub unit_set : get_field 28 2 (c'.cop0 cause) ≡ ce
  pub lines_kept : get_field 8 8 (c'.cop0 cause) ≡ get_field 8 8 (c.cop0 cause)
  pub kernel : kernel_mode c' ≡ true
  pub masked : interrupt_due c' ≡ false
  pub first :
      status_exl (c.cop0 status) ≡ false
      → (c'.cop0 epc ≡ restart_address c) × (branch_delay c' ≡ (if c.in_delay_slot then 1 else 0))
  pub nested :
      status_exl (c.cop0 status) ≡ true
      → (c'.cop0 epc ≡ c.cop0 epc) × (branch_delay c' ≡ branch_delay c)
  pub refill :
      (c'.pc % 2 ^ 12 ≡ 0) ⊎ (c'.pc % 2 ^ 12 ≡ 0x200)
      ↔ ((tlb_refill ≡ true) × (status_exl (c.cop0 status) ≡ false))
  pub fetch_on : (c'.next_pc ≡ c'.pc + 4) × (c'.branch_pending ≡ false) × (c'.ll_bit ≡ false)
  pub base :
      c'.pc
      ≡ (if status_bev (c.cop0 status) then 0xbfc0_0200 else 0x8000_0000)
        + (if tlb_refill && not (status_exl (c.cop0 status)) then 0 else 0x180)
  pub bad_set : is_address_code exc_code ≡ true → c'.cop0 bad_vaddr ≡ bad % 2 ^ 32
  pub bad_kept : is_address_code exc_code ≡ false → c'.cop0 bad_vaddr ≡ c.cop0 bad_vaddr
  pub page_set :
      is_tlb_code exc_code ≡ true
      → (get_field 4 19 (c'.cop0 context) ≡ bad % 2 ^ 32 / 2 ^ 13)
        × (c'.cop0 context % 2 ^ 4 ≡ 0)
        × (c'.cop0 context / 2 ^ 23 ≡ c.cop0 context / 2 ^ 23)
        × (c'.cop0 entry_hi / 2 ^ 13 ≡ bad % 2 ^ 32 / 2 ^ 13)
        × (c'.cop0 entry_hi % 2 ^ 13 ≡ c.cop0 entry_hi % 2 ^ 8)
  pub page_kept :
      is_tlb_code exc_code ≡ false
      → (c'.cop0 context ≡ c.cop0 context) × (c'.cop0 entry_hi ≡ c.cop0 entry_hi)
  pub exl_set : c'.cop0 status ≡ put_field 1 1 1 (c.cop0 status)
  pub others_kept :
      (i : ℕ)
      → i ≢ status
      → i ≢ cause
      → i ≢ epc
      → i ≢ bad_vaddr
      → i ≢ context
      → i ≢ entry_hi
      → c'.cop0 i ≡ c.cop0 i
  pub counted : c'.exception_count ≡ (c.exception_count + 1) % 2 ^ 64
  pub rest_kept : c' ≡ record c {
    cop0 = c'.cop0;
    pc = c'.pc;
    next_pc = c'.next_pc;
    branch_pending = c'.branch_pending;
    ll_bit = c'.ll_bit;
    exception_count = c'.exception_count;
  }

-- The registers one by one.
module _ (exc_code bad ce : ℕ) (tlb_refill : Bool) (c : Cpu) where
  abbrev after : Cpu
  after = raise_exception exc_code bad ce tlb_refill c

  pub status-raise : after.cop0 status ≡ put_field 1 1 1 (c.cop0 status)
  unfolding raise_exception
  status-raise = refl

  -- The registers that the address of the fault does not reach.
  other-raise :
      (i : ℕ)
      → i ≢ status
      → i ≢ bad_vaddr
      → i ≢ context
      → i ≢ entry_hi
      → after.cop0 i
        ≡ update (update c.cop0 epc (raised_epc c)) cause (raised_cause exc_code ce c) i
  unfolding raise_exception
  other-raise i n₁ n₂ n₃ n₄ = rw (==-ne i status n₁) (elim (Bool-cases (is_tlb_code exc_code)) [
    | inl t ↦ rw (t, ==-ne i context n₃, ==-ne i entry_hi n₄) (bad_only i n₂)
    | inr t ↦ rw t (bad_only i n₂)
  ])
    where
      bad_only :
          (i : ℕ)
          → i ≢ bad_vaddr
          → (if is_address_code exc_code
                then update
                    (update (update c.cop0 epc (raised_epc c)) cause (raised_cause exc_code ce c))
                    bad_vaddr
                    (bad % 2 ^ 32)
                else update (update c.cop0 epc (raised_epc c)) cause (raised_cause exc_code ce c))
              i
            ≡ update (update c.cop0 epc (raised_epc c)) cause (raised_cause exc_code ce c) i
      bad_only i ne = elim (Bool-cases (is_address_code exc_code)) [
        | inl a ↦ rw (a, ==-ne i bad_vaddr ne)
        | inr a ↦ rw a
      ]

  context-raise :
      is_tlb_code exc_code ≡ true
      → after.cop0 context ≡ raised_context (bad % 2 ^ 32) (c.cop0 context)
  unfolding raise_exception
  context-raise h = rw h refl

  entry_hi-raise :
      is_tlb_code exc_code ≡ true
      → after.cop0 entry_hi ≡ raised_entry_hi (bad % 2 ^ 32) (c.cop0 entry_hi)
  unfolding raise_exception
  entry_hi-raise h = rw h refl

  cause-raise : after.cop0 cause ≡ raised_cause exc_code ce c
  cause-raise = other-raise cause (omega arith) (omega arith) (omega arith) (omega arith)

  pub epc-raise : after.cop0 epc ≡ raised_epc c
  epc-raise = other-raise epc (omega arith) (omega arith) (omega arith) (omega arith)

  error_epc-raise : after.cop0 error_epc ≡ c.cop0 error_epc
  error_epc-raise = other-raise error_epc (omega arith) (omega arith) (omega arith) (omega arith)

-- With a code below 32, a coprocessor number below 4 and a 32-bit Cause, `raise_exception`
-- records the code and the coprocessor in Cause and keeps its interrupt lines;
-- enters kernel mode with interrupts off; saves the restart address and BD, unless an exception
-- was being handled, whose EPC and BD it keeps; fetches from a vector, the refill one exactly for
-- a refill outside of a handler; drops a pending branch and the load link; writes BadVAddr for
-- address codes only, and Context and EntryHi for TLB codes only, with the page of the fault; counts
-- the exception; and changes no other register and nothing else of the machine.
pub raise_exception-Raised :
    (exc_code bad ce : ℕ) (tlb_refill : Bool) (c : Cpu)
    → exc_code < 32
    → ce < 4
    → c.cop0 cause < 2 ^ 32
    → Raised exc_code bad ce tlb_refill c (raise_exception exc_code bad ce tlb_refill c)
unfolding kernel_mode
raise_exception-Raised exc_code bad ce tlb_refill c code_fits ce_fits word =
    let cause_is = cause-raise exc_code bad ce tlb_refill c in
    let status_is = status-raise exc_code bad ce tlb_refill c in
    record {
      code_set = rw cause_is (ground arith);
      unit_set = rw cause_is (ground arith);
      lines_kept = rw cause_is (ground arith);
      kernel = rw status_is (ground arith);
      masked = rw status_is (ground arith);
      first = λ h.
          (rw (epc-raise exc_code bad ce tlb_refill c) (ground arith), rw cause_is (ground arith));
      nested = λ h.
          (rw (epc-raise exc_code bad ce tlb_refill c) (ground arith), rw cause_is (ground arith));
      refill = unfold raise_exception in ground arith;
      fetch_on = unfold raise_exception in (refl, refl, refl);
      base = unfold raise_exception in ground arith;
      bad_set = λ h. unfold raise_exception in ground (arith, h);
      bad_kept = λ h. bad_kept_lem h;
      page_set = λ h.
          (let e = context-raise exc_code bad ce tlb_refill c h in
            let k = entry_hi-raise exc_code bad ce tlb_refill c h in
            (
              rw e (omega arith),
              rw e (omega arith),
              rw e (omega arith),
              rw k (omega arith),
              rw k (omega arith),
            ));
      page_kept = λ h. unfold raise_exception in ground (arith, h);
      exl_set = status_is;
      others_kept = λ i n₁ n₂ n₃ n₄ n₅ n₆.
          other-raise exc_code bad ce tlb_refill c i n₁ n₄ n₅ n₆
          ∙ if_false _ _ (==-ne i cause n₂)
          ∙ if_false _ _ (==-ne i epc n₃);
      counted = unfold raise_exception in refl;
      rest_kept = unfold raise_exception in refl;
    }
  where
    bad_kept_lem :
        is_address_code exc_code ≡ false
        → (raise_exception exc_code bad ce tlb_refill c).cop0 bad_vaddr ≡ c.cop0 bad_vaddr
    bad_kept_lem a =
        unfold raise_exception in
        elim (Bool-cases (is_tlb_code exc_code)) [ inl t ↦ rw (a, t) | inr t ↦ rw (a, t) ]
