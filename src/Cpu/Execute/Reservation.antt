-- ===== src/Cpu/Execute/Reservation.antt =====
-- A store loses the reservation of a load-linked.
use emulador_n64emu.Base.{
  ℕ, ◌%◌, ◌==◌, switch, ◌≡◌, inl, inr, refl, sym, ap, ◌∙◌, subst, Bool, Bool-cases, true, false,
  not, Option, none, some, if_true, if_false,
}
use emulador_n64emu.Cpu.{Cpu}
use emulador_n64emu.Cpu.Op
use emulador_n64emu.Cpu.Word.{op, rt}
use emulador_n64emu.Cpu.Gpr.{address, raise}
use emulador_n64emu.Cpu.Exception.{raise_exception, coprocessor_usable}
use emulador_n64emu.Cpu.Control.{raise_unusable}
use emulador_n64emu.Cpu.Fpu.{read_fpr_double, raise_fpu_unimplemented}
use emulador_n64emu.Cpu.Tlb.{
  Translation, mapped, address_error, tlb_miss, tlb_invalid, tlb_modified, translate_address,
  translate, raise_translation_fault, translate_or_raise,
}
use emulador_n64emu.Cpu.Machine.{
  Machine, BusInterface, probe, write_at, store_byte, store_half, store_word, store_double,
}
use emulador_n64emu.Cpu.Unaligned.{modify_at, exec_swl, exec_swr, exec_sdl, exec_sdr}
use emulador_n64emu.Cpu.Execute.{
  exec_load, exec_store, store_reserved, store_conditional, exec_linked, exec_swc1, exec_sdc1,
  store_fpr_double, exec_fpu_memory, execute,
}

-- The opcodes that store, and those that store conditionally.
pub data IsStore : ℕ → Type 0 where
  sb : IsStore Op.sb
  sh : IsStore Op.sh
  swl : IsStore Op.swl
  sw : IsStore Op.sw
  sdl : IsStore Op.sdl
  sdr : IsStore Op.sdr
  swr : IsStore Op.swr
  sd : IsStore Op.sd
  swc1 : IsStore Op.swc1
  sdc1 : IsStore Op.sdc1

pub data IsConditional : ℕ → Type 0 where
  sc : IsConditional Op.sc
  scd : IsConditional Op.scd

-- An access that finds no physical address raises an exception, which ends the reservation.
abbrev Lost : Option ℕ × Cpu → Type 0
Lost (none, c) = c.ll_bit ≡ false
Lost (some p, c) = Unit {0}

Lost-fault :
    (t : Translation) (bad : ℕ) (is_store : Bool) (c : Cpu)
    → Lost (elim t [ mapped p ↦ some p | _ ↦ none ], raise_translation_fault t bad is_store c)
unfolding raise_translation_fault raise_exception
Lost-fault (mapped p) bad is_store c = tt
Lost-fault address_error bad is_store c = refl
Lost-fault tlb_miss bad is_store c = refl
Lost-fault tlb_invalid bad is_store c = refl
Lost-fault tlb_modified bad is_store c = refl

translate_or_raise-Lost :
    (vaddr bad : ℕ) (is_store : Bool) (c : Cpu) → Lost (translate_or_raise vaddr bad is_store c)
unfolding translate_or_raise translate
translate_or_raise-Lost vaddr bad is_store c =
    Lost-fault (translate_address vaddr is_store c) bad is_store c

probe-Lost : (is_store : Bool) (vaddr size : ℕ) (c : Cpu) → Lost (probe is_store vaddr size c)
unfolding probe raise_exception
probe-Lost is_store vaddr size c = elim (Bool-cases (not (vaddr % size == 0))) [
  | inl e ↦ subst Lost (sym (if_true _ _ e)) refl
  | inr e ↦ subst Lost (sym (if_false _ _ e)) (translate_or_raise-Lost vaddr vaddr is_store c)
]

module _ {B : Type 0} where
  write_at-Lost :
      (write : ℕ → ℕ → Machine B → Machine B) (probed : Option ℕ × Cpu) (v : ℕ) (m : Machine B)
      → Lost probed
      → (write_at write probed v m).cpu.ll_bit ≡ false
  unfolding write_at
  write_at-Lost write (none, c) v m h = h
  write_at-Lost write (some p, c) v m h = refl

  modify_at-Lost :
      (read : ℕ → Machine B → ℕ × Machine B) (write : ℕ → ℕ → Machine B → Machine B) (f : ℕ → ℕ)
      (probed : Option ℕ × Cpu) (m : Machine B)
      → Lost probed
      → (modify_at read write f probed m).cpu.ll_bit ≡ false
  unfolding modify_at
  modify_at-Lost read write f (none, c) m h = h
  modify_at-Lost read write f (some p, c) m h = refl

  unwritten :
      (write : ℕ → ℕ → Machine B → Machine B) (addr t v : ℕ) (probed : Option ℕ × Cpu)
      (m : Machine B)
      → (store_reserved write false addr t v probed m).bus ≡ m.bus
  unfolding store_reserved
  unwritten write addr t v (none, c) m = refl
  unwritten write addr t v (some p, c) m = refl

  store_conditional-lost :
      (write : ℕ → ℕ → Machine B → Machine B) (size v i : ℕ) (m : Machine B)
      → m.cpu.ll_bit ≡ false
      → (store_conditional write size v i m).bus ≡ m.bus
  unfolding store_conditional
  store_conditional-lost write size v i m h =
      ap
        (λ b.
          (store_reserved write b m.cpu.ll_addr (rt i) v
            (probe true (address i m.cpu) size (record (m.cpu) { ll_bit = false })) m).bus)
        h
      ∙ unwritten write m.cpu.ll_addr (rt i) v _ m

module _ {B : Type 0} (io : BusInterface B) (exec_cop1_format : ℕ → Cpu → Cpu) where
  -- An instruction of a coprocessor that may not be used raises an exception instead.
  swc1-lost : (i : ℕ) (m : Machine B) → (exec_swc1 io i m).cpu.ll_bit ≡ false
  unfolding exec_swc1 store_word raise_unusable raise_exception
  swc1-lost i m = elim (Bool-cases (not (coprocessor_usable 1 m.cpu))) [
    | inl e ↦ ap (λ (n : Machine B). n.cpu.ll_bit) (if_true _ _ e)
    | inr e ↦
        ap (λ (n : Machine B). n.cpu.ll_bit) (if_false _ _ e)
        ∙ write_at-Lost _ _ _ m (probe-Lost true _ 4 m.cpu)
  ]

  store_fpr_double-lost :
      (v : Option ℕ) (addr : ℕ) (m : Machine B) → (store_fpr_double io v addr m).cpu.ll_bit ≡ false
  unfolding store_fpr_double store_double raise_fpu_unimplemented raise_exception raise
  store_fpr_double-lost none addr m = refl
  store_fpr_double-lost (some v) addr m = write_at-Lost _ _ _ m (probe-Lost true _ 8 m.cpu)

  sdc1-lost : (i : ℕ) (m : Machine B) → (exec_sdc1 io i m).cpu.ll_bit ≡ false
  unfolding exec_sdc1 raise_unusable raise_exception
  sdc1-lost i m = elim (Bool-cases (not (coprocessor_usable 1 m.cpu))) [
    | inl e ↦ ap (λ (n : Machine B). n.cpu.ll_bit) (if_true _ _ e)
    | inr e ↦
        ap (λ (n : Machine B). n.cpu.ll_bit) (if_false _ _ e)
        ∙ store_fpr_double-lost (read_fpr_double (rt i) m.cpu) (address i m.cpu) m
  ]

  store-lost :
      (k i : ℕ) (m : Machine B)
      → op i ≡ k
      → IsStore k
      → (execute io exec_cop1_format i m).cpu.ll_bit ≡ false
  unfolding execute exec_load exec_store switch store_byte store_half store_word store_double
      exec_linked exec_fpu_memory exec_swl exec_swr exec_sdl exec_sdr
  store-lost _ i m e sb = rw e (write_at-Lost _ _ _ m (probe-Lost true _ 1 m.cpu))
  store-lost _ i m e sh = rw e (write_at-Lost _ _ _ m (probe-Lost true _ 2 m.cpu))
  store-lost _ i m e swl = rw e (modify_at-Lost _ _ _ _ m (translate_or_raise-Lost _ _ true m.cpu))
  store-lost _ i m e sw = rw e (write_at-Lost _ _ _ m (probe-Lost true _ 4 m.cpu))
  store-lost _ i m e sdl = rw e (modify_at-Lost _ _ _ _ m (translate_or_raise-Lost _ _ true m.cpu))
  store-lost _ i m e sdr = rw e (modify_at-Lost _ _ _ _ m (translate_or_raise-Lost _ _ true m.cpu))
  store-lost _ i m e swr = rw e (modify_at-Lost _ _ _ _ m (translate_or_raise-Lost _ _ true m.cpu))
  store-lost _ i m e sd = rw e (write_at-Lost _ _ _ m (probe-Lost true _ 8 m.cpu))
  store-lost _ i m e swc1 = rw e (swc1-lost i m)
  store-lost _ i m e sdc1 = rw e (sdc1-lost i m)

  conditional-unwritten :
      (k j : ℕ) (m : Machine B)
      → op j ≡ k
      → IsConditional k
      → m.cpu.ll_bit ≡ false
      → (execute io exec_cop1_format j m).bus ≡ m.bus
  unfolding execute exec_load exec_store exec_linked switch
  conditional-unwritten _ j m e sc h = rw e (store_conditional-lost _ 4 _ j m h)
  conditional-unwritten _ j m e scd h = rw e (store_conditional-lost _ 8 _ j m h)

  -- A conditional store that is executed directly after any other store, with whatever operands
  -- and whether or not that store succeeded, does not touch the bus.
  pub execute-store-conditional :
      (i j : ℕ) (m : Machine B)
      → IsStore (op i)
      → IsConditional (op j)
      → let after = execute io exec_cop1_format i m in
        (execute io exec_cop1_format j after).bus ≡ after.bus
  execute-store-conditional i j m p q =
      conditional-unwritten (op j) j _ refl q (store-lost (op i) i m refl p)
