-- ===== src/Cpu/Cop0/Wired.antt =====
-- Random stays between Wired and 31.
use emulador_n64emu.Base.{
  ℕ, ◌%◌, ◌^◌, ◌≤◌, ◌==◌, if◌then◌else◌, ◌≡◌, ◌≢◌, refl, arith, Bool, true, false, ◌||◌, ==_iff,
}
use emulador_n64emu.Cpu.{Cpu, reset}
use emulador_n64emu.Cpu.Cop0Reg.{
  random, wired, cause, prid, index, entry_lo0, entry_lo1, context, page_mask, entry_hi,
  compare_reg, status,
}
use emulador_n64emu.Cpu.Cop0.{set_cop0, advance_count, write_cop0, clear_cache}

-- The registers that choose the entry that TLBWR replaces.
pub record IsWired (c : Cpu) : Type 0 where
  pub above : c.cop0 wired ≤ c.cop0 random
  pub below : c.cop0 random ≤ 31

pub reset-IsWired : (c : Cpu) → IsWired (reset c)
unfolding reset
reset-IsWired c = record { above = ground arith; below = ground arith }

IsWired-if :
    (b : Bool) (c d : Cpu)
    → (b ≡ true → IsWired c)
    → (b ≡ false → IsWired d)
    → IsWired (if b then c else d)
IsWired-if true c d h k = h refl
IsWired-if false c d h k = k refl

write_cop0-IsWired :
    (i v : ℕ) (c : Cpu) → i ≢ random → i ≢ wired → IsWired c → IsWired (write_cop0 i v c)
write_cop0-IsWired i v c p q w = record {
  above = ground (arith, w.above);
  below = ground (arith, w.below);
}

wired_written : (v : ℕ) (c : Cpu) → IsWired (write_cop0 random 31 (write_cop0 wired (v % 2 ^ 5) c))
wired_written v c = record { above = ground arith; below = ground arith }

clear_cache-IsWired : (c : Cpu) → IsWired c → IsWired (clear_cache c)
clear_cache-IsWired c w = record { above = w.above; below = w.below }

-- Where Random is between Wired and 31, a write of software keeps it so, whatever register it writes and whatever value.
pub set_cop0-IsWired : (i v : ℕ) (c : Cpu) → IsWired c → IsWired (set_cop0 i v c)
unfolding set_cop0
set_cop0-IsWired i v c w =
    let idx = i % 32 in
    IsWired-if (idx == random || idx == prid) _ _ (λ h. w)
      (λ n.
        let keep : (x : ℕ) → idx ≢ wired → IsWired (write_cop0 idx x c) =
          λ x ne. write_cop0-IsWired idx x c (ground arith) ne w in
        IsWired-if (idx == index) _ _ (λ h. keep _ (ground arith))
          (λ n1.
            IsWired-if (idx == entry_lo0 || idx == entry_lo1) _ _ (λ h. keep _ (ground arith))
              (λ n2.
                IsWired-if (idx == context) _ _ (λ h. keep _ (ground arith))
                  (λ n3.
                    IsWired-if (idx == page_mask) _ _ (λ h. keep _ (ground arith))
                      (λ n4.
                        IsWired-if (idx == wired) _ _
                          (λ h. rw ((==_iff idx wired).0 h) (wired_written v c))
                          (λ n5.
                            let ne : idx ≢ wired = ground arith in
                            IsWired-if (idx == entry_hi) _ _
                              (λ h. clear_cache-IsWired _ (keep _ ne))
                              (λ n6.
                                IsWired-if (idx == compare_reg) _ _
                                  (λ h.
                                    write_cop0-IsWired cause _ _ (omega arith) (omega arith)
                                      (keep _ ne))
                                  (λ n7.
                                    IsWired-if (idx == cause) _ _ (λ h. keep _ ne)
                                      (λ n8.
                                        IsWired-if (idx == status) _ _
                                          (λ h. clear_cache-IsWired _ (keep _ ne))
                                          (λ n9. keep _ ne))))))))))

-- Where Random is between Wired and 31, a tick of the clock keeps it so.
pub advance_count-IsWired : (c : Cpu) → IsWired c → IsWired (advance_count c)
unfolding advance_count
advance_count-IsWired c w = record {
  above = ground (arith, w.above, w.below);
  below = ground (arith, w.above, w.below);
}
