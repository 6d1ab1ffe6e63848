-- ===== src/Cpu/Tests.antt =====
-- The CPU after a reset, and in a program with one mapped page.
use emulador_n64emu.Base.{
  ℕ, ◌%◌, ◌^◌, ◌<◌, ◌==◌, leb, if◌then◌else◌, ◌≡◌, ◌⊎◌, refl, arith, true, false, ◌&&◌, [], ◌∷◌,
  length, get_or, update,
}
use emulador_n64emu.BlockCache.{empty_cache}
use emulador_n64emu.BlockCache.Fetch.{compile}
use emulador_n64emu.BlockCache.Coherence.{empty_cache-IsValid}
use emulador_n64emu.BlockCache.Compile.{Compiled}
use emulador_n64emu.Cpu.{Cpu, TlbEntry, no_entry, status_ie, status_exl, status_erl}
use emulador_n64emu.Cpu.Cop0Reg.{cause, entry_hi, index, status}
use emulador_n64emu.Cpu.ExcCode.{int, tlbl}
use emulador_n64emu.Cpu.Exception.{raise_exception, do_eret, check_interrupts}
use emulador_n64emu.Cpu.Exception.Raise.{Raised, raise_exception-Raised, restart_address}
use emulador_n64emu.Cpu.Exception.Return.{Due, do_eret-raise, check_interrupts_lem}
use emulador_n64emu.Cpu.Tlb.{
  tlb_miss, address_error, mode_of, use_entry, tlb_loop, translate_address, tlb_probe,
}
use emulador_n64emu.Cpu.Tlb.Segments.{IfMapped, translate_address-outside_kernel}
use emulador_n64emu.Cpu.Tlb.Offset.{translate_address-offset}
use emulador_n64emu.Cpu.Tlb.Probe.{matches_entry, tlb_probe-translate_address}
use emulador_n64emu.Cpu.Tlb.Compiling.{translate_fetch, translate-aligned, compile-translate}

-- A user program: interrupts on, the page pair 0x2000 mapped, a branch's delay slot running.
abbrev mapped_page : TlbEntry
mapped_page = record { page_mask = 0; entry_hi = 0x2005; entry_lo0 = 0x46; entry_lo1 = 0x82 }

abbrev program : Cpu
program = record {
  gpr = λ _. 0;
  cop0 = λ i.
      if i == status
      then 0xff11
      else if i == entry_hi
      then 0x2005
      else if i == cause
      then 0x8000
      else 0;
  tlb = no_entry ∷ mapped_page ∷ [];
  pc = 0x2004;
  next_pc = 0x2040;
  hi = 0;
  lo = 0;
  fpr = λ _. 0;
  fcr31 = 0;
  cycles = 0;
  halted = false;
  in_delay_slot = true;
  branch_pending = true;
  ll_bit = true;
  ll_addr = 0;
  exception_count = 0;
  unknown_opcode_count = 0;
  cache = empty_cache;
  block_cache_enabled = true;
}

-- The same machine in kernel mode.
abbrev kernel : Cpu
kernel = record program { cop0 = update program.cop0 status 0xff01 }

raise_exception_example :
    Raised tlbl 0x4000 0 true program (raise_exception tlbl 0x4000 0 true program)
raise_exception_example =
    raise_exception-Raised tlbl 0x4000 0 true program (omega arith) (omega arith) (omega arith)

do_eret_example :
    let c' = do_eret (raise_exception tlbl 0x4000 0 true program) in
    (c'.cop0 status ≡ program.cop0 status)
    × (c'.pc ≡ restart_address program)
    × (c'.next_pc ≡ restart_address program)
    × (c'.branch_pending ≡ false)
do_eret_example = do_eret-raise tlbl 0x4000 0 true program refl refl

translate_address-offset_example :
    IfMapped (translate_address 0x2344 false program) (λ p. p % 4096 ≡ 0x2344 % 4096)
translate_address-offset_example = translate_address-offset 0x2344 false program

translate_address-outside_kernel_example :
    let mode = mode_of (program.cop0 status) in
    (translate_address 0xc000_1000 true program ≡ (
      if (mode == 1) && leb 0xc000_0000 0xc000_1000 && leb 0xc000_1000 0xdfff_ffff
      then tlb_loop 0xc000_1000 (program.cop0 entry_hi % 2 ^ 8) true program.tlb
      else address_error))
translate_address-outside_kernel_example =
    translate_address-outside_kernel 0xc000_1000 true program (omega arith) (omega arith)
      (omega arith)

tlb_probe_example :
    (((j : ℕ) → j < length program.tlb → matches_entry program j ≡ false)
      × (translate_address 0x2344 true program ≡ tlb_miss)
      × ((tlb_probe program).cop0 index ≡ 0x8000_0000))
    ⊎ ((i : ℕ) × (i < length program.tlb)
        × (matches_entry program i ≡ true)
        × ((j : ℕ) → j < i → matches_entry program j ≡ false)
        × (translate_address 0x2344 true program
            ≡ use_entry 0x2344 true (get_or program.tlb i no_entry))
        × ((tlb_probe program).cop0 index ≡ i))
tlb_probe_example = tlb_probe-translate_address 0x2344 true program (omega arith) (omega arith)

compile_example :
    Compiled
      (translate_fetch program)
      (λ p. p)
      (translate-aligned program)
      0x2344
      program.cache
      (compile (translate_fetch program) (λ p. p) 0x2344 program.cache)
compile_example = compile-translate (λ p. p) 0x2344 program (omega arith) empty_cache-IsValid

check_interrupts_example :
    ((check_interrupts program ≡ raise_exception int 0 0 false program)
        × (status_ie (program.cop0 status) ≡ true)
        × (status_exl (program.cop0 status) ≡ false)
        × (status_erl (program.cop0 status) ≡ false)
        × ((k : ℕ) × Due program k)
      ⊎ (check_interrupts program ≡ program)
        × ((status_ie (program.cop0 status) ≡ false)
            ⊎ (status_exl (program.cop0 status) ≡ true)
            ⊎ (status_erl (program.cop0 status) ≡ true)
            ⊎ ¬ ((k : ℕ) × Due program k)))
    × (check_interrupts (check_interrupts program) ≡ check_interrupts program)
check_interrupts_example = check_interrupts_lem program
