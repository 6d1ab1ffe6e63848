-- ===== src/BlockCache/Compile.antt =====
-- What `compile` fetches, and what it leaves in the cache.
use emulador_n64emu.Base.{
  ℕ, zero, suc, ◌+◌, ◌%◌, ◌^◌, ◌≤◌, ◌<◌, ◌==◌, if◌then◌else◌, ◌≡◌, refl, arith, Bool, true, false,
  Bool-cases, inl, inr, Option, none, some, Option-cases, List, [], ◌∷◌, length,
}
use emulador_n64emu.BlockCache.{BasicBlock, BlockCache, lookup}
use emulador_n64emu.BlockCache.Decode.{is_branch_or_jump, is_terminal_no_delay}
use emulador_n64emu.BlockCache.Fetch.{delay_slot, fetch_loop, install, keep_block, compile}
use emulador_n64emu.BlockCache.Invariant.{IsValid}
use emulador_n64emu.BlockCache.Install.{IsBlock, install-IsValid, lookup-install}

module _ (translate : ℕ → Option ℕ) (read32 : ℕ → ℕ) where
  -- `insns` are the words that stand in memory from the virtual address `pc` on.
  abbrev pub FetchedFrom : ℕ → List ℕ → Type 0
  FetchedFrom pc [] = Unit {0}
  FetchedFrom pc (insn ∷ rest) =
      ((paddr : ℕ) × (translate pc ≡ some paddr) × (insn ≡ read32 paddr))
      × FetchedFrom ((pc + 4) % 2 ^ 64) rest

  delay_slot-FetchedFrom : (pc : ℕ) → FetchedFrom pc (delay_slot translate read32 pc)
  unfolding delay_slot
  delay_slot-FetchedFrom pc = elim (Option-cases (translate pc)) [
    | inl e ↦ rw (e, delay_slot) tt
    | inr (p, e) ↦ rw (e, delay_slot) ((p, e, refl), tt)
  ]

  length-delay_slot : (pc : ℕ) → length (delay_slot translate read32 pc) ≤ 1
  unfolding delay_slot
  length-delay_slot pc = ground arith

  -- Each way out of a round keeps to the addresses.
  round :
      {pc : ℕ} (left insn : ℕ)
      → (paddr : ℕ) × (translate pc ≡ some paddr) × (insn ≡ read32 paddr)
      → FetchedFrom ((pc + 4) % 2 ^ 64) (fetch_loop translate read32 left ((pc + 4) % 2 ^ 64)).0
      → let next = (pc + 4) % 2 ^ 64 in
        let rest = fetch_loop translate read32 left next in
        FetchedFrom pc (
          let out : List ℕ × Bool =
            if is_branch_or_jump insn
            then (insn ∷ delay_slot translate read32 next, true)
            else if is_terminal_no_delay insn
            then (insn ∷ [], false)
            else if next % 4096 == 0
            then (insn ∷ [], false)
            else (insn ∷ rest.0, rest.1) in
          out.0)
  round {pc} left insn here rest = elim (Bool-cases (is_branch_or_jump insn)) [
    | inl b ↦ rw b (here, delay_slot-FetchedFrom ((pc + 4) % 2 ^ 64))
    | inr b ↦ elim (Bool-cases (is_terminal_no_delay insn)) [
      | inl t ↦ rw (b, t) (here, tt)
      | inr t ↦ elim (Bool-cases ((pc + 4) % 2 ^ 64 % 4096 == 0)) [
        | inl e ↦ rw (b, t, e) (here, tt)
        | inr e ↦ rw (b, t, e) (here, rest)
      ]
    ]
  ]

  pub fetch_loop-FetchedFrom :
      (left pc : ℕ) → FetchedFrom pc (fetch_loop translate read32 left pc).0
  unfolding fetch_loop
  fetch_loop-FetchedFrom zero pc = tt
  fetch_loop-FetchedFrom (suc left) pc = elim (Option-cases (translate pc)) [
    | inl e ↦ rw (e, fetch_loop) tt
    | inr (p, e) ↦
        rw (e, fetch_loop)
          (round left (read32 p) (p, e, refl) (fetch_loop-FetchedFrom left ((pc + 4) % 2 ^ 64)))
  ]

  length-fetch_loop : (left pc : ℕ) → length (fetch_loop translate read32 left pc).0 ≤ left + 1
  unfolding fetch_loop
  length-fetch_loop zero pc = omega arith
  length-fetch_loop (suc left) pc =
      ground
        (arith, length-delay_slot ((pc + 4) % 2 ^ 64), length-fetch_loop left ((pc + 4) % 2 ^ 64))

  fetch_loop-ne-nil :
      (left pc paddr : ℕ)
      → translate pc ≡ some paddr
      → 0 < length (fetch_loop translate read32 (suc left) pc).0
  unfolding fetch_loop
  fetch_loop-ne-nil left pc paddr e = ground arith

module _ (translate : ℕ → Option ℕ) (read32 : ℕ → ℕ)
    (aligned : (v p : ℕ) → translate v ≡ some p → v % 4 ≡ 0 → p % 4 ≡ 0) where
  -- The outcome of `compile`: without a block the cache is as it was; with one the invariant
  -- holds, the block is that of the address, fetched word by word, and `lookup` finds it.
  pub data Compiled (vaddr : ℕ) (c : BlockCache) (out : Option BasicBlock × BlockCache)
      : Type 0 where
    no_block : translate vaddr ≡ none → out ≡ (none, c) → Compiled vaddr c out
    block :
        (b : BasicBlock)
        → out.0 ≡ some b
        → b.start_pc ≡ vaddr
        → translate vaddr ≡ some b.paddr
        → FetchedFrom translate read32 vaddr b.insns
        → (0 < length b.insns) × (length b.insns ≤ 33)
        → IsValid out.1
        → (lookup vaddr out.1).0 ≡ some b
        → Compiled vaddr c out

  abbrev fetched : ℕ → ℕ → BasicBlock
  fetched vaddr paddr =
      let (insns, branch) = fetch_loop translate read32 32 vaddr in
      record { start_pc = vaddr; paddr = paddr; insns = insns; ends_with_branch = branch }

  keep_block-some :
      (b : BasicBlock) (insns : List ℕ) (c : BlockCache)
      → 0 < length insns
      → keep_block b insns c ≡ (some b, install b c)
  unfolding keep_block
  keep_block-some b [] c h = absurd (omega arith)
  keep_block-some b (insn ∷ insns) c h = refl

  compile-some :
      (vaddr paddr : ℕ) (c : BlockCache)
      → translate vaddr ≡ some paddr
      → let fetched = fetch_loop translate read32 32 vaddr in
        let b : BasicBlock = record {
          start_pc = vaddr;
          paddr = paddr;
          insns = fetched.0;
          ends_with_branch = fetched.1;
        } in
        compile translate read32 vaddr c ≡ (some b, install b c)
  unfolding compile
  compile-some vaddr paddr c e =
      rw (e, compile)
        (keep_block-some _ (fetch_loop translate read32 32 vaddr).0 c
          (fetch_loop-ne-nil translate read32 31 vaddr paddr e))

  -- `compile` at an aligned address either finds no translation and leaves the cache alone, or
  -- returns a block of 1 to 33 words fetched from the address on, keeps the invariant, and leaves
  -- the block where `lookup` of the address finds it.
  pub compile_lem :
      (vaddr : ℕ) (c : BlockCache)
      → vaddr % 4 ≡ 0
      → IsValid c
      → Compiled vaddr c (compile translate read32 vaddr c)
  compile_lem vaddr c word v = elim (Option-cases (translate vaddr)) [
    | inl e ↦ no_block e (unfold compile in rw (e, compile))
    | inr (p, e) ↦ rw (compile-some vaddr p c e) (
        let good : IsBlock (fetched vaddr p) = record {
          aligned = aligned vaddr p e word;
          not_empty = fetch_loop-ne-nil translate read32 31 vaddr p e;
          short = length-fetch_loop translate read32 32 vaddr;
        } in
        block (fetched vaddr p) refl refl e (fetch_loop-FetchedFrom translate read32 32 vaddr)
          (good.not_empty, good.short) (install-IsValid (fetched vaddr p) c v good)
          (lookup-install (fetched vaddr p) c v good))
  ]
