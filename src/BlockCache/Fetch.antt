-- ===== src/BlockCache/Fetch.antt =====
-- `compile`: fetching a basic block and putting it into its slot. The translation of the CPU and
-- the constant read of the bus are parameters.
use emulador_n64emu.Base.{
  ℕ, zero, suc, ◌+◌, ◌%◌, ◌^◌, leb, ◌==◌, if◌then◌else◌, Bool, true, false, ◌&&◌, Option, none,
  some, List, [], ◌∷◌,
}
use emulador_n64emu.BlockCache.{
  BasicBlock, BlockCache, index_of, update, mark_physically_aliased, unmark_physically_aliased,
}
use emulador_n64emu.BlockCache.Decode.{is_branch_or_jump, is_terminal_no_delay}

-- `virtual32 >= 0x80000000 && virtual32 <= 0xBFFFFFFF && first_paddr == (virtual32 & 0x1FFFFFFF)`
abbrev pub direct_mapped : ℕ → ℕ → Bool
direct_mapped vaddr first_paddr =
    let virtual32 = vaddr % 2 ^ 32 in
    leb 0x8000_0000 virtual32
    && leb virtual32 0xbfff_ffff
    && (first_paddr == virtual32 % 0x2000_0000)

-- A fetched block goes into the slot of its address.
unfoldable pub install : BasicBlock → BlockCache → BlockCache
install block c =
    let i = index_of block.start_pc in
    let c₁ = unmark_physically_aliased i c in
    let slot = record (c₁.table i) { tag_pc = block.start_pc; block = block; valid = true } in
    let c₂ = record c₁ {
      table = update c₁.table i slot;
      count = if (c₁.table i).valid then c₁.count else c₁.count + 1;
    } in
    if direct_mapped block.start_pc block.paddr then c₂ else mark_physically_aliased i c₂

-- `if (blk.insns.empty()) return nullptr;` and what follows it.
unfoldable pub keep_block : BasicBlock → List ℕ → BlockCache → Option BasicBlock × BlockCache
keep_block block [] c = (none, c)
keep_block block (insn ∷ insns) c = (some block, install block c)

-- `cpu.translate(vaddr, false, …)` and `bus.read32_const`.
module _ (translate : ℕ → Option ℕ) (read32 : ℕ → ℕ) where
  -- The delay slot of a branch, left out if it cannot be translated.
  unfoldable pub delay_slot : ℕ → List ℕ
  delay_slot pc = elim (translate pc) [ none ↦ [] | some paddr ↦ read32 paddr ∷ [] ]

  -- The instructions from `pc` on, with `left` rounds to go, and whether a branch ends them.
  unfoldable pub fetch_loop : ℕ → ℕ → List ℕ × Bool
  fetch_loop zero pc = ([], false)
  fetch_loop (suc left) pc = elim (translate pc) [
    | none ↦ ([], false)
    | some paddr ↦
        (let insn = read32 paddr in
          let next = (pc + 4) % 2 ^ 64 in
          let rest = fetch_loop left next in
          if is_branch_or_jump insn
          then (insn ∷ delay_slot next, true)
          else if is_terminal_no_delay insn
          then (insn ∷ [], false)
          else if next % 4096 == 0
          then (insn ∷ [], false)
          else (insn ∷ rest.0, rest.1))
  ]

  unfoldable pub compile : ℕ → BlockCache → Option BasicBlock × BlockCache
  compile vaddr c = elim (translate vaddr) [
    | none ↦ (none, c)
    | some first_paddr ↦
        (let (insns, branch) = fetch_loop 32 vaddr in
          let block : BasicBlock = record {
            start_pc = vaddr;
            paddr = first_paddr;
            insns = insns;
            ends_with_branch = branch;
          } in
          keep_block block insns c)
  ]
