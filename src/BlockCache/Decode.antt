-- ===== src/BlockCache/Decode.antt =====
-- Which instructions end a basic block.
use emulador_n64emu.Base.{ℕ, ◌/◌, ◌%◌, ◌^◌, ◌==◌, if◌then◌else◌, Bool, true, false, ◌||◌}

abbrev opcode : ℕ → ℕ
opcode insn = insn / 2 ^ 26

abbrev funct : ℕ → ℕ
funct insn = insn % 64

abbrev field_rs : ℕ → ℕ
field_rs insn = insn / 2 ^ 21 % 32

abbrev field_rt : ℕ → ℕ
field_rt insn = insn / 2 ^ 16 % 32

abbrev field_rd : ℕ → ℕ
field_rd insn = insn / 2 ^ 11 % 32

unfoldable pub is_branch_or_jump : ℕ → Bool
is_branch_or_jump insn =
    let op = opcode insn in
    let fn = funct insn in
    let rt = field_rt insn in
    if op == 0x00
    then (fn == 0x08 || fn == 0x09)
    else if op == 0x01
    then (rt == 0x00
        || rt == 0x01
        || rt == 0x02
        || rt == 0x03
        || rt == 0x10
        || rt == 0x11
        || rt == 0x12
        || rt == 0x13)
    else if (op == 0x02
        || op == 0x03
        || op == 0x04
        || op == 0x05
        || op == 0x06
        || op == 0x07
        || op == 0x14
        || op == 0x15
        || op == 0x16
        || op == 0x17)
    then true
    else if op == 0x11
    then field_rs insn == 0x08
    else false

unfoldable pub is_terminal_no_delay : ℕ → Bool
is_terminal_no_delay insn =
    let op = opcode insn in
    let fn = funct insn in
    let rs = field_rs insn in
    let rd = field_rd insn in
    if op == 0x00
    then (fn == 0x0c || fn == 0x0d)
    else if op == 0x10
    then (if rs == 0x10
        then (fn == 0x01 || fn == 0x02 || fn == 0x06 || fn == 0x08 || fn == 0x18)
        else if rs == 0x04
        then (rd == 12 || rd == 13 || rd == 11 || rd == 10 || rd == 16)
        else false)
    else false
