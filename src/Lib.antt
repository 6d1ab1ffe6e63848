-- ===== src/Lib.antt =====
-- A model of the core of n64emu, a Nintendo 64 emulator in C++.
--
-- The VR4300 interpreter (src/cpu/cpu.cpp) runs on a bus with memory-mapped devices. A block cache
-- (src/cpu/block_cache.cpp) keeps decoded runs of instructions, and every write to memory must
-- invalidate it. The devices raise interrupt lines at the MIPS interface (src/bus/mi.cpp), which
-- drives one line of the CPU; DMA engines write RDRAM, and a scheduler holds timed events.
--
-- Base holds what the parts share: Boolean tests, lists by native index, binary digits. Mi is
-- src/bus/mi.cpp: `write`, `raise`, `clear`; its callback is the field `line`.
-- BlockCache is src/cpu/block_cache.cpp: `mark_physically_aliased` to `clear` in the parent,
-- `is_branch_or_jump` and `is_terminal_no_delay` in Decode, `compile` in Fetch, and
-- `Bus::notify_memory_write` (src/bus/bus.cpp) in Notify. Linked, Count, Invariant, Unmark, Drop
-- and Purge carry the proofs about invalidation, Install and Compile those about new blocks. Cpu
-- is the state of src/cpu/cpu.cpp with `reset`; Cpu/Cop0 has `set_cop0` and `advance_count`,
-- Cpu/Exception `raise_exception`, `check_interrupts` and `do_eret`, and Cpu/Tlb
-- `translate_address` and the TLB instructions. Cpu/Tlb/Compiling joins the TLB and the cache. The
-- interpreter of src/cpu/cpu.cpp: Cpu/Op, Cpu/Fn and Cpu/Rt hold the codes and Cpu/Word the fields
-- of an instruction and the arithmetic of words, with its laws in Overflow, Product and Size.
-- Cpu/Gpr has the registers and branches, Cpu/Special `exec_special`, Cpu/Regimm
-- `exec_regimm`, Cpu/Control `exec_cop0`, and Cpu/Fpu the moves and branches of src/cpu/cop1.cpp.
-- Cpu/Machine is the CPU on its bus: the bus is a record of operations on the whole machine, which
-- everything from there on takes as a parameter, since a write may invalidate blocks of the cache
-- and a device may move the interrupt line. Cpu/Unaligned has LWL to SDR, Cpu/Execute `execute`,
-- Cpu/Step `step` and `execute_block`, and Cpu/Run `run`. A `switch` of the source is the function
-- `switch` of Base/Lists on a list of cases. Cpu/Sound carries the proof that all of it, given
-- floating-point arithmetic that does so, keeps the
-- registers within their widths.
-- Ai is src/ai/ai.cpp: registers and DMA queue, `tick`, and the ring of stereo frames.
-- Pi is src/bus/pi.cpp, with the cartridge bytes of src/bus/bus.cpp.
-- Si is src/bus/si.cpp and Pif src/pif/pif.cpp, with the joybus protocol. Dp is
-- src/bus/dp_regs.cpp, and Rdp src/rcp/rdp/rdp.cpp: the parent runs command lists over an
-- interface to what one command does, Rdp/Raster has the settings and the tiles, Rdp/Texture the
-- loads to TMEM and the sampling, Rdp/Pixel the writes of a pixel, and Rdp/Draw the rectangles and
-- `execute_command`, which fill the interface; Rdp/Confined is
-- about where they write. Sp is src/bus/sp_regs.cpp; its DMA and `write` are
-- in Sp/Dma.
-- Rsp is src/rcp/rsp/rsp.cpp: the state in the parent, in Rsp/Machine the RSP on its bus with the
-- stores, in Rsp/Scalar and Rsp/Execute the scalar instructions, with `step` and `run`. The vector
-- unit of src/rcp/rsp/rsp_vector.cpp is Rsp/Lane (lanes, accumulators, flags), Rsp/Divide
-- (reciprocals), Rsp/Vector with Multiply, Compare, Exec (`exec_vector`) and Transfer
-- (`exec_cop2`), and Rsp/VectorMemory (`exec_vector_memory`). Rsp/Registers joins the RSP with Sp,
-- Dp and Rdp: what MFC0 and MTC0 reach. Rsp/Placed carries the proof about a step, over an
-- interface that Rsp/Registers fills.
-- Bus is src/bus/bus.cpp: the memory map, Bus/Read, Bus/Write, and Bus/Cartridge for the images.
-- Vi is src/vi/vi.cpp: the registers, `tick` and the frame flag; Vi/Picture has `sample_pixel` and
-- `copy_framebuffer_rgba`, whose picture is a list of bytes in the order of the loops.
-- Scheduler is src/core/scheduler.cpp; its priority queue is a list in the order of `operator>`.
-- Ri is src/bus/ri.cpp, and CartHeader src/cart/header.cpp.
-- Rdram is the memory that the DMA engines share.
--
-- A state is a record and an operation a function on it; pointers between the parts are taken as
-- connected, as the constructor of the emulator leaves them. Registers are native numbers, and a
-- `u32` or `u64` wraps where the source lets it wrap. A mask is written as division and remainder,
-- or by set_bit and clear_bit, which Base/Bits relates to the operators.
--
-- Fuel: the loop of `BlockCache.invalidate` over the aliased slots has one unit more than slots
-- are listed, and the theorem on `invalidate` includes that this is enough. The loops of `tick`
-- and `complete_dma` in Ai have one unit for each word that is left of the transfer, and their
-- theorems
-- include that they end by their own condition. `run` has one unit more than the cycles it is
-- asked for, and its theorem includes that this is enough. The loop over a command list has one
-- unit for each byte of the list, of which a command takes eight or more. The loop of the VI's
-- `tick` has one unit for each line that the cycles pay for. The two loops of
-- `integer_square_root` have 32 units: each divides a power of four up to 2 ^ 62 by four. All
-- other loops are structural recursion.
--
-- Not modelled: the arithmetic of the floating-point unit, which the host's unit does and which is
-- a parameter, the trace callback and its disassembler, booting, the reading of files, the frame
-- loop of the emulator, and the debugger. The devices are a parameter of the bus.
-- The frontend, the log and the vendored libraries are input and output, or not the program's own.
-- The two atomics of the audio ring are numbers, and each call of its producer and of its consumer
-- is one step. A handler of the scheduler that schedules events is left out.
pub mod Ai
pub mod Base
pub mod BlockCache
pub mod Bus
pub mod CartHeader
pub mod Cpu
pub mod Dp
pub mod Mi
pub mod Pi
pub mod Pif
pub mod Rdp
pub mod Rdram
pub mod Ri
pub mod Rsp
pub mod Scheduler
pub mod Si
pub mod Sp
pub mod Vi
