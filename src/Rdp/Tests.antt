-- ===== src/Rdp/Tests.antt =====
-- An RDP that counts the commands of its lists, and one that draws.
use emulador_n64emu.Base.{ℕ, ◌+◌, ltb, if◌then◌else◌, ◌≡◌, refl, arith, true, false}
use emulador_n64emu.Rdp.{
  Rdp, RdpInterface, command_loop, execute_at, goes_on, read_cmd64, read_cmd_word, opcode,
  run_command_list,
}
use emulador_n64emu.Rdp.Raster.{Raster, no_image, no_tile}
use emulador_n64emu.Rdp.Draw.{execute_command, execute_command_pair}
use emulador_n64emu.Rdp.Confined.Command.{IsConfined, execute_command-IsConfined}
use emulador_n64emu.Rdp.Commands.{Executes, run_command_list-Executes}

-- The first word of every command has the code of a rectangle in RDRAM, and of none in DMEM.
abbrev counting : RdpInterface ℕ
counting = record {
  read32 = λ addr n. if ltb addr 0x0400_0000 then 0x2400_0000 else 0x2700_0000;
  execute_command = λ cmd r. record r { rest = r.rest + 1 };
  execute_command_pair = λ hi lo r. record r { rest = r.rest + 100 };
}

abbrev fresh : Rdp ℕ
fresh = record {
  busy = false;
  mi = record { mode = 0; intr = 0; intr_mask = 0x20; line = false };
  rest = 0;
}

run_pairs : (run_command_list counting 0 40 false fresh).rest ≡ 200
unfolding run_command_list command_loop execute_at goes_on read_cmd64 read_cmd_word opcode
run_pairs = refl

run_singles : (run_command_list counting 0 40 true fresh).rest ≡ 5
unfolding run_command_list command_loop execute_at goes_on read_cmd64 read_cmd_word opcode
run_singles = refl

run_command_list_example :
    (r' : Rdp ℕ) × Executes counting 40 false 0 (record fresh { busy = true }) r'
    × (run_command_list counting 0 40 false fresh ≡ record r' { busy = false })
run_command_list_example =
    run_command_list-Executes counting 0 40 false fresh (omega arith) (omega arith)

-- An image of width 8 from byte 8 of 64 bytes of RDRAM on; the command fills two rows of three pixels.
abbrev small_raster : Raster
small_raster = record {
  color_image = record { address = 8; width = 8; size = 2; format = 0; valid = true };
  texture_image = no_image;
  scissor = record { xh = 0; yh = 0; xl = 320; yl = 240; is_set = false };
  tiles = λ i. no_tile;
  tmem = λ i. 0;
  fill_color = 0x1234_5678;
  blend_color = 0;
  other_modes = 0;
  cmds_executed = 0;
  fill_pixels = 0;
  tex_pixels = 0;
  rdram = record { size = 64; bytes = λ a. 0 };
}

abbrev drawing_rdp : Rdp Raster
drawing_rdp = record {
  busy = true;
  mi = record { mode = 0; intr = 0; intr_mask = 0x20; line = false };
  rest = small_raster;
}

execute_command-IsConfined_example :
    IsConfined small_raster (execute_command 0x3600_c008_0000_0000 drawing_rdp).rest
    × IsConfined small_raster (execute_command_pair 0x3600_c008_0000_0000 0 drawing_rdp).rest
execute_command-IsConfined_example =
    execute_command-IsConfined 0x3600_c008_0000_0000 0 drawing_rdp
      (record { address_fits = omega arith; width_fits = omega arith })
