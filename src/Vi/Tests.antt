-- ===== src/Vi/Tests.antt =====
-- A frame that ends, and a picture of four pixels.
use emulador_n64emu.Base.{
  ℕ, ◌+◌, ◌*◌, ◌%◌, ◌≤◌, ◌<◌, ◌==◌, if◌then◌else◌, ◌≡◌, refl, arith, true, false, [],
}
use emulador_n64emu.Pif.{no_input}
use emulador_n64emu.Bus.{Bus}
use emulador_n64emu.Vi.Picture.{
  copy_sample, is_blank, bytes_per_pixel, fb_width, fb_height, line_pitch_bytes, origin, picture,
  copy_framebuffer_rgba,
}
use emulador_n64emu.Vi.Picture.Sampled.{copy_framebuffer_rgba-sample_pixel}
use emulador_n64emu.Mi.{Mi}
use emulador_n64emu.Vi.{Vi, even_line, v_current, clear_frame_ready, tick}
use emulador_n64emu.Vi.Frame.{clear_frame_ready-tick}

-- Line 250 of 262, with a line of ten cycles.
abbrev late : Vi
late = record {
  regs = λ i. if i == 4 then 250 else 0;
  cycle_accum = 3;
  cycles_per_line = 10;
  lines_per_frame = 262;
  frame_count = 6;
  frame_ready = true;
  interrupt_line = true;
}

abbrev idle : Mi
idle = record { mode = 0; intr = 0; intr_mask = 0; line = false }

clear_frame_ready-tick_example :
    let v' = (tick 75 (clear_frame_ready late) idle).0 in
    (v'.frame_ready ≡ true) × (v'.cycle_accum < 10)
clear_frame_ready-tick_example =
    clear_frame_ready-tick 7 75 late idle (omega arith) (omega arith) (omega arith) (omega arith)
      fits
  where
    fits : even_line 262 < even_line (v_current late) + 14
    fits = unfold v_current in omega arith

-- Two rows of two pixels of 16 bits, from byte 8 of an RDRAM of 64 bytes on.
abbrev showing : Vi
showing = record late {
  regs = λ i.
      if i == 0 then 2 else if i == 1 then 8 else if i == 2 then 2 else if i == 10 then 4 else 0;
}

abbrev small_bus : Bus ℕ
small_bus = record {
  rdram = record { size = 64; bytes = λ a. a * 7 % 256 };
  cart = [];
  pif_rom = [];
  sp_dmem = λ a. 0;
  sp_imem = λ a. 0;
  rsp_dmem = λ a. 0;
  rsp_imem = λ a. 0;
  pif_ram = λ a. 0;
  pif = record { controllers = λ i. no_input (i == 0); ram = λ a. 0; joybus_count = 0 };
  devices = 0;
}

showing_shown : is_blank showing ≡ false
unfolding is_blank bytes_per_pixel fb_width fb_height
showing_shown = refl

showing_fits : origin showing + fb_height showing * line_pitch_bytes showing ≤ 64
unfolding fb_height line_pitch_bytes fb_width bytes_per_pixel
showing_fits = omega arith

copy_framebuffer_rgba_example :
    copy_framebuffer_rgba small_bus showing
    ≡ (true, picture showing (copy_sample small_bus showing))
copy_framebuffer_rgba_example =
    copy_framebuffer_rgba-sample_pixel small_bus showing showing_shown showing_fits
      (λ a. omega arith)
