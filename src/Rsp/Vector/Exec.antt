-- ===== src/Rsp/Vector/Exec.antt =====
-- src/rcp/rsp/rsp_vector.cpp, `exec_vector`: moves, logic, the division, and the switch.
use emulador_n64emu.Base.{
  ℕ, ◌-◌, ◌*◌, ◌/◌, ◌%◌, ◌^◌, bit_and, bit_or, bit_xor, leb, if◌then◌else◌, switch, Bool, true,
  false, ◌&&◌, [], ◌∷◌, update,
}
use emulador_n64emu.Cpu.Word.{rt, rd, sa, fn}
use emulador_n64emu.Rsp.{VectorUnit}
use emulador_n64emu.Rsp.Lane.{signed_lane, flag, element_select}
use emulador_n64emu.Rsp.Divide.{division_estimate}
use emulador_n64emu.Rsp.Vector.{Lanes, set_register, set_low, set_both}
use emulador_n64emu.Rsp.Vector.Multiply.{vrnd, vmulq, vmacq, multiply}
use emulador_n64emu.Rsp.Vector.Compare.{
  vadd, vsub, vabs, vaddc, vsubc, compare_lanes, vcl, vch, vcr,
}

-- VSAR: element 8, 9 or 10 selects the high, the middle or the low part of the accumulator.
unfoldable pub vsar : ℕ → ℕ → VectorUnit → VectorUnit
vsar element vd u =
    set_register vd
      (λ lane.
        if leb 8 element && leb element 10
        then u.accumulator lane / 2 ^ ((10 - element) * 16) % 2 ^ 16
        else 0)
      u

unfoldable pub vmrg : ℕ → Lanes → Lanes → VectorUnit → VectorUnit
vmrg vd s t u = set_both vd (λ lane. if flag u.vcc lane false then s lane else t lane) u

-- VAND to VNXOR on one lane.
unfoldable pub logic_lane : ℕ → ℕ → ℕ → ℕ
logic_lane function s t =
    switch function
      ((0x28, bit_and s t)
        ∷ (0x29, 2 ^ 16 - 1 - bit_and s t)
        ∷ (0x2a, bit_or s t)
        ∷ (0x2b, 2 ^ 16 - 1 - bit_or s t)
        ∷ (0x2c, bit_xor s t)
        ∷ (0x2d, 2 ^ 16 - 1 - bit_xor s t)
        ∷ [])
      0

unfoldable pub logic : ℕ → ℕ → Lanes → Lanes → VectorUnit → VectorUnit
logic function vd s t u = set_both vd (λ lane. logic_lane function (s lane) (t lane)) u

-- The register `vd` with another lane `vs & 7`, and the low accumulators from `t`.
unfoldable pub move_lane : ℕ → ℕ → Lanes → ℕ → VectorUnit → VectorUnit
move_lane vd vs t value u = set_low t (set_register vd (update (u.vpr vd) (vs % 8) value) u)

-- VRCPH and VRSQH.
unfoldable pub divide_high : ℕ → ℕ → Lanes → ℕ → VectorUnit → VectorUnit
divide_high vd vs t input u = record (move_lane vd vs t (u.div_out / 2 ^ 16) u) {
  div_in = signed_lane input * 0x1_0000 % 2 ^ 32;
  div_high_pending = true;
}

-- VRCP, VRSQ, and with `low_half` VRCPL and VRSQL.
unfoldable pub divide : Bool → Bool → ℕ → ℕ → Lanes → ℕ → VectorUnit → VectorUnit
divide low_half square_root vd vs t input u =
    let div_in =
      if low_half && u.div_high_pending
      then bit_or u.div_in input
      else signed_lane input % 2 ^ 32 in
    let div_out = division_estimate div_in square_root u.div_high_pending in
    record (move_lane vd vs t (div_out % 2 ^ 16) u) {
      div_in = div_in;
      div_out = div_out;
      div_high_pending = false;
    }

-- The switch on the function, with the lanes `s` of `vs` and `t` of `vt`.
unfoldable pub exec_function : ℕ → ℕ → ℕ → ℕ → ℕ → Lanes → Lanes → VectorUnit → VectorUnit
exec_function function element vd vs vt s t u =
    let input = u.vpr vt (element % 8) in
    let mul = multiply function vd s t u in
    let cmp = compare_lanes function vd s t u in
    let log = logic function vd s t u in
    switch function
      ((0x02, vrnd true vd vs t u)
        ∷ (0x0a, vrnd false vd vs t u)
        ∷ (0x03, vmulq vd s t u)
        ∷ (0x0b, vmacq vd u)
        ∷ (0x00, mul)
        ∷ (0x01, mul)
        ∷ (0x04, mul)
        ∷ (0x05, mul)
        ∷ (0x06, mul)
        ∷ (0x07, mul)
        ∷ (0x08, mul)
        ∷ (0x09, mul)
        ∷ (0x0c, mul)
        ∷ (0x0d, mul)
        ∷ (0x0e, mul)
        ∷ (0x0f, mul)
        ∷ (0x10, vadd vd s t u)
        ∷ (0x11, vsub vd s t u)
        ∷ (0x13, vabs vd s t u)
        ∷ (0x14, vaddc vd s t u)
        ∷ (0x15, vsubc vd s t u)
        ∷ (0x1d, vsar element vd u)
        ∷ (0x20, cmp)
        ∷ (0x21, cmp)
        ∷ (0x22, cmp)
        ∷ (0x23, cmp)
        ∷ (0x24, vcl vd s t u)
        ∷ (0x25, vch vd s t u)
        ∷ (0x26, vcr vd s t u)
        ∷ (0x27, vmrg vd s t u)
        ∷ (0x28, log)
        ∷ (0x29, log)
        ∷ (0x2a, log)
        ∷ (0x2b, log)
        ∷ (0x2c, log)
        ∷ (0x2d, log)
        ∷ (0x30, divide false false vd vs t input u)
        ∷ (0x31, divide true false vd vs t input u)
        ∷ (0x32, divide_high vd vs t input u)
        ∷ (0x33, move_lane vd vs t (t (vs % 8)) u)
        ∷ (0x34, divide false true vd vs t input u)
        ∷ (0x35, divide true true vd vs t input u)
        ∷ (0x36, divide_high vd vs t input u)
        ∷ [])
      u

unfoldable pub exec_vector : ℕ → VectorUnit → VectorUnit
exec_vector i u =
    let element = i / 2 ^ 21 % 16 in
    exec_function (fn i) element (sa i) (rd i) (rt i) (u.vpr (rd i))
      (λ lane. u.vpr (rt i) (element_select element lane)) u
