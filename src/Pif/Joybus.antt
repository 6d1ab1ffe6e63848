-- ===== src/Pif/Joybus.antt =====
-- The whole joybus exchange: what `process_joybus` may change, and what a game reads back.
use emulador_n64emu.Base.{
  ℕ, zero, suc, ◌+◌, ◌-◌, ◌*◌, ◌%◌, ◌^◌, ◌≤◌, ◌<◌, ◌==◌, ltb, leb, if◌then◌else◌, ◌≡◌, ◌≢◌, refl,
  ap, ◌∙◌, arith, true, false, lt→ltb, ==-ne, clear_bit, update, if_true, if_false,
}
use emulador_n64emu.Pif.{
  ControllerState, Pif, set_controller, skip_padding, fill, put_state, respond, answer,
  process_command, process_at, process_channel, process_loop, process_joybus,
}
use emulador_n64emu.Pif.Channel.{Kept, Kept-refl, Kept-trans, process_channel-Kept}

process_loop-Kept :
    (left channel cursor answered : ℕ) (p : Pif)
    → let (n, p') = process_loop left channel cursor answered p in (n ≤ answered + left) × Kept p p'
unfolding process_loop
process_loop-Kept zero channel cursor answered p = (omega arith, Kept-refl p)
process_loop-Kept (suc left) channel cursor answered p =
    let (more, (next, p')) = process_channel channel cursor p in
    let one = process_channel-Kept channel cursor p in
    let count = if next == cursor then answered else answered + 1 in
    let counted : count ≤ answered + 1 = ground arith in
    let (bound, rest) = process_loop-Kept left (channel + 1) next count p' in
    let all = Kept-trans one rest in
    (
      ground (arith, bound),
      record {
        below = λ j far. ground (arith, one.below j far, all.below j far);
        same_controllers = ground (arith, one.same_controllers, all.same_controllers);
        same_count = ground (arith, one.same_count, all.same_count);
      },
    )

-- A joybus exchange answers at most four channels, changes no byte of the PIF RAM from 0x3F on but
-- for the request flag, which it clears, leaves the controllers as they are, and counts the exchange
-- in 32 bits.
pub process_joybus_lem :
    (p : Pif)
    → let (n, p') = process_joybus p in
      (n ≤ 4)
      × (p'.ram 0x3f ≡ clear_bit 0 (p.ram 0x3f))
      × ((j : ℕ) → 0x3f < j → p'.ram j ≡ p.ram j)
      × (p'.controllers ≡ p.controllers)
      × (p'.joybus_count ≡ (p.joybus_count + 1) % 2 ^ 32)
unfolding process_joybus
process_joybus_lem p =
    let (bound, kept) = process_loop-Kept 4 0 0 0 p in
    (
      bound,
      ap (clear_bit 0) (kept.below 0x3f (omega arith)),
      λ j far. ground (arith, kept.below j (omega arith)),
      kept.same_controllers,
      ap (λ c. (c + 1) % 2 ^ 32) kept.same_count,
    )

-- Nothing is skipped where no padding stands.
skip_padding-none :
    (left cursor : ℕ) (ram : ℕ → ℕ) → ram cursor ≢ 0xff → skip_padding left cursor ram ≡ cursor
unfolding skip_padding
skip_padding-none zero cursor ram h = refl
skip_padding-none (suc left) cursor ram h = if_false _ _ (==-ne (ram cursor) 0xff h)

-- The command that polls a controller: one byte sent, four awaited.
record IsPoll (cursor : ℕ) (ram : ℕ → ℕ) : Type 0 where
  sent : ram cursor ≡ 1
  awaited : ram (cursor + 1) ≡ 4
  command : ram (cursor + 2) ≡ 0x01
  fits : cursor + 7 ≤ 0x3f

answer-poll :
    (pad : ControllerState) (cursor at : ℕ) (ram : ℕ → ℕ)
    → pad.present ≡ true
    → answer pad 0x01 cursor at 4 ram ≡ put_state pad at (update ram (cursor + 1) 4)
unfolding answer respond fill
answer-poll pad cursor at ram h = if_true _ _ h

process_command-poll :
    (channel cursor : ℕ) (p : Pif)
    → IsPoll cursor p.ram
    → (p.controllers channel).present ≡ true
    → process_command channel cursor p ≡ (
      true,
      (
        cursor + 7,
        record p {
          ram = put_state (p.controllers channel) (cursor + 3) (update p.ram (cursor + 1) 4);
        },
      ),
    )
unfolding process_command
process_command-poll channel cursor p h here =
    let four : p.ram (cursor + 1) % 64 ≡ 4 = omega (arith, h.awaited) in
    let one : p.ram cursor % 64 ≡ 1 = omega (arith, h.sent) in
    let inside : leb 0x3f (cursor + 1) ≡ false = ground (arith, h.fits) in
    let room : ltb 0x3f (cursor + 2 + 1 + 4) ≡ false = ground (arith, h.fits) in
    let at : cursor + 2 + 1 ≡ cursor + 3 = omega arith in
    let next : cursor + 3 + 4 ≡ cursor + 7 = omega arith in
    rw (process_command, four, one, h.command, inside, room, at, next)
      (ap (λ ram. (true, (cursor + 7, record p { ram = ram })))
        (answer-poll (p.controllers channel) cursor (cursor + 3) p.ram here))

process_at-poll :
    (channel cursor : ℕ) (p : Pif)
    → IsPoll cursor p.ram
    → process_at channel cursor p ≡ process_command channel cursor p
unfolding process_at
process_at-poll channel cursor p h =
    let inside : leb 0x3f cursor ≡ false = ground (arith, h.fits) in
    rw (process_at, inside, h.sent) refl

process_channel-poll :
    (channel cursor : ℕ) (p : Pif)
    → IsPoll cursor p.ram
    → process_channel channel cursor p ≡ process_command channel cursor p
unfolding process_channel
process_channel-poll channel cursor p h =
    ap (λ c. process_at channel c p)
      (skip_padding-none (0x3f - cursor) cursor p.ram (omega (arith, h.sent)))
    ∙ process_at-poll channel cursor p h

-- A game that polls a channel with a controller that is present, with the usual command of one
-- byte and room for four, reads back the buttons and the stick that the frontend set.
pub set_controller-process_channel :
    (channel cursor : ℕ) (pad : ControllerState) (p : Pif)
    → channel < 4
    → cursor + 7 ≤ 0x3f
    → p.ram cursor ≡ 1
    → p.ram (cursor + 1) ≡ 4
    → p.ram (cursor + 2) ≡ 0x01
    → pad.present ≡ true
    → pad.buttons < 2 ^ 16
    → let (more, (next, p')) = process_channel channel cursor (set_controller channel pad p) in
      (more ≡ true)
      × (next ≡ cursor + 7)
      × (p'.ram (cursor + 1) ≡ 4)
      × (p'.ram (cursor + 3) * 256 + p'.ram (cursor + 4) ≡ pad.buttons)
      × (p'.ram (cursor + 5) ≡ pad.stick_x)
      × (p'.ram (cursor + 6) ≡ pad.stick_y)
unfolding set_controller
set_controller-process_channel channel cursor pad p few fits tlen rlen cmd here small =
    let poll : IsPoll cursor p.ram = record {
      sent = tlen;
      awaited = rlen;
      command = cmd;
      fits = fits;
    } in
    let q : Pif = record p { controllers = update p.controllers channel pad } in
    let set : set_controller channel pad p ≡ q = if_true _ _ (lt→ltb channel 4 few) in
    let own : q.controllers channel ≡ pad = ground arith in
    let answered =
      ap (process_channel channel cursor) set
      ∙ process_channel-poll channel cursor q poll
      ∙ process_command-poll channel cursor q poll (ap (λ c. c.present) own ∙ here) in
    (
      ap (λ r. r.0) answered,
      ap (λ r. r.1.0) answered,
      ap (λ r. r.1.1.ram (cursor + 1)) answered ∙ ground arith,
      ap (λ r. r.1.1.ram (cursor + 3) * 256 + r.1.1.ram (cursor + 4)) answered ∙ ground arith,
      ap (λ r. r.1.1.ram (cursor + 5)) answered ∙ ground arith,
      ap (λ r. r.1.1.ram (cursor + 6)) answered ∙ ground arith,
    )
