-- ===== src/Pif/Channel.antt =====
-- One channel of the joybus: where it writes, and what a controller answers.
use emulador_n64emu.Base.{
  ℕ, zero, suc, ◌+◌, ◌-◌, ◌%◌, ◌≤◌, ltb, leb, if◌then◌else◌, ◌≡◌, refl, ◌∙◌, arith, ◌&&◌, set_bit,
  update,
}
use emulador_n64emu.Pif.{
  ControllerState, Pif, skip_padding, fill, put_info, put_state, respond, answer, process_command,
  process_at, process_channel,
}

pub fill_lem :
    (n at j : ℕ) (ram : ℕ → ℕ) → fill n at ram j ≡ (if leb at j && ltb j (at + n) then 0 else ram j)
unfolding fill
fill_lem zero at j ram = ground arith
fill_lem (suc n) at j ram = ground (arith, fill_lem n (at + 1) j (update ram at 0))

-- Only bytes below `limit` differ.
abbrev pub Confined : ℕ → (ℕ → ℕ) → (ℕ → ℕ) → Type 0
Confined limit ram ram' = (j : ℕ) → limit ≤ j → ram' j ≡ ram j

pub respond-Confined :
    (cmd : ℕ) (pad : ControllerState) (at n : ℕ) (ram : ℕ → ℕ)
    → Confined (at + n) ram (respond cmd pad at n ram)
unfolding respond
respond-Confined cmd pad at n ram j h = ground (
  arith,
  fill_lem (n - 3) (at + 3) j (put_info at ram),
  fill_lem (n - 4) (at + 4) j (put_state pad at ram),
  fill_lem n at j ram,
)

answer-Confined :
    (pad : ControllerState) (cmd cursor at n : ℕ) (ram : ℕ → ℕ)
    → cursor + 2 ≤ at
    → Confined (at + n) ram (answer pad cmd cursor at n ram)
unfolding answer
answer-Confined pad cmd cursor at n ram h j far = ground (
  arith,
  respond-Confined cmd pad at n (update ram (cursor + 1) n) j far,
  fill_lem n at j (update (update ram (cursor + 1) n) (cursor + 1) (set_bit 7 n)),
)

-- What one channel does: it writes below `0x3F` only, and touches no controller.
pub record Kept (p p' : Pif) : Type 0 where
  pub below : Confined 0x3f p.ram p'.ram
  pub same_controllers : p'.controllers ≡ p.controllers
  pub same_count : p'.joybus_count ≡ p.joybus_count

pub Kept-refl : (p : Pif) → Kept p p
Kept-refl p = record { below = λ j h. refl; same_controllers = refl; same_count = refl }

pub Kept-trans : {p p' p'' : Pif} → Kept p p' → Kept p' p'' → Kept p p''
Kept-trans h k = record {
  below = λ j far. k.below j far ∙ h.below j far;
  same_controllers = k.same_controllers ∙ h.same_controllers;
  same_count = k.same_count ∙ h.same_count;
}

process_command-Kept :
    (channel cursor : ℕ) (p : Pif) → Kept p (process_command channel cursor p).1.1
unfolding process_command
process_command-Kept channel cursor p =
    let n = p.ram (cursor + 1) % 64 in
    let sent = p.ram cursor % 64 in
    let cmd = if ltb 0 sent then p.ram (cursor + 2) else 0x00 in
    let inner =
      answer-Confined (p.controllers channel) cmd cursor (cursor + 2 + sent) n p.ram
        (omega arith) in
    record {
      below = λ j far. ground (arith, inner j);
      same_controllers = ground arith;
      same_count = ground arith;
    }

process_at-Kept : (channel cursor : ℕ) (p : Pif) → Kept p (process_at channel cursor p).1.1
unfolding process_at
process_at-Kept channel cursor p =
    let inner = process_command-Kept channel cursor p in
    record {
      below = λ j far. ground (arith, inner.below j far);
      same_controllers = ground (arith, inner.same_controllers);
      same_count = ground (arith, inner.same_count);
    }

pub process_channel-Kept :
    (channel cursor : ℕ) (p : Pif) → Kept p (process_channel channel cursor p).1.1
unfolding process_channel
process_channel-Kept channel cursor p =
    process_at-Kept channel (skip_padding (0x3f - cursor) cursor p.ram) p
