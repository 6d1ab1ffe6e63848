-- ===== src/Ai/Ring.antt =====
-- The ring of `push_frame` and `pull_frames` is a bounded queue of stereo frames.
use emulador_n64emu.Base.{
  ℕ, zero, suc, ◌+◌, ◌-◌, ◌*◌, ◌/◌, ◌%◌, ◌^◌, ◌≤◌, ◌<◌, min, ◌==◌, ltb, leb, if◌then◌else◌, ◌≡◌,
  inl, inr, refl, sym, ap, ◌∙◌, arith, Bool-cases, true, false, List, [], ◌∷◌, ◌++◌, length, dec_lt,
  update, if_true, if_false,
}
use emulador_n64emu.Ai.{
  Ai, ring_frames, push_frame, pull_frames, copy_frames, buffered_frames, reset,
}

-- The frame with number `r`, and the `n` frames from there on, the last one at the end.
abbrev pub frame_at : (ring : ℕ → ℕ) → ℕ → ℕ × ℕ
frame_at ring r = (ring (r % ring_frames * 2), ring (r % ring_frames * 2 + 1))

abbrev pub stored : (ℕ → ℕ) → ℕ → ℕ → List (ℕ × ℕ)
stored ring r zero = []
stored ring r (suc n) = stored ring r n ++ frame_at ring (r + n) ∷ []

-- The frames that were pushed and not pulled yet, in order.
abbrev pub frames : Ai → List (ℕ × ℕ)
frames a = stored a.ring a.ring_r (a.ring_w - a.ring_r)

-- The two cursors are no further apart than the ring is long, and have not wrapped.
pub record IsRing (a : Ai) : Type 0 where
  pub ordered : a.ring_r ≤ a.ring_w
  pub fits : a.ring_w ≤ a.ring_r + ring_frames
  pub no_wrap : a.ring_w < 2 ^ 64

reset-IsRing : (a : Ai) → IsRing (reset a)
unfolding reset
reset-IsRing a = record { ordered = omega arith; fits = omega arith; no_wrap = omega arith }

length-copy_frames : (ring : ℕ → ℕ) (r n : ℕ) → length (copy_frames ring r n) ≡ n
unfolding copy_frames
length-copy_frames ring r zero = refl
length-copy_frames ring r (suc n) = ap suc (length-copy_frames ring (r + 1) n)

copy_frames-add :
    (ring : ℕ → ℕ) (r m n k s : ℕ)
    → k ≡ m + n
    → s ≡ r + m
    → copy_frames ring r k ≡ copy_frames ring r m ++ copy_frames ring s n
unfolding copy_frames
copy_frames-add ring r zero n k s p q =
    let at_n : k ≡ n = omega arith in let at_r : s ≡ r = omega arith in rw (at_n, at_r) refl
copy_frames-add ring r (suc m) n k s p q =
    let at_suc : k ≡ suc (m + n) = omega arith in
    rw at_suc (
      ap (λ l. frame_at ring r ∷ l) (copy_frames-add ring (r + 1) m n (m + n) s refl (omega arith)))

copy_frames_lem : (ring : ℕ → ℕ) (r n : ℕ) → copy_frames ring r n ≡ stored ring r n
unfolding copy_frames
copy_frames_lem ring r zero = refl
copy_frames_lem ring r (suc n) =
    copy_frames-add ring r n 1 (suc n) (r + n) (omega arith) refl
    ∙ ap (λ l. l ++ frame_at ring (r + n) ∷ []) (copy_frames_lem ring r n)

-- The queue as `pull_frames` reads it.
abbrev copied : Ai → List (ℕ × ℕ)
copied a = copy_frames a.ring a.ring_r (a.ring_w - a.ring_r)

frames-copied : (a : Ai) → copied a ≡ frames a
frames-copied a = copy_frames_lem a.ring a.ring_r (a.ring_w - a.ring_r)

length-copied : (a : Ai) → length (copied a) ≡ a.ring_w - a.ring_r
length-copied a = length-copy_frames a.ring a.ring_r (a.ring_w - a.ring_r)

pub length-frames : (a : Ai) → length (frames a) ≡ a.ring_w - a.ring_r
length-frames a = ap length (sym (frames-copied a)) ∙ length-copied a

same_frame :
    (ring : ℕ → ℕ) (r w left right : ℕ)
    → r < w
    → w < r + ring_frames
    → let slot = w % ring_frames * 2 in
      frame_at (update (update ring slot left) (slot + 1) right) r ≡ frame_at ring r
same_frame ring r w left right p q = ground arith

own_frame :
    (ring : ℕ → ℕ) (w left right : ℕ)
    → let slot = w % ring_frames * 2 in
      frame_at (update (update ring slot left) (slot + 1) right) w ≡ (left, right)
own_frame ring w left right = ground arith

last_frame :
    (ring : ℕ → ℕ) (w left right : ℕ)
    → let slot = w % ring_frames * 2 in
      copy_frames (update (update ring slot left) (slot + 1) right) w 1 ≡ (left, right) ∷ []
unfolding copy_frames
last_frame ring w left right = ap (λ f. f ∷ []) (own_frame ring w left right)

-- Frame `w` takes no place of the frames from `r` on.
copy_frames-update :
    (ring : ℕ → ℕ) (r n w left right : ℕ)
    → r + n ≤ w
    → w < r + ring_frames
    → let slot = w % ring_frames * 2 in
      copy_frames (update (update ring slot left) (slot + 1) right) r n ≡ copy_frames ring r n
unfolding copy_frames
copy_frames-update ring r zero w left right p q = refl
copy_frames-update ring r (suc n) w left right p q =
    let slot = w % ring_frames * 2 in
    let rest = copy_frames-update ring (r + 1) n w left right (omega arith) (omega arith) in
    rw rest
      (ap (λ f. f ∷ copy_frames ring (r + 1) n) (same_frame ring r w left right (omega arith) q))

-- The state after a push in a ring with room, and in a full ring.
abbrev with_frame : ℕ → ℕ → Ai → Ai
with_frame left right a =
    let slot = a.ring_w % ring_frames * 2 in
    record a {
      samples_pushed = (a.samples_pushed + 1) % 2 ^ 64;
      ring = update (update a.ring slot left) (slot + 1) right;
      ring_w = a.ring_w + 1;
    }

abbrev with_drop : Ai → Ai
with_drop a = record a {
  samples_pushed = (a.samples_pushed + 1) % 2 ^ 64;
  frames_dropped = (a.frames_dropped + 1) % 2 ^ 64;
}

next_cursor : (w : ℕ) → w + 1 < 2 ^ 64 → (w + 1) % 2 ^ 64 ≡ w + 1
next_cursor w h = omega arith

has_room :
    (a : Ai)
    → IsRing a
    → a.ring_w - a.ring_r < ring_frames
    → leb ring_frames ((a.ring_w + 2 ^ 64 - a.ring_r) % 2 ^ 64) ≡ false
has_room a i lt = ground (arith, i.ordered, i.no_wrap)

has_no_room :
    (a : Ai)
    → IsRing a
    → ring_frames ≤ a.ring_w - a.ring_r
    → leb ring_frames ((a.ring_w + 2 ^ 64 - a.ring_r) % 2 ^ 64) ≡ true
has_no_room a i ge = ground (arith, i.ordered, i.no_wrap)

push_room :
    (left right : ℕ) (a : Ai)
    → IsRing a
    → a.ring_w + 1 < 2 ^ 64
    → a.ring_w - a.ring_r < ring_frames
    → push_frame left right a ≡ with_frame left right a
unfolding push_frame
push_room left right a i h lt = rw (has_room a i lt, next_cursor a.ring_w h) refl

push_full :
    (left right : ℕ) (a : Ai)
    → IsRing a
    → ring_frames ≤ a.ring_w - a.ring_r
    → push_frame left right a ≡ with_drop a
unfolding push_frame
push_full left right a i ge = rw (has_no_room a i ge) refl

copied-with_frame :
    (left right : ℕ) (a : Ai)
    → IsRing a
    → a.ring_w - a.ring_r < ring_frames
    → copied (with_frame left right a) ≡ copied a ++ (left, right) ∷ []
copied-with_frame left right a i lt =
    let slot = a.ring_w % ring_frames * 2 in
    let ring = update (update a.ring slot left) (slot + 1) right in
    let n = a.ring_w - a.ring_r in
    copy_frames-add ring a.ring_r n 1 (a.ring_w + 1 - a.ring_r) a.ring_w (omega (arith, i.ordered))
      (omega (arith, i.ordered))
    ∙ ap (λ l. l ++ copy_frames ring a.ring_w 1)
        (copy_frames-update a.ring a.ring_r n a.ring_w left right (omega (arith, i.ordered))
          (omega (arith, i.ordered)))
    ∙ ap (λ l. copied a ++ l) (last_frame a.ring a.ring_w left right)

frames-with_frame :
    (left right : ℕ) (a : Ai)
    → IsRing a
    → a.ring_w - a.ring_r < ring_frames
    → frames (with_frame left right a) ≡ frames a ++ (left, right) ∷ []
frames-with_frame left right a i lt =
    sym (frames-copied (with_frame left right a))
    ∙ copied-with_frame left right a i lt
    ∙ ap (λ l. l ++ (left, right) ∷ []) (frames-copied a)

-- While the write cursor does not wrap, a frame in a ring that is not full goes to the end of the
-- queue, and one in a full ring is dropped and counted, with the queue as it was. Either way the
-- frame is counted, in words of 64 bits, and the invariant holds again.
pub push_frame-frames :
    (left right : ℕ) (a : Ai)
    → IsRing a
    → a.ring_w + 1 < 2 ^ 64
    → let b = push_frame left right a in
      let room = ltb (length (frames a)) ring_frames in
      IsRing b
      × (b.samples_pushed ≡ (a.samples_pushed + 1) % 2 ^ 64)
      × (frames b ≡ (if room then frames a ++ (left, right) ∷ [] else frames a))
      × (b.frames_dropped ≡ (if room then a.frames_dropped else (a.frames_dropped + 1) % 2 ^ 64))
push_frame-frames left right a i h = elim (dec_lt (a.ring_w - a.ring_r) ring_frames) [
  | yes lt ↦
      (let room : ltb (length (frames a)) ring_frames ≡ true = ground (arith, length-frames a) in
        rw (push_room left right a i h lt) (
          record { ordered = omega (arith, i.ordered); fits = omega (arith, i.fits); no_wrap = h },
          refl,
          frames-with_frame left right a i lt ∙ sym (if_true _ _ room),
          sym (if_true _ _ room),
        ))
  | no ge ↦
      (let room : ltb (length (frames a)) ring_frames ≡ false = ground (arith, length-frames a) in
        rw (push_full left right a i (omega arith)) (
          record { ordered = i.ordered; fits = i.fits; no_wrap = i.no_wrap },
          refl,
          sym (if_false _ _ room),
          sym (if_false _ _ room),
        ))
]

plus_zero : (r : ℕ) → r + 0 ≡ r
plus_zero r = omega arith

pulled :
    (size : ℕ) (a : Ai)
    → IsRing a
    → pull_frames size a ≡ (
      copy_frames a.ring a.ring_r (min (size / 2) (a.ring_w - a.ring_r)),
      record a { ring_r = a.ring_r + min (size / 2) (a.ring_w - a.ring_r) },
    )
unfolding pull_frames copy_frames
pulled size a i =
    let n = min (size / 2) (a.ring_w - a.ring_r) in
    elim (Bool-cases (size / 2 == 0)) [
      | inl none_asked ↦
          (let n_zero : n ≡ 0 = ground arith in
            rw (none_asked, n_zero) (rw (plus_zero a.ring_r) refl))
      | inr asked ↦ elim (Bool-cases (leb a.ring_w a.ring_r)) [
        | inl no_frames ↦
            (let n_zero : n ≡ 0 = ground arith in
              rw (asked, no_frames, n_zero) (rw (plus_zero a.ring_r) refl))
        | inr some_frames ↦
            (let small : (a.ring_r + n) % 2 ^ 64 ≡ a.ring_r + n = omega (arith, i.no_wrap) in
              rw (asked, some_frames, small) refl)
      ]
    ]

-- In a ring that keeps the invariant `pull_frames` takes frames from the front of the queue, in
-- order: as many as the output of `size` samples holds, or all of them. What it gives out and what
-- is left are the queue, and the invariant holds again.
pub pull_frames-frames :
    (size : ℕ) (a : Ai)
    → IsRing a
    → let (out, b) = pull_frames size a in
      IsRing b
      × (frames a ≡ out ++ frames b)
      × (length out ≡ min (size / 2) (length (frames a)))
      × (buffered_frames b ≡ length (frames b))
unfolding buffered_frames
pull_frames-frames size a i =
    let n = min (size / 2) (a.ring_w - a.ring_r) in
    rw (pulled size a i) (
      record {
        ordered = omega (arith, i.ordered);
        fits = omega (arith, i.fits);
        no_wrap = i.no_wrap;
      },
      sym (frames-copied a)
          ∙ copy_frames-add a.ring a.ring_r n (a.ring_w - (a.ring_r + n)) (a.ring_w - a.ring_r)
              (a.ring_r + n) (omega (arith, i.ordered)) refl
          ∙ ap (λ l. copy_frames a.ring a.ring_r n ++ l)
              (copy_frames_lem a.ring (a.ring_r + n) (a.ring_w - (a.ring_r + n))),
      omega (arith, length-copy_frames a.ring a.ring_r n, length-frames a),
      sym (length-frames (record a { ring_r = a.ring_r + n })),
    )
