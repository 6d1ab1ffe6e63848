-- ===== src/Cpu/Tlb/Probe.antt =====
-- A miss of `translate_address` and a failed `tlb_probe` are the same thing.
use emulador_n64emu.Base.{
  ℕ, zero, suc, ◌+◌, ◌-◌, ◌/◌, ◌%◌, ◌^◌, ◌<◌, bit_and, ◌==◌, if◌then◌else◌, ◌≡◌, ◌⊎◌, inl, inr,
  refl, ap, ◌∙◌, arith, Bool, Bool-cases, true, false, ◌&&◌, ◌||◌, List, [], ◌∷◌, length, get_or,
  bit, low, dec_lt,
}
use emulador_n64emu.Cpu.{Cpu, TlbEntry, no_entry}
use emulador_n64emu.Cpu.Cop0Reg.{entry_hi, index}
use emulador_n64emu.Cpu.Tlb.{
  tlb_miss, is_global, vpn_matches, entry_matches, use_entry, tlb_loop, translate_address,
  pair_mask, not32, probe_loop, tlb_probe,
}
use emulador_n64emu.Base.{bit_ext, bit-bit_and}
use emulador_n64emu.Cpu.Tlb.Offset.{low_digits, low_eq_mod_13, pair_mask-low, no_digit}

-- Entry `i` is the first of the list for the address and the address space.
record IsFirst (v asid i : ℕ) (l : List TlbEntry) : Type 0 where
  in_range : i < length l
  matches : entry_matches v asid (get_or l i no_entry) ≡ true
  first : (j : ℕ) → j < i → entry_matches v asid (get_or l j no_entry) ≡ false

IsFirst-zero :
    (v asid : ℕ) (e : TlbEntry) (rest : List TlbEntry)
    → entry_matches v asid e ≡ true
    → IsFirst v asid 0 (e ∷ rest)
IsFirst-zero v asid e rest h = record {
  in_range = omega arith;
  matches = h;
  first = λ j lt. absurd (omega arith);
}

first_suc :
    (v asid i : ℕ) (e : TlbEntry) (rest : List TlbEntry)
    → entry_matches v asid e ≡ false
    → IsFirst v asid i rest
    → (j : ℕ) → j < suc i
    → entry_matches v asid (get_or (e ∷ rest) j no_entry) ≡ false
first_suc v asid i e rest fails f zero lt = fails
first_suc v asid i e rest fails f (suc j) lt = f.first j (omega arith)

high_digit :
    (j k v w : ℕ)
    → k ≡ suc (suc (suc (suc (suc (suc (suc (suc (suc (suc (suc (suc (suc (j)))))))))))))
    → v / 2 ^ 13 ≡ w / 2 ^ 13
    → bit k v ≡ bit k w
unfolding bit
high_digit j k v w at e = rw at (ap (bit j) (omega arith))

pair_complement : (e : TlbEntry) → low 13 (not32 (pair_mask e)) ≡ low 13 0
pair_complement e =
    omega (arith, low_eq_mod_13 (not32 (pair_mask e)), low_eq_mod_13 0, pair_mask-low e)

and_digit :
    (k v w : ℕ) (e : TlbEntry)
    → v / 2 ^ 13 ≡ w / 2 ^ 13
    → bit k (bit_and v (not32 (pair_mask e))) ≡ bit k (bit_and w (not32 (pair_mask e)))
and_digit k v w e same = elim (dec_lt k 13) [
  | yes lt ↦ ground (
    arith,
    bit-bit_and k v (not32 (pair_mask e)),
    bit-bit_and k w (not32 (pair_mask e)),
    low_digits k 13 _ _ (pair_complement e) lt,
    no_digit k,
  )
  | no ge ↦ ground (
    arith,
    bit-bit_and k v (not32 (pair_mask e)),
    bit-bit_and k w (not32 (pair_mask e)),
    high_digit (k - 13) k v w (omega arith) same,
  )
]

-- Which entries match depends on the page pair of the address only.
vpn_matches-page :
    (v w : ℕ) (e : TlbEntry) → v / 2 ^ 13 ≡ w / 2 ^ 13 → vpn_matches v e ≡ vpn_matches w e
unfolding vpn_matches
vpn_matches-page v w e same =
    ap (λ x. x == bit_and e.entry_hi (not32 (pair_mask e)))
      (bit_ext _ _ (λ k. and_digit k v w e same))

entry_matches-page :
    (v w asid : ℕ) (e : TlbEntry)
    → v / 2 ^ 13 ≡ w / 2 ^ 13
    → entry_matches v asid e ≡ entry_matches w asid e
unfolding entry_matches
entry_matches-page v w asid e same =
    ap (λ b. b && (is_global e || (e.entry_hi % 2 ^ 8 == asid))) (vpn_matches-page v w e same)

-- What the two loops over the entries find, from entry number `n` on.
data Found (v q n : ℕ) (is_store : Bool) (l : List TlbEntry) : Type 0 where
  missing :
      ((j : ℕ) → j < length l → entry_matches q (q % 2 ^ 8) (get_or l j no_entry) ≡ false)
      → tlb_loop v (q % 2 ^ 8) is_store l ≡ tlb_miss
      → probe_loop q n l ≡ 0x8000_0000
      → Found v q n is_store l
  at_entry :
      (i : ℕ)
      → IsFirst q (q % 2 ^ 8) i l
      → tlb_loop v (q % 2 ^ 8) is_store l ≡ use_entry v is_store (get_or l i no_entry)
      → probe_loop q n l ≡ n + i
      → Found v q n is_store l

all_suc :
    (v asid : ℕ) (e : TlbEntry) (rest : List TlbEntry)
    → entry_matches v asid e ≡ false
    → ((j : ℕ) → j < length rest → entry_matches v asid (get_or rest j no_entry) ≡ false)
    → (j : ℕ) → j < length (e ∷ rest)
    → entry_matches v asid (get_or (e ∷ rest) j no_entry) ≡ false
all_suc v asid e rest fails h zero lt = fails
all_suc v asid e rest fails h (suc j) lt = h j (omega arith)

tlb_loop-cons :
    (v asid : ℕ) (is_store : Bool) (e : TlbEntry) (rest : List TlbEntry)
    → tlb_loop v asid is_store (e ∷ rest)
      ≡ (if entry_matches v asid e then use_entry v is_store e else tlb_loop v asid is_store rest)
unfolding tlb_loop
tlb_loop-cons v asid is_store e rest = refl

probe_loop-cons :
    (v n : ℕ) (e : TlbEntry) (rest : List TlbEntry)
    → probe_loop v n (e ∷ rest)
      ≡ (if entry_matches v (v % 2 ^ 8) e then n else probe_loop v (n + 1) rest)
unfolding probe_loop entry_matches
probe_loop-cons v n e rest = refl

loops-Found :
    (v q n : ℕ) (is_store : Bool) (l : List TlbEntry)
    → v / 2 ^ 13 ≡ q / 2 ^ 13
    → Found v q n is_store l
loops-Found v q n is_store [] same =
    missing (λ j lt. absurd (omega arith)) (unfold tlb_loop in refl) (unfold probe_loop in refl)
loops-Found v q n is_store (e ∷ rest) same =
    let asid = q % 2 ^ 8 in
    let t = tlb_loop-cons v asid is_store e rest in
    let p = probe_loop-cons q n e rest in
    let m = entry_matches-page v q asid e same in
    elim (Bool-cases (entry_matches q asid e)) [
      | inl yes_here ↦
          at_entry 0 (IsFirst-zero q asid e rest yes_here) (ground (arith, t, m))
            (ground (arith, p))
      | inr not_here ↦ elim (loops-Found v q (n + 1) is_store rest same) [
        | missing each miss fail ↦
            missing (all_suc q asid e rest not_here each) (ground (arith, t, m)) (ground (arith, p))
        | at_entry i f use_i probe_i ↦
            at_entry (suc i)
              (record {
                in_range = omega (arith, f.in_range);
                matches = f.matches;
                first = first_suc q asid i e rest not_here f;
              })
              (ground (arith, t, m)) (ground (arith, p))
      ]
    ]

mapped_segment :
    (v : ℕ) (is_store : Bool) (c : Cpu)
    → v < 0x8000_0000
    → translate_address v is_store c ≡ tlb_loop v (c.cop0 entry_hi % 2 ^ 8) is_store c.tlb
unfolding translate_address
mapped_segment v is_store c h = ground arith

-- Entry `i` is for the address and the address space in EntryHi.
abbrev pub matches_entry : Cpu → ℕ → Bool
matches_entry c i =
    entry_matches (c.cop0 entry_hi) (c.cop0 entry_hi % 2 ^ 8) (get_or c.tlb i no_entry)

-- Below 0x8000_0000, with the page pair of the address in EntryHi, `tlb_probe` and the translation of the
-- address agree: either no entry matches, the translation is a TLB miss and Index becomes
-- TLB_PROBE_FAIL, or Index becomes the number of the first entry that matches, and the
-- translation is what that entry gives.
pub tlb_probe-translate_address :
    (v : ℕ) (is_store : Bool) (c : Cpu)
    → v < 0x8000_0000
    → v / 2 ^ 13 ≡ c.cop0 entry_hi / 2 ^ 13
    → (((j : ℕ) → j < length c.tlb → matches_entry c j ≡ false)
        × (translate_address v is_store c ≡ tlb_miss)
        × ((tlb_probe c).cop0 index ≡ 0x8000_0000))
      ⊎ ((i : ℕ) × (i < length c.tlb)
          × (matches_entry c i ≡ true)
          × ((j : ℕ) → j < i → matches_entry c j ≡ false)
          × (translate_address v is_store c ≡ use_entry v is_store (get_or c.tlb i no_entry))
          × ((tlb_probe c).cop0 index ≡ i))
unfolding tlb_probe
tlb_probe-translate_address v is_store c lt same =
    let to_loop = mapped_segment v is_store c lt in
    elim (loops-Found v (c.cop0 entry_hi) 0 is_store c.tlb same) [
      | missing each miss fail ↦ inl (each, to_loop ∙ miss, fail)
      | at_entry i f use_i probe_i ↦
          inr (i, f.in_range, f.matches, f.first, to_loop ∙ use_i, omega (arith, probe_i))
    ]
