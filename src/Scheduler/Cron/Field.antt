-- ===== src/Scheduler/Cron/Field.antt =====
-- The bitset operations and the loops that fill a field.
use Prim.Native.Nat.{bit_or}
use native.Mathlib.Nat.{mod-eq_of_lt, mod-eq-sub-mod}
use aethercore.Prelude.{
  ℕ, zero, suc, ◌+◌, ◌-◌, ◌%◌, ◌^◌, ◌≤◌, ◌<◌, ◌≡◌, refl, sym, ◌∙◌, ap, inl, inr, Bool, true, false,
  ◌&&◌, ◌||◌, some, nat_eq, leb, Bool-cases, dec_le, arith,
}
use aethercore.Prelude.Bits.{bit-zero, and_shift, or_shift, or_bits}
use aethercore.Prelude.Int.{ℤ, pos, negsuc, sub_ℕ, leb_ℤ, add_int, add_pos, max_int}
use aethercore.Scheduler.Cron.{set_bit, has_bit, safe_uint, fill}

pub has_bit-set_bit :
    (b p q : ℕ) → p < 64 → q < 64 → has_bit (set_bit b q) p ≡ (nat_eq q p || has_bit b p)
unfolding has_bit set_bit
has_bit-set_bit b p q hp hq =
    rw (and_shift p (set_bit b q) hp, and_shift p b hp, or_shift p q b hq) (ground arith)

pub has_bit-or : (a b p : ℕ) → p < 64 → has_bit (bit_or a b) p ≡ (has_bit a p || has_bit b p)
unfolding has_bit
has_bit-or a b p hp =
    rw (and_shift p (bit_or a b) hp, and_shift p a hp, and_shift p b hp, or_bits p a b)
      (ground arith)

-- The values `first`, `first + step`, … up to `last`.
unfoldable pub grid : ℕ → ℕ → ℕ → ℕ → Bool
grid first last step p = leb first p && (leb p last && nat_eq ((p - first) % step) 0)

grid_step :
    (n last step p : ℕ)
    → 0 < step
    → n ≤ last
    → grid n last step p ≡ (nat_eq n p || grid (n + step) last step p)
unfolding grid
grid_step n last step p pos_step h =
    let below : p - n < step → (p - n) % step ≡ p - n = λ k. mod-eq_of_lt k in
    let above : step ≤ p - n → (p - n) % step ≡ (p - n - step) % step = λ k. mod-eq-sub-mod k in
    let split : p - (n + step) ≡ p - n - step = omega arith in rw split (ground arith)

add_pos_wraps :
    (n s : ℕ)
    → max_int < n + s
    → n + s < 2 ^ 64
    → add_int (pos n) (pos s) ≡ negsuc (2 ^ 64 - (n + s) - 1)
unfolding add_int
add_pos_wraps n s h k = ground arith

add_neg : (m s : ℕ) → m < 2 ^ 63 → s ≤ max_int → add_int (negsuc m) (pos s) ≡ sub_ℕ s (suc m)
unfolding add_int
add_neg m s h k = ground arith

fill_more :
    (fuel n last step bits : ℕ)
    → n ≤ last
    → n + step ≤ max_int
    → fill (suc fuel) (pos n) (pos last) (pos step) bits
      ≡ fill fuel (pos (n + step)) (pos last) (pos step) (set_bit bits n)
unfolding fill safe_uint
fill_more fuel n last step bits h fits = ground (arith, add_pos n step)

fill_done :
    (fuel n last : ℕ) (step : ℤ) (bits : ℕ)
    → last < n
    → fill (suc fuel) (pos n) (pos last) step bits ≡ some bits
unfolding fill
fill_done fuel n last step bits h = ground arith

grid_empty : (n last step p : ℕ) → last < n → grid n last step p ≡ false
unfolding grid
grid_empty n last step p h = ground arith

-- The loop ends, and adds the positions of its grid and no others.
abbrev pub FillsGrid : ℕ → ℕ → ℕ → ℕ → ℕ → Type 0
FillsGrid fuel n last step bits =
    (r : ℕ) × (fill fuel (pos n) (pos last) (pos step) bits ≡ some r)
    × ((p : ℕ) → p < 64 → has_bit r p ≡ (has_bit bits p || grid n last step p))

FillsGrid-done : (fuel n last step bits : ℕ) → last < n → FillsGrid (suc fuel) n last step bits
FillsGrid-done fuel n last step bits over = (
  bits,
  fill_done fuel n last (pos step) bits over,
  λ p h. rw (grid_empty n last step p over) (ground arith),
)

pub fill-grid :
    (fuel n last step bits : ℕ)
    → last < 64
    → 0 < step
    → last + step ≤ max_int
    → last < n + fuel
    → FillsGrid (suc fuel) n last step bits
fill-grid zero n last step bits small up fits enough =
    FillsGrid-done zero n last step bits (omega arith)
fill-grid (suc fuel) n last step bits small up fits enough = elim (dec_le n last) [
  | yes more ↦
      let (r, run, positions) =
        fill-grid fuel (n + step) last step (set_bit bits n) small up fits (omega arith) in
      (
        r,
        fill_more (suc fuel) n last step bits more (omega arith) ∙ run,
        λ p h.
            positions p h
            ∙ ap (λ b. b || grid (n + step) last step p) (has_bit-set_bit bits p n h (omega arith))
            ∙ rw (grid_step n last step p up more) (ground arith),
      )
  | no over ↦ FillsGrid-done (suc fuel) n last step bits (omega arith)
]

fill-true :
    (fuel : ℕ) (v last step : ℤ) (bits : ℕ)
    → leb_ℤ v last ≡ true
    → fill (suc fuel) v last step bits
      ≡ fill fuel (add_int v step) last step (set_bit bits (safe_uint v))
unfolding fill
fill-true fuel v last step bits h = rw h

fill-false :
    (fuel : ℕ) (v last step : ℤ) (bits : ℕ)
    → leb_ℤ v last ≡ false
    → fill (suc fuel) v last step bits ≡ some bits
unfolding fill
fill-false fuel v last step bits h = rw h

safe_uint-lt : (v : ℤ) (last : ℕ) → last < 64 → leb_ℤ v (pos last) ≡ true → safe_uint v < 64
unfolding safe_uint
safe_uint-lt (pos n) last small h = ground arith
safe_uint-lt (negsuc n) last small h = omega arith

-- Whatever the step, what is set stays set.
pub fill_keeps :
    (fuel : ℕ) (v : ℤ) (last : ℕ) (step : ℤ) (bits p r : ℕ)
    → p < 64
    → last < 64
    → has_bit bits p ≡ true
    → fill fuel v (pos last) step bits ≡ some r
    → has_bit r p ≡ true
fill_keeps zero v last step bits p r hp small h e = unfold fill in cc
fill_keeps (suc fuel) v last step bits p r hp small h e = elim (Bool-cases (leb_ℤ v (pos last))) [
  | inl more ↦
      let q = safe_uint v in
      let set : has_bit (set_bit bits q) p ≡ true =
        has_bit-set_bit bits p q hp (safe_uint-lt v last small more) ∙ rw h (ground arith) in
      fill_keeps fuel (add_int v step) last step (set_bit bits q) p r hp small set
        (sym (fill-true fuel v (pos last) step bits more) ∙ e)
  | inr over ↦
      let same : bits ≡ r = ground (arith, fill-false fuel v (pos last) step bits over) in
      rw same at h
]

-- The loop ends within its fuel.
abbrev pub Ends : ℕ → ℤ → ℕ → ℕ → ℕ → Type 0
Ends fuel v last s bits = (r : ℕ) × (fill fuel v (pos last) (pos s) bits ≡ some r)

Ends-over : (fuel n last s bits : ℕ) → last < n → Ends (suc fuel) (pos n) last s bits
Ends-over fuel n last s bits over = (bits, fill_done fuel n last (pos s) bits over)

Ends-next :
    (fuel : ℕ) (v : ℤ) (last s bits : ℕ)
    → leb_ℤ v (pos last) ≡ true
    → Ends fuel (add_int v (pos s)) last s (set_bit bits (safe_uint v))
    → Ends (suc fuel) v last s bits
Ends-next fuel v last s bits h (r, run) = (r, fill-true fuel v (pos last) (pos s) bits h ∙ run)

-- From a small negative value one more round leads far past the end.
Ends-negative :
    (fuel m last s bits : ℕ)
    → 2 ≤ fuel
    → m ≤ 128
    → last < 64
    → 2 ^ 63 ≤ s + 64
    → s ≤ max_int
    → Ends fuel (negsuc m) last s bits
Ends-negative zero m last s bits f h small huge fits = absurd (omega arith)
Ends-negative (suc zero) m last s bits f h small huge fits = absurd (omega arith)
Ends-negative (suc (suc fuel)) m last s bits f h small huge fits =
    let b = set_bit bits (safe_uint (negsuc m)) in
    let far : sub_ℕ s (suc m) ≡ pos (s - suc m) = ground arith in
    Ends-next (suc fuel) (negsuc m) last s bits (ground arith)
      (rw (add_neg m s (omega arith) fits, far) (Ends-over fuel (s - suc m) last s b (omega arith)))

-- With a step of 2^63 - 64 or more the values come back below where they were.
Ends-huge :
    (fuel n last s bits : ℕ)
    → last < 64
    → 2 ^ 63 ≤ s + 64
    → s ≤ max_int
    → n + 4 ≤ fuel
    → Ends fuel (pos n) last s bits
Ends-huge zero n last s bits small huge fits enough = absurd (omega arith)
Ends-huge (suc zero) n last s bits small huge fits enough = absurd (omega arith)
Ends-huge (suc (suc fuel)) n last s bits small huge fits enough =
    let b = set_bit bits (safe_uint (pos n)) in
    elim (dec_le n last) [
      | no over ↦ Ends-over (suc fuel) n last s bits (omega arith)
      | yes more ↦
          Ends-next (suc fuel) (pos n) last s bits (ground arith) (elim (dec_le (n + s) max_int) [
            | yes below ↦ rw (add_pos n s below) (Ends-over fuel (n + s) last s b (omega arith))
            | no above ↦
                let m : ℕ = 2 ^ 64 - (n + s) - 1 in
                let b' = set_bit b (safe_uint (negsuc m)) in
                rw (add_pos_wraps n s (omega arith) (omega arith)) (
                  Ends-next fuel (negsuc m) last s b (ground arith) (
                    rw (add_neg m s (omega arith) fits) (elim (dec_le (suc m) s) [
                      | yes back ↦
                          let e : sub_ℕ s (suc m) ≡ pos (s - suc m) = ground arith in
                          rw e (Ends-huge fuel (s - suc m) last s b' small huge fits (omega arith))
                      | no behind ↦
                          let e : sub_ℕ s (suc m) ≡ negsuc (m - s) = ground arith in
                          rw e (
                            Ends-negative fuel (m - s) last s b' (omega arith) (omega arith) small
                              huge fits)
                    ])))
          ])
    ]

-- The loops of the parser end whatever the step: 128 rounds are enough.
pub fill-Ends :
    (n last s bits : ℕ) → n < 64 → last < 64 → 0 < s → s ≤ max_int → Ends 128 (pos n) last s bits
fill-Ends n last s bits start small up fits = elim (dec_le (last + s) max_int) [
  | yes near ↦ let (r, run, _) = fill-grid 127 n last s bits small up near (omega arith) in (r, run)
  | no far ↦ Ends-huge 128 n last s bits small (omega arith) fits (omega arith)
]

pub has_bit_zero : (p : ℕ) → p < 64 → has_bit 0 p ≡ false
unfolding has_bit
has_bit_zero p h = rw (and_shift p 0 h, bit-zero p)

-- Where the first step already wraps round, position 0 is set, though the loop starts behind it.
pub fill_wraps :
    (n last s : ℕ)
    → 0 < n
    → n ≤ last
    → last < 64
    → s ≤ max_int
    → max_int < n + s
    → (r : ℕ) × (fill 128 (pos n) (pos last) (pos s) 0 ≡ some r) × (has_bit r 0 ≡ true)
fill_wraps n last s start more small fits wraps =
    let (r, run) = fill-Ends n last s 0 (omega arith) small (omega arith) fits in
    let m : ℕ = 2 ^ 64 - (n + s) - 1 in
    let b = set_bit 0 (safe_uint (pos n)) in
    let b' = set_bit b (safe_uint (negsuc m)) in
    let second : fill 127 (negsuc m) (pos last) (pos s) b ≡ some r =
      rw (← add_pos_wraps n s wraps (omega arith))
        (sym (fill-true 127 (pos n) (pos last) (pos s) 0 (ground arith)) ∙ run) in
    let third : fill 126 (add_int (negsuc m) (pos s)) (pos last) (pos s) b' ≡ some r =
      sym (fill-true 126 (negsuc m) (pos last) (pos s) b (ground arith)) ∙ second in
    let zero_set : has_bit b' 0 ≡ true =
      has_bit-set_bit b 0 (safe_uint (negsuc m)) (omega arith) (unfold safe_uint in omega arith)
      ∙ unfold safe_uint in refl in
    (
      r,
      run,
      fill_keeps 126 (add_int (negsuc m) (pos s)) last (pos s) b' 0 r (omega arith) small zero_set
          third,
    )
