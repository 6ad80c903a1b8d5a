-- ===== src/Scheduler/Cron/Parse.antt =====
-- What the parser of a cron field accepts, and which positions it sets.
use aethercore.Prelude.{
  ℕ, zero, suc, ◌+◌, ◌≤◌, ◌<◌, ◌≡◌, ◌≢◌, refl, sym, ◌∙◌, ◌⊎◌, inl, inr, Bool, true, false, ◌||◌,
  Option, none, some, [], ◌∷◌, ltb, ◌==◌, eq_list, eq_nat, subst, if◌then◌else◌, Bool-cases, arith,
}
use aethercore.Prelude.Int.{ℤ, pos, negsuc, ltb_ℤ, max_int}
use aethercore.Prelude.Result.{Result, ok, err, ◌>>=◌}
use aethercore.Prelude.Text.{Text, codes, cut}
use aethercore.Scheduler.Cron.{
  FieldError, diverged, has_bit, atoi, unsigned_value, signed_value, negate, fill, loop_fuel,
  or_diverged, or_err, parse_wildcard, parse_range, parse_single, step_value, parse_part, safe_uint,
  set_bit,
}
use aethercore.Scheduler.Cron.Field.{grid, fill-grid, fill_wraps, has_bit_zero}

signed_value-le : (o : Option ℕ) (s : ℕ) → signed_value pos max_int o ≡ some (pos s) → s ≤ max_int
unfolding signed_value
signed_value-le none s h = cc
signed_value-le (some n) s h = ground arith

signed_value-negate :
    (o : Option ℕ) (s : ℕ) → signed_value negate (max_int + 1) o ≡ some (pos s) → s ≤ max_int
unfolding signed_value negate
signed_value-negate none s h = cc
signed_value-negate (some zero) s h = ground arith
signed_value-negate (some (suc n)) s h = ground arith

-- A number that Atoi accepts is an int.
atoi-le : (t : Text) (s : ℕ) → atoi t ≡ some (pos s) → s ≤ max_int
unfolding atoi
atoi-le [] s h = cc
atoi-le (c ∷ t) s h = ground (
  arith,
  signed_value-negate (unsigned_value t) s,
  signed_value-le (unsigned_value t) s,
  signed_value-le (unsigned_value (c ∷ t)) s,
)

-- The word holds the positions `first`, `first + step`, … up to `last`, below 64, and no others.
abbrev pub Holds : ℕ → ℕ → ℕ → ℕ → Type 0
Holds bits first last step = (p : ℕ) → p < 64 → has_bit bits p ≡ grid first last step p

pub filled :
    (a b s : ℕ)
    → b < 64
    → 0 < s
    → b + s ≤ max_int
    → (r : ℕ) × (fill loop_fuel (pos a) (pos b) (pos s) 0 ≡ some r) × Holds r a b s
filled a b s small up fits =
    let (r, run, positions) = fill-grid 127 a b s 0 small up fits (omega arith) in
    (r, run, λ p h. positions p h ∙ rw (has_bit_zero p h) refl)

-- A range `a-b` with a step, within the bounds of its field and far from the end of the ints, is
-- accepted, and gives the positions a, a + step, … up to b.
pub parse_range-grid :
    (start_str end_str : Text) (a b lo hi s : ℕ)
    → atoi start_str ≡ some (pos a)
    → atoi end_str ≡ some (pos b)
    → lo ≤ a
    → a ≤ b
    → b ≤ hi
    → hi < 64
    → 0 < s
    → b + s ≤ max_int
    → (bits : ℕ) × (parse_range start_str end_str lo hi (pos s) ≡ ok bits) × Holds bits a b s
unfolding parse_range
parse_range-grid start_str end_str a b lo hi s p q low order high small up fits =
    let (r, run, positions) = filled a b s (omega arith) up fits in
    (r, rw (p, q) (ground arith), positions)

-- The same range with a step that takes its first value past the end of the ints is accepted too,
-- and then position 0 is set, although the range starts behind it.
pub parse_range-wraps :
    (start_str end_str : Text) (a b lo hi s : ℕ)
    → atoi start_str ≡ some (pos a)
    → atoi end_str ≡ some (pos b)
    → 0 < a
    → lo ≤ a
    → a ≤ b
    → b ≤ hi
    → hi < 64
    → s ≤ max_int
    → max_int < a + s
    → (bits : ℕ) × (parse_range start_str end_str lo hi (pos s) ≡ ok bits) × (has_bit bits 0 ≡ true)
unfolding parse_range
parse_range-wraps start_str end_str a b lo hi s p q start low order high small fits wraps =
    let (r, run, zero_set) = fill_wraps a b s start order (omega arith) fits wraps in
    (r, rw (p, q) (ground arith), zero_set)

-- A star with a step gives every step-th position of the field, from its lower bound on.
pub parse_wildcard-grid :
    (lo hi s : ℕ)
    → hi < 64
    → 0 < s
    → hi + s ≤ max_int
    → (bits : ℕ) × (parse_wildcard lo hi (pos s) ≡ ok bits) × Holds bits lo hi s
unfolding parse_wildcard
parse_wildcard-grid lo hi s small up fits =
    let (r, run, positions) = filled lo hi s small up fits in (r, rw run, positions)

-- An error that names a fault of the text, not a loop without end.
abbrev pub IsFault : Result FieldError ℕ → Type 0
IsFault res = (e : FieldError) × (res ≡ err e) × (e ≢ diverged)

-- A run of the loop over values within the bounds.
abbrev pub IsLoop : ℕ → ℕ → ℕ → Result FieldError ℕ → Type 0
IsLoop lo hi s res =
    (a : ℕ) × (b : ℕ) × (lo ≤ a)
    × (a ≤ b)
    × (b ≤ hi)
    × (res ≡ or_diverged (fill loop_fuel (pos a) (pos b) (pos s) 0))

abbrev range_body : Option ℤ → Option ℤ → ℕ → ℕ → ℕ → Result FieldError ℕ
range_body x y lo hi s = do
  start ← or_err x FieldError.invalid_range_start
  end ← or_err y FieldError.invalid_range_end
  if ltb_ℤ start (pos lo) || (ltb_ℤ (pos hi) end || ltb_ℤ end start)
      then err FieldError.range_outside
      else or_diverged (fill loop_fuel start end (pos s) 0)

range_cases :
    (x y : Option ℤ) (lo hi s : ℕ)
    → IsFault (range_body x y lo hi s) ⊎ IsLoop lo hi s (range_body x y lo hi s)
unfolding or_err
range_cases none y lo hi s = inl (FieldError.invalid_range_start, refl, λ e. cc)
range_cases (some v) none lo hi s = inl (FieldError.invalid_range_end, refl, λ e. cc)
range_cases (some (negsuc a)) (some w) lo hi s =
    inl (FieldError.range_outside, ground arith, λ e. cc)
range_cases (some (pos a)) (some (negsuc b)) lo hi s =
    inl (FieldError.range_outside, ground arith, λ e. cc)
range_cases (some (pos a)) (some (pos b)) lo hi s =
    elim (Bool-cases (ltb a lo || (ltb hi b || ltb b a))) [
      | inl outside ↦ inl (FieldError.range_outside, ground arith, λ e. cc)
      | inr inside ↦ inr (a, b, ground arith, ground arith, ground arith, ground arith)
    ]

-- A part of a field ends in a fault, in one position, or in a loop, each within the bounds.
abbrev pub IsOne : ℕ → ℕ → Result FieldError ℕ → Type 0
IsOne lo hi res = (v : ℕ) × (lo ≤ v) × (v ≤ hi) × (res ≡ ok (set_bit 0 v))

single_cases :
    (t : Text) (lo hi : ℕ) → IsFault (parse_single t lo hi) ⊎ IsOne lo hi (parse_single t lo hi)
unfolding parse_single safe_uint
single_cases t lo hi = by_value (atoi t) refl
  where
    by_value :
        (x : Option ℤ)
        → atoi t ≡ x
        → IsFault (parse_single t lo hi) ⊎ IsOne lo hi (parse_single t lo hi)
    by_value none p = inl (FieldError.invalid_value, rw p, λ e. cc)
    by_value (some (negsuc v)) p = inl (FieldError.value_outside, rw p (ground arith), λ e. cc)
    by_value (some (pos v)) p = elim (Bool-cases (ltb v lo || ltb hi v)) [
      | inl outside ↦ inl (FieldError.value_outside, rw p (ground arith), λ e. cc)
      | inr inside ↦ inr (v, ground arith, ground arith, rw p (ground arith))
    ]

-- The step of a part is a positive int.
step_cases :
    (has_step : Bool) (t : Text)
    → (step_value has_step t ≡ err FieldError.invalid_step)
      ⊎ ((s : ℕ) × (0 < s)
          × (s ≤ max_int)
          × ((s ≡ 1) ⊎ (atoi t ≡ some (pos s)))
          × (step_value has_step t ≡ ok (pos s)))
unfolding step_value
step_cases false t = inr (1, omega arith, omega arith, inl refl, refl)
step_cases true t = by_value (atoi t) refl
  where
    by_value :
        (x : Option ℤ)
        → atoi t ≡ x
        → (step_value true t ≡ err FieldError.invalid_step)
          ⊎ ((s : ℕ) × (0 < s)
              × (s ≤ max_int)
              × ((s ≡ 1) ⊎ (atoi t ≡ some (pos s)))
              × (step_value true t ≡ ok (pos s)))
    by_value none p = inl (rw (p, step_value))
    by_value (some (negsuc v)) p = inl (rw (p, step_value) (ground arith))
    by_value (some (pos zero)) p = inl (rw (p, step_value))
    by_value (some (pos (suc v))) p =
        inr (suc v, omega arith, atoi-le t (suc v) p, inr p, rw (p, step_value) (ground arith))

abbrev pub IsStep : Text → ℕ → Type 0
IsStep step_str s = (0 < s) × (s ≤ max_int) × ((s ≡ 1) ⊎ (atoi step_str ≡ some (pos s)))

abbrev pub PartOutcome : Text → ℕ → ℕ → Result FieldError ℕ → Type 0
PartOutcome step_str lo hi res =
    IsFault res ⊎ (IsOne lo hi res ⊎ ((s : ℕ) × IsStep step_str s × IsLoop lo hi s res))

branch_cases :
    (star ranged : Bool) (whole start_str end_str step_str : Text) (lo hi s : ℕ)
    → lo ≤ hi
    → IsStep step_str s
    → PartOutcome step_str lo hi (
        if star
        then parse_wildcard lo hi (pos s)
        else if ranged
        then parse_range start_str end_str lo hi (pos s)
        else parse_single whole lo hi)
unfolding parse_wildcard parse_range
branch_cases true ranged whole start_str end_str step_str lo hi s order st =
    inr (inr (s, st, (lo, hi, omega arith, order, omega arith, refl)))
branch_cases false true whole start_str end_str step_str lo hi s order st =
    elim (range_cases (atoi start_str) (atoi end_str) lo hi s) [
      | inl fault ↦ inl fault
      | inr loop ↦ inr (inr (s, st, loop))
    ]
branch_cases false false whole start_str end_str step_str lo hi s order st =
    elim (single_cases whole lo hi) [ inl fault ↦ inl fault | inr one ↦ inr (inl one) ]

pub part_cases :
    (part : Text) (lo hi : ℕ)
    → lo ≤ hi
    → PartOutcome (cut b'/' part).1 lo hi (parse_part part lo hi)
unfolding parse_part
part_cases part lo hi order =
    let range_str = (cut b'/' part).0 in
    elim (step_cases (cut b'/' part).2 (cut b'/' part).1) [
      | inl bad ↦ inl (FieldError.invalid_step, rw (bad, parse_part), λ e. cc)
      | inr (s, up, fits, source, e) ↦
          subst (PartOutcome (cut b'/' part).1 lo hi) (sym (rw (e, parse_part))) (
            branch_cases (range_str == codes "*") (cut b'-' range_str).2 range_str
              (cut b'-' range_str).0 (cut b'-' range_str).1 (cut b'/' part).1 lo hi s order
              (up, fits, source))
    ]
