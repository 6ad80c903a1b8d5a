-- ===== src/Scheduler/Cron/Ranges.antt =====
-- What holds of every field that the parser accepts, and of every expression.
use Prim.Native.Nat.{bit_or}
use aethercore.Prelude.{
  ℕ, ◌^◌, ◌≤◌, ◌<◌, ◌≡◌, ◌≢◌, refl, sym, subst, ◌∙◌, ap, inl, inr, Bool, true, false, ◌||◌, some,
  List, [], ◌∷◌, All, ◌==◌, eq_list, eq_nat, nat_eq, Bool-cases, arith,
}
use aethercore.Prelude.Int.{pos}
use aethercore.Prelude.Result.{Result, ok, err, wrap_err-bind, Result-cases}
use aethercore.Prelude.Text.{Text, cut, split, fields, trim_space}
use aethercore.Scheduler.Cron.{
  FieldError, diverged, CronExpr, has_bit, atoi, or_diverged, parse_part, parse_parts, parse_field,
  set_bit, parse_fields, parse_cron, expand_alias,
}
use aethercore.Scheduler.Cron.Field.{grid, fill-Ends, has_bit_zero, has_bit-set_bit, has_bit-or}
use aethercore.Scheduler.Cron.Parse.{IsLoop, IsStep, PartOutcome, part_cases, filled}

loop_ends :
    (lo hi s : ℕ) (res : Result FieldError ℕ) (step_str : Text)
    → hi < 64
    → IsStep step_str s
    → IsLoop lo hi s res
    → (r : ℕ) × (res ≡ ok r)
unfolding or_diverged
loop_ends lo hi s res step_str small (up, fits, _) (a, b, low, order, high, e) =
    let (r, run) = fill-Ends a b s 0 (omega arith) (omega arith) up fits in
    (r, e ∙ rw (run, or_diverged))

outcome_ends :
    (step_str : Text) (lo hi : ℕ) (res : Result FieldError ℕ)
    → hi < 64
    → PartOutcome step_str lo hi res
    → res ≢ err diverged
outcome_ends step_str lo hi res small (inl (e, p, ne)) = λ q. ne (ground arith)
outcome_ends step_str lo hi res small (inr (inl (v, low, high, p))) = λ q. cc
outcome_ends step_str lo hi res small (inr (inr (s, st, loop))) =
    let (r, p) = loop_ends lo hi s res step_str small st loop in λ q. cc

parts_end :
    (bits : ℕ) (parts : List Text) (lo hi : ℕ)
    → lo ≤ hi
    → hi < 64
    → parse_parts bits parts lo hi ≢ err diverged
unfolding parse_parts
parts_end bits [] lo hi order small = λ q. cc
parts_end bits (part ∷ parts) lo hi order small = elim (Result-cases (parse_part part lo hi)) [
  | inl (b, e) ↦ rw (e, parse_parts) (parts_end (bit_or bits b) parts lo hi order small)
  | inr (x, e) ↦
      let ends =
        outcome_ends (cut b'/' part).1 lo hi (parse_part part lo hi) small
          (part_cases part lo hi order) in
      rw (e, parse_parts) (λ q. ends (e ∙ q))
]

-- The parser of a field ends, whatever the text: its loops never run on, also where a step passes
-- the end of the ints.
pub parse_field-ends :
    (field : Text) (lo hi : ℕ) → lo ≤ hi → hi < 64 → parse_field field lo hi ≢ err diverged
unfolding parse_field
parse_field-ends field lo hi order small = parts_end 0 (split b',' field) lo hi order small

-- Whether a part of a field gives the position.
abbrev pub gives : ℕ → Result FieldError ℕ → Bool
gives p (ok b) = has_bit b p
gives p (err _) = false

abbrev pub part_has : ℕ → ℕ → ℕ → Text → Bool
part_has lo hi p part = gives p (parse_part part lo hi)

abbrev pub any : (Text → Bool) → List Text → Bool
any f [] = false
any f (t ∷ ts) = f t || any f ts

parts_union :
    (bits : ℕ) (parts : List Text) (lo hi r p : ℕ)
    → p < 64
    → parse_parts bits parts lo hi ≡ ok r
    → has_bit r p ≡ (has_bit bits p || any (part_has lo hi p) parts)
unfolding parse_parts
parts_union bits [] lo hi r p hp e = ground arith
parts_union bits (part ∷ parts) lo hi r p hp e = elim (Result-cases (parse_part part lo hi)) [
  | inl (b, q) ↦
      parts_union (bit_or bits b) parts lo hi r p hp (rw (q, parse_parts) at e)
      ∙ rw (has_bit-or bits b p hp, q) (ground arith)
  | inr (x, q) ↦ ground arith
]

-- A list of parts gives the union: the field holds a position exactly when one of the parts
-- between its commas does.
pub parse_field-union :
    (field : Text) (lo hi bits p : ℕ)
    → p < 64
    → parse_field field lo hi ≡ ok bits
    → has_bit bits p ≡ any (part_has lo hi p) (split b',' field)
unfolding parse_field
parse_field-union field lo hi bits p hp e =
    parts_union 0 (split b',' field) lo hi bits p hp e ∙ rw (has_bit_zero p hp) refl

-- The step of a part, if it has one, is at most 2^62.
abbrev pub ModestPart : Text → Type 0
ModestPart part = (s : ℕ) → atoi (cut b'/' part).1 ≡ some (pos s) → s ≤ 2 ^ 62

abbrev pub Modest : Text → Type 0
Modest field = All ModestPart (split b',' field)

-- All positions of the word lie between the bounds of the field.
abbrev pub Within : ℕ → ℕ → ℕ → Type 0
Within lo hi bits = (p : ℕ) → p < 64 → has_bit bits p ≡ true → (lo ≤ p) × (p ≤ hi)

loop-Within :
    (lo hi s bits : ℕ) → hi < 64 → 0 < s → s ≤ 2 ^ 62 → IsLoop lo hi s (ok bits) → Within lo hi bits
unfolding or_diverged
loop-Within lo hi s bits small up modest (a, b, low, order, high, e) p hp h =
    let (r, run, holds) = filled a b s (omega arith) up (omega arith) in
    let same : bits ≡ r = ground arith in
    let set : grid a b s p ≡ true = sym (holds p hp) ∙ ap (λ w. has_bit w p) (sym same) ∙ h in
    unfold grid in ground arith

one-Within : (lo hi v bits : ℕ) → hi < 64 → lo ≤ v → v ≤ hi → bits ≡ set_bit 0 v → Within lo hi bits
one-Within lo hi v bits small low high e p hp h =
    let set : (nat_eq v p || has_bit 0 p) ≡ true =
      sym (has_bit-set_bit 0 p v hp (omega arith)) ∙ ap (λ w. has_bit w p) (sym e) ∙ h in
    ground (arith, has_bit_zero p hp)

outcome-Within :
    (part : Text) (lo hi bits : ℕ)
    → hi < 64
    → ModestPart part
    → PartOutcome (cut b'/' part).1 lo hi (ok bits)
    → Within lo hi bits
outcome-Within part lo hi bits small modest (inl (e, p, ne)) = absurd (cc p)
outcome-Within part lo hi bits small modest (inr (inl (v, low, high, p))) =
    one-Within lo hi v bits small low high (cc)
outcome-Within part lo hi bits small modest (inr (inr (s, (up, fits, inl one), loop))) =
    loop-Within lo hi s bits small up (omega arith) loop
outcome-Within part lo hi bits small modest (inr (inr (s, (up, fits, inr given), loop))) =
    loop-Within lo hi s bits small up (modest s given) loop

parts-Within :
    (bits : ℕ) (parts : List Text) (lo hi r : ℕ)
    → lo ≤ hi
    → hi < 64
    → All ModestPart parts
    → Within lo hi bits
    → parse_parts bits parts lo hi ≡ ok r
    → Within lo hi r
unfolding parse_parts
parts-Within bits [] lo hi r order small modest w e = subst (Within lo hi) (cc e) w
parts-Within bits (part ∷ parts) lo hi r order small modest w e =
    elim (Result-cases (parse_part part lo hi)) [
      | inr (x, q) ↦ absurd (ground arith)
      | inl (b, q) ↦
          let outcome =
            subst (PartOutcome (cut b'/' part).1 lo hi) q (part_cases part lo hi order) in
          let here = outcome-Within part lo hi b small modest.0 outcome in
          parts-Within (bit_or bits b) parts lo hi r order small modest.1
            (λ p hp h. elim (Bool-cases (has_bit bits p)) [
              | inl old ↦ w p hp old
              | inr new ↦ here p hp (ground (arith, has_bit-or bits b p hp))
            ])
            (rw (q, parse_parts) at e)
    ]

field-Within :
    (field : Text) (lo hi bits : ℕ)
    → lo ≤ hi
    → hi < 64
    → Modest field
    → parse_field field lo hi ≡ ok bits
    → Within lo hi bits
unfolding parse_field
field-Within field lo hi bits order small modest e =
    parts-Within 0 (split b',' field) lo hi bits order small modest
      (λ p hp h. absurd (ground (arith, has_bit_zero p hp))) e

-- Every field of the expression lies within its bounds.
abbrev pub InBounds : CronExpr → Type 0
InBounds c =
    Within 0 59 c.minute
    × Within 0 23 c.hour
    × Within 1 31 c.day_month
    × Within 1 12 c.month
    × Within 0 6 c.day_week

fields-InBounds :
    (expr : Text) (fs : List Text) (c : CronExpr)
    → All Modest fs
    → parse_fields expr fs ≡ ok c
    → InBounds c × (c.raw ≡ expr)
fields-InBounds expr (f0 ∷ f1 ∷ f2 ∷ f3 ∷ f4 ∷ []) c (m0, (m1, (m2, (m3, (m4, _))))) e =
    let (a, p, e1) = wrap_err-bind _ (parse_field f0 0 59) _ e in
    let (b, q, e2) = wrap_err-bind _ (parse_field f1 0 23) _ e1 in
    let (d, r, e3) = wrap_err-bind _ (parse_field f2 1 31) _ e2 in
    let (m, s, e4) = wrap_err-bind _ (parse_field f3 1 12) _ e3 in
    let (w, t, e5) = wrap_err-bind _ (parse_field f4 0 6) _ e4 in
    subst (λ z. InBounds z × (z.raw ≡ expr)) (cc e5)
      (
        (
          field-Within f0 0 59 a (omega arith) (omega arith) m0 p,
          field-Within f1 0 23 b (omega arith) (omega arith) m1 q,
          field-Within f2 1 31 d (omega arith) (omega arith) m2 r,
          field-Within f3 1 12 m (omega arith) (omega arith) m3 s,
          field-Within f4 0 6 w (omega arith) (omega arith) m4 t,
        ),
        refl,
      )
fields-InBounds expr _ c modest e = cc

-- An expression whose steps are at most 2^62 is accepted only with every field within its bounds:
-- minutes to 59, hours to 23, days from 1 to 31, months from 1 to 12, weekdays to 6.
pub parse_cron-InBounds :
    (text : Text) (c : CronExpr)
    → All Modest (fields (expand_alias (trim_space text)))
    → parse_cron text ≡ ok c
    → InBounds c
unfolding parse_cron
parse_cron-InBounds text c modest e =
    let expr = expand_alias (trim_space text) in
    (fields-InBounds expr (fields expr) c modest (elim (Bool-cases (trim_space text == [])) [
      | inl empty ↦ absurd (cc (rw (empty, parse_cron) at e))
      | inr more ↦ rw (more, parse_cron) at e
    ])).0
