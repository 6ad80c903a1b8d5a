-- ===== src/Security/Guard/Scan.antt =====
-- core/security: what the guard of the engine lets through.
use aethercore.Prelude.{
  false, ℕ, ◌*◌, ◌≤◌, ◌≡◌, refl, ◌↔◌, ◌⊎◌, inl, inr, arith, true, Bool-cases, Option-cases, Option,
  none, List, [], ◌∷◌, All, ltb,
}
use aethercore.Prelude.Text.{Text}
use aethercore.Security.Guard.{
  AdversarialMatch, PromptGuard, orchestrator_scan, regex_scan, word_loop, check_token_density,
  check_special_char_ratio, semantic_scan, engine_guard, byte_length, count_special,
}
use aethercore.Security.Guard.Words.{HasWord, word_loop_iff}

-- At most 20 bytes, or at most two special characters in five bytes.
abbrev pub Modest : Text → Type 0
Modest text = (byte_length text ≤ 20) ⊎ (5 * count_special text ≤ 2 * byte_length text)

no_word_iff : (text : Text) → (word_loop 0 0 text ≤ 50) ↔ (¬ HasWord 51 text)
no_word_iff text = (
  λ h w. absurd (omega (arith, h, (word_loop_iff 50 text).1 w)),
  λ no. elim (Bool-cases (ltb 50 (word_loop 0 0 text))) [
    | inl long ↦ absurd (no ((word_loop_iff 50 text).0 (ground arith)))
    | inr short ↦ ground arith
  ],
)

check_token_density_iff :
    (text : Text) → (check_token_density text ≡ none) ↔ (word_loop 0 0 text ≤ 50)
unfolding check_token_density
check_token_density_iff text = ground arith

check_special_char_ratio_iff : (text : Text) → (check_special_char_ratio text ≡ none) ↔ Modest text
unfolding check_special_char_ratio
check_special_char_ratio_iff text = ground arith

regex_scan_iff :
    (patterns : List (Text × (Text → Option (ℕ × ℕ)))) (text : Text)
    → ((regex_scan patterns text).is_safe ≡ true) ↔ All (λ p. p.1 text ≡ none) patterns
unfolding regex_scan
regex_scan_iff [] text = ground arith
regex_scan_iff ((category, find) ∷ patterns) text = elim (Option-cases (find text)) [
  | inl e ↦ rw e (ground (arith, regex_scan_iff patterns text))
  | inr (m, e) ↦ rw e (ground arith)
]

word_loop-empty : word_loop 0 0 [] ≤ 50
unfolding word_loop
word_loop-empty = omega arith

byte_length-empty : byte_length [] ≤ 20
unfolding byte_length
byte_length-empty = omega arith

semantic_scan_iff :
    (text : Text)
    → ((semantic_scan text).is_safe ≡ true) ↔ ((word_loop 0 0 text ≤ 50) × Modest text)
unfolding semantic_scan
semantic_scan_iff [] = short_text
  where
    short_text : (true ≡ true) ↔ ((word_loop 0 0 [] ≤ 50) × Modest [])
    short_text = (λ e. (word_loop-empty, inl byte_length-empty), λ h. refl)
semantic_scan_iff (r ∷ text) =
    ground (arith, check_token_density_iff (r ∷ text), check_special_char_ratio_iff (r ∷ text))

orchestrator_scan_iff :
    (scanners : List PromptGuard) (text : Text)
    → ((orchestrator_scan scanners text).is_safe ≡ true)
      ↔ All (λ s. (s text).is_safe ≡ true) scanners
unfolding orchestrator_scan
orchestrator_scan_iff [] text = ground arith
orchestrator_scan_iff (s ∷ scanners) text = ground (arith, orchestrator_scan_iff scanners text)

-- The guard of the engine passes a text exactly when no pattern is found in it, it has no unbroken
-- word of more than 50 characters, and it has at most 20 bytes or at most two special characters
-- in five bytes.
pub engine_guard_iff :
    (patterns : List (Text × (Text → Option (ℕ × ℕ)))) (text : Text)
    → ((engine_guard patterns text).is_safe ≡ true)
      ↔ (All (λ p. p.1 text ≡ none) patterns × (¬ HasWord 51 text) × Modest text)
unfolding engine_guard
engine_guard_iff patterns text = (
  λ h. ((safe_iff.0 h).0, (no_word_iff text).0 (safe_iff.0 h).1, (safe_iff.0 h).2),
  λ h. safe_iff.1 (h.0, (no_word_iff text).1 h.1, h.2),
)
  where
    safe_iff :
        ((orchestrator_scan (regex_scan patterns ∷ semantic_scan ∷ []) text).is_safe ≡ true)
        ↔ (All (λ p. p.1 text ≡ none) patterns × (word_loop 0 0 text ≤ 50) × Modest text)
    safe_iff = ground (
      arith,
      orchestrator_scan_iff (regex_scan patterns ∷ semantic_scan ∷ []) text,
      regex_scan_iff patterns text,
      semantic_scan_iff text,
    )

-- Whatever a guard refuses, it names.
abbrev pub Names : PromptGuard → Type 0
Names guard =
    (text : Text)
    → (guard text).is_safe ≡ false
    → (v : AdversarialMatch) × ((guard text).violations ≡ v ∷ [])

regex_scan-Names : (patterns : List (Text × (Text → Option (ℕ × ℕ)))) → Names (regex_scan patterns)
unfolding regex_scan
regex_scan-Names [] text h = cc
regex_scan-Names ((category, find) ∷ patterns) text h = elim (Option-cases (find text)) [
  | inl e ↦ rw (e, regex_scan) (regex_scan-Names patterns text (ground arith))
  | inr ((from, to), e) ↦ rw (e, regex_scan) (_, refl)
]

semantic_scan-Names : Names semantic_scan
unfolding semantic_scan
semantic_scan-Names [] h = cc
semantic_scan-Names (r ∷ text) h = elim (Option-cases (check_token_density (r ∷ text))) [
  | inr (v, e) ↦ (v, ground arith)
  | inl e ↦ elim (Option-cases (check_special_char_ratio (r ∷ text))) [
    | inr (v, f) ↦ (v, ground arith)
    | inl f ↦ absurd (ground arith)
  ]
]

-- Where the guard of the engine refuses a text, it names exactly one violation: the first
-- violation, which the engine reports without a test, is there.
pub engine_guard-Names :
    (patterns : List (Text × (Text → Option (ℕ × ℕ)))) (text : Text)
    → (engine_guard patterns text).is_safe ≡ false
    → (v : AdversarialMatch) × ((engine_guard patterns text).violations ≡ v ∷ [])
unfolding engine_guard orchestrator_scan
engine_guard-Names patterns text h = elim (Bool-cases (regex_scan patterns text).is_safe) [
  | inr hit ↦ rw hit (regex_scan-Names patterns text hit)
  | inl miss ↦ elim (Bool-cases (semantic_scan text).is_safe) [
    | inr hit ↦ rw (miss, hit) (semantic_scan-Names text hit)
    | inl clear ↦ absurd (ground arith)
  ]
]
