-- ===== src/Security/Guard.antt =====
-- core/security: prompt_guard.go, orchestrator.go, regex_scanner.go, semantic_analyzer.go,
-- mock_guard.go, llm_verifier.go. The search of a compiled pattern is a parameter. No scanner reads its context or
-- its GuardConfig, so a guard is a function of the text. A confidence is in hundredths.
pub mod Scan
pub mod Words
use aethercore.Prelude.{
  ℕ, ◌+◌, ◌*◌, Bool, true, false, not, ◌&&◌, ◌||◌, Option, none, some, List, [], ◌∷◌, leb, ltb,
  nat_eq, if◌then◌else◌, take, drop,
}
use aethercore.Prelude.Result.{Result, ok, err}
use aethercore.Prelude.Text.{Text, codes}

pub record AdversarialMatch : Type 0 where
  pub category : Text
  pub description : Text
  pub snippet : Text
  pub severity : Text

pub record GuardResult : Type 0 where
  pub is_safe : Bool
  pub confidence : ℕ
  pub violations : List AdversarialMatch

abbrev pub PromptGuard : Type 0
PromptGuard = Text → GuardResult

abbrev pub safe_result : GuardResult
safe_result = record { is_safe = true; confidence = 0; violations = [] }

abbrev pub unsafe_result : ℕ → AdversarialMatch → GuardResult
unsafe_result confidence violation = record {
  is_safe = false;
  confidence = confidence;
  violations = violation ∷ [];
}

-- OrchestratorGuard.Scan
unfoldable pub orchestrator_scan : List PromptGuard → PromptGuard
orchestrator_scan [] text = safe_result
orchestrator_scan (scanner ∷ scanners) text =
    let rest = orchestrator_scan scanners text in
    if not (scanner text).is_safe then scanner text else rest

-- RegexScanner.Scan; the patterns stand in the order in which `range` meets them, and a search
-- gives the bounds of the match.
unfoldable pub regex_scan : List (Text × (Text → Option (ℕ × ℕ))) → PromptGuard
regex_scan [] text = safe_result
regex_scan ((category, find) ∷ patterns) text =
    let rest = regex_scan patterns text in
    elim (find text) [
      | none ↦ rest
      | some (from, to) ↦ unsafe_result 90 (record {
        category = category;
        description = codes "Matched regex";
        snippet = drop from (take to text);
        severity = codes "HIGH";
      })
    ]

-- a space, a line feed or a tab
abbrev pub is_gap : ℕ → Bool
is_gap r = nat_eq r 32 || (nat_eq r 10 || nat_eq r 9)

abbrev pub larger : ℕ → ℕ → ℕ
larger max_word_len current = if ltb max_word_len current then current else max_word_len

-- the loop of checkTokenDensity and the test behind it
unfoldable pub word_loop : ℕ → ℕ → Text → ℕ
word_loop max_word_len current [] = larger max_word_len current
word_loop max_word_len current (r ∷ text) = elim (is_gap r) [
  | true ↦ word_loop (larger max_word_len current) 0 text
  | false ↦ word_loop max_word_len (current + 1) text
]

unfoldable pub check_token_density : Text → Option AdversarialMatch
check_token_density text =
    if ltb 50 (word_loop 0 0 text)
    then some (record {
      category = codes "TOKEN_DENSITY_ANOMALY";
      description = codes "Unusually long unbroken token detected";
      snippet = [];
      severity = codes "MEDIUM";
    })
    else none

abbrev pub is_special : ℕ → Bool
is_special r =
    not (leb b'a' r && leb r b'z')
    && (not (leb b'A' r && leb r b'Z') && (not (leb b'0' r && leb r b'9') && not (is_gap r)))

unfoldable pub count_special : Text → ℕ
count_special [] = 0
count_special (r ∷ text) = let rest = count_special text in if is_special r then rest + 1 else rest

-- len(text) of a text with these code points
unfoldable pub byte_length : Text → ℕ
byte_length [] = 0
byte_length (r ∷ text) =
    let rest = byte_length text in
    if ltb r 0x80
    then rest + 1
    else if ltb r 0x800
    then rest + 2
    else if ltb r 0x10000
    then rest + 3
    else rest + 4

-- The quotient of the two floats is above 0.4 as that of the numbers is, for texts of less than
-- 2^50 bytes: two fifths is rounded as the constant is, and any other quotient is far enough away.
unfoldable pub check_special_char_ratio : Text → Option AdversarialMatch
check_special_char_ratio text =
    if ltb 20 (byte_length text) && ltb (2 * byte_length text) (5 * count_special text)
    then some (record {
      category = codes "PADDING_ABUSE";
      description = codes "High concentration of special characters";
      snippet = [];
      severity = codes "HIGH";
    })
    else none

-- SemanticAnalyzer.Scan
unfoldable pub semantic_scan : PromptGuard
semantic_scan [] = safe_result
semantic_scan (r ∷ text) = elim (check_token_density (r ∷ text)) [
  | some violation ↦ unsafe_result 80 violation
  | none ↦ elim (check_special_char_ratio (r ∷ text)) [
    | some violation ↦ unsafe_result 85 violation
    | none ↦ safe_result
  ]
]

-- the guard of NewEngine
unfoldable pub engine_guard : List (Text × (Text → Option (ℕ × ℕ))) → PromptGuard
engine_guard patterns = orchestrator_scan (regex_scan patterns ∷ semantic_scan ∷ [])

-- MockPromptGuard.Scan
unfoldable pub mock_scan : Bool → Text → PromptGuard
mock_scan force_fail reason text =
    if force_fail
    then unsafe_result 99 (record {
      category = codes "MOCK_INJECTION";
      description = reason;
      snippet = [];
      severity = codes "CRITICAL";
    })
    else record { is_safe = true; confidence = 100; violations = [] }

-- LLMVerifier.parseResponse, with what the JSON decoder makes of the answer: whether it is safe,
-- and the reason
unfoldable pub parse_response : (Text → Result Text (Bool × Text)) → Text → GuardResult
parse_response decode answer = elim (decode answer) [
  | err e ↦ safe_result
  | ok (is_safe, reason) ↦
      if not is_safe
      then unsafe_result 95 (record {
        category = codes "LLM_FIREWALL_REJECTION";
        description = reason;
        snippet = [];
        severity = codes "HIGH";
      })
      else safe_result
]

-- LLMVerifier.Scan
abbrev pub llm_scan : PromptGuard
llm_scan text = safe_result
