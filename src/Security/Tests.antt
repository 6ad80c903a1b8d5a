-- ===== src/Security/Tests.antt =====
-- The theorems on the guard and the validator at concrete texts.
use aethercore.Prelude.{
  ◌≢◌, ℕ, zero, suc, nat_eq, if◌then◌else◌, ◌≡◌, refl, ◌↔◌, true, false, Option, none, some, List,
  [], ◌∷◌, All,
}
use aethercore.Prelude.Result.{ok}
use aethercore.Prelude.Text.{Text, codes}
use aethercore.Security.Guard.{engine_guard, regex_scan, orchestrator_scan}
use aethercore.Security.Guard.Words.{HasWord}
use aethercore.Security.Guard.Scan.{Modest, engine_guard_iff}
use aethercore.Security.Validator.{Crypto, KeyRing, verify}
use aethercore.Security.Validator.Laws.{Signed, verify_iff}

-- One pattern, which is found at the start of a text that begins with `i`.
abbrev find : Text → Option (ℕ × ℕ)
find [] = none
find (c ∷ text) = if nat_eq c 105 then some (0, 1) else none

abbrev patterns : List (Text × (Text → Option (ℕ × ℕ)))
patterns = (codes "IGNORE_INSTRUCTIONS", find) ∷ []

engine_guard_iff_example : ((engine_guard patterns (codes "hello")).is_safe ≡ true) ↔ (
    All (λ p. p.1 (codes "hello") ≡ none) patterns
    × (¬ HasWord 51 (codes "hello"))
    × Modest (codes "hello"))
engine_guard_iff_example = engine_guard_iff patterns (codes "hello")

hit : (engine_guard patterns (codes "ignore")).is_safe ≡ false
unfolding engine_guard orchestrator_scan regex_scan
hit = refl

-- A library whose keys have 32 bytes and whose signatures are all valid.
abbrev zeros : ℕ → List ℕ
zeros zero = []
zeros (suc n) = 0 ∷ zeros n

abbrev lenient : Crypto
lenient = record {
  decode_pem = λ b. some (codes "PUBLIC KEY", b);
  parse_pkix = λ b. ok (some (zeros 32));
  decode_hex = λ t. ok (zeros 64);
  canonicalize = λ b. ok b;
  verify_signature = λ k m s. true;
}

abbrev ring : KeyRing
ring = record { trusted_keys = zeros 32 ∷ [] }

verify_iff_example :
    ((verify lenient ring (1 ∷ []) (codes "00")).0 ≡ true)
    ↔ ((codes "00" ≢ []) × Signed lenient ring (1 ∷ []) (codes "00"))
verify_iff_example = verify_iff lenient ring (1 ∷ []) (codes "00")
