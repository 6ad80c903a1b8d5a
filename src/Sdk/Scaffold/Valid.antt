-- ===== src/Sdk/Scaffold/Valid.antt =====
-- sdk/scaffold/scaffold.go: the names and the data of a valid configuration.
use aethercore.Prelude.{
  ◌≡◌, ◌≢◌, refl, ap, ◌∙◌, inl, inr, arith, ℕ, All, false, none, some, [], ◌∷◌, ◌++◌, Bool-cases,
  ◌==◌, eq_list, eq_nat, list_eq_iff,
}
use aethercore.Prelude.Text.{Text, codes, trim_space}
use aethercore.Sdk.Scaffold.Config.{
  Unicode, Config, TemplateData, empty_name, not_kebab, bad_chars, contains_any, validate_config,
  to_go_type_name, to_package_name,
}

-- The last character, or the given one where there is none.
unfoldable pub last_or : ℕ → Text → ℕ
last_or c [] = c
last_or c (d ∷ s) = last_or d s

pub last_or-append :
    (c : ℕ) (xs : Text) (y : ℕ) (ys : Text) → last_or c (xs ++ y ∷ ys) ≡ last_or y ys
unfolding last_or
last_or-append c [] y ys = refl
last_or-append c (x ∷ xs) y ys = last_or-append x xs y ys

-- The file of the package is not one of the others.
pub go_file-other :
    (other pkg_name : Text) → last_or 0 other ≢ b'o' → (other == (pkg_name ++ codes ".go")) ≡ false
unfolding last_or
go_file-other other pkg_name h = elim (Bool-cases (other == (pkg_name ++ codes ".go"))) [
  | inl same ↦ absurd (
      h (
        ap (last_or 0) ((list_eq_iff other _).0 same)
        ∙ last_or-append 0 pkg_name b'.' (codes "go")))
  | inr differ ↦ differ
]

-- A character that a name may have: no space, tab, line feed, slash or backslash.
abbrev pub Kebab : ℕ → Type 0
Kebab c = (c ≢ 32) × (c ≢ 9) × (c ≢ 10) × (c ≢ 47) × (c ≢ 92)

-- The data that the templates get.
abbrev pub data_of : Unicode → Config → TemplateData
data_of unicode cfg = record {
  module_name = cfg.module_name;
  package_name = to_package_name unicode cfg.module_name;
  go_type_name = to_go_type_name unicode cfg.module_name;
  author = cfg.author;
  version = cfg.version;
}

pub none_bad : (name : Text) → contains_any name bad_chars ≡ false → All Kebab name
unfolding contains_any
none_bad [] h = tt
none_bad (c ∷ name) h = (
  (
    (λ e. ground arith),
    (λ e. ground arith),
    (λ e. ground arith),
    (λ e. ground arith),
    (λ e. ground arith),
  ),
  none_bad name (ground arith),
)

pub valid_name :
    (cfg : Config)
    → validate_config cfg ≡ none
    → (trim_space cfg.module_name ≢ []) × All Kebab cfg.module_name
unfolding validate_config
valid_name cfg h = elim (Bool-cases (trim_space cfg.module_name == [])) [
  | inl bare ↦
      let bad : validate_config cfg ≡ some empty_name = rw (bare, validate_config) refl in cc
  | inr named ↦ elim (Bool-cases (contains_any cfg.module_name bad_chars)) [
    | inl odd ↦
        let bad : validate_config cfg ≡ some (not_kebab cfg.module_name) =
          rw (named, odd, validate_config) refl in
        cc
    | inr fine ↦ (
      (λ e. ground (arith, list_eq_iff (trim_space cfg.module_name) [])),
      none_bad cfg.module_name fine,
    )
  ]
]
