-- ===== src/Sdk/Scaffold/Config.antt =====
-- sdk/scaffold/scaffold.go: the configuration and the names that are made from it.
use aethercore.Prelude.{
  ℕ, Bool, true, false, ◌||◌, Option, none, some, [], ◌∷◌, map, nat_eq, ◌==◌, eq_list, eq_nat,
  if◌then◌else◌,
}
use aethercore.Prelude.Text.{Text, trim_space}

-- unicode.ToUpper and unicode.ToLower
pub record Unicode : Type 0 where
  pub to_upper : ℕ → ℕ
  pub to_lower : ℕ → ℕ

pub record Config : Type 0 where
  pub module_name : Text
  pub author : Text
  pub version : Text
  pub output_dir : Text

pub record TemplateData : Type 0 where
  pub module_name : Text
  pub package_name : Text
  pub go_type_name : Text
  pub author : Text
  pub version : Text

pub data ScaffoldError : Type 0 where
  empty_name : ScaffoldError
  not_kebab not_a_directory not_empty : Text → ScaffoldError
  stat_failed read_dir_failed parse_failed create_failed execute_failed :
      Text → Text → ScaffoldError
  mkdir_failed : Text → ScaffoldError

abbrev is_one_of : ℕ → Text → Bool
is_one_of c [] = false
is_one_of c (d ∷ ds) = nat_eq c d || is_one_of c ds

-- strings.ContainsAny
unfoldable pub contains_any : Text → Text → Bool
contains_any [] chars = false
contains_any (c ∷ s) chars = is_one_of c chars || contains_any s chars

-- space, tab, line feed, slash and backslash
abbrev pub bad_chars : Text
bad_chars = 32 ∷ 9 ∷ 10 ∷ 47 ∷ 92 ∷ []

unfoldable pub validate_config : Config → Option ScaffoldError
validate_config cfg =
    if trim_space cfg.module_name == []
    then some empty_name
    else if contains_any cfg.module_name bad_chars
    then some (not_kebab cfg.module_name)
    else none

-- strings.ReplaceAll of a character by nothing
unfoldable pub without : ℕ → Text → Text
without c [] = []
without c (d ∷ s) = let rest = without c s in if nat_eq d c then rest else d ∷ rest

module _ (unicode : Unicode) where
  -- toPackageName
  unfoldable pub to_package_name : Text → Text
  unfolding without
  to_package_name name = map unicode.to_lower (without b'-' name)

  -- the loop of toGoTypeName
  unfoldable pub type_name_from : Bool → Text → Text
  type_name_from capitalise_next [] = []
  type_name_from capitalise_next (r ∷ name) =
      let after_dash = type_name_from true name in
      let rest = type_name_from false name in
      if nat_eq r b'-'
      then after_dash
      else if capitalise_next
      then unicode.to_upper r ∷ rest
      else r ∷ rest

  -- toGoTypeName
  unfoldable pub to_go_type_name : Text → Text
  unfolding type_name_from
  to_go_type_name = type_name_from true

  -- the data of Generate
  unfoldable pub template_data : Config → TemplateData
  unfolding to_package_name to_go_type_name
  template_data cfg = record {
    module_name = cfg.module_name;
    package_name = to_package_name cfg.module_name;
    go_type_name = to_go_type_name cfg.module_name;
    author = cfg.author;
    version = cfg.version;
  }
