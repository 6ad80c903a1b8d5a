-- ===== src/Sdk/Scaffold/Tests.antt =====
-- sdk/scaffold/scaffold.go: the examples of its tests.
use aethercore.Prelude.{
  ◌≡◌, refl, arith, ℕ, ◌-◌, ◌&&◌, ◌==◌, none, some, [], ◌∷◌, ◌++◌, lookup, eq_list, eq_nat, leb,
  inl, if◌then◌else◌,
}
use aethercore.Prelude.Result.{ok}
use aethercore.Prelude.Text.{codes, to_lower_code, trim_space}
use aethercore.Sdk.Scaffold.Config.{
  Unicode, Config, contains_any, validate_config, to_package_name, to_go_type_name,
}
use aethercore.Sdk.Scaffold.Generate.{
  directory, Disk, Os, Templating, generate, readme, go_mod, module_go,
}
use aethercore.Sdk.Scaffold.Output.{Written, generate-Writes}
use aethercore.Sdk.Scaffold.Kept.{generate-keeps}

abbrev ascii_upper : ℕ → ℕ
ascii_upper c = if leb b'a' c && leb c b'z' then c - 32 else c

abbrev ascii : Unicode
ascii = record { to_upper = ascii_upper; to_lower = to_lower_code }

abbrev web_search : Config
web_search = record {
  module_name = codes "web-search";
  author = codes "Jane";
  version = codes "0.1.0";
  output_dir = [];
}

abbrev calm : Os
calm = record {
  stat = λ path. none;
  mkdir_all = λ path. none;
  parents = λ path. [];
  lies_in = λ dir path. (path == codes "notes/old") && (dir == codes "notes");
  read_dir = λ path. none;
  create = λ dir name. none;
}

abbrev render : Templating
render readme info = ok (info.module_name, none)
render go_mod info = ok (codes "module " ++ info.module_name, none)
render module_go info = ok (codes "type " ++ info.go_type_name, none)

web_search_type : to_go_type_name ascii (codes "web-search") ≡ codes "WebSearch"
unfolding to_go_type_name
web_search_type = refl

web_search_package : to_package_name ascii (codes "web-search") ≡ codes "websearch"
unfolding to_package_name
web_search_package = refl

-- A name of dashes passes the test, and gives a package without a name.
dashes :
    (validate_config (record web_search { module_name = codes "---" }) ≡ none)
    × (to_package_name ascii (codes "---") ≡ [])
unfolding validate_config to_package_name trim_space contains_any
dashes = (refl, refl)

abbrev other_disk : Disk
other_disk = (codes "notes", directory ((codes "a", codes "text") ∷ [])) ∷ []

abbrev disk_after : Disk
disk_after = (generate ascii calm render web_search other_disk).1

generate-Writes_example : Written ascii calm render web_search other_disk disk_after
unfolding generate validate_config trim_space contains_any lookup
generate-Writes_example = generate-Writes ascii calm render web_search other_disk disk_after refl

generate-keeps_example :
    lookup (codes "notes") disk_after ≡ some (directory ((codes "a", codes "text") ∷ []))
unfolding lookup
generate-keeps_example =
    generate-keeps ascii calm render web_search other_disk (codes "notes")
      (directory ((codes "a", codes "text") ∷ [])) refl (inl (λ e. ground (arith, e)))
