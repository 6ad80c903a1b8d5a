-- ===== src/Sdk/Scaffold/Kept.antt =====
-- sdk/scaffold/scaffold.go: what Generate leaves alone.
use aethercore.Prelude.{
  ◌≡◌, ◌≢◌, refl, sym, ap, ◌∙◌, ◌⊎◌, inl, inr, arith, true, false, Option, none, some, [], lookup,
  some-injective, eq_list, eq_nat,
}
use aethercore.Prelude.Text.{Text}
use aethercore.Sdk.Scaffold.Config.{Unicode, Config, ScaffoldError, template_data}
use aethercore.Sdk.Scaffold.Generate.{
  Node, directory, Disk, Os, has_node_in, check_output_dir, templates, Templating, dir_of, with_dir,
  generate,
}
use aethercore.Sdk.Scaffold.Check.{check_output_dir-Free, check_output_dir-keeps}
use aethercore.Sdk.Scaffold.Files.{render_all-ne}

module _ (unicode : Unicode) (os : Os) (templating : Templating) (cfg : Config) where
  with_dir-keeps :
      (w : Option ScaffoldError × Disk) (j : Text) (n : Node)
      → lookup j w.1 ≡ some n
      → (w.0 ≡ none → dir_of cfg ≢ j)
      → lookup j (with_dir unicode os templating cfg w).1 ≡ some n
  with_dir-keeps (some e, disk) j n h far = h
  with_dir-keeps (none, disk) j n h far =
      render_all-ne os templating (dir_of cfg) (template_data unicode cfg) templates j disk
        (far refl)
      ∙ h

  -- Not the output directory, or one that has a file or another entry.
  abbrev pub Spared : Disk → Text → Node → Type 0
  Spared disk j n = (dir_of cfg ≢ j) ⊎ ((n ≢ directory []) ⊎ (has_node_in os j disk ≡ true))

  -- The check lets no other directory pass than one that is empty.
  checked_elsewhere :
      (disk : Disk) (j : Text) (n : Node)
      → lookup j disk ≡ some n
      → Spared disk j n
      → (check_output_dir os (dir_of cfg) disk).0 ≡ none
      → dir_of cfg ≢ j
  checked_elsewhere disk j n h (inl far) checked same = far same
  checked_elsewhere disk j n h (inr full) checked same =
      let (free, _) = check_output_dir-Free os (dir_of cfg) disk checked in
      let here : lookup (dir_of cfg) disk ≡ some n = ap (λ p. lookup p disk) same ∙ h in
      elim free [
        | inl absent ↦ cc
        | inr (bare, alone) ↦ elim full [
          | inl some_file ↦ some_file (some-injective (sym here ∙ bare))
          | inr entry ↦
              let clash : has_node_in os j disk ≡ false =
                ap (λ p. has_node_in os p disk) (sym same) ∙ alone in
              cc
        ]
      ]

  -- Whatever Generate reports, every file stays as it is, and no directory loses or gets a file, but
  -- for the output directory where it had no entry: a file in it, or another entry, spares it too.
  pub generate-keeps :
      (disk : Disk) (j : Text) (n : Node)
      → lookup j disk ≡ some n
      → Spared disk j n
      → lookup j (generate unicode os templating cfg disk).1 ≡ some n
  unfolding generate
  generate-keeps disk j n h other = ground (
    arith,
    with_dir-keeps (check_output_dir os (dir_of cfg) disk) j n
        (check_output_dir-keeps os (dir_of cfg) disk j n h) (checked_elsewhere disk j n h other),
  )
