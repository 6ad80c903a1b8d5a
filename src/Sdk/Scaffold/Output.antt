-- ===== src/Sdk/Scaffold/Output.antt =====
-- sdk/scaffold/scaffold.go: what Generate writes.
use aethercore.Prelude.{
  ◌≡◌, ◌≢◌, refl, sym, ap, ◌∙◌, inl, inr, arith, All, Option, none, some, List, [], ◌∷◌, ◌++◌,
  GoMap, lookup, insert, Option-cases, eq_list, eq_nat,
}
use aethercore.Prelude.Result.{ok}
use aethercore.Prelude.Text.{Text, codes, trim_space}
use aethercore.Sdk.Scaffold.Config.{
  Unicode, Config, TemplateData, ScaffoldError, validate_config, to_package_name, template_data,
}
use aethercore.Sdk.Scaffold.Generate.{
  directory, Disk, Os, check_output_dir, Template, template_name, readme, go_mod, module_go,
  templates, Templating, output_file_name, render_template, render_all, dir_of, with_dir, generate,
}
use aethercore.Sdk.Scaffold.Valid.{Kebab, data_of, valid_name, last_or, go_file-other}
use aethercore.Sdk.Scaffold.Check.{Free, check_output_dir-Free}
use aethercore.Sdk.Scaffold.Files.{render_template-puts}

module _ (os : Os) (templating : Templating) (dir : Text) (info : TemplateData) where
  render_all-step :
      (t : Template) (ts : List Template) (disk : Disk)
      → (render_all os templating dir info (t ∷ ts) disk).0 ≡ none
      → ((render_template os templating dir info t disk).0 ≡ none)
        × (render_all os templating dir info (t ∷ ts) disk
            ≡ render_all os templating dir info ts
                (render_template os templating dir info t disk).1)
  unfolding render_all
  render_all-step t ts disk h =
      elim (Option-cases (render_template os templating dir info t disk).0) [
        | inl fine ↦ (fine, rw (fine, render_all) refl)
        | inr (e, failed) ↦
            let bad : (render_all os templating dir info (t ∷ ts) disk).0 ≡ some e =
              rw (failed, render_all) refl in
            cc
      ]

  -- One template, with what is left to do behind it.
  render_all-one :
      (t : Template) (ts : List Template) (entries : GoMap Text Text) (disk disk' : Disk)
      → lookup dir disk ≡ some (directory entries)
      → render_all os templating dir info (t ∷ ts) disk ≡ (none, disk')
      → (text : Text) × (templating t info ≡ ok (text, none))
        × (disk1 : Disk) × (lookup dir disk1
            ≡ some (
                directory
                  (insert (output_file_name (template_name t) info.package_name) text entries)))
        × (render_all os templating dir info ts disk1 ≡ (none, disk'))
  render_all-one t ts entries disk disk' made h =
      let (done, rest) = render_all-step t ts disk (ap (λ o. o.0) h) in
      let (text, rendered, held) =
        render_template-puts os templating dir info t entries disk made done in
      (text, rendered, (render_template os templating dir info t disk).1, held, sym rest ∙ h)

  render_all-three :
      (disk disk' : Disk)
      → lookup dir disk ≡ some (directory [])
      → render_all os templating dir info templates disk ≡ (none, disk')
      → (t0 : Text) × (t1 : Text) × (t2 : Text) × (templating readme info ≡ ok (t0, none))
        × (templating go_mod info ≡ ok (t1, none))
        × (templating module_go info ≡ ok (t2, none))
        × (lookup dir disk'
            ≡ some (
                directory (
                  insert (output_file_name (template_name module_go) info.package_name) t2 (
                    insert
                      (output_file_name (template_name go_mod) info.package_name)
                      t1
                      (insert (output_file_name (template_name readme) info.package_name) t0 [])))))
  unfolding render_all
  render_all-three disk disk' made h =
      let (t0, e0, d1, f0, h1) =
        render_all-one readme (go_mod ∷ module_go ∷ []) [] disk disk' made h in
      let (t1, e1, d2, f1, h2) = render_all-one go_mod (module_go ∷ []) _ d1 disk' f0 h1 in
      let (t2, e2, d3, f2, h3) = render_all-one module_go [] _ d2 disk' f1 h2 in
      let ends : d3 ≡ disk' = ap (λ o. o.1) h3 in
      (t0, t1, t2, e0, e1, e2, sym (ap (λ d. lookup dir d) ends) ∙ f2)

-- What Generate has written: the three files in a directory that was not there or was empty, each
-- with what its template gives.
pub record Written (unicode : Unicode) (os : Os) (templating : Templating) (cfg : Config)
    (disk disk' : Disk) : Type 0 where
  pub readme_text : Text
  pub go_mod_text : Text
  pub module_text : Text
  pub named : trim_space cfg.module_name ≢ []
  pub kebab : All Kebab cfg.module_name
  pub free : Free os (dir_of cfg) disk (lookup (dir_of cfg) disk)
  pub readme_done : templating readme (data_of unicode cfg) ≡ ok (readme_text, none)
  pub go_mod_done : templating go_mod (data_of unicode cfg) ≡ ok (go_mod_text, none)
  pub module_done : templating module_go (data_of unicode cfg) ≡ ok (module_text, none)
  pub files :
      lookup (dir_of cfg) disk'
      ≡ some (
          directory (
            (codes "README.md", readme_text)
            ∷ (codes "go.mod", go_mod_text)
            ∷ (to_package_name unicode cfg.module_name ++ codes ".go", module_text)
            ∷ []))

module _ (unicode : Unicode) (os : Os) (templating : Templating) (cfg : Config) where
  -- The three files, put into an empty directory.
  three_files :
      (pkg_name t0 t1 t2 : Text)
      → insert (output_file_name (template_name module_go) pkg_name) t2 (
          insert
            (output_file_name (template_name go_mod) pkg_name)
            t1
            (insert (output_file_name (template_name readme) pkg_name) t0 []))
        ≡ (codes "README.md", t0) ∷ (codes "go.mod", t1) ∷ (pkg_name ++ codes ".go", t2) ∷ []
  unfolding insert output_file_name last_or
  three_files pkg_name t0 t1 t2 =
      rw
        (
          go_file-other (codes "README.md") pkg_name (λ e. ground arith),
          go_file-other (codes "go.mod") pkg_name (λ e. ground arith),
        )
        refl

  with_dir-render :
      (w : Option ScaffoldError × Disk)
      → (with_dir unicode os templating cfg w).0 ≡ none
      → (w.0 ≡ none)
        × (with_dir unicode os templating cfg w
            ≡ render_all os templating (dir_of cfg) (template_data unicode cfg) templates w.1)
  with_dir-render (some e, disk) h = cc
  with_dir-render (none, disk) h = (refl, refl)

  generate-render :
      (disk : Disk)
      → (generate unicode os templating cfg disk).0 ≡ none
      → (validate_config cfg ≡ none)
        × ((check_output_dir os (dir_of cfg) disk).0 ≡ none)
        × (generate unicode os templating cfg disk
            ≡ render_all os templating
                (dir_of cfg)
                (template_data unicode cfg)
                templates
                (check_output_dir os (dir_of cfg) disk).1)
  unfolding generate
  generate-render disk h = elim (Option-cases (validate_config cfg)) [
    | inl valid ↦
        let all : generate unicode os templating cfg disk
            ≡ with_dir unicode os templating cfg (check_output_dir os (dir_of cfg) disk) =
          rw (valid, generate) refl in
        let (checked, rendered) =
          with_dir-render (check_output_dir os (dir_of cfg) disk) (ap (λ o. o.0) (sym all) ∙ h) in
        (valid, checked, all ∙ rendered)
    | inr (e, invalid) ↦
        let bad : (generate unicode os templating cfg disk).0 ≡ some e =
          rw (invalid, generate) refl in
        cc
  ]

  -- Where Generate reports no error, the name is neither empty nor has a space, tab, line feed,
  -- slash or backslash, the output directory was not there or had no entry, no directory among
  -- them, and its files are now README.md, go.mod and that of the package, each with what its
  -- template gives for the names, the author and the version.
  pub generate-Writes :
      (disk disk' : Disk)
      → generate unicode os templating cfg disk ≡ (none, disk')
      → Written unicode os templating cfg disk disk'
  unfolding template_data
  generate-Writes disk disk' h =
      let dir = dir_of cfg in
      let info = template_data unicode cfg in
      let start = (check_output_dir os dir disk).1 in
      let (valid, checked, all) = generate-render disk (ap (λ o. o.0) h) in
      let (free, made) = check_output_dir-Free os dir disk checked in
      let (t0, t1, t2, e0, e1, e2, ends) =
        render_all-three os templating dir info start disk' made (sym all ∙ h) in
      record {
        readme_text = t0;
        go_mod_text = t1;
        module_text = t2;
        named = (valid_name cfg valid).0;
        kebab = (valid_name cfg valid).1;
        free = free;
        readme_done = e0;
        go_mod_done = e1;
        module_done = e2;
        files = ends ∙ ap (λ es. some (directory es)) (three_files info.package_name t0 t1 t2);
      }
