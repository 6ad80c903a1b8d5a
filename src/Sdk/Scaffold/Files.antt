-- ===== src/Sdk/Scaffold/Files.antt =====
-- sdk/scaffold/scaffold.go: the disk behind the steps of Generate.
use aethercore.Prelude.{
  ◌≡◌, ◌≢◌, refl, sym, ap, ◌∙◌, subst, inl, inr, arith, Option, none, some, List, [], ◌∷◌, ◌++◌,
  GoMap, lookup, insert, lookup-insert, lookup-insert_self, lookup-insert_ne, Bool-cases, ◌==◌,
  eq_list, eq_nat, list_eq_iff,
}
use aethercore.Prelude.Result.{Result, ok, err}
use aethercore.Prelude.Text.{Text}
use aethercore.Sdk.Scaffold.Config.{TemplateData}
use aethercore.Sdk.Scaffold.Generate.{
  Node, file, directory, Disk, Os, make_dir, make_dirs, Template, template_name, Templating,
  output_file_name, put_in, put_file, created, render_parsed, render_template, render_all,
}

pub make_dir-keeps :
    (path j : Text) (n : Node) (disk : Disk)
    → lookup j disk ≡ some n
    → lookup j (make_dir path disk) ≡ some n
unfolding make_dir
make_dir-keeps path j n disk h =
    ground (arith, lookup-insert path j (directory []) disk, list_eq_iff path j)

make_dir-makes :
    (j : Text) (disk : Disk)
    → lookup j disk ≡ none
    → lookup j (make_dir j disk) ≡ some (directory [])
unfolding make_dir
make_dir-makes j disk h = rw (h, make_dir) (lookup-insert_self j (directory []) disk)

make_dir-ne :
    (path j : Text) (disk : Disk) → path ≢ j → lookup j (make_dir path disk) ≡ lookup j disk
unfolding make_dir
make_dir-ne path j disk far = ground (arith, lookup-insert_ne path j (directory []) disk far)

pub make_dirs-keeps :
    (paths : List Text) (j : Text) (n : Node) (disk : Disk)
    → lookup j disk ≡ some n
    → lookup j (make_dirs paths disk) ≡ some n
unfolding make_dirs
make_dirs-keeps [] j n disk h = h
make_dirs-keeps (path ∷ paths) j n disk h =
    make_dirs-keeps paths j n (make_dir path disk) (make_dir-keeps path j n disk h)

pub make_dirs-makes :
    (paths : List Text) (j : Text) (disk : Disk)
    → lookup j disk ≡ none
    → lookup j (make_dirs (paths ++ j ∷ []) disk) ≡ some (directory [])
unfolding make_dirs
make_dirs-makes [] j disk h = make_dir-makes j disk h
make_dirs-makes (path ∷ paths) j disk h = elim (Bool-cases (path == j)) [
  | inl same ↦ make_dirs-keeps (paths ++ j ∷ []) j (directory []) (make_dir path disk) (
      subst (λ p. lookup j (make_dir p disk) ≡ some (directory []))
        (sym ((list_eq_iff path j).0 same)) (make_dir-makes j disk h))
  | inr other ↦
      make_dirs-makes paths j (make_dir path disk)
        (make_dir-ne path j disk (λ e. ground (arith, list_eq_iff path j)) ∙ h)
]

put_in-ne :
    (dir name text j : Text) (disk : Disk) (found : Option Node)
    → dir ≢ j
    → lookup j (put_in dir name text disk found) ≡ lookup j disk
put_in-ne dir name text j disk none far = refl
put_in-ne dir name text j disk (some (file old)) far = refl
put_in-ne dir name text j disk (some (directory entries)) far =
    lookup-insert_ne dir j (directory (insert name text entries)) disk far

put_file-ne :
    (dir name text j : Text) (disk : Disk)
    → dir ≢ j
    → lookup j (put_file dir name text disk) ≡ lookup j disk
unfolding put_file
put_file-ne dir name text j disk far = put_in-ne dir name text j disk (lookup dir disk) far

put_file-puts :
    (dir name text : Text) (entries : GoMap Text Text) (disk : Disk)
    → lookup dir disk ≡ some (directory entries)
    → lookup dir (put_file dir name text disk) ≡ some (directory (insert name text entries))
unfolding put_file
put_file-puts dir name text entries disk h =
    rw (h, put_file) (lookup-insert_self dir (directory (insert name text entries)) disk)

created-ne :
    (dir name : Text) (t : Template) (w : Text × Option Text) (e : Option Text) (j : Text)
    (disk : Disk)
    → dir ≢ j
    → lookup j (created dir name t w disk e).1 ≡ lookup j disk
created-ne dir name t w (some e) j disk far = refl
created-ne dir name t w none j disk far = put_file-ne dir name w.0 j disk far

render_parsed-ne :
    (os : Os) (dir name : Text) (t : Template) (r : Result Text (Text × Option Text)) (j : Text)
    (disk : Disk)
    → dir ≢ j
    → lookup j (render_parsed os dir name t r disk).1 ≡ lookup j disk
unfolding render_parsed
render_parsed-ne os dir name t (err e) j disk far = refl
render_parsed-ne os dir name t (ok w) j disk far =
    created-ne dir name t w (os.create dir name) j disk far

created-puts :
    (dir name : Text) (t : Template) (text : Text) (failed e : Option Text)
    (entries : GoMap Text Text) (disk : Disk)
    → lookup dir disk ≡ some (directory entries)
    → (created dir name t (text, failed) disk e).0 ≡ none
    → (failed ≡ none)
      × (lookup dir (created dir name t (text, failed) disk e).1
          ≡ some (directory (insert name text entries)))
created-puts dir name t text failed (some e) entries disk h done = cc
created-puts dir name t text (some f) none entries disk h done = cc
created-puts dir name t text none none entries disk h done =
    (refl, put_file-puts dir name text entries disk h)

render_parsed-puts :
    (os : Os) (dir name : Text) (t : Template) (r : Result Text (Text × Option Text))
    (entries : GoMap Text Text) (disk : Disk)
    → lookup dir disk ≡ some (directory entries)
    → (render_parsed os dir name t r disk).0 ≡ none
    → (text : Text) × (r ≡ ok (text, none))
      × (lookup dir (render_parsed os dir name t r disk).1
          ≡ some (directory (insert name text entries)))
unfolding render_parsed
render_parsed-puts os dir name t (err e) entries disk h done = cc
render_parsed-puts os dir name t (ok (text, failed)) entries disk h done =
    let (fine, held) =
      created-puts dir name t text failed (os.create dir name) entries disk h done in
    (text, ap (λ f. ok (text, f)) fine, held)

module _ (os : Os) (templating : Templating) (dir : Text) (info : TemplateData) where
  render_template-ne :
      (t : Template) (j : Text) (disk : Disk)
      → dir ≢ j
      → lookup j (render_template os templating dir info t disk).1 ≡ lookup j disk
  unfolding render_template
  render_template-ne t j disk far =
      render_parsed-ne os dir (output_file_name (template_name t) info.package_name) t
        (templating t info) j disk far

  pub render_all-ne :
      (ts : List Template) (j : Text) (disk : Disk)
      → dir ≢ j
      → lookup j (render_all os templating dir info ts disk).1 ≡ lookup j disk
  unfolding render_all
  render_all-ne [] j disk far = refl
  render_all-ne (t ∷ ts) j disk far =
      let disk' = (render_template os templating dir info t disk).1 in
      ground (arith, render_template-ne t j disk far, render_all-ne ts j disk' far)

  -- A template that was rendered without an error has put its text into the directory.
  pub render_template-puts :
      (t : Template) (entries : GoMap Text Text) (disk : Disk)
      → lookup dir disk ≡ some (directory entries)
      → (render_template os templating dir info t disk).0 ≡ none
      → (text : Text) × (templating t info ≡ ok (text, none))
        × (lookup dir (render_template os templating dir info t disk).1
            ≡ some (
                directory
                  (insert (output_file_name (template_name t) info.package_name) text entries)))
  unfolding render_template
  render_template-puts t entries disk h done =
      render_parsed-puts os dir (output_file_name (template_name t) info.package_name) t
        (templating t info) entries disk h done
