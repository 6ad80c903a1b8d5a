-- ===== src/Sdk/Scaffold/Check.antt =====
-- sdk/scaffold/scaffold.go: the test of the output directory.
use aethercore.Prelude.{
  false, Bool-cases, ◌≡◌, refl, sym, ap, ◌∙◌, ◌⊎◌, inl, inr, arith, Option, none, some, [], ◌∷◌,
  ◌++◌, GoMap, lookup, Option-cases, eq_list, eq_nat,
}
use aethercore.Prelude.Text.{Text}
use aethercore.Sdk.Scaffold.Config.{
  ScaffoldError, not_empty, read_dir_failed, stat_failed, mkdir_failed,
}
use aethercore.Sdk.Scaffold.Generate.{
  Node, file, directory, Disk, Os, make_dirs, mkdir_all, has_node_in, check_entries, check_node,
  check_output_dir,
}
use aethercore.Sdk.Scaffold.Files.{make_dirs-keeps, make_dirs-makes}

check_entries-empty :
    (os : Os) (dir : Text) (disk : Disk) (entries : GoMap Text Text)
    → check_entries os dir disk entries ≡ none
    → (entries ≡ []) × (has_node_in os dir disk ≡ false)
unfolding check_entries
check_entries-empty os dir disk entries h = elim (Option-cases (os.read_dir dir)) [
  | inl readable ↦ by_entries entries readable h
  | inr (e, failed) ↦
      let bad : check_entries os dir disk entries ≡ some (read_dir_failed dir e) =
        rw (failed, check_entries) refl in
      cc
]
  where
    by_entries :
        (es : GoMap Text Text)
        → os.read_dir dir ≡ none
        → check_entries os dir disk es ≡ none
        → (es ≡ []) × (has_node_in os dir disk ≡ false)
    by_entries [] readable g = elim (Bool-cases (has_node_in os dir disk)) [
      | inl full ↦
          let bad : check_entries os dir disk [] ≡ some (not_empty dir) =
            rw (readable, full, check_entries) refl in
          cc
      | inr bare ↦ (refl, bare)
    ]
    by_entries (x ∷ es) readable g =
        let bad : check_entries os dir disk (x ∷ es) ≡ some (not_empty dir) =
          rw (readable, check_entries) refl in
        cc

-- A path where nothing is, or that of a directory without an entry.
abbrev pub Free : Os → Text → Disk → Option Node → Type 0
Free os dir disk found =
    (found ≡ none) ⊎ ((found ≡ some (directory [])) × (has_node_in os dir disk ≡ false))

-- A directory that the check lets pass was not there or was empty, and is there now, empty.
check_node-Free :
    (os : Os) (dir : Text) (disk : Disk) (found : Option Node)
    → lookup dir disk ≡ found
    → (check_node os dir disk found).0 ≡ none
    → Free os dir disk found × (lookup dir (check_node os dir disk found).1 ≡ some (directory []))
unfolding check_node mkdir_all
check_node-Free os dir disk none same h = elim (Option-cases (os.mkdir_all dir)) [
  | inl made ↦
      let all : check_node os dir disk none ≡ (none, make_dirs (os.parents dir ++ dir ∷ []) disk) =
        rw (made, check_node, mkdir_all) refl in
      (
        inl refl,
        ap (λ (o : Option ScaffoldError × Disk). lookup dir o.1) all
            ∙ make_dirs-makes (os.parents dir) dir disk same,
      )
  | inr (e, failed) ↦
      let bad : (check_node os dir disk none).0 ≡ some (mkdir_failed e) =
        rw (failed, check_node, mkdir_all) refl in
      cc
]
check_node-Free os dir disk (some (file text)) same h = cc
check_node-Free os dir disk (some (directory entries)) same h =
    let (empty, alone) = check_entries-empty os dir disk entries h in
    let bare = ap (λ es. some (directory es)) empty in (inr (bare, alone), same ∙ bare)

pub check_output_dir-Free :
    (os : Os) (dir : Text) (disk : Disk)
    → (check_output_dir os dir disk).0 ≡ none
    → Free os dir disk (lookup dir disk)
      × (lookup dir (check_output_dir os dir disk).1 ≡ some (directory []))
unfolding check_output_dir
check_output_dir-Free os dir disk h = elim (Option-cases (os.stat dir)) [
  | inl seen ↦
      let same : check_output_dir os dir disk ≡ check_node os dir disk (lookup dir disk) =
        rw (seen, check_output_dir) refl in
      let (free, made) =
        check_node-Free os dir disk (lookup dir disk) refl (ap (λ o. o.0) (sym same) ∙ h) in
      (free, ap (λ (o : Option ScaffoldError × Disk). lookup dir o.1) same ∙ made)
  | inr (e, failed) ↦
      let bad : (check_output_dir os dir disk).0 ≡ some (stat_failed dir e) =
        rw (failed, check_output_dir) refl in
      cc
]

module _ (os : Os) where
  check_node-keeps :
      (dir : Text) (disk : Disk) (found : Option Node) (j : Text) (n : Node)
      → lookup j disk ≡ some n
      → lookup j (check_node os dir disk found).1 ≡ some n
  unfolding check_node mkdir_all
  check_node-keeps dir disk none j n h =
      ground (arith, make_dirs-keeps (os.parents dir ++ dir ∷ []) j n disk h)
  check_node-keeps dir disk (some (file text)) j n h = h
  check_node-keeps dir disk (some (directory entries)) j n h = h

  pub check_output_dir-keeps :
      (dir : Text) (disk : Disk) (j : Text) (n : Node)
      → lookup j disk ≡ some n
      → lookup j (check_output_dir os dir disk).1 ≡ some n
  unfolding check_output_dir
  check_output_dir-keeps dir disk j n h =
      ground (arith, check_node-keeps dir disk (lookup dir disk) j n h)
