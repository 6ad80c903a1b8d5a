-- ===== src/Identity/Store.antt =====
-- core/mtls.go: the four files of the certificate store.
use aethercore.Prelude.{
  ◌≡◌, refl, arith, ℕ, Bool, true, false, Option, none, some, List, [], ◌∷◌, ◌++◌, take, GoMap,
  lookup, insert, Distinct, lookup-insert, list_eq_iff, ◌==◌, eq_list, eq_nat, if◌then◌else◌,
}
use aethercore.Prelude.Bytes.{Bytes}
use aethercore.Prelude.Text.{Text, codes}

-- The files that there are, by their paths.
abbrev pub Disk : Type 0
Disk = GoMap Text Bytes

-- os.WriteFile fails before it opens the file, or behind some bytes of the new text.
pub data WriteFault : Type 0 where
  not_opened : Text → WriteFault
  cut_short : ℕ → Text → WriteFault

pub record StorePaths : Type 0 where
  pub ca_key : Text
  pub ca_cert : Text
  pub leaf_key : Text
  pub leaf_cert : Text

-- filepath.Join of a clean directory and a name
unfoldable pub join_path : Text → Text → Text
join_path dir name = dir ++ (b'/' ∷ name)

-- certDir, on what UserConfigDir answers
unfoldable pub cert_dir : Text → Text
unfolding join_path
cert_dir base = join_path (join_path base (codes "aether")) (codes "certs")

unfoldable pub store_paths : Text → StorePaths
unfolding join_path
store_paths dir = record {
  ca_key = join_path dir (codes "ca.key");
  ca_cert = join_path dir (codes "ca.crt");
  leaf_key = join_path dir (codes "node.key");
  leaf_cert = join_path dir (codes "node.crt");
}

abbrev pub all_paths : StorePaths → List Text
all_paths p = p.ca_key ∷ p.ca_cert ∷ p.leaf_key ∷ p.leaf_cert ∷ []

-- the loop over os.Stat: one of the files is not there
unfoldable pub any_missing : Disk → List Text → Bool
any_missing disk [] = false
any_missing disk (path ∷ paths) = elim (lookup path disk) [
  | none ↦ true
  | some bytes ↦ any_missing disk paths
]

abbrev old_text : Disk → Text → Bytes
old_text disk path = elim (lookup path disk) [ none ↦ [] | some bytes ↦ bytes ]

-- os.WriteFile of one file, with what goes wrong
unfoldable pub write_file : Option WriteFault → Disk → Text → Bytes → Option Text × Disk
write_file none disk path bytes = (none, insert path bytes disk)
write_file (some (not_opened e)) disk path bytes = (some e, disk)
write_file (some (cut_short n e)) disk path bytes = (some e, insert path (take n bytes) disk)

-- the loop over the map of texts, which ends at the first error: its path and text
unfoldable pub write_all :
    (Text → Option WriteFault) → GoMap Text Bytes → Disk → Option (Text × Text) × Disk
write_all fault [] disk = (none, disk)
write_all fault ((path, bytes) ∷ files) disk =
    let (failed, disk') = write_file (fault path) disk path bytes in
    elim failed [ some e ↦ (some (path, e), disk') | none ↦ write_all fault files disk' ]

write_file-lookup :
    (fault : Option WriteFault) (disk : Disk) (path j : Text) (bytes : Bytes)
    → (write_file fault disk path bytes).0 ≡ none
    → lookup j (write_file fault disk path bytes).1
      ≡ (if path == j then some bytes else lookup j disk)
unfolding write_file
write_file-lookup none disk path j bytes h = lookup-insert path j bytes disk
write_file-lookup (some (not_opened e)) disk path j bytes h = cc
write_file-lookup (some (cut_short n e)) disk path j bytes h = cc

-- Either text of the new files, or that of the old ones.
abbrev pub or_else : Option Bytes → Option Bytes → Option Bytes
or_else none old = old
or_else (some new) old = some new

pub write_all-lookup :
    (fault : Text → Option WriteFault) (files : GoMap Text Bytes) (disk : Disk) (j : Text)
    → Distinct files
    → (write_all fault files disk).0 ≡ none
    → lookup j (write_all fault files disk).1 ≡ or_else (lookup j files) (lookup j disk)
unfolding write_all lookup
write_all-lookup fault [] disk j d h = refl
write_all-lookup fault ((path, bytes) ∷ files) disk j d h =
    let disk' = (write_file (fault path) disk path bytes).1 in
    ground (
      arith,
      write_all-lookup fault files disk' j,
      write_file-lookup (fault path) disk path j bytes,
      list_eq_iff path j,
    )
