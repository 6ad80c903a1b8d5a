-- ===== src/Identity/Files.antt =====
-- core/mtls.go: what the files hold when all have been written.
use aethercore.Prelude.{
  ◌≡◌, refl, ap, ◌∙◌, arith, none, some, [], ◌∷◌, ◌++◌, GoMap, lookup, Distinct, eq_list, eq_nat,
  list_eq,
}
use aethercore.Prelude.Bytes.{Bytes}
use aethercore.Prelude.Text.{Text}
use aethercore.Identity.Keys.{Material}
use aethercore.Identity.Store.{
  Disk, StorePaths, store_paths, join_path, write_all, write_all-lookup, or_else,
}
use aethercore.Identity.Load.{Os, files_of}

list_eq-append : (d x y : Text) → list_eq (d ++ x) (d ++ y) ≡ list_eq x y
list_eq-append [] x y = refl
list_eq-append (c ∷ d) x y = ground (arith, list_eq-append d x y)

-- A walk over a map meets each of its entries once.
abbrev pub IsWalk : (GoMap Text Bytes → GoMap Text Bytes) → Type 0
IsWalk order =
    (files : GoMap Text Bytes)
    → Distinct files
    → Distinct (order files) × ((j : Text) → lookup j (order files) ≡ lookup j files)

-- The four files hold the texts of `m`.
pub record Stored (p : StorePaths) (m : Material) (disk : Disk) : Type 0 where
  pub ca_key : lookup p.ca_key disk ≡ some m.ca_key_pem
  pub ca_cert : lookup p.ca_cert disk ≡ some m.ca_cert_pem
  pub leaf_key : lookup p.leaf_key disk ≡ some m.leaf_key_pem
  pub leaf_cert : lookup p.leaf_cert disk ≡ some m.leaf_cert_pem

join_path-eq : (dir x y : Text) → list_eq (join_path dir x) (join_path dir y) ≡ list_eq x y
unfolding join_path
join_path-eq dir x y = list_eq-append dir (b'/' ∷ x) (b'/' ∷ y)

files_of-Stored :
    (dir : Text) (m : Material) → Stored (store_paths dir) m (files_of (store_paths dir) m)
unfolding files_of store_paths lookup
files_of-Stored dir m = record {
  ca_key = simp join_path-eq;
  ca_cert = simp join_path-eq;
  leaf_key = simp join_path-eq;
  leaf_cert = simp join_path-eq;
}

files_of-Distinct : (dir : Text) (m : Material) → Distinct (files_of (store_paths dir) m)
unfolding files_of store_paths lookup
files_of-Distinct dir m = (simp join_path-eq, (simp join_path-eq, (simp join_path-eq, (refl, tt))))

-- A store that was written without an error holds the texts.
pub write_all-Stored :
    (os : Os) (order : GoMap Text Bytes → GoMap Text Bytes) (dir : Text) (m : Material)
    (disk : Disk)
    → IsWalk order
    → (write_all os.write (order (files_of (store_paths dir) m)) disk).0 ≡ none
    → Stored (store_paths dir) m (write_all os.write (order (files_of (store_paths dir) m)) disk).1
write_all-Stored os order dir m disk walk written =
    let p = store_paths dir in
    let (distinct, same) = walk (files_of p m) (files_of-Distinct dir m) in
    let held = files_of-Stored dir m in
    let find : (j : Text) (bytes : Bytes)
        → lookup j (files_of p m) ≡ some bytes
        → lookup j (write_all os.write (order (files_of p m)) disk).1 ≡ some bytes =
      λ j bytes h.
        write_all-lookup os.write (order (files_of p m)) disk j distinct written
        ∙ ap (λ o. or_else o (lookup j disk)) (same j ∙ h) in
    record {
      ca_key = find p.ca_key m.ca_key_pem held.ca_key;
      ca_cert = find p.ca_cert m.ca_cert_pem held.ca_cert;
      leaf_key = find p.leaf_key m.leaf_key_pem held.leaf_key;
      leaf_cert = find p.leaf_cert m.leaf_cert_pem held.leaf_cert;
    }
