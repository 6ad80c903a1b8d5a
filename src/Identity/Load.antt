-- ===== src/Identity/Load.antt =====
-- core/mtls.go: LoadOrCreateIdentity. The order in which a map is walked is a parameter.
use aethercore.Prelude.{
  ℕ, Option, none, some, [], ◌∷◌, GoMap, lookup, eq_list, eq_nat, if◌then◌else◌,
}
use aethercore.Prelude.Bytes.{Bytes}
use aethercore.Prelude.Int.{ℤ, ltb_ℤ}
use aethercore.Prelude.Result.{Result, ok, err, wrap_err, ◌>>=◌}
use aethercore.Prelude.Text.{Text, codes}
use aethercore.Identity.Keys.{
  Certificate, Crypto, Material, NodeIdentity, MtlsError, cert_not_found, config_dir_failed,
  create_dir_failed, read_ca_failed, parse_ca_failed, load_leaf_failed, write_failed, pool_of,
  build_tls_config, make_material, identity_of,
}
use aethercore.Identity.Store.{
  Disk, WriteFault, StorePaths, store_paths, all_paths, any_missing, write_all, cert_dir,
}

-- What the operating system answers: the error of each call, where it has one.
pub record Os : Type 0 where
  pub user_config_dir : Result Text Text
  pub mkdir_all : Option Text
  pub read : Text → Option Text
  pub write : Text → Option WriteFault

-- the loop over the map goes in an order that Go leaves open
unfoldable pub files_of : StorePaths → Material → GoMap Text Bytes
files_of p m =
    (p.ca_key, m.ca_key_pem)
    ∷ (p.ca_cert, m.ca_cert_pem)
    ∷ (p.leaf_key, m.leaf_key_pem)
    ∷ (p.leaf_cert, m.leaf_cert_pem)
    ∷ []

-- the test for a block
abbrev pub der_of : Option Bytes → Result MtlsError Bytes
der_of none = err cert_not_found
der_of (some der) = ok der

module _ (crypto : Crypto) where
  open crypto use {Random, TlsCertificate}

  -- What a call leaves behind: its result, and the disk.
  abbrev pub Outcome : Type 0
  Outcome = Result MtlsError (NodeIdentity TlsCertificate) × Disk

  abbrev pub after_writing : Material → Option (Text × Text) × Disk → Outcome
  after_writing m (some (path, e), disk) = (err (write_failed path e), disk)
  after_writing m (none, disk) = (identity_of crypto m, disk)

  module _ (os : Os) where
    -- os.ReadFile, of a file that Stat has seen
    unfoldable pub read_file : Disk → Text → Result Text Bytes
    read_file disk path = elim (os.read path) [
      | some e ↦ err e
      | none ↦ elim (lookup path disk) [
        | none ↦ err (codes "no such file or directory")
        | some bytes ↦ ok bytes
      ]
    ]

    -- the CA certificate of the store, with its text
    unfoldable pub read_ca : StorePaths → Disk → Result MtlsError (Bytes × Certificate)
    unfolding read_file
    read_ca p disk = do
      pem ← wrap_err read_ca_failed (read_file disk p.ca_cert)
      der ← der_of (crypto.pem_decode pem)
      cert ← wrap_err parse_ca_failed (crypto.parse_certificate der)
      ok (pem, cert)

    -- tls.LoadX509KeyPair
    unfoldable pub load_key_pair : StorePaths → Disk → Result Text TlsCertificate
    unfolding read_file
    load_key_pair p disk = do
      cert_pem ← read_file disk p.leaf_cert
      key_pem ← read_file disk p.leaf_key
      crypto.x509_key_pair cert_pem key_pem

    -- LoadOrCreateIdentity behind the test of the expiry
    unfoldable pub load_identity :
        StorePaths → Disk → Bytes → Certificate → Result MtlsError (NodeIdentity TlsCertificate)
    unfolding load_key_pair build_tls_config
    load_identity p disk pem ca = do
      cert ← wrap_err load_leaf_failed (load_key_pair p disk)
      pool ← pool_of (crypto.certs_of_pem pem)
      ok (record { ca_cert = ca; ca_cert_pem = pem; tls_config = build_tls_config cert pool })

  module _ (os : Os) (order : GoMap Text Bytes → GoMap Text Bytes) (node_id : Text) (now : ℤ)
      (random : ℕ → Random) where
    -- generateAndSave from the writes on
    unfoldable pub save_material : StorePaths → Disk → Result MtlsError Material → Outcome
    unfolding files_of
    save_material p disk (err e) = (err e, disk)
    save_material p disk (ok m) = after_writing m (write_all os.write (order (files_of p m)) disk)

    -- generateAndSave
    unfoldable pub generate_and_save : StorePaths → Disk → Outcome
    unfolding save_material
    generate_and_save p disk = elim os.mkdir_all [
      | some e ↦ (err (create_dir_failed e), disk)
      | none ↦ save_material p disk (make_material crypto node_id now random)
    ]

    unfoldable pub with_ca : StorePaths → Disk → Result MtlsError (Bytes × Certificate) → Outcome
    unfolding load_identity generate_and_save
    with_ca p disk (err e) = (err e, disk)
    with_ca p disk (ok (pem, ca)) =
        if ltb_ℤ ca.not_after now
        then generate_and_save p disk
        else (load_identity os p disk pem ca, disk)

    -- LoadOrCreateIdentity in the directory of the store
    unfoldable pub load_or_create_in : StorePaths → Disk → Outcome
    unfolding with_ca read_ca
    load_or_create_in p disk =
        if any_missing disk (all_paths p)
        then generate_and_save p disk
        else with_ca p disk (read_ca os p disk)

    -- LoadOrCreateIdentity
    unfoldable pub load_or_create : Disk → Outcome
    unfolding load_or_create_in cert_dir store_paths
    load_or_create disk = elim os.user_config_dir [
      | err e ↦ (err (config_dir_failed e), disk)
      | ok base ↦ load_or_create_in (store_paths (cert_dir base)) disk
    ]
