-- ===== src/Identity/RoundTrip.antt =====
-- core/mtls.go: an identity is found again, and asks every peer for a certificate.
use aethercore.Prelude.{
  ◌≡◌, refl, sym, ap, subst, ◌∙◌, inl, inr, ℕ, false, Option, none, some, List, [], ◌∷◌, GoMap,
  lookup, Bool-cases, Option-cases, eq_list, eq_nat,
}
use aethercore.Prelude.Bytes.{Bytes}
use aethercore.Prelude.Int.{ℤ, ltb_ℤ}
use aethercore.Prelude.Result.{Result, ok, err, Result-cases, err≢ok}
use aethercore.Prelude.Text.{Text}
use aethercore.Identity.Keys.{
  Certificate, Crypto, Material, NodeIdentity, MtlsError, config_dir_failed, create_dir_failed,
  build_tls_config, pool_of, make_material, identity_of, require_and_verify_client_cert, tls_13,
}
use aethercore.Identity.Store.{Disk, store_paths, all_paths, any_missing, write_all, cert_dir}
use aethercore.Identity.Load.{
  Os, files_of, after_writing, read_ca, load_identity, save_material, generate_and_save, with_ca,
  load_or_create_in, load_or_create,
}
use aethercore.Identity.Files.{IsWalk, write_all-Stored}
use aethercore.Identity.Held.{Laws, Held, Held-load, identity_of-Held, load_identity-Held}

module _ (crypto : Crypto) where
  open crypto use {Random, TlsCertificate}

  module _ (laws : Laws crypto) (os : Os) (order : GoMap Text Bytes → GoMap Text Bytes)
      (walk : IsWalk order) (node_id : Text) (now : ℤ) (random : ℕ → Random) (dir : Text)
      (disk : Disk) (identity : NodeIdentity TlsCertificate) where
    after_writing-ok :
        (m : Material) (written : Option (Text × Text) × Disk) (disk' : Disk)
        → after_writing crypto m written ≡ (ok identity, disk')
        → (written.0 ≡ none) × (identity_of crypto m ≡ ok identity) × (written.1 ≡ disk')
    after_writing-ok m (none, d) disk' h = (refl, ap (λ o. o.0) h, ap (λ o. o.1) h)
    after_writing-ok m (some (path, e), d) disk' h = absurd (err≢ok (ap (λ o. o.0) h))

    save_material-Held :
        (made : Result MtlsError Material) (disk' : Disk)
        → make_material crypto node_id now random ≡ made
        → save_material crypto os order node_id now random (store_paths dir) disk made
          ≡ (ok identity, disk')
        → Held crypto (store_paths dir) disk' identity
    unfolding save_material
    save_material-Held (err e) disk' made h = absurd (err≢ok (ap (λ o. o.0) h))
    save_material-Held (ok m) disk' made h =
        let p = store_paths dir in
        let (written, built, same) =
          after_writing-ok m (write_all os.write (order (files_of p m)) disk) disk' h in
        let held = write_all-Stored os order dir m disk walk written in
        subst (λ d. Held crypto p d identity) same
          (identity_of-Held crypto laws node_id now random m p _ identity made held built)

    generate_and_save-Held :
        (disk' : Disk)
        → generate_and_save crypto os order node_id now random (store_paths dir) disk
          ≡ (ok identity, disk')
        → Held crypto (store_paths dir) disk' identity
    unfolding generate_and_save
    generate_and_save-Held disk' h =
        let p = store_paths dir in
        let new = generate_and_save crypto os order node_id now random p disk in
        elim (Option-cases os.mkdir_all) [
          | inl made ↦
              let same : new
                  ≡ save_material crypto os order node_id now random p disk
                      (make_material crypto node_id now random) =
                rw (made, generate_and_save) refl in
              save_material-Held _ disk' refl (sym same ∙ h)
          | inr (e, failed) ↦
              let same : new ≡ (err (create_dir_failed e), disk) =
                rw (failed, generate_and_save) refl in
              absurd (err≢ok (ap (λ o. o.0) (sym same ∙ h)))
        ]

    with_ca-Held :
        (read : Result MtlsError (Bytes × Certificate)) (disk' : Disk)
        → any_missing disk (all_paths (store_paths dir)) ≡ false
        → read_ca crypto os (store_paths dir) disk ≡ read
        → with_ca crypto os order node_id now random (store_paths dir) disk read
          ≡ (ok identity, disk')
        → Held crypto (store_paths dir) disk' identity
    unfolding with_ca
    with_ca-Held (err e) disk' present read h = absurd (err≢ok (ap (λ o. o.0) h))
    with_ca-Held (ok (pem, ca)) disk' present read h =
        let p = store_paths dir in
        let all = with_ca crypto os order node_id now random p disk (ok (pem, ca)) in
        elim (Bool-cases (ltb_ℤ ca.not_after now)) [
          | inl expired ↦
              let same : all ≡ generate_and_save crypto os order node_id now random p disk =
                rw (expired, with_ca) refl in
              generate_and_save-Held disk' (sym same ∙ h)
          | inr fresh ↦
              let same : all ≡ (load_identity crypto os p disk pem ca, disk) =
                rw (fresh, with_ca) refl in
              let loaded = sym same ∙ h in
              subst (λ d. Held crypto p d identity) (ap (λ o. o.1) loaded)
                (load_identity-Held crypto os p disk pem ca identity present read
                  (ap (λ o. o.0) loaded))
        ]

    load_or_create_in-Held :
        (disk' : Disk)
        → load_or_create_in crypto os order node_id now random (store_paths dir) disk
          ≡ (ok identity, disk')
        → Held crypto (store_paths dir) disk' identity
    unfolding load_or_create_in
    load_or_create_in-Held disk' h =
        let p = store_paths dir in
        let all = load_or_create_in crypto os order node_id now random p disk in
        elim (Bool-cases (any_missing disk (all_paths p))) [
          | inl missing ↦
              let same : all ≡ generate_and_save crypto os order node_id now random p disk =
                rw (missing, load_or_create_in) refl in
              generate_and_save-Held disk' (sym same ∙ h)
          | inr present ↦
              let same : all
                  ≡ with_ca crypto os order node_id now random p disk (read_ca crypto os p disk) =
                rw (present, load_or_create_in) refl in
              with_ca-Held _ disk' present refl (sym same ∙ h)
        ]

  -- What an identity asks of a connection: TLS 1.3, and from each side a certificate that the
  -- certificates of the file ca.crt vouch for; its own certificate is that of the two node files.
  pub record Strict (base : Text) (disk : Disk) (identity : NodeIdentity TlsCertificate)
      : Type 0 where
    pub cert : TlsCertificate
    pub cert_pem : Bytes
    pub key_pem : Bytes
    pub pool : List Certificate
    pub version : identity.tls_config.min_version ≡ tls_13
    pub asks : identity.tls_config.client_auth ≡ require_and_verify_client_cert
    pub clients : identity.tls_config.client_cas ≡ pool
    pub roots : identity.tls_config.root_cas ≡ pool
    pub trusted : pool_of (crypto.certs_of_pem identity.ca_cert_pem) ≡ ok pool
    pub ca_file : lookup (store_paths (cert_dir base)).ca_cert disk ≡ some identity.ca_cert_pem
    pub cert_file : lookup (store_paths (cert_dir base)).leaf_cert disk ≡ some cert_pem
    pub key_file : lookup (store_paths (cert_dir base)).leaf_key disk ≡ some key_pem
    pub paired : crypto.x509_key_pair cert_pem key_pem ≡ ok cert
    pub own : identity.tls_config.certificates ≡ cert ∷ []

  Held-Strict :
      (base : Text) (disk : Disk) (identity : NodeIdentity TlsCertificate)
      → Held crypto (store_paths (cert_dir base)) disk identity
      → Strict base disk identity
  unfolding build_tls_config
  Held-Strict base disk identity held = record {
    cert = held.cert;
    cert_pem = held.leaf_cert_pem;
    key_pem = held.leaf_key_pem;
    pool = held.pool;
    version = ap (λ c. c.min_version) held.config;
    asks = ap (λ c. c.client_auth) held.config;
    clients = ap (λ c. c.client_cas) held.config;
    roots = ap (λ c. c.root_cas) held.config;
    trusted = held.pooled;
    ca_file = held.ca_cert;
    cert_file = held.leaf_cert;
    key_file = held.leaf_key;
    paired = held.paired;
    own = ap (λ c. c.certificates) held.config;
  }

  module _ (laws : Laws crypto) (os : Os) (order : GoMap Text Bytes → GoMap Text Bytes)
      (walk : IsWalk order) (node_id : Text) (now : ℤ) (random : ℕ → Random) (disk disk' : Disk)
      (identity : NodeIdentity TlsCertificate)
      (h : load_or_create crypto os order node_id now random disk ≡ (ok identity, disk')) where
    load_or_create-Held :
        (base : Text) × (os.user_config_dir ≡ ok base)
        × Held crypto (store_paths (cert_dir base)) disk' identity
    unfolding load_or_create
    load_or_create-Held =
        let all = load_or_create crypto os order node_id now random disk in
        elim (Result-cases os.user_config_dir) [
          | inl (base, found) ↦
              let same : all
                  ≡ load_or_create_in crypto os order node_id now random
                      (store_paths (cert_dir base)) disk =
                rw (found, load_or_create) refl in
              (
                base,
                found,
                load_or_create_in-Held laws os order walk node_id now random (cert_dir base) disk
                    identity disk' (sym same ∙ h),
              )
          | inr (e, failed) ↦
              let same : all ≡ (err (config_dir_failed e), disk) =
                rw (failed, load_or_create) refl in
              absurd (err≢ok (ap (λ o. o.0) (sym same ∙ h)))
        ]

    -- Every identity, made or loaded, has a configuration of TLS 1.3 that asks for a verified
    -- certificate and trusts on both sides exactly the certificates, at least one, of the file
    -- ca.crt as it stands behind the call, and presents the pair of the two node files.
    pub load_or_create-Strict :
        (base : Text) × (os.user_config_dir ≡ ok base) × Strict base disk' identity
    load_or_create-Strict =
        let (base, found, held) = load_or_create-Held in
        (base, found, Held-Strict base disk' identity held)

    -- An identity that a call has made or loaded is what every later call with the same directory
    -- answers, under any name of the node, as long as the CA certificate has not expired and the
    -- files can be read; the files stay as they are.
    pub load_or_create-again :
        (os' : Os) (order' : GoMap Text Bytes → GoMap Text Bytes) (node_id' : Text) (now' : ℤ)
        (random' : ℕ → Random)
        → os'.user_config_dir ≡ os.user_config_dir
        → ((path : Text) → os'.read path ≡ none)
        → ltb_ℤ identity.ca_cert.not_after now' ≡ false
        → load_or_create crypto os' order' node_id' now' random' disk' ≡ (ok identity, disk')
    unfolding load_or_create
    load_or_create-again os' order' node_id' now' random' same reads fresh =
        let (base, found, held) = load_or_create-Held in
        let loaded =
          Held-load crypto os' order' node_id' now' random' (store_paths (cert_dir base)) disk'
            identity reads held fresh in
        rw (same, found, load_or_create) loaded
