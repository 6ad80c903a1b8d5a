-- ===== src/Identity/Held.antt =====
-- core/mtls.go: stores that a load reads as an identity.
use aethercore.Prelude.{
  ◌≡◌, refl, sym, ap, subst, ◌∙◌, arith, ℕ, false, Option, none, some, List, [], ◌∷◌, GoMap, lookup,
  eq_list, eq_nat,
}
use aethercore.Prelude.Bytes.{Bytes}
use aethercore.Prelude.Int.{ℤ, ltb_ℤ}
use aethercore.Prelude.Result.{ok, wrap_err-bind, bind-ok, ok-injective}
use aethercore.Prelude.Text.{Text}
use aethercore.Identity.Keys.{
  Certificate, Crypto, Material, NodeIdentity, build_tls_config, pool_of, make_material, NewCa,
  NewLeaf, new_ca, new_leaf, encode_pair, identity_of, certificate_type, encode_ec_key,
}
use aethercore.Identity.Store.{Disk, StorePaths, all_paths, any_missing}
use aethercore.Identity.Load.{
  Os, read_file, read_ca, load_key_pair, load_identity, der_of, with_ca, load_or_create_in,
}
use aethercore.Identity.Files.{Stored}

-- What the documentation says of encoding/pem and of AppendCertsFromPEM.
pub record Laws (crypto : Crypto) : Type 0 where
  pub pem_round :
      (kind : Text) (bytes : Bytes) → crypto.pem_decode (crypto.pem_encode kind bytes) ≡ some bytes
  pub pool_round :
      (der : Bytes) (cert : Certificate)
      → crypto.parse_certificate der ≡ ok cert
      → crypto.certs_of_pem (crypto.pem_encode certificate_type der) ≡ cert ∷ []

module _ (crypto : Crypto) where
  open crypto use {Random, TlsCertificate}

  -- A store that a load reads as `identity`.
  pub record Held (p : StorePaths) (disk : Disk) (identity : NodeIdentity TlsCertificate)
      : Type 0 where
    pub ca_key_pem : Bytes
    pub leaf_key_pem : Bytes
    pub leaf_cert_pem : Bytes
    pub ca_der : Bytes
    pub cert : TlsCertificate
    pub pool : List Certificate
    pub ca_key : lookup p.ca_key disk ≡ some ca_key_pem
    pub ca_cert : lookup p.ca_cert disk ≡ some identity.ca_cert_pem
    pub leaf_key : lookup p.leaf_key disk ≡ some leaf_key_pem
    pub leaf_cert : lookup p.leaf_cert disk ≡ some leaf_cert_pem
    pub decoded : crypto.pem_decode identity.ca_cert_pem ≡ some ca_der
    pub parsed : crypto.parse_certificate ca_der ≡ ok identity.ca_cert
    pub paired : crypto.x509_key_pair leaf_cert_pem leaf_key_pem ≡ ok cert
    pub pooled : pool_of (crypto.certs_of_pem identity.ca_cert_pem) ≡ ok pool
    pub config : identity.tls_config ≡ build_tls_config cert pool

  read_file-held :
      (os : Os) (disk : Disk) (path : Text) (bytes : Bytes)
      → ((j : Text) → os.read j ≡ none)
      → lookup path disk ≡ some bytes
      → read_file crypto os disk path ≡ ok bytes
  unfolding read_file
  read_file-held os disk path bytes reads h = rw (reads path, h, read_file) refl

  -- A store with an identity that has not expired is read, whatever the node is called.
  pub Held-load :
      (os : Os) (order : GoMap Text Bytes → GoMap Text Bytes) (node_id : Text) (now : ℤ)
      (random : ℕ → Random) (p : StorePaths) (disk : Disk) (identity : NodeIdentity TlsCertificate)
      → ((path : Text) → os.read path ≡ none)
      → Held p disk identity
      → ltb_ℤ identity.ca_cert.not_after now ≡ false
      → load_or_create_in crypto os order node_id now random p disk ≡ (ok identity, disk)
  unfolding load_or_create_in any_missing read_ca load_key_pair load_identity with_ca
  Held-load os order node_id now random p disk identity reads held fresh =
      let present : any_missing disk (all_paths p) ≡ false =
        rw (held.ca_key, held.ca_cert, held.leaf_key, held.leaf_cert, any_missing) refl in
      let file = read_file-held os disk in
      let ca : read_ca crypto os p disk ≡ ok (identity.ca_cert_pem, identity.ca_cert) =
        rw (file p.ca_cert _ reads held.ca_cert, held.decoded, held.parsed, read_ca) refl in
      let leaf : load_key_pair crypto os p disk ≡ ok held.cert =
        rw
          (
            file p.leaf_cert _ reads held.leaf_cert,
            file p.leaf_key _ reads held.leaf_key,
            held.paired,
            load_key_pair,
          )
          refl in
      let loaded : load_identity crypto os p disk identity.ca_cert_pem identity.ca_cert
          ≡ ok identity =
        rw (leaf, held.pooled, held.config, load_identity) refl in
      rw (present, ca, fresh, loaded, load_or_create_in) refl

  new_ca-parsed :
      (now : ℤ) (random : ℕ → Random) (ca : NewCa crypto)
      → new_ca crypto now random ≡ ok ca
      → crypto.parse_certificate ca.der ≡ ok ca.cert
  unfolding new_ca
  new_ca-parsed now random ca h =
      let (key, _, h0) = wrap_err-bind _ (crypto.generate_key (random 0)) _ h in
      let (der, _, h1) = wrap_err-bind _ (crypto.create_certificate (random 2) _ _ _ key) _ h0 in
      let (cert, parsed, h2) = wrap_err-bind _ (crypto.parse_certificate der) _ h1 in
      ground (arith, parsed, h2)

  encode_pair-texts :
      (ca : NewCa crypto) (leaf : NewLeaf crypto) (m : Material)
      → encode_pair crypto ca leaf ≡ ok m
      → (m.ca_cert ≡ ca.cert) × (m.ca_cert_pem ≡ crypto.pem_encode certificate_type ca.der)
  unfolding encode_pair
  encode_pair-texts ca leaf m h =
      let (ca_key, _, h0) = bind-ok (encode_ec_key crypto ca.key) _ h in
      let (leaf_key, _, h1) = bind-ok (encode_ec_key crypto leaf.key) _ h0 in ground (arith, h1)

  -- The text of a new CA certificate holds it.
  make_material-parsed :
      (node_id : Text) (now : ℤ) (random : ℕ → Random) (m : Material)
      → make_material crypto node_id now random ≡ ok m
      → (der : Bytes) × (m.ca_cert_pem ≡ crypto.pem_encode certificate_type der)
        × (crypto.parse_certificate der ≡ ok m.ca_cert)
  unfolding make_material
  make_material-parsed node_id now random m h =
      let (ca, e0, h0) = bind-ok (new_ca crypto now random) _ h in
      let (leaf, _, h1) = bind-ok (new_leaf crypto node_id now random ca) _ h0 in
      let (same, pem) = encode_pair-texts ca leaf m h1 in
      (ca.der, pem, new_ca-parsed now random ca e0 ∙ ap ok (sym same))

  pub identity_of-Held :
      (laws : Laws crypto) (node_id : Text) (now : ℤ) (random : ℕ → Random) (m : Material)
      (p : StorePaths) (disk : Disk) (identity : NodeIdentity TlsCertificate)
      → make_material crypto node_id now random ≡ ok m
      → Stored p m disk
      → identity_of crypto m ≡ ok identity
      → Held p disk identity
  unfolding identity_of
  identity_of-Held laws node_id now random m p disk identity made stored h =
      let (der, pem, parsed) = make_material-parsed node_id now random m made in
      let (cert, paired, built) =
        wrap_err-bind _ (crypto.x509_key_pair m.leaf_cert_pem m.leaf_key_pem) _ h in
      let pooled = ap crypto.certs_of_pem pem ∙ laws.pool_round der m.ca_cert parsed in
      subst (Held p disk) (ok-injective built) (record {
        ca_key_pem = m.ca_key_pem;
        leaf_key_pem = m.leaf_key_pem;
        leaf_cert_pem = m.leaf_cert_pem;
        ca_der = der;
        cert = cert;
        pool = m.ca_cert ∷ [];
        ca_key = stored.ca_key;
        ca_cert = stored.ca_cert;
        leaf_key = stored.leaf_key;
        leaf_cert = stored.leaf_cert;
        decoded = ap crypto.pem_decode pem ∙ laws.pem_round certificate_type der;
        parsed = parsed;
        paired = paired;
        pooled = ap pool_of pooled;
        config = ap (build_tls_config cert) pooled;
      })

  read_file-lookup :
      (os : Os) (disk : Disk) (path : Text) (bytes : Bytes)
      → read_file crypto os disk path ≡ ok bytes
      → lookup path disk ≡ some bytes
  unfolding read_file
  read_file-lookup os disk path bytes h = ground arith

  all_present :
      (disk : Disk) (p : StorePaths)
      → any_missing disk (all_paths p) ≡ false
      → (bytes : Bytes) × (lookup p.ca_key disk ≡ some bytes)
  unfolding any_missing
  all_present disk p h = ground arith

  der_of-some : (o : Option Bytes) (der : Bytes) → der_of o ≡ ok der → o ≡ some der
  der_of-some none der h = cc
  der_of-some (some d) der h = cc

  read_ca-parts :
      (os : Os) (p : StorePaths) (disk : Disk) (pem : Bytes) (ca : Certificate)
      → read_ca crypto os p disk ≡ ok (pem, ca)
      → (lookup p.ca_cert disk ≡ some pem)
        × (der : Bytes) × (crypto.pem_decode pem ≡ some der)
        × (crypto.parse_certificate der ≡ ok ca)
  unfolding read_ca
  read_ca-parts os p disk pem ca h =
      let (pem', file, r0) = wrap_err-bind _ (read_file crypto os disk p.ca_cert) _ h in
      let (der, decoded, r1) = bind-ok (der_of (crypto.pem_decode pem')) _ r0 in
      let (ca', parsed, r2) = wrap_err-bind _ (crypto.parse_certificate der) _ r1 in
      subst
        (λ (q : Bytes × Certificate).
          (lookup p.ca_cert disk ≡ some q.0)
          × (d : Bytes) × (crypto.pem_decode q.0 ≡ some d)
          × (crypto.parse_certificate d ≡ ok q.1))
        (ok-injective r2)
        (
          read_file-lookup os disk p.ca_cert pem' file,
          der,
          der_of-some (crypto.pem_decode pem') der decoded,
          parsed,
        )

  load_key_pair-parts :
      (os : Os) (p : StorePaths) (disk : Disk) (cert : TlsCertificate)
      → load_key_pair crypto os p disk ≡ ok cert
      → (cert_pem : Bytes) × (key_pem : Bytes) × (lookup p.leaf_cert disk ≡ some cert_pem)
        × (lookup p.leaf_key disk ≡ some key_pem)
        × (crypto.x509_key_pair cert_pem key_pem ≡ ok cert)
  unfolding load_key_pair
  load_key_pair-parts os p disk cert h =
      let (cert_pem, leaf, h0) = bind-ok (read_file crypto os disk p.leaf_cert) _ h in
      let (key_pem, key, paired) = bind-ok (read_file crypto os disk p.leaf_key) _ h0 in
      (
        cert_pem,
        key_pem,
        read_file-lookup os disk p.leaf_cert cert_pem leaf,
        read_file-lookup os disk p.leaf_key key_pem key,
        paired,
      )

  pub load_identity-Held :
      (os : Os) (p : StorePaths) (disk : Disk) (pem : Bytes) (ca : Certificate)
      (identity : NodeIdentity TlsCertificate)
      → any_missing disk (all_paths p) ≡ false
      → read_ca crypto os p disk ≡ ok (pem, ca)
      → load_identity crypto os p disk pem ca ≡ ok identity
      → Held p disk identity
  unfolding load_identity
  load_identity-Held os p disk pem ca identity present read h =
      let (key, has_key) = all_present disk p present in
      let (has_ca, der, decoded, parsed) = read_ca-parts os p disk pem ca read in
      let (cert, pair, h0) = wrap_err-bind _ (load_key_pair crypto os p disk) _ h in
      let (pool, pooled, h1) = bind-ok (pool_of (crypto.certs_of_pem pem)) _ h0 in
      let (cert_pem, key_pem, has_leaf, has_leaf_key, paired) =
        load_key_pair-parts os p disk cert pair in
      subst (Held p disk) (ok-injective h1) (record {
        ca_key_pem = key;
        leaf_key_pem = key_pem;
        leaf_cert_pem = cert_pem;
        ca_der = der;
        cert = cert;
        pool = pool;
        ca_key = has_key;
        ca_cert = has_ca;
        leaf_key = has_leaf_key;
        leaf_cert = has_leaf;
        decoded = decoded;
        parsed = parsed;
        paired = paired;
        pooled = pooled;
        config = refl;
      })
