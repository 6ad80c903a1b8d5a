-- ===== src/Identity/Keys.antt =====
-- core/mtls.go: a new pair of certificates and the configuration that is built on it.
use aethercore.Prelude.{
  ℕ, Bool, true, false, Option, none, some, List, [], ◌∷◌, ◌*◌, eq_list, eq_nat,
}
use aethercore.Prelude.Bytes.{Bytes}
use aethercore.Prelude.Int.{ℤ, pos, ◌+ℤ◌, ◌-ℤ◌}
use aethercore.Prelude.Result.{Result, ok, err, wrap_err, ◌>>=◌}
use aethercore.Prelude.Text.{Text, codes}

pub data KeyUsage : Type 0 where
  cert_sign crl_sign digital_signature : KeyUsage

pub data ExtKeyUsage : Type 0 where
  client_auth server_auth : ExtKeyUsage

-- pkix.Name
pub record Name : Type 0 where
  pub common_name : Text
  pub organization : List Text

-- x509.Certificate: what a template sets, with the issuer and the bytes of a parsed one.
pub record Certificate : Type 0 where
  pub raw : Bytes
  pub serial_number : ℤ
  pub subject : Name
  pub issuer : Name
  pub not_before : ℤ
  pub not_after : ℤ
  pub key_usage : List KeyUsage
  pub ext_key_usage : List ExtKeyUsage
  pub basic_constraints_valid : Bool
  pub is_ca : Bool
  pub ip_addresses : List Text
  pub dns_names : List Text

pub data MtlsError : Type 0 where
  cert_not_found pool_failed : MtlsError
  config_dir_failed create_dir_failed read_ca_failed parse_ca_failed load_leaf_failed :
      Text → MtlsError
  ca_key_failed ca_sign_failed ca_parse_failed leaf_key_failed leaf_sign_failed : Text → MtlsError
  marshal_failed build_failed : Text → MtlsError
  write_failed : Text → Text → MtlsError

-- What Go's crypto packages do. `Random` is what one call draws from rand.Reader.
pub record Crypto : Type 1 where
  pub Random : Type 0
  pub PrivateKey : Type 0
  pub PublicKey : Type 0
  pub TlsCertificate : Type 0
  pub generate_key : Random → Result Text PrivateKey
  pub public_key : PrivateKey → PublicKey
  pub rand_int : Random → Option ℕ
  pub create_certificate :
      Random → Certificate → Certificate → PublicKey → PrivateKey → Result Text Bytes
  pub parse_certificate : Bytes → Result Text Certificate
  pub marshal_ec : PrivateKey → Result Text Bytes
  pub pem_encode : Text → Bytes → Bytes
  pub pem_decode : Bytes → Option Bytes
  pub x509_key_pair : Bytes → Bytes → Result Text TlsCertificate
  pub certs_of_pem : Bytes → List Certificate

pub data ClientAuth : Type 0 where
  no_client_cert require_any_client_cert require_and_verify_client_cert : ClientAuth

pub data TlsVersion : Type 0 where
  tls_10 tls_11 tls_12 tls_13 : TlsVersion

pub record TlsConfig (C : Type 0) : Type 0 where
  pub certificates : List C
  pub client_cas : List Certificate
  pub root_cas : List Certificate
  pub client_auth : ClientAuth
  pub min_version : TlsVersion

pub record NodeIdentity (C : Type 0) : Type 0 where
  pub ca_cert : Certificate
  pub ca_cert_pem : Bytes
  pub tls_config : TlsConfig C

-- Durations, in nanoseconds.
abbrev pub minute : ℕ
minute = 60 * 1000000000

abbrev pub ca_lifetime : ℕ
ca_lifetime = 10 * 365 * 24 * 60 * minute

abbrev pub leaf_lifetime : ℕ
leaf_lifetime = 90 * 24 * 60 * minute

abbrev organization_name : List Text
organization_name = codes "AetherCore" ∷ []

-- caTemplate
unfoldable pub ca_template : ℤ → ℤ → Certificate
ca_template now serial = record {
  raw = [];
  serial_number = serial;
  subject = record { common_name = codes "AetherCore Mesh CA"; organization = organization_name };
  issuer = record { common_name = []; organization = [] };
  not_before = now -ℤ pos minute;
  not_after = now +ℤ pos ca_lifetime;
  key_usage = cert_sign ∷ crl_sign ∷ [];
  ext_key_usage = [];
  basic_constraints_valid = true;
  is_ca = true;
  ip_addresses = [];
  dns_names = [];
}

-- leafTemplate
unfoldable pub leaf_template : Text → ℤ → ℤ → Certificate
leaf_template node_id now serial = record {
  raw = [];
  serial_number = serial;
  subject = record { common_name = node_id; organization = organization_name };
  issuer = record { common_name = []; organization = [] };
  not_before = now -ℤ pos minute;
  not_after = now +ℤ pos leaf_lifetime;
  key_usage = digital_signature ∷ [];
  ext_key_usage = client_auth ∷ server_auth ∷ [];
  basic_constraints_valid = false;
  is_ca = false;
  ip_addresses = codes "127.0.0.1" ∷ [];
  dns_names = node_id ∷ codes "localhost" ∷ [];
}

-- The PEM texts of a new pair, and the parsed CA certificate.
pub record Material : Type 0 where
  pub ca_cert : Certificate
  pub ca_key_pem : Bytes
  pub ca_cert_pem : Bytes
  pub leaf_key_pem : Bytes
  pub leaf_cert_pem : Bytes

abbrev pub certificate_type : Text
certificate_type = codes "CERTIFICATE"

-- buildTLSConfig
unfoldable pub build_tls_config : {C : Type 0} → C → List Certificate → TlsConfig C
build_tls_config cert pool = record {
  certificates = cert ∷ [];
  client_cas = pool;
  root_cas = pool;
  client_auth = require_and_verify_client_cert;
  min_version = tls_13;
}

-- AppendCertsFromPEM, which fails where it finds no certificate
abbrev pub pool_of : List Certificate → Result MtlsError (List Certificate)
pool_of [] = err pool_failed
pool_of (c ∷ cs) = ok (c ∷ cs)

module _ (crypto : Crypto) where
  open crypto use {Random, PrivateKey, TlsCertificate}

  -- newSerial: the time where the random source fails
  unfoldable pub new_serial : ℤ → Random → ℤ
  new_serial now random = elim (crypto.rand_int random) [ some n ↦ pos n | none ↦ now ]

  -- encodeECKey
  unfoldable pub encode_ec_key : PrivateKey → Result MtlsError Bytes
  encode_ec_key key = do
    der ← wrap_err marshal_failed (crypto.marshal_ec key)
    ok (crypto.pem_encode (codes "EC PRIVATE KEY") der)

  -- A new certificate with its key; the CA certificate also as it is parsed.
  pub record NewCa : Type 0 where
    pub key : PrivateKey
    pub der : Bytes
    pub cert : Certificate

  pub record NewLeaf : Type 0 where
    pub key : PrivateKey
    pub der : Bytes

  -- generateAndSave, 1; `random` has what its calls draw, in their order
  unfoldable pub new_ca : ℤ → (ℕ → Random) → Result MtlsError NewCa
  unfolding new_serial ca_template
  new_ca now random = do
    key ← wrap_err ca_key_failed (crypto.generate_key (random 0))
    let template = ca_template now (new_serial now (random 1))
    der ←
        wrap_err ca_sign_failed
          (crypto.create_certificate (random 2) template template (crypto.public_key key) key)
    cert ← wrap_err ca_parse_failed (crypto.parse_certificate der)
    ok (record { key = key; der = der; cert = cert })

  -- generateAndSave, 2
  unfoldable pub new_leaf : Text → ℤ → (ℕ → Random) → NewCa → Result MtlsError NewLeaf
  unfolding new_serial leaf_template
  new_leaf node_id now random ca = do
    key ← wrap_err leaf_key_failed (crypto.generate_key (random 3))
    let template = leaf_template node_id now (new_serial now (random 4))
    der ←
        wrap_err leaf_sign_failed
          (crypto.create_certificate (random 5) template ca.cert (crypto.public_key key) ca.key)
    ok (record { key = key; der = der })

  -- generateAndSave, 3, up to the writes
  unfoldable pub encode_pair : NewCa → NewLeaf → Result MtlsError Material
  unfolding encode_ec_key
  encode_pair ca leaf = do
    ca_key_pem ← encode_ec_key ca.key
    leaf_key_pem ← encode_ec_key leaf.key
    ok (record {
      ca_cert = ca.cert;
      ca_key_pem = ca_key_pem;
      ca_cert_pem = crypto.pem_encode certificate_type ca.der;
      leaf_key_pem = leaf_key_pem;
      leaf_cert_pem = crypto.pem_encode certificate_type leaf.der;
    })

  -- generateAndSave up to the writes
  unfoldable pub make_material : Text → ℤ → (ℕ → Random) → Result MtlsError Material
  unfolding new_ca new_leaf encode_pair
  make_material node_id now random = do
    ca ← new_ca now random
    leaf ← new_leaf node_id now random ca
    encode_pair ca leaf

  -- generateAndSave from the texts on disk to the configuration
  unfoldable pub identity_of : Material → Result MtlsError (NodeIdentity TlsCertificate)
  unfolding build_tls_config
  identity_of m = do
    cert ← wrap_err build_failed (crypto.x509_key_pair m.leaf_cert_pem m.leaf_key_pem)
    ok (record {
      ca_cert = m.ca_cert;
      ca_cert_pem = m.ca_cert_pem;
      tls_config = build_tls_config cert (crypto.certs_of_pem m.ca_cert_pem);
    })
