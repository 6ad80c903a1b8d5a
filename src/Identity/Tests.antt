-- ===== src/Identity/Tests.antt =====
-- core/mtls.go: a first boot on an empty disk, and a second one under another name.
use aethercore.Prelude.{
  ◌≡◌, refl, arith, ℕ, ◌+◌, Option, none, some, List, [], ◌∷◌, ◌++◌, GoMap, lookup,
}
use aethercore.Prelude.Bytes.{Bytes}
use aethercore.Prelude.Int.{pos, pos_part, ◌-ℤ◌}
use aethercore.Prelude.Result.{Result, ok, err}
use aethercore.Prelude.Text.{Text, codes}
use aethercore.Identity.Keys.{
  Certificate, Crypto, NodeIdentity, minute, ca_template, make_material, identity_of,
  build_tls_config,
}
use aethercore.Identity.Store.{Disk, any_missing, write_all, write_file}
use aethercore.Identity.Load.{Os, load_or_create}
use aethercore.Identity.Files.{IsWalk}
use aethercore.Identity.Held.{Laws}
use aethercore.Identity.RoundTrip.{Strict, load_or_create-Strict}

-- A certificate in DER is the time from which it holds.
abbrev toy_parse : Bytes → Result Text Certificate
toy_parse [] = err (codes "malformed certificate")
toy_parse (n ∷ der) = ok (ca_template (pos (n + minute)) (pos 7))

abbrev toy_decode : Bytes → Option Bytes
toy_decode [] = none
toy_decode (c ∷ pem) = some pem

abbrev toy_certs_in : Result Text Certificate → List Certificate
toy_certs_in (err e) = []
toy_certs_in (ok c) = c ∷ []

abbrev toy_certs : Option Bytes → List Certificate
toy_certs none = []
toy_certs (some der) = toy_certs_in (toy_parse der)

abbrev toy_crypto : Crypto
toy_crypto = record {
  Random = ℕ;
  PrivateKey = ℕ;
  PublicKey = ℕ;
  TlsCertificate = Bytes;
  generate_key = λ r. ok r;
  public_key = λ key. key + 1;
  rand_int = λ r. some r;
  create_certificate =
      λ r template parent public key. ok (pos_part template.not_before ∷ public ∷ []);
  parse_certificate = toy_parse;
  marshal_ec = λ key. ok (key ∷ []);
  pem_encode = λ kind bytes. 45 ∷ bytes;
  pem_decode = toy_decode;
  x509_key_pair = λ cert key. ok (cert ++ key);
  certs_of_pem = λ pem. toy_certs (toy_decode pem);
}

toy_pool :
    (der : Bytes) (cert : Certificate) → toy_parse der ≡ ok cert → toy_certs (some der) ≡ cert ∷ []
toy_pool der cert h = ground (arith, h)

toy_laws : Laws toy_crypto
toy_laws = record { pem_round = λ kind bytes. refl; pool_round = toy_pool }

abbrev os : Os
os = record {
  user_config_dir = ok (codes "/etc");
  mkdir_all = none;
  read = λ path. none;
  write = λ path. none;
}

abbrev in_order : GoMap Text Bytes → GoMap Text Bytes
in_order files = files

in_order-IsWalk : IsWalk in_order
in_order-IsWalk files d = (d, λ j. refl)

abbrev first_identity : NodeIdentity Bytes
first_identity = record {
  ca_cert = ca_template (pos (5 + minute)) (pos 7);
  ca_cert_pem = 45 ∷ 5 ∷ 1 ∷ [];
  tls_config =
      build_tls_config (45 ∷ 5 ∷ 4 ∷ 45 ∷ 3 ∷ []) (ca_template (pos (5 + minute)) (pos 7) ∷ []);
}

abbrev first_disk : Disk
first_disk = (load_or_create toy_crypto os in_order (codes "a") (pos (5 + minute)) (λ n. n) []).1

first_boot :
    load_or_create toy_crypto os in_order (codes "a") (pos (5 + minute)) (λ n. n) []
    ≡ (ok first_identity, first_disk)
unfolding load_or_create any_missing lookup make_material write_all write_file identity_of ◌-ℤ◌
first_boot = refl

load_or_create-Strict_example :
    (base : Text) × (os.user_config_dir ≡ ok base)
    × Strict toy_crypto base first_disk first_identity
load_or_create-Strict_example =
    load_or_create-Strict toy_crypto toy_laws os in_order in_order-IsWalk (codes "a")
      (pos (5 + minute)) (λ n. n) [] first_disk first_identity first_boot
