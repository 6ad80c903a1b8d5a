-- ===== src/Security/Validator.antt =====
-- core/security: keyring.go and manifest_validator.go. The decoders of PEM, PKIX and hexadecimal
-- text, the canonical form of a JSON text and the test of a signature are parameters; an error of
-- theirs is its text.
pub mod Laws
use aethercore.Prelude.{
  ℕ, ◌≡◌, refl, ◌↔◌, inl, inr, arith, Bool, true, false, not, Bool-cases, Option, none, some, List,
  [], ◌∷◌, ◌++◌, length, All, All-append, nat_eq, if◌then◌else◌, ◌==◌, eq_list, eq_nat,
}
use aethercore.Prelude.Result.{Result, ok, err}
use aethercore.Prelude.Text.{Text, codes}

abbrev pub Bytes : Type 0
Bytes = List ℕ

-- What the package takes from Go's standard library. A PEM block is its type and its bytes; a
-- public key that is not of Ed25519 is `none`.
pub record Crypto : Type 0 where
  pub decode_pem : Bytes → Option (Text × Bytes)
  pub parse_pkix : Bytes → Result Text (Option Bytes)
  pub decode_hex : Text → Result Text Bytes
  pub canonicalize : Bytes → Result Text Bytes
  pub verify_signature : Bytes → Bytes → Bytes → Bool

pub record KeyRing : Type 0 where
  pub trusted_keys : List Bytes

-- NewKeyRing
abbrev pub new_key_ring : KeyRing
new_key_ring = record { trusted_keys = [] }

pub add_key : KeyRing → Option Bytes → Option Text × KeyRing
add_key k none = (some (codes "not an Ed25519 public key"), k)
add_key k (some key) =
    if not (nat_eq (length key) 32)
    then (some (codes "invalid public key size"), k)
    else (none, record { trusted_keys = k.trusted_keys ++ key ∷ [] })

module _ (crypto : Crypto) where
  -- LoadPEM
  unfoldable pub load_pem : KeyRing → Bytes → Option Text × KeyRing
  unfolding add_key
  load_pem k pem_data = elim (crypto.decode_pem pem_data) [
    | none ↦ (some (codes "failed to decode PEM block containing public key"), k)
    | some (block_type, bytes) ↦
        if not (block_type == codes "PUBLIC KEY")
        then (some (codes "unsupported PEM block type"), k)
        else elim (crypto.parse_pkix bytes) [ err e ↦ (some e, k) | ok pub_key ↦ add_key k pub_key ]
  ]

  -- the loop over the trusted keys
  unfoldable pub any_key : List Bytes → Bytes → Bytes → Bool
  any_key [] message signature = false
  any_key (key ∷ keys) message signature =
      let rest = any_key keys message signature in
      if crypto.verify_signature key message signature then true else rest

  -- the part of Verify behind the decoding of the signature
  unfoldable pub verify_decoded : KeyRing → Bytes → Bytes → Bool × Option Text
  verify_decoded k manifest_json signature =
      if not (nat_eq (length signature) 64)
      then (false, some (codes "invalid signature length"))
      else elim (crypto.canonicalize manifest_json) [
        | err e ↦ (false, some e)
        | ok message ↦ elim k.trusted_keys [
          | [] ↦ (false, some (codes "no trusted public keys loaded"))
          | key ∷ keys ↦
              if any_key (key ∷ keys) message signature
              then (true, none)
              else (false, some (codes "signature verification failed against all trusted keys"))
        ]
      ]

  -- ManifestValidator.Verify
  unfoldable pub verify : KeyRing → Bytes → Text → Bool × Option Text
  verify k manifest_json [] = (false, some (codes "missing signature"))
  verify k manifest_json (c ∷ signature_hex) = elim (crypto.decode_hex (c ∷ signature_hex)) [
    | err e ↦ (false, some e)
    | ok signature ↦ verify_decoded k manifest_json signature
  ]
