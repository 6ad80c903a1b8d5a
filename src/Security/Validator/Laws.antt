-- ===== src/Security/Validator/Laws.antt =====
-- core/security: what a loaded key and an accepted signature say.
use aethercore.Prelude.{
  nat_eq, nat_eq_iff, Bool-cases, ◌==◌, eq_list, eq_nat, ap, ◌⊎◌, ◌≢◌, All-append, Option-cases, ℕ,
  ◌≡◌, refl, ◌↔◌, inl, inr, arith, true, Bool-cases, Option-cases, Option, none, some, List, [],
  ◌∷◌, length, All, All-append, nat_eq, ◌==◌, eq_list, eq_nat,
}
use aethercore.Prelude.Result.{ok, Result-cases}
use aethercore.Prelude.Text.{Text, codes}
use aethercore.Security.Validator.{
  Bytes, Crypto, KeyRing, add_key, load_pem, any_key, verify_decoded, verify,
}

-- Every key of the ring has the size of an Ed25519 key.
abbrev pub Sized : KeyRing → Type 0
Sized k = All (λ key. length key ≡ 32) k.trusted_keys

-- What LoadPEM may leave: sized keys, and the old ring where it fails.
abbrev pub Loads : KeyRing → Option Text × KeyRing → Type 0
Loads k out = Sized out.1 × ((out.0 ≡ none) ⊎ (out.1 ≡ k))

add_key-Sized : (k : KeyRing) (key : Option Bytes) → Sized k → Loads k (add_key k key)
unfolding add_key
add_key-Sized k none sized = (sized, inr refl)
add_key-Sized k (some key) sized = elim (Bool-cases (nat_eq (length key) 32)) [
  | inl exact ↦ rw exact (
    All-append (λ x. length x ≡ 32) k.trusted_keys (key ∷ []) sized
        ((nat_eq_iff (length key) 32).0 exact, tt),
    inl refl,
  )
  | inr other ↦ rw other (sized, inr refl)
]

module _ (crypto : Crypto) where
  -- A signature is given for the canonical text by a key of the list.
  pub data Signs (message signature : Bytes) : List Bytes → Type 0 where
    here :
        {key : Bytes} {keys : List Bytes}
        → crypto.verify_signature key message signature ≡ true
        → Signs message signature (key ∷ keys)
    there :
        {key : Bytes} {keys : List Bytes}
        → Signs message signature keys
        → Signs message signature (key ∷ keys)

  -- A signature text that decodes to 64 bytes, a manifest with a canonical text, and a trusted key
  -- that has signed it.
  pub record Signed (k : KeyRing) (manifest_json : Bytes) (signature_hex : Text) : Type 0 where
    pub signature : Bytes
    pub message : Bytes
    pub decoded : crypto.decode_hex signature_hex ≡ ok signature
    pub sized : length signature ≡ 64
    pub canonical : crypto.canonicalize manifest_json ≡ ok message
    pub signs : Signs message signature k.trusted_keys

  any_key→Signs :
      (keys : List Bytes) (message signature : Bytes)
      → any_key crypto keys message signature ≡ true
      → Signs message signature keys
  unfolding any_key
  any_key→Signs [] message signature h = cc
  any_key→Signs (key ∷ keys) message signature h =
      elim (Bool-cases (crypto.verify_signature key message signature)) [
        | inl valid ↦ here valid
        | inr invalid ↦ there (any_key→Signs keys message signature (ground arith))
      ]

  Signs→any_key :
      {message signature : Bytes} {keys : List Bytes}
      → Signs message signature keys
      → any_key crypto keys message signature ≡ true
  unfolding any_key
  Signs→any_key (here valid) = ground arith
  Signs→any_key (there later) = ground (arith, Signs→any_key later)

  -- The part behind the decoding of the signature accepts in this case only.
  decoded-accepts :
      (k : KeyRing) (manifest_json signature : Bytes)
      → (verify_decoded crypto k manifest_json signature).0 ≡ true
      → (length signature ≡ 64)
        × ((message : Bytes) × (crypto.canonicalize manifest_json ≡ ok message)
            × (any_key crypto k.trusted_keys message signature ≡ true))
  unfolding verify_decoded
  decoded-accepts k manifest_json signature h =
      elim (Result-cases (crypto.canonicalize manifest_json)) [
        | inl (message, e) ↦ (ground arith, (message, e, ground arith))
        | inr (x, e) ↦ absurd (ground arith)
      ]

  Signed-accepted :
      (k : KeyRing) (manifest_json signature message : Bytes)
      → length signature ≡ 64
      → crypto.canonicalize manifest_json ≡ ok message
      → any_key crypto k.trusted_keys message signature ≡ true
      → verify_decoded crypto k manifest_json signature ≡ (true, none)
  unfolding verify_decoded any_key
  Signed-accepted k manifest_json signature message l e a = ground arith

  accepted→Signed :
      (k : KeyRing) (manifest_json : Bytes) (c : ℕ) (rest : Text)
      → (verify crypto k manifest_json (c ∷ rest)).0 ≡ true
      → Signed k manifest_json (c ∷ rest)
  unfolding verify
  accepted→Signed k manifest_json c rest h = elim (Result-cases (crypto.decode_hex (c ∷ rest))) [
    | inl (signature, e) ↦ signed e (decoded-accepts k manifest_json signature (ground arith))
    | inr (x, e) ↦ absurd (ground arith)
  ]
    where
      signed :
          {signature : Bytes}
          → crypto.decode_hex (c ∷ rest) ≡ ok signature
          → (length signature ≡ 64)
            × ((message : Bytes) × (crypto.canonicalize manifest_json ≡ ok message)
                × (any_key crypto k.trusted_keys message signature ≡ true))
          → Signed k manifest_json (c ∷ rest)
      signed {signature} d (l, (message, e, a)) = record {
        signature = signature;
        message = message;
        decoded = d;
        sized = l;
        canonical = e;
        signs = any_key→Signs k.trusted_keys message signature a;
      }

  Signed→accepted :
      (k : KeyRing) (manifest_json : Bytes) (c : ℕ) (rest : Text)
      → Signed k manifest_json (c ∷ rest)
      → verify crypto k manifest_json (c ∷ rest) ≡ (true, none)
  unfolding verify
  Signed→accepted k manifest_json c rest s =
      rw (s.decoded, verify)
        (Signed-accepted k manifest_json s.signature s.message s.sized s.canonical
          (Signs→any_key s.signs))

  -- Verify answers true exactly for a signature text that is not empty, that decodes to 64 bytes,
  -- and that a trusted key gives for the canonical text of the manifest; the empty text is refused.
  pub verify_iff :
      (k : KeyRing) (manifest_json : Bytes) (signature_hex : Text)
      → ((verify crypto k manifest_json signature_hex).0 ≡ true)
        ↔ ((signature_hex ≢ []) × Signed k manifest_json signature_hex)
  unfolding verify
  verify_iff k manifest_json [] = (λ h. cc, λ s. absurd (s.0 refl))
  verify_iff k manifest_json (c ∷ rest) = (
    λ h. ((λ e. cc), accepted→Signed k manifest_json c rest h),
    λ s. ap (λ r. r.0) (Signed→accepted k manifest_json c rest s.1),
  )

  -- LoadPEM keeps every key of the ring at 32 bytes, and a failure leaves the ring as it is.
  pub load_pem-Sized :
      (k : KeyRing) (pem_data : Bytes) → Sized k → Loads k (load_pem crypto k pem_data)
  unfolding load_pem
  load_pem-Sized k pem_data sized = elim (Option-cases (crypto.decode_pem pem_data)) [
    | inl e ↦ rw (e, load_pem) (sized, inr refl)
    | inr ((block_type, bytes), e) ↦ elim (Bool-cases (block_type == codes "PUBLIC KEY")) [
      | inr other ↦ rw (e, other, load_pem) (sized, inr refl)
      | inl public ↦ elim (Result-cases (crypto.parse_pkix bytes)) [
        | inl (key, f) ↦ rw (e, public, f, load_pem) (add_key-Sized k key sized)
        | inr (x, f) ↦ rw (e, public, f, load_pem) (sized, inr refl)
      ]
    ]
  ]
