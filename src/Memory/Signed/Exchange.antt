-- ===== src/Memory/Signed/Exchange.antt =====
-- memory/signed_store.go: which requests are served, and that a token of SignQuery is.
use aethercore.Prelude.{
  ℕ, ◌+◌, ◌≤◌, ◌≡◌, ◌↔◌, refl, subst, inl, inr, arith, true, false, Bool-cases, Option-cases,
  Option, none, some, List, [], ◌∷◌,
}
use aethercore.Prelude.Bytes.{Bytes}
use aethercore.Prelude.Int.{ℤ, pos, ltb_ℤ}
use aethercore.Prelude.Result.{Result, ok, err, Result-cases}
use aethercore.Prelude.Text.{Text}
use aethercore.Memory.Vectors.{Embedding, MemoryResult}
use aethercore.Memory.Signed.{
  QueryToken, SignedQueryRequest, Crypto, token_ttl, elapsed, digest_text, token_digest, check_key,
  check_certificate, check_request, authorised_query, signed_with, sign_query,
}

module _ (crypto : Crypto) where
  open crypto use {Certificate, PublicKey, PrivateKey}

  -- The token is at most 30 seconds old, and signed under the key of a certificate that the trusted
  -- authorities have issued.
  pub record Allowed (now : ℕ) (req : SignedQueryRequest) : Type 0 where
    pub fresh : ltb_ℤ (pos token_ttl) (elapsed now req.token.issued_at) ≡ false
    pub cert : Certificate
    pub key : PublicKey
    pub parsed : crypto.parse_certificate req.cert_der ≡ ok cert
    pub trusted : crypto.verify_chain cert ≡ none
    pub has_key : crypto.public_key cert ≡ some key
    pub signed : crypto.verify_asn1 key (token_digest crypto req.token) req.token.signature ≡ true

  Allowed-passes :
      (now : ℕ) (req : SignedQueryRequest) → Allowed now req → check_request crypto now req ≡ none
  unfolding check_request check_certificate check_key
  Allowed-passes now req a =
      rw a.fresh (rw (a.parsed, a.trusted, a.has_key, a.signed, check_certificate) refl)

  key_passes :
      (t : QueryToken) (key : Option PublicKey)
      → check_key crypto t key ≡ none
      → (k : PublicKey) × (key ≡ some k)
        × (crypto.verify_asn1 k (token_digest crypto t) t.signature ≡ true)
  unfolding check_key
  key_passes t none e = cc
  key_passes t (some k) e = (k, refl, ground arith)

  passes-Allowed :
      (now : ℕ) (req : SignedQueryRequest) → check_request crypto now req ≡ none → Allowed now req
  unfolding check_request check_certificate
  passes-Allowed now req h =
      elim (Bool-cases (ltb_ℤ (pos token_ttl) (elapsed now req.token.issued_at))) [
        | inl old ↦ absurd (ground arith)
        | inr fresh ↦ elim (Result-cases (crypto.parse_certificate req.cert_der)) [
          | inr (x, e) ↦ absurd (ground arith)
          | inl (cert, e) ↦ elim (Option-cases (crypto.verify_chain cert)) [
            | inr (x, f) ↦ absurd (ground arith)
            | inl f ↦
                let (k, has, signed) =
                  key_passes req.token (crypto.public_key cert) (ground arith) in
                record {
                  fresh = fresh;
                  cert = cert;
                  key = k;
                  parsed = e;
                  trusted = f;
                  has_key = has;
                  signed = signed;
                }
          ]
        ]
      ]

  -- AuthorisedQuery answers with results exactly where the token is at most 30 seconds old and
  -- signed under the key of a trusted certificate, and the results are those of the query that the
  -- token names.
  pub authorised_query_iff :
      (ask : Embedding → ℤ → List MemoryResult) (now : ℕ) (req : SignedQueryRequest)
      (results : List MemoryResult)
      → (authorised_query crypto ask now req ≡ ok results)
        ↔ (Allowed now req × (ask req.token.embedding req.token.top_k ≡ results))
  unfolding authorised_query
  authorised_query_iff ask now req results = elim (Option-cases (check_request crypto now req)) [
    | inl passes ↦ (λ h. (passes-Allowed now req passes, ground arith), λ h. ground arith)
    | inr (e, refused) ↦
        (λ h. absurd (ground arith), λ h. absurd (ground (arith, Allowed-passes now req h.0)))
  ]

  -- The token in front of its signature.
  abbrev unsigned : ℕ → Embedding → ℤ → Bytes → QueryToken
  unsigned sent embedding top_k node_id = record {
    node_id = node_id;
    issued_at = pos sent;
    top_k = top_k;
    embedding = embedding;
    signature = [];
  }

  signed_with-inverse :
      (t0 t : QueryToken) (leaf der : Bytes) (r : Result Text Bytes)
      → signed_with crypto t0 leaf r ≡ ok (t, der)
      → (s : Bytes) × (r ≡ ok s)
        × (◌≡◌ {A = SignedQueryRequest}
            (record { token = record t0 { signature = s }; cert_der = leaf })
            (record { token = t; cert_der = der }))
  unfolding signed_with
  signed_with-inverse t0 t leaf der (ok s) h = (s, refl, cc)
  signed_with-inverse t0 t leaf der (err x) h = cc

  -- The signature is not part of what is signed.
  unsigned-digest :
      (t : QueryToken) (s : Bytes)
      → token_digest crypto (record t { signature = s }) ≡ token_digest crypto t
  unfolding token_digest digest_text
  unsigned-digest t s = refl

  fresh_token :
      (sent now : ℕ)
      → sent ≤ now
      → now ≤ sent + token_ttl
      → ltb_ℤ (pos token_ttl) (elapsed now (pos sent)) ≡ false
  unfolding elapsed
  fresh_token sent now le soon = ground arith

  -- A token that SignQuery makes is served with the results that it asks for, for 30 seconds, if
  -- its leaf certificate is trusted and has the key for its private key; whatever other
  -- certificates the configuration has.
  pub sign_query-authorised :
      (ask : Embedding → ℤ → List MemoryResult) (leaf : Bytes) (key : PrivateKey)
      (more : List (Bytes × Option PrivateKey)) (cert : Certificate) (public : PublicKey)
      (sent now : ℕ) (embedding : Embedding) (top_k : ℤ) (node_id : Bytes) (t : QueryToken)
      (der : Bytes)
      → crypto.parse_certificate leaf ≡ ok cert
      → crypto.verify_chain cert ≡ none
      → crypto.public_key cert ≡ some public
      → ((d s : Bytes) → crypto.sign_asn1 key d ≡ ok s → crypto.verify_asn1 public d s ≡ true)
      → sent ≤ now
      → now ≤ sent + token_ttl
      → sign_query crypto ((leaf, some key) ∷ more) sent embedding top_k node_id ≡ ok (t, der)
      → authorised_query crypto ask now (record { token = t; cert_der = der })
        ≡ ok (ask embedding top_k)
  unfolding signed_with sign_query
  sign_query-authorised ask leaf key more cert public sent now embedding top_k node_id t der parsed
        trusted has_key valid le soon h =
      let t0 = unsigned sent embedding top_k node_id in
      let (s, made, same) =
        signed_with-inverse t0 t leaf der (crypto.sign_asn1 key (token_digest crypto t0)) h in
      subst (λ req. authorised_query crypto ask now req ≡ ok (ask embedding top_k)) same
        ((authorised_query_iff ask now
            (record { token = record t0 { signature = s }; cert_der = leaf })
            (ask embedding top_k)).1
          (
            record {
              fresh = fresh_token sent now le soon;
              cert = cert;
              key = public;
              parsed = parsed;
              trusted = trusted;
              has_key = has_key;
              signed = rw (unsigned-digest t0 s) (valid (token_digest crypto t0) s made);
            },
            refl,
          ))
