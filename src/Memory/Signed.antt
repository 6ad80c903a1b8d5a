-- ===== src/Memory/Signed.antt =====
-- memory/signed_store.go: tokens that allow one query, and the store that asks for them. Parsing
-- and verifying of certificates, ECDSA and SHA-256 are parameters; an error of theirs is its text.
-- Times are nanoseconds since 1970. The texts of errors that only name their cause are left out.
pub mod Digest
pub mod Exchange
use aethercore.Prelude.{
  ℕ, suc, ◌+◌, ◌-◌, ◌%◌, ◌^◌, Bool, true, false, not, Option, none, some, List, [], ◌∷◌, ◌++◌,
  length, if◌then◌else◌,
}
use aethercore.Prelude.Bytes.{Bytes, be_bytes}
use aethercore.Prelude.Int.{ℤ, pos, negsuc, sub_ℕ, ltb_ℤ}
use aethercore.Prelude.Result.{Result, ok, err}
use aethercore.Prelude.Text.{Text, codes}
use aethercore.Memory.Vectors.{Embedding, Floats, MemoryResult, VectorStore, query}

-- tokenTTL
abbrev pub token_ttl : ℕ
token_ttl = 30000000000

pub record QueryToken : Type 0 where
  pub node_id : Bytes
  pub issued_at : ℤ
  pub top_k : ℤ
  pub embedding : Embedding
  pub signature : Bytes

-- A request whose token is not nil.
pub record SignedQueryRequest : Type 0 where
  pub token : QueryToken
  pub cert_der : Bytes

pub record SignedQueryResponse : Type 0 where
  pub results : List MemoryResult
  pub error : Text

pub data MemoryError : Type 0 where
  token_expired token_invalid bad_key no_certificate : MemoryError
  parse_peer_cert unknown_node sign_token : Text → MemoryError

-- What the store takes from Go's crypto packages. A public key that is not of ECDSA is `none`.
pub record Crypto : Type 1 where
  pub Certificate : Type 0
  pub PublicKey : Type 0
  pub PrivateKey : Type 0
  pub parse_certificate : Bytes → Result Text Certificate
  pub verify_chain : Certificate → Option Text
  pub public_key : Certificate → Option PublicKey
  pub sha256 : Bytes → Bytes
  pub verify_asn1 : PublicKey → Bytes → Bytes → Bool
  pub sign_asn1 : PrivateKey → Bytes → Result Text Bytes
  pub message_of : MemoryError → Text

-- uint64(v) of an int64
unfoldable pub to_uint64 : ℤ → ℕ
to_uint64 (pos n) = n % 2 ^ 64
to_uint64 (negsuc n) = 2 ^ 64 - suc (n % 2 ^ 64)

unfoldable pub float_bytes : Embedding → Bytes
float_bytes [] = []
float_bytes (v ∷ vs) = be_bytes 4 v ++ float_bytes vs

-- what tokenDigest hashes
unfoldable pub digest_text : QueryToken → Bytes
unfolding float_bytes to_uint64
digest_text t =
    be_bytes 8 (length t.node_id)
    ++ (t.node_id
        ++ (be_bytes 8 (to_uint64 t.issued_at)
            ++ (be_bytes 8 (to_uint64 t.top_k) ++ float_bytes t.embedding)))

-- time.Since(time.Unix(0, issued)), on unbounded integers
unfoldable pub elapsed : ℕ → ℤ → ℤ
elapsed now (pos issued) = sub_ℕ now issued
elapsed now (negsuc n) = pos (now + suc n)

module _ (crypto : Crypto) where
  open crypto use {PublicKey, PrivateKey, sha256}

  -- tokenDigest
  unfoldable pub token_digest : QueryToken → Bytes
  token_digest t = sha256 (digest_text t)

  -- The tests of AuthorisedQuery behind the key, in front of the query.
  pub check_key : QueryToken → Option PublicKey → Option MemoryError
  check_key t none = some bad_key
  check_key t (some key) =
      if not (crypto.verify_asn1 key (token_digest t) t.signature) then some token_invalid else none

  unfoldable pub check_certificate : QueryToken → Bytes → Option MemoryError
  unfolding check_key
  check_certificate t cert_der = elim (crypto.parse_certificate cert_der) [
    | err e ↦ some (parse_peer_cert e)
    | ok cert ↦ elim (crypto.verify_chain cert) [
      | some e ↦ some (unknown_node e)
      | none ↦ check_key t (crypto.public_key cert)
    ]
  ]

  -- The tests of AuthorisedQuery.
  unfoldable pub check_request : ℕ → SignedQueryRequest → Option MemoryError
  check_request now req =
      if ltb_ℤ (pos token_ttl) (elapsed now req.token.issued_at)
      then some token_expired
      else check_certificate req.token req.cert_der

  -- AuthorisedQuery at the time `now`, over the query of the store
  unfoldable pub authorised_query :
      (Embedding → ℤ → List MemoryResult)
      → ℕ
      → SignedQueryRequest
      → Result MemoryError (List MemoryResult)
  authorised_query ask now req = elim (check_request now req) [
    | some e ↦ err e
    | none ↦ ok (ask req.token.embedding req.token.top_k)
  ]

  pub signed_with : QueryToken → Bytes → Result Text Bytes → Result MemoryError (QueryToken × Bytes)
  signed_with t leaf (err e) = err (sign_token e)
  signed_with t leaf (ok signature) = ok (record t { signature = signature }, leaf)

  -- SignQuery at the time `now`; the first certificate of the configuration is its leaf and its
  -- private key, which is `none` where it is not of ECDSA
  unfoldable pub sign_query :
      List (Bytes × Option PrivateKey)
      → ℕ
      → Embedding
      → ℤ
      → Bytes
      → Result MemoryError (QueryToken × Bytes)
  unfolding signed_with
  sign_query [] now embedding top_k node_id = err no_certificate
  sign_query ((leaf, none) ∷ _) now embedding top_k node_id = err bad_key
  sign_query ((leaf, some key) ∷ _) now embedding top_k node_id =
      let t : QueryToken = record {
        node_id = node_id;
        issued_at = pos now;
        top_k = top_k;
        embedding = embedding;
        signature = [];
      } in
      signed_with t leaf (crypto.sign_asn1 key (token_digest t))

  pub response : Result MemoryError (List MemoryResult) → SignedQueryResponse
  response (ok results) = record { results = results; error = [] }
  response (err e) = record { results = []; error = crypto.message_of e }

  -- MemoryServer.handle: the response to what the decoder makes of the connection, a token, or nil,
  -- and a certificate. There is none where the token is nil: AuthorisedQuery panics.
  unfoldable pub handle :
      (Embedding → ℤ → List MemoryResult)
      → ℕ
      → Result Text (Option QueryToken × Bytes)
      → Option SignedQueryResponse
  unfolding response
  handle ask now (err e) = some (record { results = []; error = codes "decode: " ++ e })
  handle ask now (ok (none, cert_der)) = none
  handle ask now (ok (some token, cert_der)) =
      some (response (authorised_query ask now (record { token = token; cert_der = cert_der })))
