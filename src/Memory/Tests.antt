-- ===== src/Memory/Tests.antt =====
-- The theorems on the memory at two vectors, a token, two entries and a short conversation.
use aethercore.Prelude.{
  ℕ, ◌+◌, ◌*◌, ◌/◌, ◌≡◌, ◌↔◌, refl, arith, Bool, true, none, some, List, [], ◌∷◌, nat_eq, ltb,
}
use aethercore.Prelude.Bytes.{Bytes}
use aethercore.Prelude.Int.{ℤ, pos}
use aethercore.Prelude.Result.{ok}
use aethercore.Prelude.Sorting.{Sorted}
use aethercore.Prelude.Text.{Text, codes, to_lower}
use aethercore.Engine.Tools.{Message}
use aethercore.Memory.Signed.{
  QueryToken, SignedQueryRequest, Crypto, digest_text, token_digest, sign_query, authorised_query,
}
use aethercore.Memory.Signed.Digest.{InRange, digest_text-covers}
use aethercore.Memory.Signed.Exchange.{Allowed, authorised_query_iff}
use aethercore.Memory.Storage.{MemoryEntry, Storage, contents, search_storage}
use aethercore.Memory.Storage.Search.{hits, limited, search_storage-hits}
use aethercore.Memory.Vectors.{
  Embedding, Floats, MemoryResult, VectorStore, better, candidates, query, same_length,
}
use aethercore.Memory.Vectors.Best.{Best, in_dimension, scores_above, query-Best}

-- Numbers without a fraction in the place of floats.
abbrev whole : Floats
whole = record {
  Float64 = ℕ;
  zero64 = 0;
  widen = λ n. n;
  narrow = λ n. n;
  add = λ a b. a + b;
  mul = λ a b. a * b;
  div = λ a b. a / b;
  sqrt = λ n. n;
  is_zero = λ n. nat_eq n 0;
  above = λ a b. ltb b a;
}

abbrev two_vectors : VectorStore
two_vectors = record {
  entries =
      (
        codes "a",
        record { id = codes "a"; embedding = 1 ∷ 0 ∷ []; payload = codes "east"; stored_at = 5 },
      )
      ∷ (
        codes "b",
        record { id = codes "b"; embedding = 1 ∷ []; payload = codes "short"; stored_at = 6 },
      )
      ∷ [];
}

abbrev unchanged : (MemoryResult → MemoryResult → Bool) → List MemoryResult → List MemoryResult
unchanged less rs = rs

one_candidate :
    Sorted
      (better whole)
      (candidates whole two_vectors (1 ∷ 0 ∷ []))
      (unchanged (better whole) (candidates whole two_vectors (1 ∷ 0 ∷ [])))
unfolding candidates same_length
one_candidate = record { kept = λ P h. h; complete = λ P h. h; size = refl; ordered = (tt, tt) }

query-Best_example :
    Best
      (scores_above whole)
      3
      (in_dimension whole (1 ∷ 0 ∷ []) two_vectors.entries)
      (query whole unchanged two_vectors (1 ∷ 0 ∷ []) (pos 3))
query-Best_example = query-Best whole unchanged two_vectors 1 (0 ∷ []) 2 one_candidate

-- A certificate is its bytes, and a signature is what is signed.
abbrev transparent : Crypto
transparent = record {
  Certificate = Bytes;
  PublicKey = Unit;
  PrivateKey = Unit;
  parse_certificate = λ der. ok der;
  verify_chain = λ cert. none;
  public_key = λ cert. some tt;
  sha256 = λ b. b;
  verify_asn1 = λ key d s. true;
  sign_asn1 = λ key d. ok d;
  message_of = λ e. codes "refused";
}

abbrev token : Bytes → QueryToken
token s = record {
  node_id = codes "node";
  issued_at = pos 1000;
  top_k = pos 2;
  embedding = 1 ∷ 0 ∷ [];
  signature = s;
}

token-InRange : (s : Bytes) → InRange (token s)
token-InRange s = record {
  node_id = omega arith;
  issued_at = omega arith;
  top_k = omega arith;
  embedding = (omega arith, (omega arith, tt));
}

same_digest : digest_text (token (1 ∷ [])) ≡ digest_text (token (2 ∷ []))
unfolding digest_text
same_digest = refl

digest_text-covers_example :
    ((token (1 ∷ [])).node_id ≡ (token (2 ∷ [])).node_id)
    × ((token (1 ∷ [])).issued_at ≡ (token (2 ∷ [])).issued_at)
    × ((token (1 ∷ [])).top_k ≡ (token (2 ∷ [])).top_k)
    × ((token (1 ∷ [])).embedding ≡ (token (2 ∷ [])).embedding)
digest_text-covers_example =
    digest_text-covers (token (1 ∷ [])) (token (2 ∷ [])) (token-InRange (1 ∷ []))
      (token-InRange (2 ∷ [])) same_digest

abbrev answer : Embedding → ℤ → List MemoryResult
answer embedding top_k = record { id = codes "a"; payload = codes "east"; score = 1 } ∷ []

abbrev asked : SignedQueryRequest
asked = record { token = token (9 ∷ []); cert_der = 48 ∷ [] }

authorised_query_iff_example :
    (authorised_query transparent answer 2000 asked
      ≡ ok (record { id = codes "a"; payload = codes "east"; score = 1 } ∷ []))
    ↔ (Allowed transparent 2000 asked
        × (answer asked.token.embedding asked.token.top_k
            ≡ record { id = codes "a"; payload = codes "east"; score = 1 } ∷ []))
authorised_query_iff_example =
    authorised_query_iff transparent answer 2000 asked
      (record { id = codes "a"; payload = codes "east"; score = 1 } ∷ [])

abbrev signed_token : QueryToken
signed_token = token (digest_text (token []))

signed_made :
    sign_query transparent ((48 ∷ [], some tt) ∷ []) 1000 (1 ∷ 0 ∷ []) (pos 2) (codes "node")
    ≡ ok (signed_token, 48 ∷ [])
unfolding sign_query digest_text token_digest
signed_made = refl

abbrev note : Text → Text → MemoryEntry
note id content = record {
  id = id;
  content = content;
  metadata = (codes "role", codes "user") ∷ [];
  created_at = 5;
}

abbrev notes : Storage
notes = record {
  entries = some (
      (codes "a", note (codes "a") (codes "Hello"))
      ∷ (codes "b", note (codes "b") (codes "bye"))
      ∷ []);
}

search_storage-hits_example :
    search_storage to_lower notes
      (codes "hello")
      (record { limit = pos 1; tags = codes "role" ∷ [] })
    ≡ limited (pos 1) (hits to_lower (codes "hello") (codes "role" ∷ []) (contents notes))
search_storage-hits_example =
    search_storage-hits to_lower notes (codes "hello")
      (record { limit = pos 1; tags = codes "role" ∷ [] })

abbrev hello : Message
hello = record { role = codes "user"; content = codes "hi"; tool_calls = []; tool_results = [] }
