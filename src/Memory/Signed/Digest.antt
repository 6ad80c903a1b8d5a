-- ===== src/Memory/Signed/Digest.antt =====
-- memory/signed_store.go: what the signature of a token covers.
use aethercore.Prelude.{◌^◌, ◌<◌, ◌≡◌, refl, ap, arith, [], ◌∷◌, All, length, length-append}
use aethercore.Prelude.Bytes.{be_bytes, be_bytes_split, append_split, length-be_bytes}
use aethercore.Prelude.Int.{ℤ, pos, negsuc}
use aethercore.Memory.Vectors.{Embedding}
use aethercore.Memory.Signed.{QueryToken, to_uint64, float_bytes, digest_text}

-- The range of an int64.
abbrev pub IsInt64 : ℤ → Type 0
IsInt64 (pos n) = n < 2 ^ 63
IsInt64 (negsuc n) = n < 2 ^ 63

to_uint64-lt : (z : ℤ) → to_uint64 z < 256 ^ 8
unfolding to_uint64
to_uint64-lt (pos n) = omega arith
to_uint64-lt (negsuc n) = omega arith

to_uint64-injective : (y z : ℤ) → IsInt64 y → IsInt64 z → to_uint64 y ≡ to_uint64 z → y ≡ z
unfolding to_uint64
to_uint64-injective (pos n) (pos m) h k e = ap pos (omega (arith, h, k, e))
to_uint64-injective (pos n) (negsuc m) h k e = absurd (omega (arith, h, k, e))
to_uint64-injective (negsuc n) (pos m) h k e = absurd (omega (arith, h, k, e))
to_uint64-injective (negsuc n) (negsuc m) h k e = ap negsuc (omega (arith, h, k, e))

float_bytes-injective :
    (xs ys : Embedding)
    → All (λ v. v < 256 ^ 4) xs
    → All (λ v. v < 256 ^ 4) ys
    → float_bytes xs ≡ float_bytes ys
    → xs ≡ ys
unfolding float_bytes
float_bytes-injective [] [] h k e = refl
float_bytes-injective [] (y ∷ ys) h k e =
    absurd (
      omega
        (arith, ap length e, length-append (be_bytes 4 y) (float_bytes ys), length-be_bytes 4 y))
float_bytes-injective (x ∷ xs) [] h k e =
    absurd (
      omega
        (arith, ap length e, length-append (be_bytes 4 x) (float_bytes xs), length-be_bytes 4 x))
float_bytes-injective (x ∷ xs) (y ∷ ys) h k e =
    let (front, back) = be_bytes_split 4 x y (float_bytes xs) (float_bytes ys) h.0 k.0 e in
    cc (front, float_bytes-injective xs ys h.1 k.1 back)

-- The ranges of Go's types: an int64, an int, the bits of float32 values, and a text whose length
-- an int holds.
pub record InRange (t : QueryToken) : Type 0 where
  pub node_id : length t.node_id < 2 ^ 63
  pub issued_at : IsInt64 t.issued_at
  pub top_k : IsInt64 t.top_k
  pub embedding : All (λ v. v < 256 ^ 4) t.embedding

-- Two tokens whose digests are of one text agree in the node, the time, the number of results and
-- the embedding: a signature covers each of them, and none runs into the next.
pub digest_text-covers :
    (s t : QueryToken)
    → InRange s
    → InRange t
    → digest_text s ≡ digest_text t
    → (s.node_id ≡ t.node_id)
      × (s.issued_at ≡ t.issued_at)
      × (s.top_k ≡ t.top_k)
      × (s.embedding ≡ t.embedding)
unfolding digest_text
digest_text-covers s t h k e =
    let (l, e1) =
      be_bytes_split 8 (length s.node_id) (length t.node_id) _ _ (omega (arith, h.node_id))
        (omega (arith, k.node_id)) e in
    let (id, e2) = append_split s.node_id t.node_id _ _ l e1 in
    let (at, e3) =
      be_bytes_split 8 (to_uint64 s.issued_at) (to_uint64 t.issued_at) _ _
        (to_uint64-lt s.issued_at) (to_uint64-lt t.issued_at) e2 in
    let (top, e4) =
      be_bytes_split 8 (to_uint64 s.top_k) (to_uint64 t.top_k) _ _ (to_uint64-lt s.top_k)
        (to_uint64-lt t.top_k) e3 in
    (
      id,
      to_uint64-injective s.issued_at t.issued_at h.issued_at k.issued_at at,
      to_uint64-injective s.top_k t.top_k h.top_k k.top_k top,
      float_bytes-injective s.embedding t.embedding h.embedding k.embedding e4,
    )
