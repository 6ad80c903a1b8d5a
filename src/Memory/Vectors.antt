-- ===== src/Memory/Vectors.antt =====
-- memory/vector_store.go: the store of embeddings. A float32 is its bits; the arithmetic of float64
-- and `sort.Slice` are parameters. Each call holds the lock throughout and is one step.
pub mod Best
use aethercore.Prelude.{
  ℕ, zero, suc, Bool, true, false, ◌||◌, Option, none, some, List, [], ◌∷◌, GoMap, lookup, insert,
  delete, length, take, map, select, nat_eq, eq_list, eq_nat, if◌then◌else◌,
}
use aethercore.Prelude.Int.{ℤ, pos, leb_ℤ, pos_part}
use aethercore.Prelude.Text.{Text}

-- An embedding: the bits of its float32 values.
abbrev pub Embedding : Type 0
Embedding = List ℕ

-- The floating-point numbers of Go, as far as the store uses them. `above` is `>` on float32.
pub record Floats : Type 1 where
  pub Float64 : Type 0
  pub zero64 : Float64
  pub widen : ℕ → Float64
  pub narrow : Float64 → ℕ
  pub add : Float64 → Float64 → Float64
  pub mul : Float64 → Float64 → Float64
  pub div : Float64 → Float64 → Float64
  pub sqrt : Float64 → Float64
  pub is_zero : Float64 → Bool
  pub above : ℕ → ℕ → Bool

pub record VectorEntry : Type 0 where
  pub id : Text
  pub embedding : Embedding
  pub payload : Text
  pub stored_at : ℕ

pub record MemoryResult : Type 0 where
  pub id : Text
  pub payload : Text
  pub score : ℕ

pub record VectorStore : Type 0 where
  pub entries : GoMap Text VectorEntry

abbrev pub new_vector_store : VectorStore
new_vector_store = record { entries = [] }

-- Store, at the time `now`
unfoldable pub store : VectorStore → ℕ → Text → Embedding → Text → VectorStore
store vs now id embedding payload = record vs {
  entries =
      insert id (record { id = id; embedding = embedding; payload = payload; stored_at = now })
        vs.entries;
}

-- Delete
unfoldable pub remove : VectorStore → Text → Bool × VectorStore
remove vs id = elim (lookup id vs.entries) [
  | none ↦ (false, vs)
  | some _ ↦ (true, record vs { entries = delete id vs.entries })
]

-- Get
unfoldable pub get : VectorStore → Text → Option VectorEntry
get vs id = lookup id vs.entries

-- Len
unfoldable pub len : VectorStore → ℕ
len vs = length vs.entries

module _ (floats : Floats) where
  open floats use {Float64, zero64, widen, narrow, add, mul, div, sqrt, is_zero, above}

  -- the loop of cosineSimilarity; it runs on vectors of one length only
  unfoldable pub sums :
      Embedding → Embedding → Float64 × Float64 × Float64 → Float64 × Float64 × Float64
  sums (a ∷ as_) (b ∷ bs) (dot, norm_a, norm_b) = sums as_ bs (
    add dot (mul (widen a) (widen b)),
    add norm_a (mul (widen a) (widen a)),
    add norm_b (mul (widen b) (widen b)),
  )
  sums _ _ acc = acc

  pub quotient : Float64 × Float64 × Float64 → ℕ
  quotient (dot, norm_a, norm_b) =
      if is_zero norm_a || is_zero norm_b
      then 0
      else narrow (div dot (mul (sqrt norm_a) (sqrt norm_b)))

  -- cosineSimilarity
  unfoldable pub cosine_similarity : Embedding → Embedding → ℕ
  unfolding quotient sums
  cosine_similarity a b = quotient (sums a b (zero64, zero64, zero64))

  -- the test of the dimension
  unfoldable pub same_length : Embedding → VectorEntry → Bool
  same_length embedding e = nat_eq (length e.embedding) (length embedding)

  unfoldable pub result_of : Embedding → VectorEntry → MemoryResult
  result_of embedding e = record {
    id = e.id;
    payload = e.payload;
    score = cosine_similarity embedding e.embedding;
  }

  -- the loop over the entries
  unfoldable pub candidates : VectorStore → Embedding → List MemoryResult
  candidates vs embedding =
      map (result_of embedding) (select (same_length embedding) (map (λ e. e.1) vs.entries))

  -- the order of the results
  unfoldable pub better : MemoryResult → MemoryResult → Bool
  better r s = above r.score s.score

  -- Query
  unfoldable pub query :
      ((MemoryResult → MemoryResult → Bool) → List MemoryResult → List MemoryResult)
      → VectorStore
      → Embedding
      → ℤ
      → List MemoryResult
  query sort vs embedding top_k =
      if leb_ℤ top_k (pos 0) || nat_eq (length embedding) 0
      then []
      else take (pos_part top_k) (sort better (candidates vs embedding))
