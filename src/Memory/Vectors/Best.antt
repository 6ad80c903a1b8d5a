-- ===== src/Memory/Vectors/Best.antt =====
-- memory/vector_store.go: what Query answers.
use aethercore.Prelude.{
  ℕ, zero, suc, refl, ap, inl, inr, GoMap, Bool-cases, nat_eq, if◌then◌else◌, ◌≡◌, subst, sym,
  arith, Bool, false, List, [], ◌∷◌, All, length, length-take, take, drop, min, eq_list, eq_nat,
}
use aethercore.Prelude.Text.{Text}
use aethercore.Prelude.Int.{pos}
use aethercore.Prelude.Sorting.{Sorted, Ordered, All-take, Ordered-take}
use aethercore.Memory.Vectors.{
  Embedding, Floats, VectorStore, VectorEntry, MemoryResult, cosine_similarity, same_length,
  result_of, candidates, better, query,
}

-- The best `k` of the candidates: as many as there are, up to `k`; each of them a candidate; in
-- order; and no candidate that is left out comes before one of them.
pub record Best (less : MemoryResult → MemoryResult → Bool) (k : ℕ) (cs rs : List MemoryResult)
    : Type 1 where
  pub size : length rs ≡ min k (length cs)
  pub among : (P : MemoryResult → Type 0) → All P cs → All P rs
  pub ordered : Ordered less rs
  pub others : List MemoryResult
  pub complete : (P : MemoryResult → Type 0) → All P rs → All P others → All P cs
  pub behind : All (λ r. All (λ z. less z r ≡ false) others) rs

All-parts :
    (P : MemoryResult → Type 0) (n : ℕ) (xs : List MemoryResult)
    → All P (take n xs)
    → All P (drop n xs)
    → All P xs
All-parts P zero xs h k = k
All-parts P (suc n) [] h k = tt
All-parts P (suc n) (x ∷ xs) h k = (h.0, All-parts P n xs h.1 k)

take-Best :
    (less : MemoryResult → MemoryResult → Bool) (k : ℕ) (cs ys : List MemoryResult)
    → Sorted less cs ys
    → Best less k cs (take k ys)
take-Best less k cs ys s = record {
  size = omega (arith, length-take {0} k ys, s.size);
  among = λ P h. All-take P k ys (s.kept P h);
  ordered = (Ordered-take less k ys s.ordered).0;
  others = drop k ys;
  complete = λ P h h'. s.complete P (All-parts P k ys h h');
  behind = (Ordered-take less k ys s.ordered).1;
}

-- The results of the entries whose embedding has as many numbers as the given one.
abbrev pub in_dimension : Floats → Embedding → GoMap Text VectorEntry → List MemoryResult
in_dimension floats embedding [] = []
in_dimension floats embedding ((key, e) ∷ m) =
    let rest = in_dimension floats embedding m in
    if nat_eq (length e.embedding) (length embedding)
    then record {
      id = e.id;
      payload = e.payload;
      score = cosine_similarity floats embedding e.embedding;
    }
      ∷ rest
    else rest

-- A higher score.
abbrev pub scores_above : Floats → MemoryResult → MemoryResult → Bool
scores_above floats r s = floats.above r.score s.score

candidates-in_dimension :
    (floats : Floats) (embedding : Embedding) (m : GoMap Text VectorEntry)
    → candidates floats (record { entries = m }) embedding ≡ in_dimension floats embedding m
unfolding candidates same_length result_of
candidates-in_dimension floats embedding [] = refl
candidates-in_dimension floats embedding ((key, e) ∷ m) =
    elim (Bool-cases (nat_eq (length e.embedding) (length embedding))) [
      | inl same ↦ rw same (
          ap (λ rs. result_of floats embedding e ∷ rs) (candidates-in_dimension floats embedding m))
      | inr other ↦ rw other (candidates-in_dimension floats embedding m)
    ]

-- For a positive number and an embedding that is not empty, Query answers the best of the entries
-- whose embedding has as many numbers, with their scores, by falling score, as many as are asked
-- for where there are so many, if the sort orders what it is given.
pub query-Best :
    (floats : Floats)
    (sort : (MemoryResult → MemoryResult → Bool) → List MemoryResult → List MemoryResult)
    (vs : VectorStore) (x : ℕ) (embedding : Embedding) (k : ℕ)
    → Sorted
        (better floats)
        (candidates floats vs (x ∷ embedding))
        (sort (better floats) (candidates floats vs (x ∷ embedding)))
    → Best
        (scores_above floats)
        (suc k)
        (in_dimension floats (x ∷ embedding) vs.entries)
        (query floats sort vs (x ∷ embedding) (pos (suc k)))
unfolding query better
query-Best floats sort vs x embedding k s =
    let found = candidates floats vs (x ∷ embedding) in
    let asked : query floats sort vs (x ∷ embedding) (pos (suc k))
        ≡ take (suc k) (sort (better floats) found) =
      ground arith in
    subst
      (λ cs.
        Best (scores_above floats) (suc k) cs (query floats sort vs (x ∷ embedding) (pos (suc k))))
      (candidates-in_dimension floats (x ∷ embedding) vs.entries)
      (subst (λ rs. Best (scores_above floats) (suc k) found rs) (sym asked)
        (take-Best (scores_above floats) (suc k) found (sort (better floats) found) s))
