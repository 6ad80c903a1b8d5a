-- ===== src/Memory/Storage/Search.antt =====
-- core/memory/zestdb_adapter.go: what Search answers.
use aethercore.Prelude.{
  ℕ, zero, suc, ◌+◌, ◌≡◌, refl, ap, sym, le→leb, GoMap, ◌∙◌, inl, inr, arith, Bool, true, false,
  ◌||◌, Option, none, some, lookup, Option-cases, ◌==◌, eq_list, eq_nat, Bool-cases, ◌&&◌, List, [],
  ◌∷◌, map, take, select, leb,
}
use aethercore.Prelude.Int.{ℤ, pos, negsuc}
use aethercore.Prelude.Text.{Text, contains}
use aethercore.Memory.Storage.{
  MemoryEntry, SearchOptions, Storage, contents, is_match, has_tags, any_value, any_tag,
  contains_ignore_case, is_full, search_entries, search_storage,
}

-- Of a list the first `limit` elements, and all of it where the limit is not positive.
abbrev pub limited : {A : Type 0} → ℤ → List A → List A
limited (pos zero) xs = xs
limited (pos (suc n)) xs = take (suc n) xs
limited (negsuc n) xs = xs

is_full-positive : (l : ℤ) (limit k : ℕ) → l ≡ pos (suc limit) → is_full l k ≡ leb (suc limit) k
unfolding is_full
is_full-positive l limit k h = rw h refl

-- One more hit fills the results, or leaves room for `left` more.
last_hit :
    (opts : SearchOptions) (n limit : ℕ)
    → opts.limit ≡ pos (suc limit)
    → n + 1 ≡ suc limit
    → is_full opts.limit (suc n) ≡ true
last_hit opts n limit h sum =
    is_full-positive opts.limit limit (suc n) h ∙ le→leb (suc limit) (suc n) (omega arith)

more_hits :
    (opts : SearchOptions) (n left limit : ℕ)
    → opts.limit ≡ pos (suc limit)
    → n + suc (suc left) ≡ suc limit
    → is_full opts.limit (suc n) ≡ false
more_hits opts n left limit h sum = is_full-positive opts.limit limit (suc n) h ∙ ground arith

never_full : (opts : SearchOptions) (n : ℕ) → opts.limit ≡ pos 0 → is_full opts.limit n ≡ false
unfolding is_full
never_full opts n h = rw h refl

never_full_negative :
    (opts : SearchOptions) (n k : ℕ) → opts.limit ≡ negsuc k → is_full opts.limit n ≡ false
unfolding is_full
never_full_negative opts n k h = rw h refl

abbrev pub present : {A : Type 0} → Option A → Bool
present none = false
present (some x) = true

abbrev pub no_tags : List Text → Bool
no_tags [] = true
no_tags (tag ∷ tags) = false

module _ (to_lower : Text → Text) where
  -- A text holds the query, whatever the case.
  abbrev pub holds : Text → Text → Bool
  holds query s = contains (to_lower s) (to_lower query)

  abbrev pub any : {A : Type 0} → (A → Bool) → List A → Bool
  any test [] = false
  any test (x ∷ xs) = test x || any test xs

  -- What Search looks for: the query in the content or in a value of the metadata, and a key of the
  -- metadata that is one of the tags. An empty query, and no tags, ask for nothing.
  abbrev pub wanted : Text → List Text → MemoryEntry → Bool
  wanted query tags e =
      (query == [] || (holds query e.content || any (λ p. holds query p.1) e.metadata))
      && (no_tags tags || any (λ tag. present (lookup tag e.metadata)) tags)

  -- The entries that Search may answer with.
  abbrev pub hits : Text → List Text → GoMap Text MemoryEntry → List MemoryEntry
  hits query tags m = select (wanted query tags) (map (λ p. p.1) m)

  any_value_lem :
      (query : Text) (m : GoMap Text Text)
      → any_value to_lower query m ≡ any (λ p. holds query p.1) m
  unfolding any_value contains_ignore_case
  any_value_lem query [] = refl
  any_value_lem query ((key, val) ∷ m) = ground (arith, any_value_lem query m)

  any_tag_lem :
      (tags : List Text) (metadata : GoMap Text Text)
      → any_tag tags metadata ≡ any (λ tag. present (lookup tag metadata)) tags
  unfolding any_tag
  any_tag_lem [] metadata = refl
  any_tag_lem (tag ∷ tags) metadata = elim (Option-cases (lookup tag metadata)) [
    | inl e ↦ rw (e, any_tag) (any_tag_lem tags metadata)
    | inr (v, e) ↦ rw (e, any_tag) refl
  ]

  wanted_lem :
      (query : Text) (tags : List Text) (e : MemoryEntry)
      → wanted query tags e ≡ (is_match to_lower query e && has_tags tags e)
  unfolding is_match has_tags contains_ignore_case
  wanted_lem query [] e = rw (any_value_lem query e.metadata) refl
  wanted_lem query (tag ∷ tags) e =
      rw (any_value_lem query e.metadata, any_tag_lem (tag ∷ tags) e.metadata) refl

  -- The entries that pass the tests of the code.
  abbrev matches : Text → List Text → GoMap Text MemoryEntry → List MemoryEntry
  matches query tags m =
      select (λ e. is_match to_lower query e && has_tags tags e) (map (λ p. p.1) m)

  matches-hits :
      (query : Text) (tags : List Text) (m : GoMap Text MemoryEntry)
      → matches query tags m ≡ hits query tags m
  matches-hits query tags m =
      ap (λ test. select test (map (λ p. p.1) m)) (λ i e. sym (wanted_lem query tags e) i)

  search_unlimited :
      (query : Text) (opts : SearchOptions) (n : ℕ) (m : GoMap Text MemoryEntry)
      → ((k : ℕ) → is_full opts.limit k ≡ false)
      → search_entries to_lower query opts n m ≡ matches query opts.tags m
  unfolding search_entries
  search_unlimited query opts n [] h = refl
  search_unlimited query opts n ((key, e) ∷ m) h = elim (Bool-cases (is_match to_lower query e)) [
    | inr miss ↦ rw (miss, search_entries) (search_unlimited query opts n m h)
    | inl hit ↦ elim (Bool-cases (has_tags opts.tags e)) [
      | inr untagged ↦ rw (hit, untagged, search_entries) (search_unlimited query opts n m h)
      | inl tagged ↦
          rw (hit, tagged, h (suc n), search_entries)
            (ap (λ xs. e ∷ xs) (search_unlimited query opts (suc n) m h))
    ]
  ]

  search_limited :
      (query : Text) (opts : SearchOptions) (n left limit : ℕ) (m : GoMap Text MemoryEntry)
      → opts.limit ≡ pos (suc limit)
      → n + suc left ≡ suc limit
      → search_entries to_lower query opts n m ≡ take (suc left) (matches query opts.tags m)
  unfolding search_entries
  search_limited query opts n left limit [] h sum = refl
  search_limited query opts n left limit ((key, e) ∷ m) h sum =
      elim (Bool-cases (is_match to_lower query e)) [
        | inr miss ↦ rw (miss, search_entries) (search_limited query opts n left limit m h sum)
        | inl hit ↦ elim (Bool-cases (has_tags opts.tags e)) [
          | inr untagged ↦
              rw (hit, untagged, search_entries) (search_limited query opts n left limit m h sum)
          | inl tagged ↦
              rw (hit, tagged, search_entries)
                (found left sum
                  (λ left' sum'. search_limited query opts (suc n) left' limit m h sum'))
        ]
      ]
    where
      found :
          (left : ℕ)
          → n + suc left ≡ suc limit
          → ((left' : ℕ)
              → suc n + suc left' ≡ suc limit
              → search_entries to_lower query opts (suc n) m
                ≡ take (suc left') (matches query opts.tags m))
          → ◌≡◌ {A = List MemoryEntry}
              (elim (is_full opts.limit (suc n)) as (λ x. List MemoryEntry) [
                | true ↦ e ∷ []
                | false ↦ e ∷ search_entries to_lower query opts (suc n) m
              ])
              (e ∷ take left (matches query opts.tags m))
      found zero sum ih = rw (last_hit opts n limit h (omega (arith, sum))) refl
      found (suc left') sum ih =
          rw (more_hits opts n left' limit h sum)
            (ap (λ xs. e ∷ xs) (ih left' (omega (arith, sum))))

  -- Search answers the entries whose content or metadata hold the text, and that have one of the
  -- tags where tags are given, in the order of the walk: the first of them up to the limit, or all
  -- where the limit is not positive.
  pub search_storage-hits :
      (s : Storage) (query : Text) (opts : SearchOptions)
      → search_storage to_lower s query opts
        ≡ limited opts.limit (hits query opts.tags (contents s))
  unfolding search_storage
  search_storage-hits s query opts =
      by_limit opts.limit refl ∙ ap (limited opts.limit) (matches-hits query opts.tags (contents s))
    where
      by_limit :
          (l : ℤ)
          → opts.limit ≡ l
          → search_entries to_lower query opts 0 (contents s)
            ≡ limited opts.limit (matches query opts.tags (contents s))
      by_limit (pos zero) h =
          search_unlimited query opts 0 (contents s) (λ k. never_full opts k h)
          ∙ sym (ap (λ z. limited z (matches query opts.tags (contents s))) h)
      by_limit (pos (suc limit)) h =
          search_limited query opts 0 limit limit (contents s) h (omega arith)
          ∙ sym (ap (λ z. limited z (matches query opts.tags (contents s))) h)
      by_limit (negsuc n) h =
          search_unlimited query opts 0 (contents s) (λ k. never_full_negative opts k n h)
          ∙ sym (ap (λ z. limited z (matches query opts.tags (contents s))) h)
