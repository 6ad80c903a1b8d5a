-- ===== src/Memory/Storage.antt =====
-- core/memory/zestdb_adapter.go and types.go: the storage of entries in a map. After Close the map
-- is nil: reads find nothing, and a write panics. Each call holds the lock throughout. The lower case
-- of a text is a parameter.
pub mod Search
use aethercore.Prelude.{
  ℕ, zero, suc, Bool, true, false, not, ◌||◌, Option, none, some, List, [], ◌∷◌, GoMap, lookup,
  insert, delete, length, leb, nat_eq, ◌==◌, eq_list, eq_nat, if◌then◌else◌,
}
use aethercore.Prelude.Int.{ℤ, pos, negsuc}
use aethercore.Prelude.Result.{Result, ok, err}
use aethercore.Prelude.Text.{Text, codes, contains}

pub record MemoryEntry : Type 0 where
  pub id : Text
  pub content : Text
  pub metadata : GoMap Text Text
  pub created_at : ℕ

-- The part of SearchOptions that Search reads.
pub record SearchOptions : Type 0 where
  pub limit : ℤ
  pub tags : List Text

pub data StorageError : Type 0 where
  id_required not_found : StorageError
  nil_map : StorageError  -- the panic of a write to a nil map

-- `none` is the nil map.
pub record Storage : Type 0 where
  pub entries : Option (GoMap Text MemoryEntry)

-- NewZestDBStorage
abbrev pub new_storage : Storage
new_storage = record { entries = some [] }

-- what `range` and a read see
abbrev pub contents : Storage → GoMap Text MemoryEntry
contents s = elim s.entries [ none ↦ [] | some m ↦ m ]

-- Put
unfoldable pub put : Storage → MemoryEntry → Option StorageError × Storage
put s entry = if entry.id == [] then (some id_required, s) else elim s.entries [
  | none ↦ (some nil_map, s)
  | some m ↦ (none, record s { entries = some (insert entry.id entry m) })
]

-- Get
unfoldable pub get : Storage → Text → Result StorageError MemoryEntry
get s id = elim (lookup id (contents s)) [ none ↦ err not_found | some entry ↦ ok entry ]

-- Delete
unfoldable pub remove : Storage → Text → Storage
remove s id = elim s.entries [ none ↦ s | some m ↦ record s { entries = some (delete id m) } ]

-- the loop over the tags
unfoldable pub any_tag : List Text → GoMap Text Text → Bool
any_tag [] metadata = false
any_tag (tag ∷ tags) metadata =
    let rest = any_tag tags metadata in elim (lookup tag metadata) [ none ↦ rest | some _ ↦ true ]

unfoldable pub has_tags : List Text → MemoryEntry → Bool
has_tags [] entry = true
has_tags (tag ∷ tags) entry = any_tag (tag ∷ tags) entry.metadata

-- opts.Limit > 0 && n >= opts.Limit
unfoldable pub is_full : ℤ → ℕ → Bool
is_full (pos zero) n = false
is_full (pos (suc limit)) n = leb (suc limit) n
is_full (negsuc limit) n = false

-- Close
unfoldable pub close : Storage → Storage
close s = record s { entries = none }

module _ (to_lower : Text → Text) where
  unfoldable pub contains_ignore_case : Text → Text → Bool
  contains_ignore_case s substr = contains (to_lower s) (to_lower substr)

  -- the loop over the values of the metadata
  unfoldable pub any_value : Text → GoMap Text Text → Bool
  any_value query [] = false
  any_value query ((key, val) ∷ m) =
      let rest = any_value query m in if contains_ignore_case val query then true else rest

  -- the match of an entry, by its content or its metadata
  unfoldable pub is_match : Text → MemoryEntry → Bool
  is_match query entry =
      (query == []) || (contains_ignore_case entry.content query || any_value query entry.metadata)

  -- the loop of Search over the entries, with the number of results so far; the entries stand in the
  -- order in which `range` meets them
  unfoldable pub search_entries :
      Text → SearchOptions → ℕ → GoMap Text MemoryEntry → List MemoryEntry
  search_entries query opts n [] = []
  search_entries query opts n ((key, entry) ∷ m) = elim (is_match query entry) [
    | false ↦ search_entries query opts n m
    | true ↦ elim (has_tags opts.tags entry) [
      | false ↦ search_entries query opts n m
      | true ↦ elim (is_full opts.limit (suc n)) [
        | true ↦ entry ∷ []
        | false ↦ entry ∷ search_entries query opts (suc n) m
      ]
    ]
  ]

  -- Search
  unfoldable pub search_storage : Storage → Text → SearchOptions → List MemoryEntry
  unfolding search_entries
  search_storage s query opts = search_entries query opts 0 (contents s)
