-- ===== src/LruCache.antt =====
-- src/libutil/include/nix/util/lru-cache.hh. An iterator into the map is its key, and the list holds the
-- keys from the oldest to the one used last.
pub mod Invariant
pub mod Reads
mod Tests
use archinix.Base.{
  ℕ, ◌+◌, ◌-◌, ◌/◌, Option, none, some, List, [], ◌∷◌, ◌++◌, map, leb, ◌==◌, if◌then◌else◌, length,
  Bytes, eqb,
}

pub record LruCache (V : Type 0) : Type 0 where
  pub capacity : ℕ
  pub entries : List (Bytes × V)
  pub lru : List Bytes

unfoldable pub remove_key : Bytes → List Bytes → List Bytes
remove_key k [] = []
remove_key k (q ∷ qs) = if eqb q k then remove_key k qs else q ∷ remove_key k qs

module _ {V : Type 0} where
  -- `data.find`
  unfoldable pub find : Bytes → List (Bytes × V) → Option V
  find k [] = none
  find k ((q, v) ∷ es) = if eqb q k then some v else find k es

  unfoldable pub remove : Bytes → List (Bytes × V) → List (Bytes × V)
  remove k [] = []
  remove k ((q, v) ∷ es) = if eqb q k then remove k es else (q, v) ∷ remove k es

  abbrev pub empty_cache : ℕ → LruCache V
  empty_cache capacity = record { capacity = capacity; entries = []; lru = [] }

  -- `promote`
  abbrev pub promote : Bytes → LruCache V → LruCache V
  promote k c = record c { lru = remove_key k c.lru ++ (k ∷ []) }

  unfoldable pub erase : Bytes → LruCache V → LruCache V
  unfolding find remove remove_key
  erase k c = elim (find k c.entries) [
    | none ↦ c
    | some v ↦ record c { entries = remove k c.entries; lru = remove_key k c.lru }
  ]

  -- The oldest entry goes where the cache is full.
  unfoldable pub retire : LruCache V → LruCache V
  unfolding remove
  retire c =
      if leb c.capacity (length c.entries)
      then elim c.lru [
        | [] ↦ c
        | oldest ∷ rest ↦ record c { entries = remove oldest c.entries; lru = rest }
      ]
      else c

  unfoldable pub upsert : Bytes → V → LruCache V → LruCache V
  unfolding erase retire
  upsert k v c =
      if c.capacity == 0
      then c
      else let room = retire (erase k c) in
        record room { entries = (k, v) ∷ room.entries; lru = room.lru ++ (k ∷ []) }

  unfoldable pub get : Bytes → LruCache V → Option V × LruCache V
  unfolding find
  get k c = elim (find k c.entries) [ none ↦ (none, c) | some v ↦ (some v, promote k c) ]

  abbrev pub size : LruCache V → ℕ
  size c = length c.entries

  abbrev pub clear : LruCache V → LruCache V
  clear c = record c { entries = []; lru = [] }
