-- ===== src/LruCache/Tests.antt =====
-- Runs of src/libutil/include/nix/util/lru-cache.hh.
use archinix.Base.{ℕ, ◌≡◌, refl, none, [], ◌∷◌, arith, codes, eqb}
use archinix.LruCache.{LruCache, remove_key, find, remove, erase, retire, upsert, get}
use archinix.LruCache.Invariant.{IsCache, contains, keys, upsert-IsCache}

-- Two entries, of which `a` was used longest ago.
abbrev two : LruCache ℕ
two = record {
  capacity = 2;
  entries = (codes "a", 1) ∷ (codes "b", 2) ∷ [];
  lru = codes "a" ∷ codes "b" ∷ [];
}

two-IsCache : IsCache two
unfolding keys contains eqb
two-IsCache = record {
  unique_entries = (refl, (refl, tt));
  unique_lru = (refl, (refl, tt));
  same = λ q. refl;
  bound = omega arith;
}

upsert-IsCache_example : IsCache (upsert (codes "c") 3 two)
upsert-IsCache_example = upsert-IsCache (codes "c") 3 two two-IsCache

-- The use of `a` saves it, and `b` goes.
evicted : (get (codes "b") (upsert (codes "c") 3 (get (codes "a") two).1)).0 ≡ none
unfolding get upsert erase retire find remove remove_key eqb
evicted = refl
