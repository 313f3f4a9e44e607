-- ===== src/LruCache/Invariant.antt =====
-- What every operation of the cache in src/libutil/include/nix/util/lru-cache.hh keeps.
use archinix.Base.{
  ◌≤◌, ◌<◌, ◌≡◌, refl, sym, ap, ◌∙◌, ◌⊎◌, inl, inr, Bool, true, false, ◌||◌, none, some, List, [],
  ◌∷◌, ◌++◌, arith, leb, ◌==◌, Bool-cases, Option-cases, length, Bytes, eqb, eqb_refl, eqb→eq,
}
use mathlib.Core.Path.{subst}
use archinix.LruCache.{LruCache, remove_key, find, remove, promote, erase, retire, upsert, get}

unfoldable pub contains : Bytes → List Bytes → Bool
contains q [] = false
contains q (k ∷ ks) = eqb k q || contains q ks

abbrev pub AreUnique : List Bytes → Type 0
AreUnique [] = Unit {0}
AreUnique (k ∷ ks) = (contains k ks ≡ false) × AreUnique ks

eqb_sym : (k q : Bytes) → eqb k q ≡ false → eqb q k ≡ false
eqb_sym k q h = elim (Bool-cases (eqb q k)) [
  | inl e ↦ absurd (let bad = rw (eqb→eq q k e) at h in cc (bad, eqb_refl k))
  | inr e ↦ e
]

contains-remove_key : (k : Bytes) (ks : List Bytes) → contains k (remove_key k ks) ≡ false
unfolding contains remove_key
contains-remove_key k [] = refl
contains-remove_key k (q ∷ ks) = elim (Bool-cases (eqb q k)) [
  | inl e ↦ rw e (contains-remove_key k ks)
  | inr e ↦ rw e (rw e (contains-remove_key k ks))
]

contains-remove_key_other :
    (k q : Bytes) (ks : List Bytes) → eqb k q ≡ false → contains q (remove_key k ks) ≡ contains q ks
unfolding contains remove_key
contains-remove_key_other k q [] ne = refl
contains-remove_key_other k q (r ∷ ks) ne = elim (Bool-cases (eqb r k)) [
  | inl e ↦ rw e (rw (eqb→eq r k e) (rw ne (contains-remove_key_other k q ks ne)))
  | inr e ↦ rw e (ap (λ b. eqb r q || b) (contains-remove_key_other k q ks ne))
]

contains-remove_key_absent :
    (k q : Bytes) (ks : List Bytes) → contains q ks ≡ false → contains q (remove_key k ks) ≡ false
contains-remove_key_absent k q ks h = elim (Bool-cases (eqb k q)) [
  | inl e ↦ rw (← eqb→eq k q e) (contains-remove_key k ks)
  | inr e ↦ contains-remove_key_other k q ks e ∙ h
]

AreUnique-remove_key : (k : Bytes) (ks : List Bytes) → AreUnique ks → AreUnique (remove_key k ks)
unfolding remove_key
AreUnique-remove_key k [] h = tt
AreUnique-remove_key k (q ∷ ks) (new, h) = elim (Bool-cases (eqb q k)) [
  | inl e ↦ rw e (AreUnique-remove_key k ks h)
  | inr e ↦
      rw e (contains-remove_key_other k q ks (eqb_sym q k e) ∙ new, AreUnique-remove_key k ks h)
]

remove_key-absent : (k : Bytes) (ks : List Bytes) → contains k ks ≡ false → remove_key k ks ≡ ks
unfolding contains remove_key
remove_key-absent k [] h = refl
remove_key-absent k (q ∷ ks) h = elim (Bool-cases (eqb q k)) [
  | inl e ↦ absurd (let bad = rw (e, contains) at h in cc)
  | inr e ↦ rw e (ap (q ∷◌) (remove_key-absent k ks (rw (e, contains) at h)))
]

length-remove_key :
    (k : Bytes) (ks : List Bytes)
    → (length (remove_key k ks) ≤ length ks)
      × (contains k ks ≡ true → length (remove_key k ks) < length ks)
unfolding contains remove_key
length-remove_key k [] = (omega arith, λ h. absurd cc)
length-remove_key k (q ∷ ks) =
    let (le, lt) = length-remove_key k ks in
    elim (Bool-cases (eqb q k)) [
      | inl e ↦ rw e (omega arith, λ h. omega arith)
      | inr e ↦ rw e (omega arith, λ h. omega (arith, lt h))
    ]

contains-snoc :
    (q k : Bytes) (ks : List Bytes) → contains q (ks ++ (k ∷ [])) ≡ (eqb k q || contains q ks)
unfolding contains
contains-snoc q k [] = refl
contains-snoc q k (r ∷ ks) = rw (contains-snoc q k ks) (swap (eqb r q) (eqb k q) (contains q ks))
  where
    swap : (a b c : Bool) → (a || (b || c)) ≡ (b || (a || c))
    swap true true c = refl
    swap true false c = refl
    swap false true c = refl
    swap false false c = refl

AreUnique-snoc :
    (k : Bytes) (ks : List Bytes)
    → contains k ks ≡ false
    → AreUnique ks
    → AreUnique (ks ++ (k ∷ []))
unfolding contains
AreUnique-snoc k [] new h = (refl, tt)
AreUnique-snoc k (q ∷ ks) new (first, h) = elim (Bool-cases (eqb q k)) [
  | inl e ↦ absurd (let bad = rw (e, contains) at new in cc)
  | inr e ↦ (
    contains-snoc q k ks ∙ rw (eqb_sym q k e) first,
    AreUnique-snoc k ks (rw (e, contains) at new) h,
  )
]

contains_nil : (q : Bytes) → contains q [] ≡ false
unfolding contains
contains_nil q = refl

contains_first : (k : Bytes) (ks : List Bytes) → contains k (k ∷ ks) ≡ true
unfolding contains
contains_first k ks = rw (eqb_refl k) refl

no_keys : (ks : List Bytes) → ((q : Bytes) → contains q ks ≡ false) → ks ≡ []
unfolding contains
no_keys [] h = refl
no_keys (k ∷ ks) h = absurd (let bad = h k in let bad' = rw (eqb_refl k, contains) at bad in cc)

List-cases : (ks : List Bytes) → (ks ≡ []) ⊎ ((k : Bytes) × (rest : List Bytes) × (ks ≡ k ∷ rest))
List-cases [] = inl refl
List-cases (k ∷ rest) = inr (k, rest, refl)

remove_key-oldest :
    (oldest : Bytes) (rest : List Bytes)
    → AreUnique (oldest ∷ rest)
    → remove_key oldest (oldest ∷ rest) ≡ rest
unfolding remove_key
remove_key-oldest oldest rest (new, h) = rw (eqb_refl oldest) (remove_key-absent oldest rest new)

module _ {V : Type 0} where
  unfoldable pub keys : List (Bytes × V) → List Bytes
  keys [] = []
  keys ((k, v) ∷ es) = k ∷ keys es

  keys-remove : (k : Bytes) (es : List (Bytes × V)) → keys (remove k es) ≡ remove_key k (keys es)
  unfolding keys remove remove_key
  keys-remove k [] = refl
  keys-remove k ((q, v) ∷ es) = elim (Bool-cases (eqb q k)) [
    | inl e ↦ rw e (keys-remove k es)
    | inr e ↦ rw e (ap (q ∷◌) (keys-remove k es))
  ]

  length-keys : (es : List (Bytes × V)) → length (keys es) ≡ length es
  unfolding keys
  length-keys [] = refl
  length-keys ((k, v) ∷ es) = omega (arith, length-keys es)

  find-none : (k : Bytes) (es : List (Bytes × V)) → find k es ≡ none → contains k (keys es) ≡ false
  unfolding find keys contains
  find-none k [] h = refl
  find-none k ((q, v) ∷ es) h = elim (Bool-cases (eqb q k)) [
    | inl e ↦ absurd (let bad = rw (e, find) at h in cc)
    | inr e ↦ rw e (find-none k es (rw (e, find) at h))
  ]

  -- The map and the list hold the same keys, each once, and no more than the capacity.
  pub record IsCache (c : LruCache V) : Type 0 where
    pub unique_entries : AreUnique (keys c.entries)
    pub unique_lru : AreUnique c.lru
    pub same : (q : Bytes) → contains q (keys c.entries) ≡ contains q c.lru
    pub bound : length c.entries ≤ c.capacity

  abbrev without : Bytes → LruCache V → LruCache V
  without k c = record c { entries = remove k c.entries; lru = remove_key k c.lru }

  length-remove :
      (k : Bytes) (es : List (Bytes × V)) → length (remove k es) ≡ length (remove_key k (keys es))
  length-remove k es = sym (length-keys (remove k es)) ∙ ap length (keys-remove k es)

  without-IsCache : (k : Bytes) (c : LruCache V) → IsCache c → IsCache (without k c)
  without-IsCache k c h = record {
    unique_entries =
        rw (keys-remove k c.entries) (AreUnique-remove_key k (keys c.entries) h.unique_entries);
    unique_lru = AreUnique-remove_key k c.lru h.unique_lru;
    same = λ q. rw (keys-remove k c.entries) (both q);
    bound = omega (
      arith,
      length-remove k c.entries,
      length-remove_key k (keys c.entries),
      length-keys c.entries,
      h.bound,
    );
  }
    where
      both :
          (q : Bytes) → contains q (remove_key k (keys c.entries)) ≡ contains q (remove_key k c.lru)
      both q = elim (Bool-cases (eqb k q)) [
        | inl e ↦
            rw (← eqb→eq k q e)
              (contains-remove_key k (keys c.entries) ∙ sym (contains-remove_key k c.lru))
        | inr e ↦
            contains-remove_key_other k q (keys c.entries) e
            ∙ h.same q
            ∙ sym (contains-remove_key_other k q c.lru e)
      ]

  pub erase-IsCache :
      (k : Bytes) (c : LruCache V)
      → IsCache c
      → IsCache (erase k c)
        × (contains k (keys (erase k c).entries) ≡ false)
        × ((erase k c).capacity ≡ c.capacity)
  unfolding erase
  erase-IsCache k c h = elim (Option-cases (find k c.entries)) [
    | inl e ↦ rw (e, erase) (h, find-none k c.entries e, refl)
    | inr (v, e) ↦
        rw (e, erase)
          (
            without-IsCache k c h,
            rw (keys-remove k c.entries) (contains-remove_key k (keys c.entries)),
            refl,
          )
  ]

  -- Where the cache is full, the oldest key goes from the map and from the list.
  pub retire-step :
      (c : LruCache V)
      → IsCache c
      → 0 < c.capacity
      → ((retire c ≡ c) × (length c.entries < c.capacity))
        ⊎ ((oldest : Bytes) × (rest : List Bytes) × (c.lru ≡ oldest ∷ rest)
            × (retire c ≡ without oldest c)
            × (c.capacity ≤ length c.entries))
  unfolding retire
  retire-step c h some_room = elim (Bool-cases (leb c.capacity (length c.entries))) [
    | inr e ↦ inl (rw (e, retire) refl, ground arith)
    | inl e ↦ elim (List-cases c.lru) [
      | inl l ↦
          let none_left : keys c.entries ≡ [] =
            no_keys (keys c.entries) (λ q. h.same q ∙ ap (contains q) l ∙ contains_nil q) in
          absurd (let n = ap length none_left in let m = length-keys c.entries in ground arith)
      | inr (oldest, rest, l) ↦
          let outcome : List Bytes → LruCache V = λ ks. elim ks [
            | [] ↦ c
            | k ∷ ks' ↦ record c { entries = remove k c.entries; lru = ks' }
          ] in
          let with_lru : List Bytes → LruCache V =
            λ ks. record c { entries = remove oldest c.entries; lru = ks } in
          let left : rest ≡ remove_key oldest c.lru = sym (
            ap (remove_key oldest) l
            ∙ remove_key-oldest oldest rest (subst AreUnique l h.unique_lru)) in
          let full : retire c ≡ outcome c.lru = rw (e, retire) refl in
          inr (oldest, rest, l, full ∙ ap outcome l ∙ ap with_lru left, ground arith)
    ]
  ]

  retire-IsCache :
      (k : Bytes) (c : LruCache V)
      → IsCache c
      → 0 < c.capacity
      → contains k (keys c.entries) ≡ false
      → IsCache (retire c)
        × (length (retire c).entries < (retire c).capacity)
        × (contains k (keys (retire c).entries) ≡ false)
        × ((retire c).capacity ≡ c.capacity)
  retire-IsCache k c h some_room absent = elim (retire-step c h some_room) [
    | inl (e, l) ↦ rw e (h, l, absent, refl)
    | inr (oldest, rest, l, e, full) ↦
        let gone = without-IsCache oldest c h in
        let there : contains oldest (keys c.entries) ≡ true =
          h.same oldest ∙ ap (contains oldest) l ∙ contains_first oldest rest in
        rw e (
          gone,
          omega (
            arith,
            length-remove oldest c.entries,
            (length-remove_key oldest (keys c.entries)).1 there,
            length-keys c.entries,
            h.bound,
          ),
          rw (keys-remove oldest c.entries)
              (contains-remove_key_absent oldest k (keys c.entries) absent),
          refl,
        )
  ]

  -- A new key in the map and at the back of the list.
  emplace-IsCache :
      (k : Bytes) (v : V) (c : LruCache V)
      → IsCache c
      → length c.entries < c.capacity
      → contains k (keys c.entries) ≡ false
      → IsCache (record c { entries = (k, v) ∷ c.entries; lru = c.lru ++ (k ∷ []) })
  unfolding keys contains
  emplace-IsCache k v c h room absent = record {
    unique_entries = (absent, h.unique_entries);
    unique_lru = AreUnique-snoc k c.lru (sym (h.same k) ∙ absent) h.unique_lru;
    same = λ q. ap (λ b. eqb k q || b) (h.same q) ∙ sym (contains-snoc q k c.lru);
    bound = omega (arith, room);
  }

  -- After `upsert` the map and the list of a cache hold the same keys, each once, and the cache holds no more
  -- than its capacity.
  pub upsert-IsCache : (k : Bytes) (v : V) (c : LruCache V) → IsCache c → IsCache (upsert k v c)
  unfolding upsert
  upsert-IsCache k v c h = elim (Bool-cases (c.capacity == 0)) [
    | inl e ↦ rw (e, upsert) h
    | inr e ↦
        let (kept, absent, same_capacity) = erase-IsCache k c h in
        let some_room : 0 < (erase k c).capacity =
          (let z : 0 < c.capacity = ground arith in omega arith) in
        let (kept2, room, absent2, same2) = retire-IsCache k (erase k c) kept some_room absent in
        rw (e, upsert) (emplace-IsCache k v (retire (erase k c)) kept2 room absent2)
  ]

  find-some :
      (k : Bytes) (es : List (Bytes × V)) (v : V) → find k es ≡ some v → contains k (keys es) ≡ true
  unfolding find keys contains
  find-some k [] v h = absurd cc
  find-some k ((q, w) ∷ es) v h = elim (Bool-cases (eqb q k)) [
    | inl e ↦ rw e refl
    | inr e ↦ rw e (find-some k es v (rw (e, find) at h))
  ]

  promote-IsCache :
      (k : Bytes) (c : LruCache V)
      → IsCache c
      → contains k (keys c.entries) ≡ true
      → IsCache (promote k c)
  promote-IsCache k c h there = record {
    unique_entries = h.unique_entries;
    unique_lru =
        AreUnique-snoc k (remove_key k c.lru) (contains-remove_key k c.lru)
          (AreUnique-remove_key k c.lru h.unique_lru);
    same = both;
    bound = h.bound;
  }
    where
      both : (q : Bytes) → contains q (keys c.entries) ≡ contains q (remove_key k c.lru ++ (k ∷ []))
      both q = elim (Bool-cases (eqb k q)) [
        | inl e ↦ rw (contains-snoc q k (remove_key k c.lru)) (rw e (rw (← eqb→eq k q e) there))
        | inr e ↦
            rw (contains-snoc q k (remove_key k c.lru))
              (rw e (h.same q ∙ sym (contains-remove_key_other k q c.lru e)))
      ]

  -- So they do after `get`, which keeps the entries as they are.
  get-IsCache :
      (k : Bytes) (c : LruCache V)
      → IsCache c
      → IsCache (get k c).1 × ((get k c).1.entries ≡ c.entries)
  unfolding get
  get-IsCache k c h = elim (Option-cases (find k c.entries)) [
    | inl e ↦ rw (e, get) (h, refl)
    | inr (v, e) ↦ rw (e, get) (promote-IsCache k c h (find-some k c.entries v e), refl)
  ]
