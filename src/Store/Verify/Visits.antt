-- ===== src/Store/Verify/Visits.antt =====
-- The walk of `verifyPath`: it ends, visits what it is asked to, and its errors have a cause.
use archinix.Base.{
  ℕ, zero, suc, ◌≤◌, ◌<◌, ◌≡◌, refl, sym, ap, ◌∙◌, ◌⊎◌, ◌↔◌, inl, inr, Bool, true, false, ◌&&◌,
  List, [], ◌∷◌, arith, if◌then◌else◌, Bool-cases, length, Bytes, eqb, eqb_refl, eqb→eq,
}
use archinix.Store.Schema.{Outcome, done}
use archinix.Store.Invalidate.{contains_path}
use archinix.Store.Verify.{Walk, blank, verify_each, verify_path, verify_paths}

-- How many paths of a list are not visited.
pub remaining : List Bytes → List Bytes → ℕ
remaining [] visited = 0
remaining (p ∷ ps) visited =
    if contains_path p visited then remaining ps visited else suc (remaining ps visited)

pub remaining-le : (ps : List Bytes) (visited : List Bytes) → remaining ps visited ≤ length ps
unfolding remaining
remaining-le [] visited = omega arith
remaining-le (p ∷ ps) visited = ground (arith, remaining-le ps visited)

abbrev pub Subset : List Bytes → List Bytes → Type 0
Subset ps qs = (q : Bytes) → contains_path q ps ≡ true → contains_path q qs ≡ true

remaining_mono :
    (ps visited visited' : List Bytes)
    → Subset visited visited'
    → remaining ps visited' ≤ remaining ps visited
unfolding remaining
remaining_mono [] visited visited' sub = omega arith
remaining_mono (p ∷ ps) visited visited' sub =
    ground (arith, remaining_mono ps visited visited' sub, sub p)

eqb_sym : (p q : Bytes) → eqb p q ≡ eqb q p
unfolding eqb
eqb_sym [] [] = refl
eqb_sym [] (y ∷ q) = refl
eqb_sym (x ∷ p) [] = refl
eqb_sym (x ∷ p) (y ∷ q) = ground (arith, eqb_sym p q)

Subset-cons : (p : Bytes) (ps : List Bytes) → Subset ps (p ∷ ps)
unfolding contains_path
Subset-cons p ps q h = ground (arith, h)

-- To visit a path of the list leaves fewer.
remaining-visit :
    (ps visited : List Bytes) (p : Bytes)
    → contains_path p ps ≡ true
    → contains_path p visited ≡ false
    → remaining ps (p ∷ visited) < remaining ps visited
unfolding remaining contains_path
remaining-visit [] visited p h n = cc
remaining-visit (q ∷ ps) visited p h n = elim (Bool-cases (eqb q p)) [
  | inl e ↦ rw (eqb→eq q p e) (
      rw (n, eqb_refl p)
        (ground (arith, remaining_mono ps visited (p ∷ visited) (Subset-cons p visited))))
  | inr e ↦
      let later = remaining-visit ps visited p (rw e at h) n in
      rw (eqb_sym p q ∙ e) (ground (arith, later))
]

contains_path_self : (p : Bytes) (ps : List Bytes) → contains_path p (p ∷ ps) ≡ true
unfolding contains_path
contains_path_self p ps = rw (eqb_refl p) refl

module _ (p : Bytes) (ps qs : List Bytes) (sub : Subset (p ∷ ps) qs) where
  Subset_head : contains_path p qs ≡ true
  Subset_head = sub p (contains_path_self p ps)

  Subset_tail : Subset ps qs
  Subset_tail q h = sub q (Subset-cons p ps q h)

abbrev pub Distinct : List Bytes → Type 0
Distinct [] = Unit {0}
Distinct (p ∷ ps) = (contains_path p ps ≡ false) × Distinct ps

module _ (universe : List Bytes) (exists_in_store_dir : Bytes → Bool) where
  -- The valid paths are those visited that are there, each once.
  abbrev pub IsSortedOut : Walk → Type 0
  IsSortedOut w =
      ((q : Bytes)
        → contains_path q w.valid_paths ≡ (contains_path q w.visited && exists_in_store_dir q))
      × Distinct w.valid_paths

  -- What a piece of the walk does.
  pub record Walked (w w' : Walk) : Type 0 where
    pub kept : Subset w.visited w'.visited
    pub seen :
        (q : Bytes)
        → contains_path q w'.visited ≡ true
        → (contains_path q w.visited ≡ true)
          ⊎ ((contains_path q universe ≡ true)
              × ((exists_in_store_dir q ≡ true) ⊎ (w'.errors ≡ true)))
    pub noted : w.errors ≡ true → w'.errors ≡ true
    pub caused :
        w'.errors ≡ true
        → (w.errors ≡ true)
          ⊎ ((q : Bytes) × (contains_path q universe ≡ true) × (exists_in_store_dir q ≡ false))
    pub sorted_out : IsSortedOut w → IsSortedOut w'

  walked_not : (w : Walk) → Walked w w
  walked_not w = record {
    kept = λ q h. h;
    seen = λ q h. inl h;
    noted = λ h. h;
    caused = λ h. inl h;
    sorted_out = λ h. h;
  }

  walked_on : {u v w : Walk} → Walked u v → Walked v w → Walked u w
  walked_on a b = record {
    kept = λ q h. b.kept q (a.kept q h);
    seen = λ q h. elim (b.seen q h) [
      | inr new ↦ inr new
      | inl old ↦ elim (a.seen q old) [
        | inl older ↦ inl older
        | inr (within, inl there) ↦ inr (within, inl there)
        | inr (within, inr bad) ↦ inr (within, inr (b.noted bad))
      ]
    ];
    noted = λ h. b.noted (a.noted h);
    caused = λ h. elim (b.caused h) [ inl bad ↦ a.caused bad | inr why ↦ inr why ];
    sorted_out = λ h. b.sorted_out (a.sorted_out h);
  }

  -- What the whole walk leaves.
  module _ (w : Walk) (walked : Walked blank w) (all : Subset universe w.visited) where
    visited-universe : (q : Bytes) → contains_path q w.visited ≡ contains_path q universe
    unfolding contains_path
    visited-universe q = elim (Bool-cases (contains_path q w.visited)) [
      | inl e ↦ elim (walked.seen q e) [ inl old ↦ cc | inr (within, _) ↦ e ∙ sym within ]
      | inr e ↦ elim (Bool-cases (contains_path q universe)) [
        | inl k ↦ all q k ∙ sym k
        | inr k ↦ e ∙ sym k
      ]
    ]

    pub valid_paths-universe :
        (q : Bytes)
        → contains_path q w.valid_paths ≡ (contains_path q universe && exists_in_store_dir q)
    unfolding contains_path
    valid_paths-universe q =
        (walked.sorted_out (λ p. refl, tt)).0 q
        ∙ ap (λ b. b && exists_in_store_dir q) (visited-universe q)

    pub valid_paths-Distinct : Distinct w.valid_paths
    unfolding contains_path
    valid_paths-Distinct = (walked.sorted_out (λ p. refl, tt)).1

    pub errors_iff :
        (w.errors ≡ true)
        ↔ ((q : Bytes) × (contains_path q universe ≡ true) × (exists_in_store_dir q ≡ false))
    unfolding contains_path
    errors_iff = (
      λ h. elim (walked.caused h) [ inl bad ↦ cc | inr why ↦ why ],
      λ (q, within, missing). elim (walked.seen q (all q within)) [
        | inl old ↦ cc
        | inr (_, inl there) ↦ cc
        | inr (_, inr bad) ↦ bad
      ],
    )

  module _ (referrers_of : Bytes → Outcome (List Bytes))
      (known : (p : Bytes)
        → contains_path p universe ≡ true
        → (ps : List Bytes) × (referrers_of p ≡ done ps) × Subset ps universe) where
    abbrev Visited : Bytes → Walk → Outcome Walk → Type 0
    Visited p w r = (w' : Walk) × (r ≡ done w') × Walked w w' × (contains_path p w'.visited ≡ true)

    abbrev Visits : ℕ → (Bytes → Walk → Outcome Walk) → Type 0
    Visits fuel verify =
        (p : Bytes) (w : Walk)
        → contains_path p universe ≡ true
        → remaining universe w.visited < fuel
        → Visited p w (verify p w)

    verify_each-walked :
        (fuel : ℕ) (verify : Bytes → Walk → Outcome Walk)
        → Visits fuel verify
        → (path : Bytes) (ps : List Bytes) (w : Walk) → Subset ps universe
        → remaining universe w.visited < fuel
        → (w' : Walk) × (verify_each verify path ps w ≡ done w') × Walked w w'
    unfolding verify_each
    verify_each-walked fuel verify visits path [] w sub enough = (w, refl, walked_not w)
    verify_each-walked fuel verify visits path (i ∷ ps) w sub enough =
        elim (Bool-cases (eqb i path)) [
          | inl e ↦ rw e (
              verify_each-walked fuel verify visits path ps w (Subset_tail i ps universe sub)
                enough)
          | inr e ↦
              let (w', is, walked, _) = visits i w (Subset_head i ps universe sub) enough in
              let (w'', ends, after) =
                verify_each-walked fuel verify visits path ps w' (Subset_tail i ps universe sub)
                  (omega (arith, remaining_mono universe w.visited w'.visited walked.kept)) in
              rw e (rw is (w'', ends, walked_on walked after))
        ]

    -- The path that is there.
    walked_there :
        (p : Bytes) (w : Walk)
        → contains_path p universe ≡ true
        → contains_path p w.visited ≡ false
        → exists_in_store_dir p ≡ true
        → Walked w (record w { visited = p ∷ w.visited; valid_paths = p ∷ w.valid_paths })
    unfolding contains_path
    walked_there p w within new there = record {
      kept = Subset-cons p w.visited;
      seen = λ q h. elim (Bool-cases (eqb p q)) [
        | inl e ↦ inr (rw (← eqb→eq p q e) within, inl (rw (← eqb→eq p q e) there))
        | inr e ↦ inl (rw e at h)
      ];
      noted = λ h. h;
      caused = λ h. inl h;
      sorted_out = λ (h, distinct). (
        λ q. elim (Bool-cases (eqb p q)) [
          | inl e ↦ rw (e, ← eqb→eq p q e) (sym there)
          | inr e ↦ rw e (h q)
        ],
        (ground (arith, h p, new), distinct),
      );
    }

    -- The path that is missing, once its referrers are walked.
    walked_missing :
        (p : Bytes) (w w' : Walk)
        → contains_path p universe ≡ true
        → exists_in_store_dir p ≡ false
        → Walked (record w { visited = p ∷ w.visited }) w'
        → Walked w (record w' { errors = true })
    unfolding contains_path
    walked_missing p w w' within missing walked = record {
      kept = λ q h. walked.kept q (Subset-cons p w.visited q h);
      seen = λ q h. elim (walked.seen q h) [
        | inr (inside, _) ↦ inr (inside, inr refl)
        | inl old ↦ elim (Bool-cases (eqb p q)) [
          | inl e ↦ inr (rw (← eqb→eq p q e) within, inr refl)
          | inr e ↦ inl (rw e at old)
        ]
      ];
      noted = λ h. refl;
      caused = λ h. inr (p, within, missing);
      sorted_out = λ (h, distinct). walked.sorted_out (
        λ q. elim (Bool-cases (eqb p q)) [
          | inl e ↦ rw (← eqb→eq p q e) (ground (arith, h p, missing))
          | inr e ↦ rw e (h q)
        ],
        distinct,
      );
    }

    verify_path-walked :
        (fuel : ℕ) → Visits fuel (verify_path exists_in_store_dir referrers_of fuel)
    unfolding verify_path
    verify_path-walked zero p w within enough = absurd (omega arith)
    verify_path-walked (suc fuel) p w within enough =
        elim (Bool-cases (contains_path p w.visited)) [
          | inl e ↦ rw e (w, refl, walked_not w, e)
          | inr new ↦ elim (Bool-cases (exists_in_store_dir p)) [
            | inl there ↦
                rw (new, there)
                  (_, refl, walked_there p w within new there, contains_path_self p w.visited)
            | inr missing ↦
                let (ps, are, sub) = known p within in
                let entered : Walk = record w { visited = p ∷ w.visited } in
                let (w', ends, walked) =
                  verify_each-walked fuel (verify_path exists_in_store_dir referrers_of fuel)
                    (verify_path-walked fuel) p ps entered sub
                    (omega (arith, remaining-visit universe w.visited p within new)) in
                rw (new, missing, are)
                  (rw ends (
                    _,
                    refl,
                    walked_missing p w w' within missing walked,
                    walked.kept p (contains_path_self p w.visited),
                  ))
          ]
        ]

    pub verify_paths-walked :
        (fuel : ℕ) (ps : List Bytes) (w : Walk)
        → Subset ps universe
        → remaining universe w.visited < fuel
        → (w' : Walk) × (verify_paths exists_in_store_dir referrers_of fuel ps w ≡ done w')
          × Walked w w'
          × Subset ps w'.visited
    unfolding verify_paths
    verify_paths-walked fuel [] w sub enough =
        (w, refl, walked_not w, λ q h. absurd (unfold contains_path in cc))
    verify_paths-walked fuel (p ∷ ps) w sub enough =
        let (v, is, walked, there) =
          verify_path-walked fuel p w (Subset_head p ps universe sub) enough in
        let (w', ends, after, all) =
          verify_paths-walked fuel ps v (Subset_tail p ps universe sub)
            (omega (arith, remaining_mono universe w.visited v.visited walked.kept)) in
        rw is (
          w',
          ends,
          walked_on walked after,
          λ q h. elim (Bool-cases (eqb p q)) [
            | inl e ↦ rw (← eqb→eq p q e) (after.kept p there)
            | inr e ↦ all q (rw (e, contains_path) at h)
          ],
        )
