-- ===== src/Store/Schema.antt =====
-- The tables of src/libstore/schema.sql and the statements that src/libstore/local-store.cc prepares
-- on them. SQLite runs a statement whole or not at all; foreign keys are on (src/libstore/sqlite.cc).
use archinix.Base.{
  ℕ, suc, ◌≡◌, refl, Bool, false, ◌&&◌, ◌||◌, Option, none, some, List, [], ◌∷◌, ◌++◌, ◌==◌,
  if◌then◌else◌, Bytes, eqb, Error,
}

-- A row of ValidPaths. The columns that may be null are options.
pub record Row : Type 0 where
  pub id : ℕ
  pub path : Bytes
  pub hash : Bytes
  pub registration_time : ℕ
  pub nar_size : Option ℕ
  pub ca : Option Bytes

-- The database: ValidPaths, the pairs (referrer, reference) of Refs, and the last id given out.
pub record Db : Type 0 where
  pub rows : List Row
  pub refs : List (ℕ × ℕ)
  pub last_id : ℕ

pub data StoreError : Type 0 where
  path_in_use invalid_path not_content_addressed constraint_failed : StoreError
  hash_mismatch size_mismatch still_rooted invalid_hash_prefix system_error : StoreError
  unreadable : Error → StoreError

pub data Outcome {ℓ} (A : Type ℓ) : Type ℓ where
  done : A → Outcome A
  failed : StoreError → Outcome A

infixl 5 ◌>>!◌
abbrev pub ◌>>!◌ {ℓ κ} : {A : Type ℓ} {B : Type κ} → Outcome A → (A → Outcome B) → Outcome B
done a >>! f = f a
failed e >>! f = failed e

pub >>!-eq-done {ℓ κ} :
    {A : Type ℓ} {B : Type κ} (m : Outcome A) (f : A → Outcome B) {b : B}
    → (m >>! f) ≡ done b
    → (a : A) × (m ≡ done a) × (f a ≡ done b)
>>!-eq-done (done a) f h = (a, refl, h)
>>!-eq-done (failed e) f h = cc

-- `select ... from ValidPaths where path = ?`; the column is unique.
unfoldable pub find_row : Bytes → List Row → Option Row
find_row p [] = none
find_row p (r ∷ rs) = if eqb r.path p then some r else find_row p rs

unfoldable pub has_id : ℕ → List Row → Bool
has_id i [] = false
has_id i (r ∷ rs) = r.id == i || has_id i rs

-- `insert into ValidPaths`: a path that is there violates `unique`; the id is a new one.
unfoldable pub insert_row : Db → Bytes → Bytes → ℕ → Option ℕ → Option Bytes → Outcome Db
unfolding find_row
insert_row db p hash time size ca = elim (find_row p db.rows) [
  | some r ↦ failed StoreError.constraint_failed
  | none ↦ done (record db {
    rows =
        (record {
          id = suc db.last_id;
          path = p;
          hash = hash;
          registration_time = time;
          nar_size = size;
          ca = ca;
        })
        ∷ db.rows;
    last_id = suc db.last_id;
  })
]

-- `update ValidPaths set narSize = ?, hash = ?, ca = ? where path = ?`
unfoldable pub update_rows : List Row → Option ℕ → Bytes → Option Bytes → Bytes → List Row
update_rows [] size hash ca p = []
update_rows (r ∷ rs) size hash ca p =
    (if eqb r.path p then record r { hash = hash; nar_size = size; ca = ca } else r)
    ∷ update_rows rs size hash ca p

unfoldable pub remove_pair : ℕ → ℕ → List (ℕ × ℕ) → List (ℕ × ℕ)
remove_pair a b [] = []
remove_pair a b ((x, y) ∷ refs) =
    if x == a && y == b then remove_pair a b refs else (x, y) ∷ remove_pair a b refs

-- `insert or replace into Refs`: the pair is the primary key, and both ids must be there.
unfoldable pub add_reference : Db → ℕ → ℕ → Outcome Db
unfolding remove_pair has_id
add_reference db a b =
    if has_id a db.rows && has_id b db.rows
    then done (record db { refs = (a, b) ∷ remove_pair a b db.refs })
    else failed StoreError.constraint_failed

unfoldable pub is_referred : ℕ → List (ℕ × ℕ) → Bool
is_referred i [] = false
is_referred i ((x, y) ∷ refs) = y == i || is_referred i refs

-- `on delete cascade`: the references of a row go with it.
unfoldable pub remove_referrer : ℕ → List (ℕ × ℕ) → List (ℕ × ℕ)
remove_referrer i [] = []
remove_referrer i ((x, y) ∷ refs) =
    if x == i then remove_referrer i refs else (x, y) ∷ remove_referrer i refs

unfoldable pub remove_row : Bytes → List Row → List Row
remove_row p [] = []
remove_row p (r ∷ rs) = if eqb r.path p then remove_row p rs else r ∷ remove_row p rs

-- `delete from ValidPaths where path = ?`: the trigger drops the row's reference to itself first,
-- then `on delete restrict` refuses a row that another one refers to.
unfoldable pub delete_row : Db → Bytes → Outcome Db
unfolding find_row remove_pair is_referred remove_referrer remove_row
delete_row db p = elim (find_row p db.rows) [
  | none ↦ done db
  | some r ↦
      let refs = remove_pair r.id r.id db.refs in
      if is_referred r.id refs
      then failed StoreError.constraint_failed
      else done (record db { rows = remove_row p db.rows; refs = remove_referrer r.id refs })
]

-- `select path from ... on id = i`: the paths of the rows with an id.
unfoldable pub paths_of_id : ℕ → List Row → List Bytes
paths_of_id i [] = []
paths_of_id i (r ∷ rs) = if r.id == i then r.path ∷ paths_of_id i rs else paths_of_id i rs

-- `QueryReferences`
unfoldable pub reference_paths : ℕ → List Row → List (ℕ × ℕ) → List Bytes
unfolding paths_of_id
reference_paths i rows [] = []
reference_paths i rows ((x, y) ∷ refs) =
    (if x == i then paths_of_id y rows else []) ++ reference_paths i rows refs

-- `QueryReferrers`, for the id of the path.
unfoldable pub referrer_paths : ℕ → List Row → List (ℕ × ℕ) → List Bytes
unfolding paths_of_id
referrer_paths i rows [] = []
referrer_paths i rows ((x, y) ∷ refs) =
    (if y == i then paths_of_id x rows else []) ++ referrer_paths i rows refs
