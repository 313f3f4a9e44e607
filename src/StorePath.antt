-- ===== src/StorePath.antt =====
-- Store paths: src/libstore/path.cc, include/nix/store/path.hh and the parts of
-- src/libstore/store-dir-config.cc and src/libutil/hash.cc that name a path.
pub mod Laws
pub mod Parse
mod Tests
use Prim.Native.Nat.{bit_xor}
use archinix.Base.{
  ℕ, zero, suc, ◌+◌, ◌-◌, ◌/◌, ◌%◌, Bool, true, false, not, ◌&&◌, ◌||◌, [], ◌∷◌, ◌++◌, ltb, leb,
  ◌==◌, if◌then◌else◌, length, take, drop, replicate, Bytes, codes, eqb, Error, Result, ok, err,
  ◌>>◌, ◌>>?◌,
}
use archinix.Hash.{to_string, base16}
use archinix.Encoding.Nix32

abbrev pub hash_len : ℕ
hash_len = 32

abbrev pub max_path_len : ℕ
max_path_len = 211

unfoldable pub is_name_char : ℕ → Bool
is_name_char c =
    (leb b'0' c && leb c b'9')
    || (leb b'a' c && leb c b'z')
    || (leb b'A' c && leb c b'Z')
    || c == b'+'
    || c == b'-'
    || c == b'.'
    || c == b'_'
    || c == b'?'
    || c == b'='

unfoldable pub all_of : (ℕ → Bool) → Bytes → Bool
all_of p [] = true
all_of p (c ∷ cs) = p c && all_of p cs

-- The names that `checkName` refuses for their leading dots: `.` and `..`, alone or before a dash.
unfoldable pub has_bad_dots : Bytes → Bool
has_bad_dots [] = false
has_bad_dots (c ∷ []) = c == b'.'
has_bad_dots (c ∷ d ∷ []) = c == b'.' && (d == b'-' || d == b'.')
has_bad_dots (c ∷ d ∷ e ∷ cs) = c == b'.' && (d == b'-' || (d == b'.' && e == b'-'))

unfoldable pub check_name : Bytes → Result (Unit {0})
unfolding is_name_char all_of has_bad_dots eqb
check_name name =
    if eqb name []
    then err Error.bad_store_path
    else if ltb max_path_len (length name)
    then err Error.bad_store_path
    else if has_bad_dots name
    then err Error.bad_store_path
    else if not (all_of is_name_char name)
    then err Error.bad_store_path
    else ok tt

abbrev pub hash_part : Bytes → Bytes
hash_part base_name = take hash_len base_name

abbrev pub name : Bytes → Bytes
name base_name = drop (hash_len + 1) base_name

-- `StorePath::StorePath(std::string_view)`: the base name that the object holds.
unfoldable pub store_path : Bytes → Result Bytes
unfolding check_name
store_path base_name =
    if ltb (length base_name) (hash_len + 1)
    then err Error.bad_store_path
    else if not (all_of Nix32.is_hash_char (hash_part base_name))
    then err Error.bad_store_path
    else (check_name (name base_name) >>? λ u. ok base_name)

-- `StorePath::StorePath(const Hash &, std::string_view)`
unfoldable pub store_path_of_hash : Bytes → Bytes → Result Bytes
unfolding check_name
store_path_of_hash hash name_of =
    let base_name = Nix32.encode hash ++ (b'-' ∷ name_of) in
    check_name (name base_name) >>? λ u. ok base_name

-- `h.hash[i] ^= v`
unfoldable pub xor_at : Bytes → ℕ → ℕ → Bytes
xor_at [] i v = []
xor_at (x ∷ xs) zero v = bit_xor x v ∷ xs
xor_at (x ∷ xs) (suc i) v = x ∷ xor_at xs i v

-- The loop of `compressHash` over the bytes from index `i` on.
unfoldable pub compress_loop : ℕ → Bytes → ℕ → Bytes → Bytes
unfolding xor_at
compress_loop new_size [] i h = h
compress_loop new_size (b ∷ bs) i h = compress_loop new_size bs (i + 1) (xor_at h (i % new_size) b)

unfoldable pub compress_hash : Bytes → ℕ → Bytes
unfolding compress_loop
compress_hash hash new_size = compress_loop new_size hash 0 (replicate new_size 0)

-- `(storeDir + "/").append(path.to_string())`
unfoldable pub print_store_path : Bytes → Bytes → Bytes
print_store_path store_dir path = store_dir ++ (b'/' ∷ path)

-- SHA-256 is OpenSSL's: `sha256` stands for `hashString`.
module _ (sha256 : Bytes → Bytes) where
  unfoldable pub make_store_path : Bytes → Bytes → Bytes → Bytes → Result Bytes
  unfolding store_path_of_hash compress_hash
  make_store_path store_dir type hash name_of =
      let s =
        type ++ (codes ":" ++ (hash ++ (codes ":" ++ (store_dir ++ (codes ":" ++ name_of))))) in
      store_path_of_hash (compress_hash (sha256 s) 20) name_of

  unfoldable pub make_content_addressed_path : Bytes → Bytes → Bytes → Result Bytes
  unfolding make_store_path to_string
  make_content_addressed_path store_dir name_of nar_hash =
      make_store_path store_dir (codes "source") (to_string nar_hash base16 true) name_of
