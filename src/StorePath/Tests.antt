-- ===== src/StorePath/Tests.antt =====
-- Runs of src/libstore/path.cc.
use archinix.Base.{
  ℕ, zero, suc, ◌%◌, ◌≤◌, ◌≡◌, refl, ◌≢◌, Bool, true, false, [], ◌∷◌, ◌++◌, length, replicate, All,
  Bytes, codes, contains_byte, Result, ok, err,
}
use archinix.Encoding.Nix32
use archinix.Encoding.Base16
use archinix.Hash.{to_string}
use archinix.StorePath.{
  check_name, store_path_of_hash, make_content_addressed_path, all_of, is_name_char, has_bad_dots,
  make_store_path, compress_hash, compress_loop, xor_at,
}
use archinix.Base.{eqb}
use archinix.CanonPath.Resolve.{is_entry, render, NoSlash}
use archinix.CanonPath.Canonical.{IsEntry}
use archinix.StorePath.{print_store_path}
use archinix.StorePath.Parse.{parse_store_path, parse_store_path-print_store_path}
use archinix.StorePath.Laws.{store_path_separator, check_name_safe}

abbrev digest : Bytes
digest = replicate 20 171

abbrev text_of_digest : Bytes
text_of_digest = replicate 32 b'a'

hello_ok : check_name (codes "hello-2.12") ≡ ok tt
unfolding check_name all_of is_name_char has_bad_dots
hello_ok = refl

text-IsHash : (n : ℕ) → All (λ c. Nix32.is_hash_char c ≡ true) (replicate n b'a')
unfolding Nix32.is_hash_char Nix32.lookup_reverse Nix32.index_of
text-IsHash zero = tt
text-IsHash (suc n) = (refl, text-IsHash n)

check_name_safe_example :
    (contains_byte b'/' (codes "hello-2.12") ≡ false)
    × (contains_byte 0 (codes "hello-2.12") ≡ false)
    × (codes "hello-2.12" ≢ [])
    × (codes "hello-2.12" ≢ codes ".")
    × (codes "hello-2.12" ≢ codes "..")
    × (length (codes "hello-2.12") ≤ 211)
check_name_safe_example = check_name_safe (codes "hello-2.12") hello_ok

abbrev ok_or_nil : Result Bytes → Bytes
ok_or_nil (ok b) = b
ok_or_nil (err e) = []

abbrev is_ok : Result Bytes → Bool
is_ok (ok b) = true
is_ok (err e) = false

ok_or_nil_ok : (r : Result Bytes) → is_ok r ≡ true → r ≡ ok (ok_or_nil r)
ok_or_nil_ok (ok b) h = refl
ok_or_nil_ok (err e) h = absurd cc

abbrev built : Result Bytes
built = store_path_of_hash digest (codes "hello-2.12")

built_ok : is_ok built ≡ true
unfolding store_path_of_hash check_name all_of is_name_char has_bad_dots Nix32.encode
    Nix32.encoded_length
built_ok = refl

-- In the place of the digest, a function that repeats the last byte of the length.
abbrev lengths : Bytes → Bytes
lengths s = replicate 32 (length s % 256)

abbrev addressed : Result Bytes
addressed =
    make_content_addressed_path lengths (codes "/nix/store") (codes "hello-2.12") (replicate 32 7)

addressed_ok : is_ok addressed ≡ true
unfolding make_content_addressed_path make_store_path compress_hash compress_loop xor_at to_string
    Base16.encode store_path_of_hash check_name all_of is_name_char has_bad_dots Nix32.encode
    Nix32.encoded_length
addressed_ok = refl

abbrev hello : Bytes
hello = text_of_digest ++ codes "-hello-2.12"

hello-NoSlash : NoSlash hello
unfolding contains_byte
hello-NoSlash = refl

store_dirs-IsEntry : All IsEntry (codes "store" ∷ codes "nix" ∷ [])
unfolding contains_byte is_entry eqb
store_dirs-IsEntry = ((refl, refl), ((refl, refl), tt))

parse_store_path-print_store_path_example :
    parse_store_path
      (render (codes "store" ∷ codes "nix" ∷ []))
      (print_store_path (render (codes "store" ∷ codes "nix" ∷ [])) hello)
    ≡ ok hello
parse_store_path-print_store_path_example =
    parse_store_path-print_store_path (codes "store") hello (codes "nix" ∷ []) store_dirs-IsEntry
      hello-NoSlash
      (store_path_separator text_of_digest b'-' (codes "hello-2.12") refl (text-IsHash 32) hello_ok)
