-- ===== src/Archive/Tests.antt =====
-- Runs of src/libutil/archive.cc.
use archinix.Base.{
  ℕ, suc, ◌≡◌, refl, ◌≢◌, Bool, true, false, [], ◌∷◌, ◌++◌, append-nil, arith, All, Bytes, IsByte,
  codes, eqb, ltb, ltb→lt, and-true, ◌&&◌, lt_bytes, contains_byte, Error, ok, err,
}
use archinix.Archive.Tree.{
  Node, regular, directory, symlink, special, fifo, end, entry, is_invalid_name, is_invalid_target,
}
use archinix.Serialise.{write_string, write_num, write_padding}
use archinix.Archive.Dump.{dump_regular, dump_contents, dump, dump_path}
use archinix.Archive.Parse.{parse, parse_dump}
use archinix.Archive.Format.{nar, calls, IsArchivable}
use archinix.Archive.RoundTrip.{parse_ok, parse_dump-dump_path}
use archinix.Archive.Canonical.{parse_canonical}
use archinix.Archive.Fuel.{parse-terminates}

-- A directory with an executable, a pipe that is left out, and a link.
abbrev sample : Node
sample = directory (
    entry (codes "bin") true (regular true (codes "run")) (
      entry (codes "pipe") true (special fifo)
        (entry (codes "to") false (symlink (codes "bin")) end)))

sample-IsArchivable : (left : ℕ) → IsArchivable false (suc (suc left)) sample
unfolding is_invalid_name is_invalid_target eqb contains_byte lt_bytes
sample-IsArchivable left = (
  omega arith,
  (
    refl,
    omega arith,
    refl,
    (omega arith, omega arith),
    (refl, omega arith, refl, (omega arith, refl, omega arith), tt),
  ),
)

parse_dump-dump_path_example :
    (bytes : Bytes) × (dump_path sample ≡ ok bytes)
    × (parse_dump false (bytes ++ []) ≡ ok (calls false [] sample, []))
parse_dump-dump_path_example = parse_dump-dump_path false sample [] (sample-IsArchivable 62)

parse-terminates_example : parse true 64 [] (5 ∷ 0 ∷ []) ≢ err Error.out_of_fuel
parse-terminates_example = parse-terminates true 64 [] (5 ∷ 0 ∷ [])

unfoldable are_bytes : Bytes → Bool
are_bytes [] = true
are_bytes (b ∷ bs) = ltb b 256 && are_bytes bs

are_bytes_sound : (bs : Bytes) → are_bytes bs ≡ true → All IsByte bs
unfolding are_bytes
are_bytes_sound [] h = tt
are_bytes_sound (b ∷ bs) h =
    let (first, others) = and-true (ltb b 256) (are_bytes bs) h in
    (ltb→lt b 256 first, are_bytes_sound bs others)

-- A file of one byte.
abbrev file : Node
file = regular false (7 ∷ [])

file_bytes_ok : are_bytes (nar file) ≡ true
unfolding are_bytes nar write_string write_num write_padding dump_regular dump_contents
file_bytes_ok = refl

file_parses : parse false 64 [] (nar file) ≡ ok (calls false [] file, [])
file_parses =
    let h = parse_ok false 64 [] file [] (omega arith, omega arith) in
    rw (append-nil (nar file)) at h

parse_canonical_example :
    (t : Node) × (bytes : Bytes) × IsArchivable false 64 t
    × (dump 0 t ≡ ok bytes)
    × (nar file ≡ bytes ++ [])
    × (calls false [] file ≡ calls false [] t)
parse_canonical_example =
    parse_canonical 0 64 [] (nar file) (calls false [] file) [] refl
      (are_bytes_sound (nar file) file_bytes_ok) file_parses
