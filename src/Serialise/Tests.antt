-- ===== src/Serialise/Tests.antt =====
-- Runs of the framing of src/libutil/serialise.cc.
use archinix.Base.{
  ◌≤◌, ◌≡◌, refl, [], ◌∷◌, ◌++◌, arith, length, All, Bytes, IsByte, IsU64, codes, ok,
}
use archinix.Serialise.{
  write_string, read_string, read_num, read_exact, little_endian, read_padding,
}
use archinix.Serialise.Canonical.{read_string_inv}

abbrev nine : Bytes
nine = codes "nine char"

-- A short string with one byte behind it.
abbrev framed : Bytes
framed = 2 ∷ 0 ∷ 0 ∷ 0 ∷ 0 ∷ 0 ∷ 0 ∷ 0 ∷ b'o' ∷ b'k' ∷ 0 ∷ 0 ∷ 0 ∷ 0 ∷ 0 ∷ 0 ∷ 9 ∷ []

read_framed : read_string 32 framed ≡ ok (codes "ok", 9 ∷ [])
unfolding read_string read_num read_exact little_endian read_padding
read_framed = refl

read_string_inv_example :
    (framed ≡ write_string (codes "ok") ++ (9 ∷ []))
    × (length (codes "ok") ≤ 32)
    × IsU64 (length (codes "ok"))
    × All IsByte (9 ∷ [])
read_string_inv_example = read_string_inv 32 framed (ground arith) read_framed
