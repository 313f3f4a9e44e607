-- ===== src/CanonPath/Order.antt =====
-- The order of `CanonPath`, src/libutil/include/nix/util/canon-path.hh, where char is signed.
use archinix.Base.{
  ℕ, ◌+◌, ◌-◌, ◌≤◌, ◌<◌, ◌≡◌, refl, [], ◌∷◌, ◌++◌, arith, if◌then◌else◌, ltb, ◌==◌, Bytes,
}

pub data Ordering : Type 0 where
  less equal greater : Ordering

-- A char as a signed number, moved up by 128, with the separator as 0.
unfoldable pub char_key : ℕ → ℕ
char_key c = if c == b'/' then 128 else if ltb c 128 then c + 128 else c - 128

unfoldable pub compare_keys : ℕ → ℕ → Ordering
compare_keys a b = if ltb a b then less else if ltb b a then greater else equal

unfoldable pub compare : Bytes → Bytes → Ordering
compare [] [] = equal
compare [] (d ∷ t) = less
compare (c ∷ s) [] = greater
compare (c ∷ s) (d ∷ t) = elim (compare_keys (char_key c) (char_key d)) [
  | less ↦ less
  | greater ↦ greater
  | equal ↦ compare s t
]

compare_keys_refl : (a : ℕ) → compare_keys a a ≡ equal
unfolding compare_keys
compare_keys_refl a = ground arith

key_above : (c : ℕ) → 128 ≤ c → c < 256 → compare_keys (char_key c) (char_key b'/') ≡ less
unfolding compare_keys char_key
key_above c h l = ground (arith, h, l)

-- After a common prefix, a byte of 128 or above sorts before the separator.
compare_above_ascii :
    (p s t : Bytes) (c : ℕ) → 128 ≤ c → c < 256 → compare (p ++ (c ∷ s)) (p ++ (b'/' ∷ t)) ≡ less
unfolding compare
compare_above_ascii [] s t c h l = rw (key_above c h l, compare) refl
compare_above_ascii (x ∷ p) s t c h l =
    rw (compare_keys_refl (char_key x), compare) (compare_above_ascii p s t c h l)
