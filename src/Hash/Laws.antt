-- ===== src/Hash/Laws.antt =====
-- A digest printed in base 16 and read back, for src/libutil/hash.cc, and a content address in Nix's
-- base 32, for src/libstore/content-address.cc.
use archinix.Base.{
  ◌≡◌, refl, ap, ◌∙◌, true, false, some, [], ◌∷◌, arith, ◌==◌, length, All, Bytes, IsByte, eqb, ok,
}
use archinix.Encoding.Base16
use archinix.Encoding.Nix32
use archinix.Encoding.Nix32.RoundTrip.{decode-encode}
use archinix.Hash.{
  base16, nix32, to_string, decode_by_size, parse_any_prefixed, render_ca, parse_ca, parse_ca_opt,
}

decode_by_size-base16 :
    (h : Bytes) → length h ≡ 32 → All IsByte h → decode_by_size (Base16.encode h) ≡ ok h
unfolding decode_by_size Base16.encoded_length
decode_by_size-base16 h l v = rw sized (Base16.decode-encode h v)
  where
    sized : (length (Base16.encode h) == 64) ≡ true
    sized = ground (arith, Base16.length-encode h)

-- A SHA-256 digest that is printed in base 16 with its algorithm, as the database stores it, is
-- read back unchanged.
pub parse_any_prefixed-to_string :
    (h : Bytes) → length h ≡ 32 → All IsByte h → parse_any_prefixed (to_string h base16 true) ≡ ok h
unfolding parse_any_prefixed to_string eqb
parse_any_prefixed-to_string h l v = rw (decode_by_size-base16 h l v) (ground arith)

length-encode : (h : Bytes) → length h ≡ 32 → length (Nix32.encode h) ≡ 52
unfolding Nix32.encoded_length
length-encode [] l = absurd (omega arith)
length-encode (b ∷ bs) l = Nix32.length-encode b bs ∙ ap Nix32.encoded_length l

decode_by_size-nix32 :
    (h : Bytes) → length h ≡ 32 → All IsByte h → decode_by_size (Nix32.encode h) ≡ ok h
unfolding decode_by_size Base16.encoded_length Nix32.encoded_length
decode_by_size-nix32 h l v = rw other (rw sized (decode-encode h l v))
  where
    other : (length (Nix32.encode h) == 64) ≡ false
    other = ground (arith, length-encode h l)

    sized : (length (Nix32.encode h) == 52) ≡ true
    sized = ground (arith, length-encode h l)

parse_any_prefixed-nix32 :
    (h : Bytes) → length h ≡ 32 → All IsByte h → parse_any_prefixed (to_string h nix32 true) ≡ ok h
unfolding parse_any_prefixed to_string eqb
parse_any_prefixed-nix32 h l v = rw (decode_by_size-nix32 h l v) (ground arith)

render_ca-not_empty : (h : Bytes) → eqb (render_ca h) [] ≡ false
unfolding render_ca eqb
render_ca-not_empty h = refl

parse_ca-render_ca : (h : Bytes) → length h ≡ 32 → All IsByte h → parse_ca (render_ca h) ≡ ok h
unfolding parse_ca render_ca
parse_ca-render_ca h l v = parse_any_prefixed-nix32 h l v

-- A content address of a SHA-256 digest is read back from what is rendered of it.
pub parse_ca_opt-render_ca :
    (h : Bytes) → length h ≡ 32 → All IsByte h → parse_ca_opt (render_ca h) ≡ ok (some h)
unfolding parse_ca_opt
parse_ca_opt-render_ca h l v = rw (render_ca-not_empty h) (rw (parse_ca-render_ca h l v) refl)
