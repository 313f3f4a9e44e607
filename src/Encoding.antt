-- ===== src/Encoding.antt =====
-- The text encodings of src/libutil/base-n.cc and src/libutil/base-nix-32.cc.
pub mod Base16
pub mod Base64
pub mod Nix32
