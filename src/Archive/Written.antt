-- ===== src/Archive/Written.antt =====
-- `dumpPath` writes the format: on every tree that has a NAR it succeeds with those bytes.
use archinix.Base.{ℕ, ◌+◌, ◌-◌, ◌≡◌, refl, inl, inr, Bool, [], arith, Bool-cases, Bytes, ok}
use archinix.Archive.Tree.{
  Node, regular, directory, symlink, special, Entries, end, entry, is_skipped,
}
use archinix.Archive.Dump.{dump, dump_entries}
use archinix.Archive.Format.{nar, nar_entries, IsArchivable, AreArchivable}

mutual
  unfolding dump dump_entries nar nar_entries

  dump_ok :
      (skip : Bool) (depth left : ℕ) (t : Node)
      → depth + left ≡ 64
      → IsArchivable skip left t
      → dump depth t ≡ ok (nar t)
  dump_ok skip depth left (regular exec c) d h = ground arith
  dump_ok skip depth left (directory es) d h =
      ground (arith, dump_entries_ok skip depth (left - 1) [] es (omega arith) h.1)
  dump_ok skip depth left (symlink target) d h = ground arith
  dump_ok skip depth left (special s) d h = absurd h

  dump_entries_ok :
      (skip : Bool) (depth left : ℕ) (prev : Bytes) (es : Entries)
      → depth + 1 + left ≡ 64
      → AreArchivable skip left prev es
      → dump_entries depth es ≡ ok (nar_entries es)
  dump_entries_ok skip depth left prev end d h = refl
  dump_entries_ok skip depth left prev (entry name known n es) d h =
      elim (Bool-cases (is_skipped known n)) [
        | inl e ↦ rw e (dump_entries_ok skip depth left prev es d (rw e at h))
        | inr e ↦ rw e (
            let h' : AreArchivable skip left name es = (rw e at h).4 in
            rw
              (
                dump_ok skip (depth + 1) left n d ((rw e at h).3),
                dump_entries_ok skip depth left name es d h',
              )
              refl)
      ]

pub dump-nar :
    (skip : Bool) (depth left : ℕ) (t : Node)
    → depth + left ≡ 64
    → IsArchivable skip left t
    → dump depth t ≡ ok (nar t)
dump-nar = dump_ok
