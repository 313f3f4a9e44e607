-- ===== src/Import/Hasher/Tests.antt =====
-- Runs of the file hasher of src/libstore/local-store.cc, where the digest of some bytes is those bytes.
use archinix.Base.{
  ◌≡◌, refl, sym, ap, true, false, none, some, List, [], ◌∷◌, length, Bytes, codes, Error, ok, err,
}
use archinix.Archive.Tree.{Node, regular, directory, symlink, end, entry}
use archinix.Archive.Format.{calls}
use archinix.Import.Hasher.{
  Event, Farm, Hasher, insert_or_assign, handle, handle_all, run, finish, events, jobs_done,
}
use archinix.Import.Hasher.Framing.{digests, assign_all, hasher-digests}
use archinix.Import.Hasher.Modes.{finish-run}

abbrev digest : Bytes → Bytes
digest bytes = bytes

-- A farm that has one link of three bytes under every name, and whose swaps all succeed.
abbrev farm : Farm
farm = record {
  dedups = true;
  link_size = λ name. some 3;
  has_pool = true;
  swaps = λ link key. true;
}

abbrev fresh : Hasher
fresh = record {
  key = [];
  hash = none;
  size = 0;
  bytes_done = 0;
  files = [];
  symlinks = 0;
  deduped_files = 0;
  deduped_bytes = 0;
  posted = [];
}

abbrev sample : Node
sample = directory (
    entry (codes "bin") true (regular true (codes "run"))
      (entry (codes "to") false (symlink (codes "bin")) end))

hasher-digests_example :
    (h' : Hasher) × (handle_all digest farm (events (codes "x" ∷ []) (calls false [] sample)) fresh
      ≡ ok h')
    × (h'.files ≡ assign_all (digests digest (codes "x" ∷ []) [] sample) [])
hasher-digests_example = hasher-digests digest farm (codes "x" ∷ []) sample fresh

abbrev short : List Event
short = Event.begin (codes "/a") ∷ Event.set_size 3 ∷ Event.data_of (codes "abc") ∷ Event.end ∷ []

finish-run_example :
    finish farm (run digest farm short none fresh)
    ≡ handle_all digest (record farm { has_pool = false }) short fresh
finish-run_example = finish-run digest farm short fresh refl

-- The swap of the pool is counted once the hasher has finished.
counted : (h : Hasher) → finish farm (run digest farm short none fresh) ≡ ok h → h.deduped_files ≡ 1
unfolding run handle jobs_done
counted h e = sym (ap (λ r. elim r [ ok h' ↦ h'.deduped_files | err x ↦ 1 ]) e)

-- A link is in the map.
link_kept :
    (h : Hasher)
    → handle_all digest farm (Event.symlink (codes "/l") (codes "t") ∷ []) fresh ≡ ok h
    → length h.files ≡ 1
unfolding handle_all handle insert_or_assign
link_kept h e = sym (ap (λ r. elim r [ ok h' ↦ length h'.files | err x ↦ 1 ]) e)

-- Data without a file is refused.
no_file : handle_all digest farm (Event.data_of [] ∷ []) fresh ≡ err Error.assertion_failed
unfolding handle_all handle
no_file = refl
