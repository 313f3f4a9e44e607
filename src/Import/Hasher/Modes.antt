-- ===== src/Import/Hasher/Modes.antt =====
-- The file hasher of src/libstore/local-store.cc with a thread and with a pool of swaps gives what it
-- gives without them.
use archinix.Base.{
  ℕ, ◌+◌, ◌%◌, ◌^◌, ◌≡◌, refl, sym, ap, ◌∙◌, inl, inr, Bool, true, false, not, ◌||◌, Option, none,
  some, List, [], ◌∷◌, ◌++◌, ◌==◌, if◌then◌else◌, Bool-cases, Option-cases, Bytes, Error, Result,
  ok, err, ◌>>?◌,
}
use archinix.Serialise.{write_string, write_padding}
use archinix.Archive.Tag
use archinix.Hash.{to_string, HashFormat}
use archinix.Import.Hasher.{
  Event, Job, Farm, Hasher, insert_or_assign, swap_or_post, try_dedup, handle, handle_all, run,
  job_done, jobs_done, settle, rethrow, finish,
}

-- What the jobs add to the two totals.
files_after : Farm → List Job → ℕ → ℕ
files_after farm [] n = n
files_after farm (j ∷ js) n =
    files_after farm js (if farm.swaps j.link j.key then (n + 1) % 2 ^ 64 else n)

bytes_after : Farm → List Job → ℕ → ℕ
bytes_after farm [] n = n
bytes_after farm (j ∷ js) n =
    bytes_after farm js (if farm.swaps j.link j.key then (n + j.size) % 2 ^ 64 else n)

job_done-fields :
    (farm : Farm) (j : Job) (h : Hasher)
    → job_done farm j h ≡ record h {
      deduped_files =
          if farm.swaps j.link j.key then (h.deduped_files + 1) % 2 ^ 64 else h.deduped_files;
      deduped_bytes =
          if farm.swaps j.link j.key then (h.deduped_bytes + j.size) % 2 ^ 64 else h.deduped_bytes;
    }
job_done-fields farm j h = elim (Bool-cases (farm.swaps j.link j.key)) [
  | inl e ↦ rw e refl
  | inr e ↦ rw e refl
]

jobs_done-fields :
    (farm : Farm) (js : List Job) (h : Hasher)
    → jobs_done farm js h ≡ record h {
      deduped_files = files_after farm js h.deduped_files;
      deduped_bytes = bytes_after farm js h.deduped_bytes;
    }
unfolding jobs_done files_after bytes_after
jobs_done-fields farm [] h = refl
jobs_done-fields farm (j ∷ js) h = rw (job_done-fields farm j h) (jobs_done-fields farm js _)

files_after-snoc :
    (farm : Farm) (js : List Job) (j : Job) (n : ℕ)
    → files_after farm (js ++ (j ∷ [])) n ≡ (
        if farm.swaps j.link j.key
        then (files_after farm js n + 1) % 2 ^ 64
        else files_after farm js n)
unfolding files_after
files_after-snoc farm [] j n = refl
files_after-snoc farm (k ∷ js) j n = files_after-snoc farm js j _

bytes_after-snoc :
    (farm : Farm) (js : List Job) (j : Job) (n : ℕ)
    → bytes_after farm (js ++ (j ∷ [])) n ≡ (
        if farm.swaps j.link j.key
        then (bytes_after farm js n + j.size) % 2 ^ 64
        else bytes_after farm js n)
unfolding bytes_after
bytes_after-snoc farm [] j n = refl
bytes_after-snoc farm (k ∷ js) j n = bytes_after-snoc farm js j _

ok-again : {A : Type 0} (r : Result A) → (r >>? λ a. ok a) ≡ r
ok-again (ok a) = refl
ok-again (err e) = refl

module _ (sha256 : Bytes → Bytes) (farm : Farm) where
  abbrev inline : Farm
  inline = record farm { has_pool = false }

  abbrev pooled : Farm
  pooled = record farm { has_pool = true }

  -- The hasher once its jobs are done.
  abbrev done : Hasher → Hasher
  done h = record h {
    deduped_files = files_after farm h.posted h.deduped_files;
    deduped_bytes = bytes_after farm h.posted h.deduped_bytes;
    posted = [];
  }

  abbrev done_of : Result Hasher → Result Hasher
  done_of r = r >>? λ h. ok (done h)

  swap_or_post-done :
      (link : Bytes) (h : Hasher)
      → swap_or_post sha256 inline link (done h) ≡ done (swap_or_post sha256 pooled link h)
  swap_or_post-done link h =
      let j : Job = record { link = link; key = h.key; size = h.size } in
      rw (files_after-snoc farm h.posted j h.deduped_files) (
        rw (bytes_after-snoc farm h.posted j h.deduped_bytes)
          (elim (Bool-cases (farm.swaps link h.key)) [ inl e ↦ rw e refl | inr e ↦ rw e refl ]))

  try_dedup-done :
      (digest : Bytes) (h : Hasher)
      → try_dedup sha256 inline digest (done h) ≡ done (try_dedup sha256 pooled digest h)
  try_dedup-done digest h = elim (Bool-cases (not farm.dedups || h.size == 0)) [
    | inl e ↦ rw e refl
    | inr e ↦ rw e (go (farm.link_size link))
  ]
    where
      link : Bytes
      link = to_string digest HashFormat.nix32 false

      go :
          (o : Option ℕ)
          → ◌≡◌ {A = Hasher}
              (elim o [
                | none ↦ done h
                | some st_size ↦
                    if st_size == h.size then swap_or_post sha256 inline link (done h) else done h
              ])
              (done (elim o [
                | none ↦ h
                | some st_size ↦ if st_size == h.size then swap_or_post sha256 pooled link h else h
              ]))
      go none = refl
      go (some n) = elim (Bool-cases (n == h.size)) [
        | inl k ↦ rw k (swap_or_post-done link h)
        | inr k ↦ rw k refl
      ]

  handle-done :
      (ev : Event) (h : Hasher)
      → handle sha256 inline ev (done h) ≡ done_of (handle sha256 pooled ev h)
  unfolding handle
  handle-done (Event.begin k) h = refl
  handle-done Event.exec h = elim (Option-cases h.hash) [
    | inl e ↦ rw e refl
    | inr (d, e) ↦ rw e refl
  ]
  handle-done (Event.set_size s) h = elim (Option-cases h.hash) [
    | inl e ↦ rw e refl
    | inr (d, e) ↦ rw e refl
  ]
  handle-done (Event.data_of d) h = elim (Option-cases h.hash) [
    | inl e ↦ rw e refl
    | inr (_, e) ↦ rw e refl
  ]
  handle-done Event.end h = elim (Option-cases h.hash) [
    | inl e ↦ rw e refl
    | inr (d, e) ↦
        let fed = d ++ (write_padding h.size ++ write_string Tag.close_paren) in
        rw e (
          ap {A = Hasher}
            (λ g.
              ok (record g { files = insert_or_assign g.key (sha256 fed) g.files; hash = none }))
            (try_dedup-done (sha256 fed) (record h { hash = some fed })))
  ]
  handle-done (Event.symlink k t) h = refl

  handle_all-done :
      (evs : List Event) (h : Hasher)
      → handle_all sha256 inline evs (done h) ≡ done_of (handle_all sha256 pooled evs h)
  unfolding handle_all
  handle_all-done [] h = refl
  handle_all-done (ev ∷ evs) h =
      rw (handle-done ev h) (go (λ h'. handle_all-done evs h') (handle sha256 pooled ev h))
    where
      go :
          ((h' : Hasher)
            → handle_all sha256 inline evs (done h') ≡ done_of (handle_all sha256 pooled evs h'))
          → (r : Result Hasher)
          → (done_of r >>? λ h'. handle_all sha256 inline evs h')
            ≡ done_of (r >>? λ h'. handle_all sha256 pooled evs h')
      go rest (ok h') = rest h'
      go rest (err e) = refl

  -- A thread that drains after a failure reports what the calls report.
  run-failed :
      (g : Hasher → Hasher) (evs : List Event) (e : Error) (h : Hasher)
      → (let (failure, h') = run sha256 farm evs (some e) h in rethrow (failure, g h')) ≡ err e
  unfolding run
  run-failed g [] e h = refl
  run-failed g (ev ∷ evs) e h = run-failed g evs e h

  run-handle_all :
      (g : Hasher → Hasher) (evs : List Event) (h : Hasher)
      → (let (failure, h') = run sha256 farm evs none h in rethrow (failure, g h'))
        ≡ (handle_all sha256 farm evs h >>? λ h'. ok (g h'))
  unfolding run handle_all
  run-handle_all g [] h = refl
  run-handle_all g (ev ∷ evs) h = go (λ h'. run-handle_all g evs h') (handle sha256 farm ev h)
    where
      go :
          ((h' : Hasher)
            → (let (failure, h2) = run sha256 farm evs none h' in rethrow (failure, g h2))
              ≡ (handle_all sha256 farm evs h' >>? λ h2. ok (g h2)))
          → (r : Result Hasher)
          → (let (failure, h2) = elim r as (λ _. Option Error × Hasher) [
            | ok h' ↦ run sha256 farm evs none h'
            | err e ↦ run sha256 farm evs (some e) h
          ] in
              rethrow (failure, g h2))
            ≡ ((r >>? λ h'. handle_all sha256 farm evs h') >>? λ h2. ok (g h2))
      go rest (ok h') = rest h'
      go rest (err e) = run-failed g evs e h

  settle-done : settle farm ≡ done
  settle-done i h = jobs_done-fields farm h.posted (record h { posted = [] }) i

  done_none : (h : Hasher) → h.posted ≡ [] → done h ≡ h
  unfolding files_after bytes_after
  done_none h e =
      let after : List Job → Hasher = λ js. record h {
        deduped_files = files_after farm js h.deduped_files;
        deduped_bytes = bytes_after farm js h.deduped_bytes;
        posted = [];
      } in
      let with_jobs : List Job → Hasher = λ js. record h { posted = js } in
      ap after e ∙ ap with_jobs (sym e)

  -- For a hasher that has posted no job: with a thread, and with or without a pool of swaps, `finish`
  -- returns the maps and totals, or throws the exception, of the same calls made without a thread and with
  -- the swaps made at once, whatever each swap does.
  pub finish-run :
      (evs : List Event) (h : Hasher)
      → h.posted ≡ []
      → finish farm (run sha256 farm evs none h) ≡ handle_all sha256 inline evs h
  finish-run evs h e =
      let (failure, h') = run sha256 farm evs none h in
      let finish_if : Bool → Result Hasher =
        λ b. rethrow (failure, if b then settle farm h' else h') in
      elim (Bool-cases farm.has_pool) [
        | inl p ↦
            let same : pooled ≡ farm = ap {A = Bool} (λ b. record farm { has_pool = b }) (sym p) in
            ap finish_if p
            ∙ (run-handle_all (settle farm) evs h
                ∙ ap {A = Hasher → Hasher} (λ g. handle_all sha256 farm evs h >>? λ h'. ok (g h'))
                    settle-done
                ∙ ap {A = Farm} (λ f. handle_all sha256 f evs h >>? λ h'. ok (done h')) (sym same)
                ∙ sym (handle_all-done evs h)
                ∙ ap (handle_all sha256 inline evs) (done_none h e))
        | inr p ↦
            let same : inline ≡ farm = ap {A = Bool} (λ b. record farm { has_pool = b }) (sym p) in
            ap finish_if p
            ∙ (run-handle_all (λ h'. h') evs h
                ∙ ok-again (handle_all sha256 farm evs h)
                ∙ ap {A = Farm} (λ f. handle_all sha256 f evs h) (sym same))
      ]
