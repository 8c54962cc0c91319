-- ===== src/Core/Safety/Handlers.antt =====
-- src/core/torrent_core: the handlers of the alerts, the resolving of an error and the addition of a
-- torrent are safe.
use t2h.Common.{
  ℕ, suc, ◌-◌, ◌<◌, Bool, true, false, not, ◌||◌, List, [], ◌∷◌, Option, none, some, Bytes, All,
  if◌then◌else◌, ◌≡◌, ◌≢◌, sym, ◌∙◌, Option-cases, inl, inr, arith,
}
use t2h.Torrent.{FileInfo, file_info_add}
use t2h.Torrent.Counters.{file_info_add_lem}
use t2h.Core.World.{
  Call, TorrentStatus, Resolver, Event, Libtorrent, M, ◌>>=◌, ◌>>◌, pure, get_state,
  get_torrent_info_of, save_path_of, load, store, undefined_behaviour, event_file_add, event_pause,
  hang_at_start_error, connection_error, unknown_error, async_add_torrent,
}
use t2h.Core.Resolvers.{Resolvers, need_resolving, resolve, lookup_error}
use t2h.Core.Controller.{
  emit_each, torrent_remove, setup_torrent, add_files, change_status, set_future_handle,
  on_add_torrent, on_pause, add_torrent,
}
use t2h.Core.Safety.{Any}
use t2h.Core.Safety.Rules.{
  IsSafe, if-IsSafe, state-IsSafe, leaving-IsSafe, option-IsSafe, some-IsSafe, bind-IsSafe,
  next-IsSafe, pure-IsSafe, session_call-IsSafe, save_path_of-IsSafe, sought-IsSafe, safety,
  load-IsSafe, store-IsSafe, emit-IsSafe, load_future-IsSafe, store_future-IsSafe, future-IsSafe,
  erase_future-IsSafe,
}

pub emit_each-IsSafe :
    {K : Bool} {n : ℕ} (e : Bytes → Event) (flist : List FileInfo)
    → IsSafe K n Any (emit_each e flist)
unfolding emit_each
emit_each-IsSafe e [] = pure-IsSafe tt
emit_each-IsSafe e (fi ∷ flist) =
    next-IsSafe (emit-IsSafe (e fi.path)) (λ _. emit_each-IsSafe e flist)

module _ (lt : Libtorrent) where
  pub resolve-IsSafe :
      {K : Bool} {n : ℕ} (now : ℕ) (r : Resolver) → IsSafe K n Any (resolve lt now r)
  unfolding resolve
  resolve-IsSafe now (hang_at_start_error none deadline) = pure-IsSafe false
  resolve-IsSafe now (hang_at_start_error (some status) deadline) = search safety depth 12
  resolve-IsSafe now connection_error = pure-IsSafe true
  resolve-IsSafe now unknown_error = pure-IsSafe true

  pub lookup_error-IsSafe :
      {K : Bool} {n p : ℕ} (now : ℕ) (resolvers : Resolvers) (status : TorrentStatus)
      → p < n
      → IsSafe K n Any (lookup_error lt now resolvers p status)
  unfolding lookup_error
  lookup_error-IsSafe now resolvers status l = next-IsSafe (load-IsSafe _ l) (λ ex.
      next-IsSafe
        (option-IsSafe (need_resolving now resolvers ex.resolver status) (search safety)
          (λ r e. search safety))
        (λ _. next-IsSafe (load-IsSafe _ l) (λ now_ex.
          option-IsSafe now_ex.resolver (search safety)
            (λ r e. search (safety, resolve-IsSafe) depth 8))))

  pub setup_torrent-IsSafe :
      {K : Bool} {n : ℕ} (hasher : Bytes → ℕ) (h : ℕ) → IsSafe K n Any (setup_torrent lt hasher h)
  unfolding setup_torrent
  setup_torrent-IsSafe hasher h = search safety depth 20

  pub torrent_remove-IsSafe :
      {K : Bool} {n : ℕ} (hasher : Bytes → ℕ) (h : ℕ) → IsSafe K n Any (torrent_remove lt hasher h)
  unfolding torrent_remove
  torrent_remove-IsSafe hasher h = search safety

-- What is done about a torrent that is not known.
pub removed-IsSafe :
    {K : Bool} {n : ℕ} (lt : Libtorrent) (hasher : Bytes → ℕ) (h : ℕ)
    → IsSafe K n Any (do save_path_of lt h; torrent_remove lt hasher h)
removed-IsSafe lt hasher h =
    next-IsSafe (save_path_of-IsSafe lt h) (λ _. torrent_remove-IsSafe lt hasher h)

change_status-IsSafe :
    {K : Bool} {n : ℕ} (lt : Libtorrent) (hasher : Bytes → ℕ) (p : ℕ)
    → IsSafe K n Any (change_status lt hasher p)
unfolding change_status
change_status-IsSafe lt hasher p = next-IsSafe (load_future-IsSafe p) (λ o.
    option-IsSafe o (pure-IsSafe tt) (λ f e. store_future-IsSafe p (record f { status = true })))

set_future_handle-IsSafe :
    {K : Bool} {n : ℕ} (lt : Libtorrent) (hasher : Bytes → ℕ) (p h : ℕ)
    → IsSafe K n Any (set_future_handle lt hasher p h)
unfolding set_future_handle
set_future_handle-IsSafe lt hasher p h =
    next-IsSafe (load_future-IsSafe p) (λ o.
      option-IsSafe o (pure-IsSafe tt) (λ f e. store_future-IsSafe p (record f { handle = h })))

there : {A : Type 0} (o : Option A) (a : A) → o ≡ some a → o ≢ none
there o a e g = ground (arith, sym e ∙ g)

-- The torrents that the loop of on_add_torrent can add: each file has bytes, and the pieces have a length.
pub record HasBytes (lt : Libtorrent) : Type 0 where
  pub files :
      (c : List Call) (h : ℕ) (fs : List (Bytes × ℕ))
      → lt.get_torrent_files c h ≡ some fs
      → All (λ f. 0 < f.1) fs
  pub pieces : (h : ℕ) → 0 < lt.piece_length h

module _ (lt : Libtorrent) (hasher : Bytes → ℕ) (b : HasBytes lt) where
  files-IsSafe :
      {K : Bool} {n : ℕ} (h : ℕ)
      → IsSafe K n (λ fs j. All (λ f. 0 < f.1) fs) (get_torrent_info_of lt h)
  unfolding get_torrent_info_of
  files-IsSafe {K} {n} h = record {
    run = λ s l k. elim (Option-cases (lt.get_torrent_files s.calls h)) [
      | inl e ↦
          rw (e, get_torrent_info_of)
            (record { live = l; grows = omega arith; kept = λ _ p f. f; ends = tt })
      | inr (fs, e) ↦
          rw (e, get_torrent_info_of)
            (record {
              live = l;
              grows = omega arith;
              kept = λ _ p f. f;
              ends = b.files s.calls h fs e;
            })
    ];
  }

  add_files-IsSafe :
      {K : Bool} {n : ℕ} (h p index : ℕ) (files : List (Bytes × ℕ))
      → p < n
      → All (λ f. 0 < f.1) files
      → IsSafe K n Any (add_files lt hasher h p index files)
  unfolding add_files
  add_files-IsSafe h p index [] l a = pure-IsSafe tt
  add_files-IsSafe h p index ((path, size) ∷ files) l (a, rest) =
      next-IsSafe (load-IsSafe p l) (λ ex. next-IsSafe (save_path_of-IsSafe lt h) (λ save_path.
        state-IsSafe (λ s.
          let first = lt.map_file h index 0 in
          let last = lt.map_file h index (size - 1) in
          let limit = s.controller_settings.max_partial_download_size in
          let added =
            file_info_add ex.avaliables_files first last (lt.piece_length h) save_path path size
              index limit in
          let (fi, (e, _)) =
            (file_info_add_lem ex.avaliables_files first last (lt.piece_length h) save_path path
                size index limit).1
              a (b.pieces h) in
          some-IsSafe added undefined_behaviour (λ g. there added (_, fi) e g)
            (λ x. next-IsSafe (store-IsSafe p (record ex { avaliables_files = x.0 })) (λ _.
              next-IsSafe (emit-IsSafe (event_file_add x.1.path x.1.size))
                (λ _. add_files-IsSafe h p (suc index) files l rest))))))

  pub on_add_torrent-IsSafe :
      {K : Bool} {n : ℕ} (error : Bool) (h : ℕ) → IsSafe K n Any (on_add_torrent lt hasher error h)
  unfolding on_add_torrent
  on_add_torrent-IsSafe error h = state-IsSafe (λ s.
      if-IsSafe (error || not (lt.is_valid s.calls h)) (search safety) (
        next-IsSafe (save_path_of-IsSafe lt h) (λ path.
          bind-IsSafe (sought-IsSafe hasher path) (λ o j l q.
            option-IsSafe o (removed-IsSafe lt hasher h) (λ p e.
              next-IsSafe (load_future-IsSafe p) (λ future.
                option-IsSafe future (removed-IsSafe lt hasher h) (λ f g.
                  bind-IsSafe (files-IsSafe h) (λ files i m r.
                    next-IsSafe (add_files-IsSafe h p 0 files (omega (arith, m, q p e)) r) (λ _.
                      leaving-IsSafe (change_status-IsSafe lt hasher p) (
                        next-IsSafe (setup_torrent-IsSafe lt hasher h)
                          (λ _. set_future_handle-IsSafe lt hasher p h)))))))))))

  pub on_pause-IsSafe : {K : Bool} {n : ℕ} (h : ℕ) → IsSafe K n Any (on_pause lt hasher h)
  unfolding on_pause
  on_pause-IsSafe h = next-IsSafe (save_path_of-IsSafe lt h) (λ path.
      bind-IsSafe (sought-IsSafe hasher path) (λ o j l q.
        option-IsSafe o (removed-IsSafe lt hasher h) (λ p e.
          next-IsSafe (load-IsSafe p (q p e))
            (λ ex. emit_each-IsSafe event_pause ex.avaliables_files))))

  -- The wait leaves a future that is there, so what is read after it is no null pointer.
  pub add_torrent-IsSafe :
      {n : ℕ} (meanwhile : M (Unit {0})) (p : ℕ)
      → p < n
      → IsSafe true n Any meanwhile
      → IsSafe false n Any (add_torrent lt hasher meanwhile p)
  unfolding add_torrent
  add_torrent-IsSafe meanwhile p l m = leaving-IsSafe (erase_future-IsSafe p) (
      next-IsSafe (load-IsSafe p l) (λ ex.
        future-IsSafe p (record { status = false; handle = lt.no_handle })
          (λ o. elim o [
            | none ↦ undefined_behaviour
            | some f ↦
                if f.status
                then (do
                  now_ex ← load p
                  store p (record now_ex { handle = f.handle })
                  s ← get_state
                  pure (lt.is_valid s.calls f.handle))
                else pure false
          ])
          (next-IsSafe (session_call-IsSafe lt (async_add_torrent ex.save_path)) (λ _. m))
          (λ f.
            if-IsSafe f.status
              (next-IsSafe (load-IsSafe p l) (λ now_ex.
                next-IsSafe (store-IsSafe p (record now_ex { handle = f.handle }))
                  (λ _. state-IsSafe (λ s. pure-IsSafe (lt.is_valid s.calls f.handle)))))
              (pure-IsSafe false))))
