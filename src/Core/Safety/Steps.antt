-- ===== src/Core/Safety/Steps.antt =====
-- src/core/torrent_core: the single steps of the service's functions are safe.
use t2h.Common.{
  ℕ, ◌<◌, ◌==◌, ==_iff, Bool, true, false, List, [], ◌∷◌, ◌++◌, Option, some, find, assign, erase,
  find-assign, find-assign_same, find-erase, ◌≡◌, refl, sym, ◌∙◌, Bool-cases, Option-cases, inl,
  inr, arith,
}
use mathlib.Core.Path.{subst}
use t2h.Core.World.{
  Call, Core, TorrentExInfo, AddTorrentFuture, Event, Libtorrent, undefined, M, call, session_call,
  get_torrent_info_of, save_path_of, with_buffer, set_buffer, load, store, load_future,
  store_future, erase_future, new_info, emit, ◌>>=◌,
}
use t2h.Core.Safety.{IsLive, IsDone, bind-IsDone, Safe, Any, by_true}

module _ (lt : Libtorrent) where
  pub call-Safe : {K : Bool} (n : ℕ) (c : Call) → Safe K n Any (call lt c)
  unfolding call
  call-Safe n c s h k = elim (Bool-cases (lt.throws s.calls c)) [
    | inl e ↦
        rw (e, call) (record { live = logged; grows = omega arith; kept = λ _ p f. f; ends = tt })
    | inr e ↦
        rw (e, call) (record { live = logged; grows = omega arith; kept = λ _ p f. f; ends = tt })
  ]
    where
      logged : IsLive (record s { calls = s.calls ++ c ∷ [] })
      logged = record {
        session = h.session;
        torrents = h.torrents;
        shared = h.shared;
        inside = h.inside;
        stored = h.stored;
      }

  pub session_call-Safe : {K : Bool} (n : ℕ) (c : Call) → Safe K n Any (session_call lt c)
  unfolding session_call
  session_call-Safe {K} n c s h k =
      by_true (IsDone K s Any) s.session (call lt c s) (s, undefined) h.session
        (call-Safe n c s h k)

  pub get_torrent_info_of-Safe :
      {K : Bool} (n : ℕ) (i : ℕ) → Safe K n Any (get_torrent_info_of lt i)
  unfolding get_torrent_info_of
  get_torrent_info_of-Safe n i s h k = elim (Option-cases (lt.get_torrent_files s.calls i)) [
    | inl e ↦
        rw (e, get_torrent_info_of)
          (record { live = h; grows = omega arith; kept = λ _ p f. f; ends = tt })
    | inr (files, e) ↦
        rw (e, get_torrent_info_of)
          (record { live = h; grows = omega arith; kept = λ _ p f. f; ends = tt })
  ]

  pub save_path_of-Safe : {K : Bool} (n : ℕ) (i : ℕ) → Safe K n Any (save_path_of lt i)
  unfolding save_path_of
  save_path_of-Safe n i s h k = elim (Option-cases (lt.save_path s.calls i)) [
    | inl e ↦
        rw (e, save_path_of)
          (record { live = h; grows = omega arith; kept = λ _ p f. f; ends = tt })
    | inr (path, e) ↦
        rw (e, save_path_of)
          (record { live = h; grows = omega arith; kept = λ _ p f. f; ends = tt })
  ]

-- A pointer that a search in the buffer gives, and a buffer without other pointers.
abbrev pub Found : Option ℕ → ℕ → Type 0
Found o n = (p : ℕ) → o ≡ some p → p < n

abbrev pub Inside : List (ℕ × ℕ) → ℕ → Type 0
Inside b n = (h p : ℕ) → find ◌==◌ h b ≡ some p → p < n

pub with_buffer-Safe :
    {K : Bool} {A : Type 0} {Q : A → ℕ → Type 0} (n : ℕ) (f : List (ℕ × ℕ) → A)
    → ((b : List (ℕ × ℕ)) (j : ℕ) → Inside b j → Q (f b) j)
    → Safe K n Q (with_buffer f)
unfolding with_buffer
with_buffer-Safe n f q s h k =
    rw (h.shared, with_buffer)
      (record {
        live = h;
        grows = omega arith;
        kept = λ _ p f. f;
        ends = q h.torrents s.fresh h.inside;
      })

pub erase-Inside : (b : List (ℕ × ℕ)) (j i : ℕ) → Inside b j → Inside (erase ◌==◌ i b) j
erase-Inside b j i g h p e = elim (Bool-cases (i == h)) [
  | inl k ↦ absurd (ground (arith, sym (find-erase ◌==◌ ==_iff i b h) ∙ e, k))
  | inr k ↦ g h p (ground (arith, sym (find-erase ◌==◌ ==_iff i b h) ∙ e, k))
]

pub set_buffer-Safe :
    {K : Bool} (n : ℕ) (b : List (ℕ × ℕ)) → Inside b n → Safe K n Any (set_buffer b)
unfolding set_buffer
set_buffer-Safe n b g s h k = record {
  live = record {
    session = h.session;
    torrents = b;
    shared = refl;
    inside = λ i p e. omega (arith, g i p e, k);
    stored = h.stored;
  };
  grows = omega arith;
  kept = λ _ p f. f;
  ends = tt;
}

pub load-Safe : {K : Bool} (n p : ℕ) → p < n → Safe K n Any (load p)
unfolding load
load-Safe n p l s h k =
    let (ex, e) = h.stored p (omega (arith, l, k)) in
    rw (e, load) (record { live = h; grows = omega arith; kept = λ _ p f. f; ends = tt })

-- The pointers that are there stay there when one is written through.
pub assign-IsStored :
    (m : List (ℕ × TorrentExInfo)) (q p : ℕ) (ex : TorrentExInfo)
    → (x : TorrentExInfo) × (find ◌==◌ p m ≡ some x)
    → (x : TorrentExInfo) × (find ◌==◌ p (assign ◌==◌ q ex m) ≡ some x)
assign-IsStored m q p ex (x, e) = elim (Bool-cases (q == p)) [
  | inl k ↦ (ex, rw (find-assign ◌==◌ ==_iff q ex m p, k) refl)
  | inr k ↦ (x, rw (find-assign ◌==◌ ==_iff q ex m p, k) e)
]

pub store-Safe : {K : Bool} (n p : ℕ) (ex : TorrentExInfo) → Safe K n Any (store p ex)
unfolding store
store-Safe n p ex s h k = record {
  live = record {
    session = h.session;
    torrents = h.torrents;
    shared = h.shared;
    inside = h.inside;
    stored = λ q l. assign-IsStored s.ex_infos p q ex (h.stored q l);
  };
  grows = omega arith;
  kept = λ _ p f. f;
  ends = tt;
}

pub new_info-Safe : {K : Bool} (n : ℕ) (ex : TorrentExInfo) → Safe K n (λ p j. p < j) (new_info ex)
unfolding new_info
new_info-Safe n ex s h k = record {
  live = record {
    session = h.session;
    torrents = h.torrents;
    shared = h.shared;
    inside = λ i p e. omega (arith, h.inside i p e);
    stored = λ q l. elim (Bool-cases (s.fresh == q)) [
      | inl g ↦ (ex, rw (find-assign ◌==◌ ==_iff s.fresh ex s.ex_infos q, g) refl)
      | inr g ↦ assign-IsStored s.ex_infos s.fresh q ex (h.stored q (ground (arith, g, l)))
    ];
  };
  grows = omega arith;
  kept = λ _ p f. f;
  ends = omega arith;
}

pub emit-Safe : {K : Bool} (n : ℕ) (e : Event) → Safe K n Any (emit e)
unfolding emit
emit-Safe n e s h k = record {
  live = record {
    session = h.session;
    torrents = h.torrents;
    shared = h.shared;
    inside = h.inside;
    stored = h.stored;
  };
  grows = omega arith;
  kept = λ _ p f. f;
  ends = tt;
}

pub load_future-Safe : {K : Bool} (n p : ℕ) → Safe K n Any (load_future p)
unfolding load_future
load_future-Safe n p s h k = record { live = h; grows = omega arith; kept = λ _ q f. f; ends = tt }

-- The future of another torrent is not touched, and this one's is there.
assign-IsFuture :
    (m : List (ℕ × AddTorrentFuture)) (q p : ℕ) (f : AddTorrentFuture)
    → (x : AddTorrentFuture) × (find ◌==◌ p m ≡ some x)
    → (x : AddTorrentFuture) × (find ◌==◌ p (assign ◌==◌ q f m) ≡ some x)
assign-IsFuture m q p f (x, e) = elim (Bool-cases (q == p)) [
  | inl k ↦ (f, rw (find-assign ◌==◌ ==_iff q f m p, k) refl)
  | inr k ↦ (x, rw (find-assign ◌==◌ ==_iff q f m p, k) e)
]

-- A state that differs in the futures alone.
futures-IsLive :
    (s : Core) (m : List (ℕ × AddTorrentFuture)) → IsLive s → IsLive (record s { futures = m })
futures-IsLive s m h = record {
  session = h.session;
  torrents = h.torrents;
  shared = h.shared;
  inside = h.inside;
  stored = h.stored;
}

pub store_future-Safe :
    {K : Bool} (n p : ℕ) (f : AddTorrentFuture) → Safe K n Any (store_future p f)
unfolding store_future
store_future-Safe n p f s h k = record {
  live = futures-IsLive s _ h;
  grows = omega arith;
  kept = λ _ q x. assign-IsFuture s.futures p q f x;
  ends = tt;
}

pub erase_future-Safe : (n p : ℕ) → Safe false n Any (erase_future p)
unfolding erase_future
erase_future-Safe n p s h k = record {
  live = futures-IsLive s _ h;
  grows = omega arith;
  kept = λ e. absurd (ground (arith, e));
  ends = tt;
}

read_future :
    {K : Bool} {A : Type 0} {Q : A → ℕ → Type 0} (p : ℕ) (u : Core) (x : AddTorrentFuture)
    (g : Option AddTorrentFuture → M A)
    → find ◌==◌ p u.futures ≡ some x
    → IsDone K u Q (g (some x) u)
    → IsDone K u Q ((load_future p >>= g) u)
unfolding ◌>>=◌ load_future
read_future {K} {A} {Q} p u x g e h = subst (λ o. IsDone K u Q (g o u)) (sym e) h

-- A torrent whose future is made, that then waits and reads it: the future is there, if no future is
-- reset meanwhile.
pub future-Safe :
    {K : Bool} {A : Type 0} {Q : A → ℕ → Type 0} (n p : ℕ) (f : AddTorrentFuture) (m : M (Unit {0}))
    (g : Option AddTorrentFuture → M A)
    → Safe true n Any m
    → ((x : AddTorrentFuture) → Safe K n Q (g (some x)))
    → Safe K n Q (store_future p f >>= λ _. m >>= λ _. load_future p >>= g)
unfolding store_future
future-Safe {K} {A} {Q} n p f m g hm hg s h k =
    bind-IsDone s (store_future p f) _ (λ e. e) (store_future-Safe n p f s h k)
      (λ a q.
        let t : Core = record s { futures = assign ◌==◌ p f s.futures } in
        let l : IsLive t = futures-IsLive s _ h in
        let d = hm t l k in
        let (x, e) = d.kept refl p (f, find-assign_same ◌==◌ ==_iff p f s.futures) in
        bind-IsDone t m _ (λ _. refl) d
          (λ b r. read_future p (m t).0 x g e (hg x (m t).0 d.live (omega (arith, k, d.grows)))))
