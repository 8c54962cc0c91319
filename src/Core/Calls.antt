-- ===== src/Core/Calls.antt =====
-- src/core/torrent_core: what a function does when its steps return.
use t2h.Common.{
  ℕ, Bool, true, false, List, [], ◌∷◌, ◌++◌, Option, none, some, find, ◌==◌, if◌then◌else◌, ◌≡◌,
  refl, sym, ◌∙◌, arith,
}
use mathlib.Core.Path.{subst}
use t2h.Core.World.{
  Call, Core, Libtorrent, Outcome, returns, threw, escaped, undefined, M, ◌>>=◌, pure, call,
  session_call, exception_safe, TorrentExInfo, with_buffer, load, get_state, is_running,
}
use t2h.Core.Buffer.{get_usafe}
use t2h.Core.Service.{Platform, when_running, on_torrent}

-- The state with one more call.
abbrev pub logged : Call → Core → Core
logged c s = record s { calls = s.calls ++ c ∷ [] }

-- A step that returns is followed by what comes after it.
pub bind_returns :
    {A B : Type 0} (m : M A) (f : A → M B) (s t : Core) (a : A)
    → m s ≡ (t, returns a)
    → (m >>= f) s ≡ f a t
unfolding ◌>>=◌
bind_returns m f s t a e =
    subst
      (λ r.
        (elim r.1 [
          | returns b ↦ f b r.0
          | threw ↦ (r.0, threw)
          | escaped ↦ (r.0, escaped)
          | undefined ↦ (r.0, undefined)
        ])
        ≡ f a t)
      (sym e) refl

pub safe_returns :
    {A : Type 0} (a b : A) (m : M A) (s t : Core)
    → m s ≡ (t, returns b)
    → exception_safe a m s ≡ (t, returns b)
unfolding exception_safe
safe_returns {A} a b m s t e =
    subst
      (λ r.
        ◌≡◌ {A = Core × Outcome A}
          (elim r.1 [
            | returns c ↦ (r.0, returns c)
            | threw ↦ (r.0, returns a)
            | escaped ↦ (r.0, escaped)
            | undefined ↦ (r.0, undefined)
          ])
          (t, returns b))
      (sym e) refl

module _ (lt : Libtorrent) where
  pub call_returns :
      (c : Call) (s : Core) → lt.throws s.calls c ≡ false → call lt c s ≡ (logged c s, returns tt)
  unfolding call
  call_returns c s e = rw (e, call) refl

  pub session_call_returns :
      (c : Call) (s : Core)
      → s.session ≡ true
      → lt.throws s.calls c ≡ false
      → session_call lt c s ≡ (logged c s, returns tt)
  unfolding session_call
  session_call_returns c s e f = go s.session e
    where
      go :
          (b : Bool)
          → b ≡ true
          → (if b then call lt c s else (s, undefined)) ≡ (logged c s, returns tt)
      go true g = call_returns c s f
      go false g = absurd (ground (arith, g))

loaded :
    (p : ℕ) (ex : TorrentExInfo) (s : Core)
    → find ◌==◌ p s.ex_infos ≡ some ex
    → load p s ≡ (s, returns ex)
unfolding load
loaded p ex s e = rw (e, load) refl

pub buffered :
    {A : Type 0} (f : List (ℕ × ℕ) → A) (torrents : List (ℕ × ℕ)) (s : Core)
    → s.shared_buffer ≡ some torrents
    → with_buffer f s ≡ (s, returns (f torrents))
unfolding with_buffer
buffered {A} f torrents s e =
    subst
      (λ o.
        ◌≡◌ {A = Core × Outcome A} (elim o [ none ↦ (s, undefined) | some b ↦ (s, returns (f b)) ])
          (s, returns (f torrents)))
      (sym e) refl

-- A service that runs and has the torrent does what the operation does with the torrent's information.
pub on_torrent_returns :
    {A : Type 0} (e : Platform) (a b : A) (i p : ℕ) (f : TorrentExInfo → M A) (s t : Core)
    (torrents : List (ℕ × ℕ)) (ex : TorrentExInfo)
    → is_running s.cur_state ≡ true
    → s.shared_buffer ≡ some torrents
    → find ◌==◌ i torrents ≡ some p
    → find ◌==◌ p s.ex_infos ≡ some ex
    → f ex s ≡ (t, returns b)
    → on_torrent e a i f s ≡ (t, returns b)
unfolding on_torrent when_running get_state get_usafe ◌>>=◌
on_torrent_returns {A} e a b i p f s t torrents ex r h g k v =
    safe_returns a b begun s t (runs (is_running s.cur_state) r)
  where
    chosen : Option ℕ → M A
    chosen found = elim found [ none ↦ pure a | some q ↦ load q >>= f ]

    body : M A
    body = with_buffer (λ c. get_usafe c i) >>= chosen

    begun : M A
    begun = get_state >>= λ u. if is_running u.cur_state then body else pure a

    known : (found : Option ℕ) → found ≡ some p → chosen found s ≡ (t, returns b)
    known none n = absurd (ground (arith, n))
    known (some q) n =
        let l : find ◌==◌ q s.ex_infos ≡ some ex = ground (arith, n, k) in
        bind_returns (load q) f s s ex (loaded q ex s l) ∙ v

    runs : (c : Bool) → c ≡ true → (if c then body else pure a) s ≡ (t, returns b)
    runs true n =
        bind_returns (with_buffer (λ c. get_usafe c i)) chosen s s (get_usafe torrents i)
          (buffered (λ c. get_usafe c i) torrents s h)
        ∙ known (get_usafe torrents i) g
    runs false n = absurd (ground (arith, n))
