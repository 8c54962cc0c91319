-- ===== src/Api/Guards.antt =====
-- src/core/external_api/external_api.cpp: the tests that the exported functions begin with, and what
-- they leave out.
use t2h.Common.{
  ℕ, ◌==◌, ==_iff, Bool, true, false, ◌||◌, Option, none, some, Bytes, find, erase, find-erase, ℤ,
  pos, negsuc, if◌then◌else◌, ◌≡◌, refl, ◌∙◌, arith,
}
use t2h.Core.World.{Outcome, returns, undefined}
use t2h.Handles.{get_handle, unregistr_handle}
use t2h.Api.Start.{Environment}
use t2h.Api.{
  UnderlyingInfo, UnderlyingHandle, Program, OnHandle, invalid_id, with_handle, with_info,
  on_torrent, on_file,
}
use t2h.Api.Functions.{
  t2h_init_, t2h_close, t2h_wait, t2h_add_torrent, t2h_add_torrent_url, t2h_get_torrent_files,
  t2h_start_download, t2h_paused_download, t2h_resume_download, t2h_delete_torrent,
  t2h_stop_download,
}
use t2h.Api.Calls.{
  ApiCall, init, close, wait, add, add_url, files, delete, stop_download, start, paused, resume,
  ended, run, handle_of,
}

abbrev is_negative : ℤ → Bool
is_negative (pos n) = false
is_negative (negsuc n) = true

abbrev is_null : Option Bytes → Bool
is_null none = true
is_null (some text) = false

-- The calls whose arguments are bad on their own: a negative handle, a null pointer, the number that is
-- no torrent's, a negative number of a file.
abbrev pub refused : ApiCall → Bool
refused (init config load_from_file) = is_null config
refused (close handle) = is_negative handle
refused (wait handle) = is_negative handle
refused (add resolvers now paths rounds handle path) = is_negative handle || is_null path
refused (add_url handle url) = is_negative handle || is_null url
refused (files handle i) = is_negative handle || i == invalid_id
refused (delete handle i) = is_negative handle || i == invalid_id
refused (stop_download handle i) = is_negative handle || i == invalid_id
refused (start handle i file_id) = is_negative handle || (i == invalid_id || is_negative file_id)
refused (paused handle i file_id) = is_negative handle || (i == invalid_id || is_negative file_id)
refused (resume handle i file_id) = is_negative handle || (i == invalid_id || is_negative file_id)

-- What a guarded function does without the handle: nothing where it is refused, and what is undefined
-- where its handle is unknown.
abbrev IsGuarded : {A : Type 0} → (Program → Program × Outcome A) → ℤ → Bool → A → Type 0
IsGuarded f handle b a =
    (s : Program)
    → (b ≡ true → f s ≡ (s, returns a))
      × ((n : ℕ) → handle ≡ pos n → find ◌==◌ n s.handles ≡ none → b ≡ false → (f s).1 ≡ undefined)

handle-IsGuarded :
    {A : Type 0} (handle : ℤ) (a : A) (f : OnHandle A)
    → IsGuarded (with_handle handle a f) handle (is_negative handle) a
unfolding with_handle get_handle
handle-IsGuarded (negsuc m) a f s = (λ k. refl, λ n e u b. absurd (ground (arith, b)))
handle-IsGuarded (pos m) a f s = (
  λ k. absurd (ground (arith, k)),
  λ n e u b.
      let q : find ◌==◌ m s.handles ≡ none = ground (arith, e, u) in rw (q, with_handle) refl,
)

-- A further test in front.
or-IsGuarded :
    {A : Type 0} (f : Program → Program × Outcome A) (handle : ℤ) (b c : Bool) (a : A)
    → IsGuarded f handle b a
    → IsGuarded (λ s. if c then (s, returns a) else f s) handle (b || c) a
or-IsGuarded f handle b true a g s = (λ k. refl, λ n e u k. absurd (ground (arith, k)))
or-IsGuarded f handle b false a g s =
    (λ k. (g s).0 (ground (arith, k)), λ n e u k. (g s).1 n e u (ground (arith, k)))

torrent-IsGuarded :
    {A : Type 0} (handle : ℤ) (i : ℕ) (a : A) (f : UnderlyingInfo → OnHandle A)
    → IsGuarded (on_torrent handle i a f) handle (is_negative handle || i == invalid_id) a
torrent-IsGuarded handle i a f =
    or-IsGuarded (with_handle handle a (with_info i a f)) handle (is_negative handle)
      (i == invalid_id) a (handle-IsGuarded handle a (with_info i a f))

file-IsGuarded :
    {A : Type 0} (handle : ℤ) (i : ℕ) (file_id : ℤ) (a : A) (f : UnderlyingInfo → OnHandle A)
    → IsGuarded
        (on_file handle i file_id a f)
        handle
        (is_negative handle || (i == invalid_id || is_negative file_id))
        a
file-IsGuarded handle i (negsuc n) a f s = (λ k. refl, λ n e u k. absurd (ground (arith, k)))
file-IsGuarded handle i (pos n) a f s = (
  λ k. (torrent-IsGuarded handle i a f s).0 (ground (arith, k)),
  λ n e u k. (torrent-IsGuarded handle i a f s).1 n e u (ground (arith, k)),
)

ended-IsGuarded :
    {A : Type 0} (f : Program → Program × Outcome A) (handle : ℤ) (b : Bool) (a : A)
    → IsGuarded f handle b a
    → IsGuarded (λ s. ended (f s)) handle b tt
unfolding ended
ended-IsGuarded f handle b a g s =
    (λ k. rw ((g s).0 k, ended) refl, λ n e u k. rw ((g s).1 n e u k, ended) refl)

module _ (env : Environment) (workaround : Bool) where
  close-IsGuarded :
      (handle : ℤ) → IsGuarded (t2h_close env workaround handle) handle (is_negative handle) tt
  unfolding t2h_close unregistr_handle
  close-IsGuarded (negsuc m) s = (λ k. refl, λ n e u b. absurd (ground (arith, b)))
  close-IsGuarded (pos m) s = (
    λ k. absurd (ground (arith, k)),
    λ n e u b.
        let q : find ◌==◌ m s.handles ≡ none = ground (arith, e, u) in rw (q, t2h_close) refl,
  )

  run-IsGuarded :
      (call : ApiCall) → IsGuarded (run env workaround call) (handle_of call) (refused call) tt
  unfolding run t2h_init_ t2h_wait t2h_add_torrent t2h_add_torrent_url t2h_get_torrent_files
      t2h_start_download t2h_paused_download t2h_resume_download t2h_delete_torrent
      t2h_stop_download ended
  run-IsGuarded (init none b) s = (λ k. refl, λ n e u k. absurd (ground (arith, k)))
  run-IsGuarded (init (some config) b) s =
      (λ k. absurd (ground (arith, k)), λ n e u k. absurd (ground (arith, e)))
  run-IsGuarded (close handle) s = close-IsGuarded handle s
  run-IsGuarded (wait handle) s = handle-IsGuarded handle tt _ s
  run-IsGuarded (add resolvers now paths rounds handle none) s =
      (λ k. refl, λ n e u k. absurd (ground (arith, k)))
  run-IsGuarded (add resolvers now paths rounds handle (some path)) s =
      or-IsGuarded (run env workaround (add resolvers now paths rounds handle (some path))) handle
        (is_negative handle) false tt
        (ended-IsGuarded _ handle (is_negative handle) invalid_id
          (handle-IsGuarded handle invalid_id _))
        s
  run-IsGuarded (add_url handle none) s = (λ k. refl, λ n e u k. absurd (ground (arith, k)))
  run-IsGuarded (add_url handle (some url)) s =
      or-IsGuarded (run env workaround (add_url handle (some url))) handle (is_negative handle)
        false tt
        (ended-IsGuarded _ handle (is_negative handle) invalid_id
          (handle-IsGuarded handle invalid_id _))
        s
  run-IsGuarded (files handle i) s =
      ended-IsGuarded _ handle _ none (torrent-IsGuarded handle i none _) s
  run-IsGuarded (delete handle i) s = torrent-IsGuarded handle i tt _ s
  run-IsGuarded (stop_download handle i) s = torrent-IsGuarded handle i tt _ s
  run-IsGuarded (start handle i file_id) s =
      ended-IsGuarded _ handle _ none (file-IsGuarded handle i file_id none _) s
  run-IsGuarded (paused handle i file_id) s = file-IsGuarded handle i file_id tt _ s
  run-IsGuarded (resume handle i file_id) s = file-IsGuarded handle i file_id tt _ s

  unregistered :
      (n : ℕ) (s : Program) (h : UnderlyingHandle)
      → find ◌==◌ n s.handles ≡ some h
      → unregistr_handle s.handles n ≡ (erase ◌==◌ n s.handles, some h)
  unfolding unregistr_handle
  unregistered n s h e = rw (e, unregistr_handle) refl

  closed :
      (n : ℕ) (s : Program) (h : UnderlyingHandle)
      → find ◌==◌ n s.handles ≡ some h
      → find ◌==◌ n (t2h_close env workaround (pos n) s).0.handles ≡ none
  unfolding t2h_close
  closed n s h e =
      rw (unregistered n s h e, t2h_close)
        (rw (unregistered n s h e) (find-erase ◌==◌ ==_iff n s.handles n ∙ ground arith))

  -- For every exported function: a call whose arguments are bad on their own, a negative handle, a null
  -- pointer, the number that is no torrent's or a negative number of a file, changes nothing. That is
  -- all that is tested: behind the close of a handle that is in use, every call with this handle whose
  -- other arguments are good, the second close among them, is undefined.
  pub close-run :
      (call : ApiCall) (s : Program)
      → (refused call ≡ true → run env workaround call s ≡ (s, returns tt))
        × ((n : ℕ) (h : UnderlyingHandle)
            → find ◌==◌ n s.handles ≡ some h
            → handle_of call ≡ pos n
            → refused call ≡ false
            → (run env workaround call (run env workaround (close (pos n)) s).0).1 ≡ undefined)
  unfolding run
  close-run call s = (
    (run-IsGuarded call s).0,
    λ n h e k b.
        (run-IsGuarded call (t2h_close env workaround (pos n) s).0).1 n k (closed n s h e) b,
  )
