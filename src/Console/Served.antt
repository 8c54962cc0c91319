-- ===== src/Console/Served.antt =====
-- src/apps/full_model.cpp: the console over the library, whatever the commands are.
use t2h.Common.{
  ℕ, ◌==◌, ==_iff, Bool, List, Option, none, some, Bytes, find, assign, find-assign, ℤ, pos, negsuc,
  ◌≡◌, ◌≢◌, refl, sym, ap, ◌∙◌, Bool-cases, Option-cases, inl, inr,
}
use mathlib.Core.Path.{subst}
use t2h.Core.World.{Outcome, returns, threw, escaped, undefined}
use t2h.Core.Safety.Handlers.{HasBytes}
use t2h.Handles.{get_handle}
use t2h.Api.Start.{Environment}
use t2h.Api.{
  UnderlyingInfo, UnderlyingHandle, Program, OnHandle, invalid_id, with_handle, with_info,
  on_torrent, on_file,
}
use t2h.Api.Functions.{
  t2h_add_torrent, t2h_get_torrent_files, t2h_start_download, t2h_resume_download,
  t2h_delete_torrent, t2h_stop_download,
}
use t2h.Api.Sound.{Knows}
use t2h.Api.Calls.{
  ApiCall, add, files, delete, stop_download, start, resume, ended, run, Reached, called, handle_of,
  IsStart,
}
use t2h.Api.Reachable.{Reached-IsOpen}
use t2h.Console.{App, Addition, Answer, calling, answer}

assigned :
    (n m : ℕ) (k h : UnderlyingHandle) (hs : List (ℕ × UnderlyingHandle))
    → find ◌==◌ m hs ≡ some h
    → (g : UnderlyingHandle) × (find ◌==◌ m (assign ◌==◌ n k hs) ≡ some g)
assigned n m k h hs e = elim (Bool-cases (n == m)) [
  | inl b ↦ (k, find-assign ◌==◌ ==_iff n k hs m ∙ rw b refl)
  | inr b ↦ (h, find-assign ◌==◌ ==_iff n k hs m ∙ rw b e)
]

-- A call leaves every handle in use.
abbrev IsKind : {A : Type 0} → (Program → Program × Outcome A) → Type 0
IsKind f = (s : Program) (g : ℤ) → Knows s g → Knows (f s).0 g

handle-IsKind : {A : Type 0} (handle : ℤ) (a : A) (f : OnHandle A) → IsKind (with_handle handle a f)
unfolding with_handle get_handle
handle-IsKind handle a f s (negsuc m) k = tt
handle-IsKind (negsuc n) a f s (pos m) k = k
handle-IsKind (pos n) a f s (pos m) (h, e) = elim (Option-cases (find ◌==◌ n s.handles)) [
  | inl c ↦ rw (c, with_handle) (h, e)
  | inr (i, c) ↦ rw (c, with_handle) (assigned n m (f i).0 h s.handles e)
]

torrent-IsKind :
    {A : Type 0} (handle : ℤ) (i : ℕ) (a : A) (f : UnderlyingInfo → OnHandle A)
    → IsKind (on_torrent handle i a f)
torrent-IsKind handle i a f s g k = elim (Bool-cases (i == invalid_id)) [
  | inl e ↦ rw e k
  | inr e ↦ rw e (handle-IsKind handle a (with_info i a f) s g k)
]

file-IsKind :
    {A : Type 0} (handle : ℤ) (i : ℕ) (file_id : ℤ) (a : A) (f : UnderlyingInfo → OnHandle A)
    → IsKind (on_file handle i file_id a f)
file-IsKind handle i (negsuc n) a f s g k = k
file-IsKind handle i (pos n) a f s g k = torrent-IsKind handle i a f s g k

-- The program is in a state that calls lead to, and its handle is in use or negative.
abbrev pub IsServed : Environment → Bool → App → Type 0
IsServed env workaround a = Reached env workaround a.program × Knows a.program a.core_handle.handle

module _ (env : Environment) (workaround : Bool) (b : HasBytes env.platform.lt) where
  abbrev pub IsGood : App × Outcome Answer → Type 0
  IsGood r = IsServed env workaround r.0 × (r.1 ≢ undefined)

  -- A function of the library at the handle of the program.
  pub record IsApiCall {A : Type 0} (f : Program → Program × Outcome A) (handle : ℤ) : Type 0 where
    pub same : ApiCall
    pub runs : (s : Program) → run env workaround same s ≡ ended (f s)
    pub at : handle_of same ≡ handle
    pub is_call : IsStart same → ⊥
    pub kind : IsKind f

  defined : {A : Type 0} (r : Program × Outcome A) → (ended r).1 ≢ undefined → r.1 ≢ undefined
  unfolding ended
  defined (s, returns a) d e = cc
  defined (s, threw) d e = cc
  defined (s, escaped) d e = cc
  defined (s, undefined) d e = d refl

  ended_state : {A : Type 0} (r : Program × Outcome A) → (ended r).0 ≡ r.0
  unfolding ended
  ended_state r = refl

  -- What a call leaves, and that it is defined.
  api_call :
      {A : Type 0} (f : Program → Program × Outcome A) (handle : ℤ) (s : Program)
      → IsApiCall f handle
      → Reached env workaround s
      → Knows s handle
      → Reached env workaround (f s).0 × (Knows (f s).0 handle × ((f s).1 ≢ undefined))
  api_call f handle s c r k = (
    subst (Reached env workaround) (ap (λ x. x.0) (c.runs s) ∙ ended_state (f s))
        (called c.same s r),
    (
      c.kind s handle k,
      defined (f s) (elim ((Reached-IsOpen env workaround b s r).1 c.same) [
        | inl i ↦ absurd (c.is_call i)
        | inr d ↦ subst (λ x. x.1 ≢ undefined) (c.runs s) (d (subst (Knows s) (sym c.at) k))
      ]),
    ),
  )

  -- By the way the function ends.
  pub calling-cases :
      {A : Type 0} (f : Program → Program × Outcome A) (k : A → App → App × Outcome Answer)
      (a : App) (P : App × Outcome Answer → Type 0)
      → IsApiCall f a.core_handle.handle
      → IsServed env workaround a
      → ((x : A) (c : App) → IsServed env workaround c → P (k x c))
      → ((c : App) → IsServed env workaround c → P (c, threw) × P (c, escaped))
      → P (calling f k a)
  unfolding calling
  calling-cases {A} f k a P c (r, g) l m =
      let (r', (g', d)) = api_call f a.core_handle.handle a.program c r g in
      go (f a.program).1 refl (r', g') d
    where
      after : App
      after = record a { program = (f a.program).0 }

      go :
          (o : Outcome A)
          → (f a.program).1 ≡ o
          → IsServed env workaround after
          → (f a.program).1 ≢ undefined
          → P (calling f k a)
      go (returns x) e s d = rw (e, calling) (l x after s)
      go threw e s d = rw (e, calling) (m after s).0
      go escaped e s d = rw (e, calling) (m after s).1
      go undefined e s d = absurd (d e)

  pub calling-IsGood :
      {A : Type 0} (f : Program → Program × Outcome A) (k : A → App → App × Outcome Answer)
      (a : App)
      → IsApiCall f a.core_handle.handle
      → IsServed env workaround a
      → ((x : A) (c : App) → IsServed env workaround c → IsGood (k x c))
      → IsGood (calling f k a)
  calling-IsGood f k a c s l =
      calling-cases f k a IsGood c s l (λ d t. ((t, λ i. cc), (t, λ i. cc)))

  add-IsKind :
      (i : Addition) (handle : ℤ) (path : Option Bytes)
      → IsKind (t2h_add_torrent env workaround i.resolvers i.now i.paths i.rounds handle path)
  unfolding t2h_add_torrent
  add-IsKind i handle none s g k = k
  add-IsKind i handle (some path) s g k = handle-IsKind handle invalid_id _ s g k

  pub add-IsApiCall :
      (i : Addition) (handle : ℤ) (path : Option Bytes)
      → IsApiCall
          (t2h_add_torrent env workaround i.resolvers i.now i.paths i.rounds handle path)
          handle
  unfolding run
  add-IsApiCall i handle path = record {
    same = add i.resolvers i.now i.paths i.rounds handle path;
    runs = λ s. refl;
    at = refl;
    is_call = λ x. x;
    kind = add-IsKind i handle path;
  }

  ended_unit : (r : Program × Outcome (Unit {0})) → r ≡ ended r
  unfolding ended
  ended_unit (s, returns tt) = refl
  ended_unit (s, threw) = refl
  ended_unit (s, escaped) = refl
  ended_unit (s, undefined) = refl

  pub stop-IsApiCall :
      (handle : ℤ) (i : ℕ) → IsApiCall (t2h_stop_download env workaround handle i) handle
  unfolding run t2h_stop_download
  stop-IsApiCall handle i = record {
    same = stop_download handle i;
    runs = λ s. ended_unit (t2h_stop_download env workaround handle i s);
    at = refl;
    is_call = λ x. x;
    kind = torrent-IsKind handle i tt _;
  }

  pub delete-IsApiCall :
      (handle : ℤ) (i : ℕ) → IsApiCall (t2h_delete_torrent env workaround handle i) handle
  unfolding run t2h_delete_torrent
  delete-IsApiCall handle i = record {
    same = delete handle i;
    runs = λ s. ended_unit (t2h_delete_torrent env workaround handle i s);
    at = refl;
    is_call = λ x. x;
    kind = torrent-IsKind handle i tt _;
  }

  pub resume-IsApiCall :
      (handle : ℤ) (i : ℕ) (file_id : ℤ)
      → IsApiCall (t2h_resume_download env workaround handle i file_id) handle
  unfolding run t2h_resume_download
  resume-IsApiCall handle i file_id = record {
    same = resume handle i file_id;
    runs = λ s. ended_unit (t2h_resume_download env workaround handle i file_id s);
    at = refl;
    is_call = λ x. x;
    kind = file-IsKind handle i file_id tt _;
  }

  pub start-IsApiCall :
      (handle : ℤ) (i : ℕ) (file_id : ℤ)
      → IsApiCall (t2h_start_download env workaround handle i file_id) handle
  unfolding run t2h_start_download
  start-IsApiCall handle i file_id = record {
    same = start handle i file_id;
    runs = λ s. refl;
    at = refl;
    is_call = λ x. x;
    kind = λ s. file-IsKind handle i file_id none _ s;
  }

  pub files-IsApiCall :
      (handle : ℤ) (i : ℕ) → IsApiCall (t2h_get_torrent_files env workaround handle i) handle
  unfolding run t2h_get_torrent_files
  files-IsApiCall handle i = record {
    same = files handle i;
    runs = λ s. refl;
    at = refl;
    is_call = λ x. x;
    kind = torrent-IsKind handle i none _;
  }

  pub answer-IsGood :
      {A : Type 0} (r : Answer) (x : A) (c : App)
      → IsServed env workaround c
      → IsGood (answer r x c)
  answer-IsGood r x c s = (s, λ i. cc)
