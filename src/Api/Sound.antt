-- ===== src/Api/Sound.antt =====
-- src/core/external_api/external_api.cpp: the exported functions in any order, from the start of the
-- program on, over the torrent cores of the handles.
use t2h.Common.{
  ℕ, ◌==◌, ==_iff, true, List, [], ◌∷◌, none, some, Bytes, str_eq, str_eq_iff, find, assign,
  find-assign, find-assign_same, ℤ, pos, negsuc, if◌then◌else◌, ◌≡◌, ◌≢◌, refl, sym, ap, All, ◌∙◌,
  Bool-cases, Option-cases, inl, inr, arith,
}
use mathlib.Core.Path.{subst}
use t2h.Handles.{get_handle}
use t2h.Core.World.{Core, Outcome, returns, threw, escaped, undefined, M, is_running}
use t2h.Http.Transport.Connection.{HttpMongooseTransport}
use t2h.Core.Safety.Calm.{IsSoundly}
use t2h.Core.Service.Sound.{IsSound}
use t2h.Api.Start.{Service, torrent_service, http_service, this_service_name, get_torrent_core}
use t2h.Api.{
  UnderlyingInfo, UnderlyingHandle, Program, OnHandle, followed_by, give, with_core, with_info,
  keep_text, with_handle, get_info, string_to_c_string,
}

-- A server that runs has a transport, and a torrent core is sound.
abbrev pub IsSafeService : Service → Type 0
IsSafeService (torrent_service c) = IsSound c
IsSafeService (http_service h) =
    is_running h.cur_state ≡ true → (t : HttpMongooseTransport) × (h.transport ≡ some t)

abbrev pub AllSafe : List (Bytes × Service) → Type 0
AllSafe services = All (λ x. IsSafeService x.1) services

assign-AllSafe :
    (name : Bytes) (x : Service) (services : List (Bytes × Service))
    → IsSafeService x
    → AllSafe services
    → AllSafe (assign str_eq name x services)
unfolding assign
assign-AllSafe name x [] k a = (k, tt)
assign-AllSafe name x ((other, y) ∷ services) k (b, a) = elim (Bool-cases (str_eq other name)) [
  | inl e ↦ rw (e, assign) (k, a)
  | inr e ↦ rw (e, assign) (b, assign-AllSafe name x services k a)
]

-- A handle whose torrent core is there and sound, and whose services are safe.
pub record IsUsable (h : UnderlyingHandle) : Type 0 where
  pub core : Core
  pub found : get_torrent_core h.core_handle ≡ some (torrent_service core)
  pub sound : IsSound core
  pub safe : AllSafe h.core_handle.services

abbrev pub IsOpen : Program → Type 0
IsOpen s = (n : ℕ) (h : UnderlyingHandle) → find ◌==◌ n s.handles ≡ some h → IsUsable h

-- A function that keeps a handle usable and does nothing undefined.
pub record IsKeeping {A : Type 0} (f : OnHandle A) : Type 0 where
  pub usable : (h : UnderlyingHandle) → IsUsable h → IsUsable (f h).0
  pub defined : (h : UnderlyingHandle) → IsUsable h → (f h).1 ≢ undefined

-- The core of a handle is all that makes it usable.
pub same_core : (h k : UnderlyingHandle) → k.core_handle ≡ h.core_handle → IsUsable h → IsUsable k
same_core h k e u = record {
  core = u.core;
  found = ap get_torrent_core e ∙ u.found;
  sound = u.sound;
  safe = subst (λ c. AllSafe c.services) (sym e) u.safe;
}

-- The handle with another state of its torrent core.
abbrev pub with_state : UnderlyingHandle → Core → UnderlyingHandle
with_state h c = record h {
  core_handle = record h.core_handle {
    services = assign str_eq this_service_name (torrent_service c) h.core_handle.services;
  };
}

pub with_core_lem :
    {A : Type 0} (m : M A) (h : UnderlyingHandle) (c : Core)
    → get_torrent_core h.core_handle ≡ some (torrent_service c)
    → with_core m h ≡ (with_state h (m c).0, (m c).1)
unfolding with_core
with_core_lem m h c e = rw (e, with_core) refl

with_state-IsUsable :
    (h : UnderlyingHandle) (c : Core)
    → IsSound c
    → AllSafe h.core_handle.services
    → IsUsable (with_state h c)
unfolding get_torrent_core
with_state-IsUsable h c s a = record {
  core = c;
  found =
      find-assign_same str_eq str_eq_iff this_service_name (torrent_service c)
        h.core_handle.services;
  sound = s;
  safe = assign-AllSafe this_service_name (torrent_service c) h.core_handle.services s a;
}

pub with_core-IsKeeping :
    {A : Type 0} (m : M A) → ((c : Core) → IsSound c → IsSoundly (m c)) → IsKeeping (with_core m)
with_core-IsKeeping m s = record {
  usable = λ h u.
      let k = s u.core u.sound in
      subst (λ r. IsUsable r.0) (sym (with_core_lem m h u.core u.found))
        (with_state-IsUsable h (m u.core).0 (record { stored = k.stored; live = k.live }) u.safe);
  defined = λ h u.
      subst (λ r. r.1 ≢ undefined) (sym (with_core_lem m h u.core u.found))
        (s u.core u.sound).defined;
}

pub followed_by-IsKeeping :
    {A B : Type 0} (m : OnHandle A) (f : A → OnHandle B)
    → IsKeeping m
    → ((a : A) → IsKeeping (f a))
    → IsKeeping (followed_by m f)
unfolding followed_by
followed_by-IsKeeping {A} {B} m f k l = record {
  usable = λ h u. go h u (m h).1 refl;
  defined = λ h u. ends h u (m h).1 refl;
}
  where
    go :
        (h : UnderlyingHandle)
        → IsUsable h
        → (o : Outcome A) → (m h).1 ≡ o
        → IsUsable (followed_by m f h).0
    go h u (returns a) e = rw (e, followed_by) ((l a).usable (m h).0 (k.usable h u))
    go h u threw e = rw (e, followed_by) (k.usable h u)
    go h u escaped e = rw (e, followed_by) (k.usable h u)
    go h u undefined e = rw (e, followed_by) (k.usable h u)

    ends :
        (h : UnderlyingHandle)
        → IsUsable h
        → (o : Outcome A) → (m h).1 ≡ o
        → (followed_by m f h).1 ≢ undefined
    ends h u (returns a) e = rw (e, followed_by) ((l a).defined (m h).0 (k.usable h u))
    ends h u threw e = rw (e, followed_by) (λ d. cc)
    ends h u escaped e = rw (e, followed_by) (λ d. cc)
    ends h u undefined e = absurd (k.defined h u e)

pub give-IsKeeping : {A : Type 0} (a : A) → IsKeeping (give a)
give-IsKeeping a = record { usable = λ h u. u; defined = λ h u d. cc }

pub with_info-IsKeeping :
    {A : Type 0} (i : ℕ) (a : A) (f : UnderlyingInfo → OnHandle A)
    → ((info : UnderlyingInfo) → IsKeeping (f info))
    → IsKeeping (with_info i a f)
unfolding with_info
with_info-IsKeeping i a f k = record {
  usable = λ h u. elim (Option-cases (get_info h i)) [
    | inl e ↦ rw (e, with_info) u
    | inr (info, e) ↦ rw (e, with_info) ((k info).usable h u)
  ];
  defined = λ h u. elim (Option-cases (get_info h i)) [
    | inl e ↦ rw (e, with_info) (λ d. cc)
    | inr (info, e) ↦ rw (e, with_info) ((k info).defined h u)
  ];
}

pub keep_text-IsKeeping :
    (i : ℕ) (info : UnderlyingInfo) (string : Bytes) → IsKeeping (keep_text i info string)
unfolding keep_text string_to_c_string
keep_text-IsKeeping i info [] = give-IsKeeping none
keep_text-IsKeeping i info (c ∷ string) = record {
  usable = λ h u. same_core h _ refl u;
  defined = λ h u d. cc;
}

pub put-IsUsable :
    (s : Program) (n : ℕ) (k : UnderlyingHandle)
    → IsOpen s
    → IsUsable k
    → (j : ℕ) (g : UnderlyingHandle) → find ◌==◌ j (assign ◌==◌ n k s.handles) ≡ some g
    → IsUsable g
put-IsUsable s n k o u j g c =
    let q : (if n == j then some k else find ◌==◌ j s.handles) ≡ some g =
      sym (find-assign ◌==◌ ==_iff n k s.handles j) ∙ c in
    elim (Bool-cases (n == j)) [
      | inl b ↦ let e : k ≡ g = ground (arith, b, q) in subst IsUsable e u
      | inr b ↦ o j g (ground (arith, b, q))
    ]

-- A call with a handle that is in use.
pub with_handle-IsOpen :
    {A : Type 0} (handle : ℤ) (a : A) (f : OnHandle A) (s : Program)
    → IsKeeping f
    → IsOpen s
    → IsOpen (with_handle handle a f s).0
unfolding with_handle get_handle
with_handle-IsOpen (negsuc n) a f s k o = o
with_handle-IsOpen (pos n) a f s k o = elim (Option-cases (find ◌==◌ n s.handles)) [
  | inl e ↦ rw (e, with_handle) o
  | inr (h, e) ↦ rw (e, with_handle) (put-IsUsable s n (f h).0 o (k.usable h (o n h e)))
]

abbrev pub Knows : Program → ℤ → Type 0
Knows s (negsuc n) = Unit {0}
Knows s (pos n) = (h : UnderlyingHandle) × (find ◌==◌ n s.handles ≡ some h)

pub with_handle-defined :
    {A : Type 0} (handle : ℤ) (a : A) (f : OnHandle A) (s : Program)
    → IsKeeping f
    → IsOpen s
    → Knows s handle
    → (with_handle handle a f s).1 ≢ undefined
unfolding with_handle get_handle
with_handle-defined (negsuc n) a f s k o g = λ d. cc
with_handle-defined (pos n) a f s k o (h, e) = rw (e, with_handle) (k.defined h (o n h e))

-- What a call leaves, and that it is defined.
abbrev pub IsFine : {A : Type 0} → (Program → Program × Outcome A) → ℤ → Type 0
IsFine f handle = (s : Program) → IsOpen s → IsOpen (f s).0 × (Knows s handle → (f s).1 ≢ undefined)
