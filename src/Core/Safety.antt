-- ===== src/Core/Safety.antt =====
-- src/core/torrent_core: what it is for a function of the service to be safe, and the rules that the
-- proofs about torrent_core.cpp and sequential_torrent_controller.cpp are made of.
pub mod Steps
pub mod Rules
pub mod Handlers
pub mod Alerts
pub mod Calm
use t2h.Common.{
  ℕ, suc, ◌≤◌, ◌<◌, ◌==◌, ==_iff, Bool, true, false, List, Option, none, some, find, if◌then◌else◌,
  ◌≡◌, refl, arith,
}
use t2h.Core.World.{
  Core, TorrentExInfo, AddTorrentFuture, Outcome, returns, threw, escaped, undefined, M, ◌>>=◌,
  ◌>>◌, pure, get_state, exception_safe, leaving,
}

-- Every pointer that was given out points to the information of a torrent.
abbrev pub IsStored : Core → Type 0
IsStored s = (p : ℕ) → p < s.fresh → (ex : TorrentExInfo) × (find ◌==◌ p s.ex_infos ≡ some ex)

-- The session and the buffer are there, and the buffer has no other pointers.
pub record IsLive (s : Core) : Type 0 where
  pub session : s.session ≡ true
  pub torrents : List (ℕ × ℕ)
  pub shared : s.shared_buffer ≡ some torrents
  pub inside : (h p : ℕ) → find ◌==◌ h torrents ≡ some p → p < s.fresh
  pub stored : IsStored s

abbrev pub Ends : {A : Type 0} → (A → Type 0) → Outcome A → Type 0
Ends Q (returns a) = Q a
Ends Q threw = Unit
Ends Q escaped = Unit
Ends Q undefined = ⊥

-- The field `future` is not null.
abbrev pub IsFuture : ℕ → Core → Type 0
IsFuture p s = (f : AddTorrentFuture) × (find ◌==◌ p s.futures ≡ some f)

-- A function that ends with everything still there, its value with a property in the number of the
-- pointers by then, and, where `K` is true, no future reset.
pub record IsDone {A : Type 0} (K : Bool) (s : Core) (Q : A → ℕ → Type 0) (r : Core × Outcome A)
    : Type 0 where
  pub live : IsLive r.0
  pub grows : s.fresh ≤ r.0.fresh
  pub kept : K ≡ true → (p : ℕ) → IsFuture p s → IsFuture p r.0
  pub ends : Ends (λ a. Q a r.0.fresh) r.1

-- A function is safe from n pointers on.
abbrev pub Safe : {A : Type 0} → Bool → ℕ → (A → ℕ → Type 0) → M A → Type 0
Safe K n Q m = (s : Core) → IsLive s → n ≤ s.fresh → IsDone K s Q (m s)

abbrev pub Any : {A : Type 0} → A → ℕ → Type 0
Any a n = Unit

pub pure-Safe : {K : Bool} {A : Type 0} (n : ℕ) (a : A) → Safe K n Any (pure a)
pure-Safe n a s h k = record { live = h; grows = omega arith; kept = λ _ p f. f; ends = tt }

-- A sequence from one state on: what follows is done from the state that the first part leaves.
pub bind-IsDone :
    {J K : Bool} {A B : Type 0} {Q : A → ℕ → Type 0} {R : B → ℕ → Type 0} (s : Core) (m : M A)
    (f : A → M B)
    → (K ≡ true → J ≡ true)
    → IsDone J s Q (m s)
    → ((a : A) → Q a (m s).0.fresh → IsDone K (m s).0 R (f a (m s).0))
    → IsDone K s R ((m >>= f) s)
unfolding ◌>>=◌
bind-IsDone {J} {K} {A} {B} {Q} {R} s m f i d hf = go (m s).1 refl
  where
    go : (o : Outcome A) → (m s).1 ≡ o → IsDone K s R ((m >>= f) s)
    go (returns a) e =
        let q : Q a (m s).0.fresh = rw e at d.ends in
        let r = hf a q in
        rw (e, ◌>>=◌)
          (record {
            live = r.live;
            grows = omega (arith, d.grows, r.grows);
            kept = λ g p x. r.kept g p (d.kept (i g) p x);
            ends = r.ends;
          })
    go threw e =
        rw (e, ◌>>=◌)
          (record { live = d.live; grows = d.grows; kept = λ g p x. d.kept (i g) p x; ends = tt })
    go escaped e =
        rw (e, ◌>>=◌)
          (record { live = d.live; grows = d.grows; kept = λ g p x. d.kept (i g) p x; ends = tt })
    go undefined e = absurd (rw e at d.ends)

pub bind-Safe :
    {K : Bool} {A B : Type 0} {Q : A → ℕ → Type 0} {R : B → ℕ → Type 0} (n : ℕ) (m : M A)
    (f : A → M B)
    → Safe K n Q m
    → ((a : A) (j : ℕ) → n ≤ j → Q a j → Safe K j R (f a))
    → Safe K n R (m >>= f)
bind-Safe n m f hm hf s h k =
    let d = hm s h k in
    bind-IsDone s m f (λ e. e) d
      (λ a q. hf a (m s).0.fresh (omega (arith, k, d.grows)) q (m s).0 d.live (omega arith))

pub exception_safe-Safe :
    {K : Bool} {A : Type 0} (n : ℕ) (a : A) (m : M A)
    → Safe K n Any m
    → Safe K n Any (exception_safe a m)
unfolding exception_safe
exception_safe-Safe {K} {A} n a m hm s h k = go (m s).1 refl
  where
    d : IsDone K s Any (m s)
    d = hm s h k

    go : (o : Outcome A) → (m s).1 ≡ o → IsDone K s Any (exception_safe a m s)
    go (returns b) e =
        rw (e, exception_safe) (record { live = d.live; grows = d.grows; kept = d.kept; ends = tt })
    go threw e =
        rw (e, exception_safe) (record { live = d.live; grows = d.grows; kept = d.kept; ends = tt })
    go escaped e =
        rw (e, exception_safe) (record { live = d.live; grows = d.grows; kept = d.kept; ends = tt })
    go undefined e = absurd (rw e at d.ends)

pub leaving-Safe :
    {K : Bool} {A : Type 0} {Q : A → ℕ → Type 0} (n : ℕ) (d : M (Unit {0})) (m : M A)
    → Safe K n Any d
    → Safe K n Q m
    → Safe K n Any (leaving d m)
unfolding leaving
leaving-Safe {K} {A} {Q} n d m hd hm s h k =
    let x = hm s h k in
    let y = hd (m s).0 x.live (omega (arith, k, x.grows)) in
    record {
      live = y.live;
      grows = omega (arith, x.grows, y.grows);
      kept = λ e p f. y.kept e p (x.kept e p f);
      ends = go (m s).1 x.ends;
    }
  where
    go : (o : Outcome A) → Ends (λ a. Q a (m s).0.fresh) o → Ends (λ a. Any a (d (m s).0).0.fresh) o
    go (returns a) e = tt
    go threw e = tt
    go escaped e = tt
    go undefined e = e

-- The branch that a test leads to.
pub by_true :
    {X : Type 0} (P : X → Type 0) (b : Bool) (x y : X) → b ≡ true → P x → P (if b then x else y)
by_true P true x y e h = h
by_true P false x y e h = ground (arith, e)
