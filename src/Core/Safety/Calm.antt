-- ===== src/Core/Safety/Calm.antt =====
-- src/core/torrent_core/torrent_core.cpp: the steps that do not change whether the service runs, and how
-- they go on in a launch or a stop.
use t2h.Common.{
  ℕ, Bool, true, false, if◌then◌else◌, ◌≡◌, ◌≢◌, refl, ◌∙◌, Bool-cases, inl, inr, arith,
}
use t2h.Core.World.{
  Call, Core, Libtorrent, Outcome, returns, threw, escaped, undefined, M, ◌>>=◌, pure, get_state,
  call, session_call, is_running,
}
use t2h.Core.Safety.{IsStored, IsLive, IsDone}
use t2h.Core.Safety.Rules.{IsSafe}

pub record IsCalm {A : Type 0} (m : M A) : Type 0 where
  pub calm : (s : Core) → (m s).0.cur_state ≡ s.cur_state

pub pure-IsCalm : {A : Type 0} (a : A) → IsCalm (pure a)
pure-IsCalm a = record { calm = λ s. refl }

pub bind-IsCalm :
    {A B : Type 0} {m : M A} {f : A → M B} → IsCalm m → ((a : A) → IsCalm (f a)) → IsCalm (m >>= f)
unfolding ◌>>=◌
bind-IsCalm {A} {B} {m} {f} hm hf = record { calm = λ s. go s (m s).1 refl }
  where
    go : (s : Core) (o : Outcome A) → (m s).1 ≡ o → ((m >>= f) s).0.cur_state ≡ s.cur_state
    go s (returns a) e = rw (e, ◌>>=◌) ((hf a).calm (m s).0 ∙ hm.calm s)
    go s threw e = rw (e, ◌>>=◌) (hm.calm s)
    go s escaped e = rw (e, ◌>>=◌) (hm.calm s)
    go s undefined e = rw (e, ◌>>=◌) (hm.calm s)

pub if-IsCalm :
    {A : Type 0} (b : Bool) {m f : M A} → IsCalm m → IsCalm f → IsCalm (if b then m else f)
if-IsCalm true hm hf = hm
if-IsCalm false hm hf = hf

pub state-IsCalm :
    {A : Type 0} {f : Core → M A} → ((t : Core) → IsCalm (f t)) → IsCalm (get_state >>= f)
unfolding ◌>>=◌ get_state
state-IsCalm hf = record { calm = λ s. (hf s).calm s }

pub session_call-IsCalm : (lt : Libtorrent) (c : Call) → IsCalm (session_call lt c)
unfolding session_call call
session_call-IsCalm lt c = record {
  calm = λ s. elim (Bool-cases s.session) [
    | inl e ↦ elim (Bool-cases (lt.throws s.calls c)) [
      | inl f ↦ ground (arith, e, f)
      | inr f ↦ ground (arith, e, f)
    ]
    | inr e ↦ ground (arith, e)
  ];
}

-- What an operation leaves: all pointers, everything that a running service needs, and no call through
-- a null pointer.
pub record IsSoundly {A : Type 0} (r : Core × Outcome A) : Type 0 where
  pub stored : IsStored r.0
  pub live : is_running r.0.cur_state ≡ true → IsLive r.0
  pub defined : r.1 ≢ undefined

pub done-IsSoundly :
    {A : Type 0} {Q : A → ℕ → Type 0} (s : Core) (m : M A)
    → IsDone false s Q (m s)
    → IsSoundly (m s)
done-IsSoundly s m d = record {
  stored = d.live.stored;
  live = λ _. d.live;
  defined = λ e. rw e at d.ends;
}

module _ {A B : Type 0} {Q : A → ℕ → Type 0} where
  -- A safe part from a state with everything there, and what follows it.
  pub live-IsSoundly :
      {m : M A} (f : A → M B) (s : Core)
      → IsSafe false 0 Q m
      → IsLive s
      → ((a : A) (t : Core) → t.cur_state ≡ (m s).0.cur_state → IsLive t → IsSoundly (f a t))
      → IsSoundly ((m >>= f) s)
  unfolding ◌>>=◌
  live-IsSoundly {m} f s hm l hf = go (m s).1 refl
    where
      d : IsDone false s Q (m s)
      d = hm.run s l (omega arith)

      stays : (o : Outcome B) → o ≢ undefined → IsSoundly ((m s).0, o)
      stays o n = record { stored = d.live.stored; live = λ _. d.live; defined = n }

      go : (o : Outcome A) → (m s).1 ≡ o → IsSoundly ((m >>= f) s)
      go (returns a) e = rw (e, ◌>>=◌) (hf a (m s).0 refl d.live)
      go threw e = rw (e, ◌>>=◌) (stays threw (λ g. cc))
      go escaped e = rw (e, ◌>>=◌) (stays escaped (λ g. cc))
      go undefined e = absurd (rw e at d.ends)
