-- ===== src/Api/Closing.antt =====
-- src/core/external_api: what the end of a handle leaves to the others.
use t2h.Common.{
  ℕ, ◌==◌, ==_iff, Bool, List, [], ◌∷◌, Option, none, some, Bytes, find, erase, find-erase, ℤ, pos,
  negsuc, if◌then◌else◌, ◌≡◌, ◌≢◌, refl, sym, ◌∙◌, Bool-cases, Option-cases, inl, inr, arith,
}
use mathlib.Core.Path.{subst}
use t2h.Handles.{unregistr_handle}
use t2h.Core.World.{Outcome, returns, threw, escaped, undefined, is_running}
use t2h.Core.Service.Launch.{stop_service-IsSoundly}
use t2h.Server.Buffer.{FileInfoBuffer}
use t2h.Server.Core
use t2h.Api.Start.{Environment, Service, torrent_service, http_service, stop_one, stop_all, destroy}
use t2h.Api.{UnderlyingHandle, Program}
use t2h.Api.Functions.{t2h_close}
use t2h.Api.Sound.{IsSafeService, AllSafe, IsUsable, IsOpen, Knows, IsFine}

module _ (env : Environment) (workaround : Bool) where
  stop_one-defined :
      (x : Service) (b : FileInfoBuffer) → IsSafeService x → (stop_one env x b).1 ≢ undefined
  unfolding stop_one Core.stop_service
  stop_one-defined (torrent_service c) b k = (stop_service-IsSoundly env.platform c k).defined
  stop_one-defined (http_service h) b k = elim (Bool-cases (is_running h.cur_state)) [
    | inl e ↦ let (t, f) = k e in rw (e, stop_one) (rw (f, stop_one) (λ d. cc))
    | inr e ↦ rw (e, stop_one) (λ d. cc)
  ]

  stop_all-defined :
      (services : List (Bytes × Service)) (b : FileInfoBuffer)
      → AllSafe services
      → (stop_all env services b).1 ≢ undefined
  unfolding stop_all
  stop_all-defined [] b k = λ d. cc
  stop_all-defined ((name, x) ∷ services) b (k, ks) =
      go (stop_one env x b).1 refl (stop_all-defined services (stop_one env x b).0.1 ks)
    where
      go :
          (o : Outcome (Unit {0}))
          → (stop_one env x b).1 ≡ o
          → (stop_all env services (stop_one env x b).0.1).1 ≢ undefined
          → (stop_all env ((name, x) ∷ services) b).1 ≢ undefined
      go (returns a) e r = rw (e, stop_all) r
      go threw e r = rw (e, stop_all) (λ d. cc)
      go escaped e r = rw (e, stop_all) (λ d. cc)
      go undefined e r = absurd (stop_one-defined x b k e)

  unregistered :
      (n : ℕ) (s : Program)
      → (find ◌==◌ n s.handles ≡ none → unregistr_handle s.handles n ≡ (s.handles, none))
        × ((h : UnderlyingHandle)
            → find ◌==◌ n s.handles ≡ some h
            → unregistr_handle s.handles n ≡ (erase ◌==◌ n s.handles, some h))
  unfolding unregistr_handle
  unregistered n s = (λ e. rw (e, unregistr_handle) refl, λ h e. rw (e, unregistr_handle) refl)

  pub close-IsFine : (handle : ℤ) → IsFine (t2h_close env workaround handle) handle
  unfolding t2h_close destroy
  close-IsFine (negsuc n) s o = (o, λ g d. cc)
  close-IsFine (pos n) s o = elim (Option-cases (find ◌==◌ n s.handles)) [
    | inl e ↦ rw ((unregistered n s).0 e, t2h_close) (o, λ g. absurd (ground (arith, e, g.1)))
    | inr (h, e) ↦
        subst (λ p. IsOpen (after p).0 × (Knows s (pos n) → (after p).1 ≢ undefined))
          (sym ((unregistered n s).1 h e))
          (left n, λ _. stop_all-defined h.core_handle.services s.table (o n h e).safe)
  ]
    where
      after : List (ℕ × UnderlyingHandle) × Option UnderlyingHandle → Program × Outcome (Unit {0})
      after p = elim p.1 [
        | none ↦ (s, undefined)
        | some h ↦
            let (table, out) = destroy env h.core_handle s.table in
            (record s { handles = p.0; table = table }, out)
      ]

      left :
          (n j : ℕ) (g : UnderlyingHandle)
          → find ◌==◌ j (erase ◌==◌ n s.handles) ≡ some g
          → IsUsable g
      left n j g c =
          let q : (if n == j then none else find ◌==◌ j s.handles) ≡ some g =
            sym (find-erase ◌==◌ ==_iff n s.handles j) ∙ c in
          elim (Bool-cases (n == j)) [
            | inl b ↦ absurd (ground (arith, b, q))
            | inr b ↦ o j g (ground (arith, b, q))
          ]
