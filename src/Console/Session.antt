-- ===== src/Console/Session.antt =====
-- src/apps/full_model.cpp: the program from its start to the end of the console.
use t2h.Common.{
  ℕ, ◌+◌, ◌==◌, ==_iff, size, Bool, true, false, List, [], ◌∷◌, Option, none, some, Bytes,
  find-assign_same, All, ℤ, pos, if◌then◌else◌, ◌≡◌, ◌≢◌, refl, arith,
}
use mathlib.Core.Path.{subst}
use t2h.Core.World.{Outcome, returns, threw, escaped, undefined}
use t2h.Core.Safety.Handlers.{HasBytes}
use t2h.Handles.{registr_new_handle}
use t2h.Api.Start.{Environment, CoreHandle, initialize}
use t2h.Settings.{SettingManager}
use t2h.Api.{Program, invalid_handle}
use t2h.Api.Functions.{t2h_init_, t2h_init_2}
use t2h.Api.Sound.{Knows}
use t2h.Api.Calls.{init, program, Reached, begun, called, run, ended}
use t2h.Console.{
  App, Variables, Addition, Answer, add_path, dispatch_vm, addrents_from_directory, start_app,
  console_controller,
}
use t2h.Console.Served.{IsServed}
use t2h.Console.Commands.{added-IsGood, dispatched}

module _ (env : Environment) (workaround : Bool) (b : HasBytes env.platform.lt)
    (lexical_cast : Bytes → Option ℕ) where
  either : {B : Type 0} (P : B → Type 0) (c : Bool) (x y : B) → P x → P y → P (if c then x else y)
  either P true x y p q = p
  either P false x y p q = q

  consoled :
      (commands : List (Addition × Variables)) (a : App)
      → All (λ c. c.1.get_info ≡ none) commands
      → IsServed env workaround a
      → ((console_controller env workaround lexical_cast commands a).1 ≡ true)
        × IsServed env workaround (console_controller env workaround lexical_cast commands a).0
  unfolding console_controller
  consoled [] a n s = (refl, s)
  consoled ((i, v) ∷ commands) a (n, ns) s =
      let (t, d) = dispatched env workaround b lexical_cast i v a s in
      either {B = App × Bool} (λ r. (r.1 ≡ true) × IsServed env workaround r.0) a.exit _ _ (refl, s)
        (go (dispatch_vm env workaround lexical_cast i v a).1 (d n)
          (consoled commands (dispatch_vm env workaround lexical_cast i v a).0 ns t))
    where
      go :
          (o : Outcome Answer)
          → o ≢ undefined
          → let rest =
              console_controller env workaround lexical_cast commands
                (dispatch_vm env workaround lexical_cast i v a).0 in
            (rest.1 ≡ true) × IsServed env workaround rest.0
            → let r : App × Bool = elim o [
              | returns x ↦
                  console_controller env workaround lexical_cast commands
                    (dispatch_vm env workaround lexical_cast i v a).0
              | threw ↦
                  console_controller env workaround lexical_cast commands
                    (dispatch_vm env workaround lexical_cast i v a).0
              | escaped ↦
                  console_controller env workaround lexical_cast commands
                    (dispatch_vm env workaround lexical_cast i v a).0
              | undefined ↦ ((dispatch_vm env workaround lexical_cast i v a).0, false)
            ] in
              (r.1 ≡ true) × IsServed env workaround r.0
      go (returns x) d r = r
      go threw d r = r
      go escaped d r = r
      go undefined d r = absurd (d refl)

  listed :
      (files : List (Addition × Bytes)) (a : App)
      → IsServed env workaround a
      → IsServed env workaround (addrents_from_directory env workaround lexical_cast files a).0
        × ((addrents_from_directory env workaround lexical_cast files a).1 ≢ undefined)
  unfolding addrents_from_directory
  listed [] a s = (s, λ d. cc)
  listed ((i, path) ∷ rest) a s =
      let (t, d) = added-IsGood env workaround b lexical_cast i path a s in
      go (add_path env workaround lexical_cast i path a).1 refl t d
        (listed rest (add_path env workaround lexical_cast i path a).0 t)
    where
      go :
          (o : Outcome Answer)
          → (add_path env workaround lexical_cast i path a).1 ≡ o
          → IsServed env workaround (add_path env workaround lexical_cast i path a).0
          → (add_path env workaround lexical_cast i path a).1 ≢ undefined
          → let r =
              addrents_from_directory env workaround lexical_cast rest
                (add_path env workaround lexical_cast i path a).0 in
            IsServed env workaround r.0 × (r.1 ≢ undefined)
            → let r = addrents_from_directory env workaround lexical_cast ((i, path) ∷ rest) a in
              IsServed env workaround r.0 × (r.1 ≢ undefined)
      go (returns x) e t d r = rw (e, addrents_from_directory) r
      go threw e t d r = rw (e, addrents_from_directory) (t, λ x. cc)
      go escaped e t d r = rw (e, addrents_from_directory) (t, λ x. cc)
      go undefined e t d r = absurd (d e)

  -- The handle that a start gives.
  given-Knows :
      (config : Bytes) (s : Program) (handle : ℤ)
      → (t2h_init_ env workaround (some config) true s).1 ≡ returns handle
      → Knows (t2h_init_ env workaround (some config) true s).0 handle
  unfolding t2h_init_ registr_new_handle
  given-Knows config s handle e = go (initialize env true config s.sets) e
    where
      made : Program → Option CoreHandle → Program × Outcome ℤ
      made t none = (t, returns invalid_handle)
      made t (some core_handle) =
          let (handles, id) =
            registr_new_handle s.handles (record { core_handle = core_handle; torrents = [] }) in
          (record t { handles = handles }, returns (pos id))

      after : SettingManager × Outcome (Option CoreHandle) → Program × Outcome ℤ
      after r =
          let t : Program = record s { sets = r.0 } in
          elim r.1 [
            | returns m ↦ made t m
            | threw ↦ (t, threw)
            | escaped ↦ (t, escaped)
            | undefined ↦ (t, undefined)
          ]

      fresh :
          (sets : SettingManager) (core_handle : CoreHandle)
          → pos (size ◌==◌ s.handles + 1) ≡ handle
          → Knows (made (record s { sets = sets }) (some core_handle)).0 handle
      fresh sets core_handle q =
          subst (Knows (made (record s { sets = sets }) (some core_handle)).0) q (
            record { core_handle = core_handle; torrents = [] },
            find-assign_same ◌==◌ ==_iff (size ◌==◌ s.handles + 1)
                (record { core_handle = core_handle; torrents = [] }) s.handles,
          )

      go :
          (r : SettingManager × Outcome (Option CoreHandle))
          → (after r).1 ≡ returns handle
          → Knows (after r).0 handle
      go (sets, returns none) e =
          let q : invalid_handle ≡ handle = ground (arith, e) in
          subst (Knows (record s { sets = sets })) q tt
      go (sets, returns (some core_handle)) e = fresh sets core_handle (ground (arith, e))
      go (sets, threw) e = absurd (ground (arith, e))
      go (sets, escaped) e = absurd (ground (arith, e))
      go (sets, undefined) e = absurd (ground (arith, e))

  abbrev pub begin : Bytes → List (Addition × Bytes) → App × Outcome (Unit {0})
  begin config files = start_app env workaround lexical_cast config files program

  began :
      (config : Bytes) (files : List (Addition × Bytes))
      → (begin config files).1 ≡ returns tt
      → IsServed env workaround (begin config files).0
  unfolding start_app t2h_init_2 run ended
  began config files = go (t2h_init_ env workaround (some config) true program).1 refl
    where
      reached : Reached env workaround (t2h_init_ env workaround (some config) true program).0
      reached = called (init (some config) true) program begun

      go :
          (o : Outcome ℤ)
          → (t2h_init_ env workaround (some config) true program).1 ≡ o
          → (begin config files).1 ≡ returns tt
          → IsServed env workaround (begin config files).0
      go (returns handle) e =
          rw (e, start_app)
            (λ k.
              (listed files
                (record {
                  program = (t2h_init_ env workaround (some config) true program).0;
                  core_handle = record { handle = handle; info_map = [] };
                  exit = false;
                })
                (reached, given-Knows config program handle e)).0)
      go threw e = rw (e, start_app) (λ k. absurd (ground (arith, k)))
      go escaped e = rw (e, start_app) (λ k. absurd (ground (arith, k)))
      go undefined e = rw (e, start_app) (λ k. absurd (ground (arith, k)))

  -- A console program whose start comes to the console, over any directory and any commands: as long as
  -- no command asks for the files of a torrent, no command is undefined, and behind the commands the
  -- library is in a state that its calls lead to, in which the handle of the program is in use, or
  -- negative where the library was given bad settings. The condition is that the files of the torrents
  -- have bytes and their pieces a length.
  pub console_controller-IsServed :
      (config : Bytes) (files : List (Addition × Bytes)) (commands : List (Addition × Variables))
      → (begin config files).1 ≡ returns tt
      → All (λ c. c.1.get_info ≡ none) commands
      → let (a, defined) =
          console_controller env workaround lexical_cast commands (begin config files).0 in
        (defined ≡ true) × IsServed env workaround a
  console_controller-IsServed config files commands e n =
      consoled commands (begin config files).0 n (began config files e)
