-- ===== src/Console/Commands.antt =====
-- src/apps/full_model.cpp: the commands of the console, one after the other.
use t2h.Common.{
  ℕ, ◌==◌, Bool, true, Option, none, some, Bytes, ℤ, pos, if◌then◌else◌, ◌≡◌, ◌≢◌, Bool-cases,
  Option-cases, inl, inr, arith,
}
use t2h.Core.World.{Outcome, returns, undefined}
use t2h.Core.Safety.Handlers.{HasBytes}
use t2h.Api.Start.{Environment}
use t2h.Api.{Program, invalid_id}
use t2h.Console.{
  App, Variables, Addition, Answer, succeed, ids, unknown_command, calling, answer, keep_id,
  print_url, print_files, has, to_int, get_from_string_, add_path, start_file, print_info,
  dispatch_vm,
}
use t2h.Console.Served.{
  IsServed, IsGood, IsApiCall, calling-cases, calling-IsGood, answer-IsGood, add-IsApiCall,
  stop-IsApiCall, delete-IsApiCall, resume-IsApiCall, start-IsApiCall, files-IsApiCall,
}

module _ (env : Environment) (workaround : Bool) (b : HasBytes env.platform.lt)
    (lexical_cast : Bytes → Option ℕ) where
  abbrev IsFine : App × Outcome Answer → Type 0
  IsFine r = IsGood env workaround b r

  keep_id-IsGood : (i : ℕ) (a : App) → IsServed env workaround a → IsFine (keep_id i a)
  unfolding keep_id
  keep_id-IsGood i a s = elim (Bool-cases (i == invalid_id)) [
    | inl e ↦ rw (e, keep_id) (s, λ d. cc)
    | inr e ↦ rw (e, keep_id) (s, λ d. cc)
  ]

  print_url-IsGood :
      (mem : Option Bytes) (a : App) → IsServed env workaround a → IsFine (print_url mem a)
  unfolding print_url
  print_url-IsGood none a s = (s, λ d. cc)
  print_url-IsGood (some mem) a s = (s, λ d. cc)

  print_files-IsServed :
      (mem : Option Bytes) (a : App)
      → IsServed env workaround a
      → IsServed env workaround (print_files mem a).0
  unfolding print_files
  print_files-IsServed none a s = s
  print_files-IsServed (some mem) a s = s

  pub added-IsGood :
      (i : Addition) (path : Bytes) (a : App)
      → IsServed env workaround a
      → IsFine (add_path env workaround lexical_cast i path a)
  unfolding add_path
  added-IsGood i path a s =
      calling-IsGood env workaround b _ keep_id a
        (add-IsApiCall env workaround b i a.core_handle.handle (some path)) s keep_id-IsGood

  started-IsGood :
      (string_ids : Bytes) (a : App)
      → IsServed env workaround a
      → IsFine (start_file env workaround lexical_cast string_ids a)
  unfolding start_file
  started-IsGood string_ids a s = elim (Option-cases (get_from_string_ lexical_cast string_ids)) [
    | inl e ↦ rw (e, start_file) (s, λ d. cc)
    | inr ((i, j), e) ↦ elim (Bool-cases (has i a.core_handle.info_map)) [
      | inl h ↦
          rw (e, start_file)
            (rw h (
              calling-IsGood env workaround b _ print_url a
                (start-IsApiCall env workaround b a.core_handle.handle i (to_int j)) s
                print_url-IsGood))
      | inr h ↦ rw (e, start_file) (rw h (s, λ d. cc))
    ]
  ]

  printed-IsServed :
      (i : ℕ) (a : App)
      → IsServed env workaround a
      → IsServed env workaround (print_info env workaround lexical_cast i a).0
  unfolding print_info
  printed-IsServed i a s =
      calling-cases env workaround b _ print_files a (λ r. IsServed env workaround r.0)
        (files-IsApiCall env workaround b a.core_handle.handle i) s print_files-IsServed
        (λ c t. (t, t))

  -- A command whose options are v.
  abbrev IsCommand : Variables → App × Outcome Answer → Type 0
  IsCommand v r = IsServed env workaround r.0 × (v.get_info ≡ none → r.1 ≢ undefined)

  fine-IsCommand : (v : Variables) (r : App × Outcome Answer) → IsFine r → IsCommand v r
  fine-IsCommand v r f = (f.0, λ e. f.1)

  last_options :
      (i : Addition) (v : Variables) (a : App)
      → IsServed env workaround a
      → IsCommand v (
          if v.get_ids
          then (a, returns (ids a.core_handle.info_map))
          else if v.quit
          then (record a { exit = true }, returns succeed)
          else (a, returns unknown_command))
  last_options i v a s = elim (Bool-cases v.get_ids) [
    | inl e ↦ rw e (s, λ n d. cc)
    | inr e ↦ elim (Bool-cases v.quit) [
      | inl q ↦ rw (e, q) (s, λ n d. cc)
      | inr q ↦ rw (e, q) (s, λ n d. cc)
    ]
  ]

  chosen :
      {A B : Type 0} (P : B → Type 0) (o : Option A) (x : B) (f : A → B)
      → P x
      → ((a : A) → P (f a))
      → P (elim o [ some a ↦ f a | none ↦ x ])
  chosen P none x f p q = p
  chosen P (some a) x f p q = q a

  pub dispatched :
      (i : Addition) (v : Variables) (a : App)
      → IsServed env workaround a
      → IsCommand v (dispatch_vm env workaround lexical_cast i v a)
  unfolding dispatch_vm
  dispatched i v a s =
      chosen (IsCommand v) v.stop _ _
        (chosen (IsCommand v) v.pause _ _
          (chosen (IsCommand v) v.remove _ _
            (chosen (IsCommand v) v.start _ _
              (chosen (IsCommand v) v.resume _ _
                (chosen (IsCommand v) v.add _ _ asked (λ path.
                  fine-IsCommand v (add_path env workaround lexical_cast i path a)
                    (added-IsGood i path a s)))
                (λ id. plain _ (resume-IsApiCall env workaround b handle id (pos 1))))
              (λ string_ids.
                fine-IsCommand v (start_file env workaround lexical_cast string_ids a)
                  (started-IsGood string_ids a s)))
            (λ id. plain _ (delete-IsApiCall env workaround b handle id)))
          (λ id. (s, λ n d. cc)))
        (λ id. plain _ (stop-IsApiCall env workaround b handle id))
    where
      handle : ℤ
      handle = a.core_handle.handle

      plain :
          (f : Program → Program × Outcome (Unit {0}))
          → IsApiCall env workaround b f a.core_handle.handle
          → IsCommand v (calling f (answer succeed) a)
      plain f c = fine-IsCommand v (calling f (answer succeed) a) (
          calling-IsGood env workaround b f (answer succeed) a c s
            (answer-IsGood env workaround b succeed))

      asked : IsCommand v (elim v.get_info [
        | some id ↦ print_info env workaround lexical_cast id a
        | none ↦
            if v.get_ids
            then (a, returns (ids a.core_handle.info_map))
            else if v.quit
            then (record a { exit = true }, returns succeed)
            else (a, returns unknown_command)
      ])
      asked = elim (Option-cases v.get_info) [
        | inl e ↦ rw e (let (t, d) = last_options i v a s in (t, λ n. d e))
        | inr (id, e) ↦ rw e (printed-IsServed id a s, λ n. absurd (ground (arith, n)))
      ]
