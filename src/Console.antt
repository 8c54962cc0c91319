-- ===== src/Console.antt =====
-- src/apps/full_model.cpp: the console program over the exported functions. What boost::program_options
-- reads of a command is a parameter, and what is printed is the answer of a command.
pub mod Served
pub mod Commands
pub mod Session
mod Tests
use t2h.Common.{
  ℕ, ◌+◌, ◌-◌, ◌%◌, ◌^◌, ltb, ◌==◌, Bool, true, false, ◌||◌, List, [], ◌∷◌, ◌++◌, Option, none,
  some, Bytes, ℤ, pos, negsuc, if◌then◌else◌,
}
use t2h.Core.World.{Outcome, returns, threw, escaped, undefined}
use t2h.Core.Resolvers.{Resolvers}
use t2h.Core.Service.Loop.{Round}
use t2h.Torrent.Text.{Paths}
use t2h.Api.Start.{Environment}
use t2h.Api.{Program, invalid_id}
use t2h.Api.Functions.{
  t2h_init_2, t2h_add_torrent, t2h_get_torrent_files, t2h_start_download, t2h_resume_download,
  t2h_delete_torrent, t2h_stop_download,
}

-- t2h_handle_wrapper: the numbers of the torrents are the keys of its map, whose values stay empty.
pub record T2hHandleWrapper : Type 0 where
  pub handle : ℤ
  pub info_map : List ℕ

-- The program with its one handle; `exit` ends the loop of the console.
pub record App : Type 0 where
  pub program : Program
  pub core_handle : T2hHandleWrapper
  pub exit : Bool

-- The options of a command and their values; help, which only prints, is left out.
pub record Variables : Type 0 where
  pub stop : Option ℕ
  pub pause : Option ℕ
  pub remove : Option ℕ
  pub resume : Option ℕ
  pub get_info : Option ℕ
  pub start : Option Bytes
  pub add : Option Bytes
  pub get_ids : Bool
  pub quit : Bool

-- What the addition of a torrent depends on.
pub record Addition : Type 0 where
  pub resolvers : Resolvers
  pub now : ℕ
  pub paths : Paths
  pub rounds : List Round

pub data Answer : Type 0 where
  succeed failed unknown_command : Answer
  url info : Bytes → Answer
  ids : List ℕ → Answer

unfoldable pub has : ℕ → List ℕ → Bool
has n [] = false
has n (m ∷ ms) = n == m || has n ms

-- The assignment of an empty value under the key; the keys of a map are in order.
unfoldable pub put : ℕ → List ℕ → List ℕ
put n [] = n ∷ []
put n (m ∷ ms) =
    let rest = put n ms in if n == m then m ∷ ms else if ltb n m then n ∷ m ∷ ms else m ∷ rest

-- The conversion of a size_t to an int.
unfoldable pub to_int : ℕ → ℤ
to_int n = let m = n % 2 ^ 32 in if ltb m (2 ^ 31) then pos m else negsuc (2 ^ 32 - 1 - m)

-- substr up to the first comma, and behind it; without a comma both are the whole string, since npos and
-- one is 0.
unfoldable pub before_comma : Bytes → Bytes
before_comma [] = []
before_comma (c ∷ str) = let rest = before_comma str in if c == b',' then [] else c ∷ rest

unfoldable pub behind_comma : Bytes → Option Bytes
behind_comma [] = none
behind_comma (c ∷ str) = let rest = behind_comma str in if c == b',' then some str else rest

-- get_from_string_, over boost::lexical_cast to a T2H_SIZE_TYPE. The string without its spaces is made
-- and not used.
unfoldable pub get_from_string_ : (lexical_cast : Bytes → Option ℕ) → Bytes → Option (ℕ × ℕ)
unfolding before_comma behind_comma
get_from_string_ lexical_cast str = elim (lexical_cast (before_comma str)) [
  | none ↦ none
  | some torrent_id ↦
      elim (lexical_cast (elim (behind_comma str) [ none ↦ str | some rest ↦ rest ])) [
        | none ↦ none
        | some file_id ↦ some (torrent_id, file_id)
      ]
]

-- A function of the library, and what is done with what it gives.
unfoldable pub calling :
    {A : Type 0}
    → (Program → Program × Outcome A)
    → (A → App → App × Outcome Answer)
    → App
    → App × Outcome Answer
calling f k a =
    let (s, o) = f a.program in
    let b : App = record a { program = s } in
    elim o [
      | returns x ↦ k x b
      | threw ↦ (b, threw)
      | escaped ↦ (b, escaped)
      | undefined ↦ (b, undefined)
    ]

abbrev pub answer : {A : Type 0} → Answer → A → App → App × Outcome Answer
answer r x a = (a, returns r)

-- What is done with the result of an addition, a start and a request for the files. Of the last two the
-- first takes a null pointer for a failure, and the second prints it, which is undefined.
unfoldable pub keep_id : ℕ → App → App × Outcome Answer
unfolding put
keep_id torrent_id a = if torrent_id == invalid_id then (a, returns failed) else (
  record a {
    core_handle = record a.core_handle { info_map = put torrent_id a.core_handle.info_map };
  },
  returns succeed,
)

unfoldable pub print_url : Option Bytes → App → App × Outcome Answer
print_url none a = (a, returns failed)
print_url (some mem) a = (a, returns (url mem))

unfoldable pub print_files : Option Bytes → App → App × Outcome Answer
print_files none a = (a, undefined)
print_files (some mem) a = (a, returns (info mem))

module _ (env : Environment) (workaround : Bool) (lexical_cast : Bytes → Option ℕ) where
  unfoldable pub add_path : Addition → Bytes → App → App × Outcome Answer
  unfolding calling keep_id
  add_path i path a =
      calling
        (t2h_add_torrent env workaround i.resolvers i.now i.paths i.rounds a.core_handle.handle
          (some path))
        keep_id a

  -- A file of a torrent whose number the program has.
  unfoldable pub start_file : Bytes → App → App × Outcome Answer
  unfolding get_from_string_ calling has print_url
  start_file string_ids a = elim (get_from_string_ lexical_cast string_ids) [
    | none ↦ (a, returns failed)
    | some (torrent_id, file_id) ↦
        if has torrent_id a.core_handle.info_map
        then calling
            (t2h_start_download env workaround a.core_handle.handle torrent_id (to_int file_id))
            print_url a
        else (a, returns failed)
  ]

  unfoldable pub print_info : ℕ → App → App × Outcome Answer
  unfolding calling print_files
  print_info torrent_id a =
      calling (t2h_get_torrent_files env workaround a.core_handle.handle torrent_id) print_files a

  -- _dispatch_vm. The value of pause is read as a string, which it is not, so this throws; the console
  -- catches what a command throws.
  unfoldable pub dispatch_vm : Addition → Variables → App → App × Outcome Answer
  unfolding calling start_file print_info add_path
  dispatch_vm i v a = elim v.stop [
    | some id ↦
        calling (t2h_stop_download env workaround a.core_handle.handle id) (answer succeed) a
    | none ↦ elim v.pause [
      | some id ↦ (a, escaped)
      | none ↦ elim v.remove [
        | some id ↦
            calling (t2h_delete_torrent env workaround a.core_handle.handle id) (answer succeed) a
        | none ↦ elim v.start [
          | some string_ids ↦ start_file string_ids a
          | none ↦ elim v.resume [
            | some id ↦
                calling (t2h_resume_download env workaround a.core_handle.handle id (pos 1))
                  (answer succeed) a
            | none ↦ elim v.add [
              | some path ↦ add_path i path a
              | none ↦ elim v.get_info [
                | some id ↦ print_info id a
                | none ↦
                    if v.get_ids
                    then (a, returns (ids a.core_handle.info_map))
                    else if v.quit
                    then (record a { exit = true }, returns succeed)
                    else (a, returns unknown_command)
              ]
            ]
          ]
        ]
      ]
    ]
  ]

  -- addrents_from_directory of a directory that is there. What an addition throws ends the program.
  unfoldable pub addrents_from_directory : List (Addition × Bytes) → App → App × Outcome (Unit {0})
  unfolding add_path
  addrents_from_directory [] a = (a, returns tt)
  addrents_from_directory ((i, path) ∷ rest) a =
      let (b, o) = add_path i path a in
      let after = addrents_from_directory rest b in
      elim o [
        | returns x ↦ after
        | threw ↦ (b, threw)
        | escaped ↦ (b, escaped)
        | undefined ↦ (b, undefined)
      ]

  -- The part of main before the console. The handle is tested for 0, which t2h_init_2 never gives;
  -- a start that fails gives -1.
  unfoldable pub start_app : Bytes → List (Addition × Bytes) → Program → App × Outcome (Unit {0})
  unfolding addrents_from_directory
  start_app config_path files s =
      let (t, o) = t2h_init_2 env workaround (some config_path) s in
      let app : ℤ → App = λ handle. record {
        program = t;
        core_handle = record { handle = handle; info_map = [] };
        exit = false;
      } in
      elim o [
        | returns handle ↦ addrents_from_directory files (app handle)
        | threw ↦ (app (pos 0), threw)
        | escaped ↦ (app (pos 0), escaped)
        | undefined ↦ (app (pos 0), undefined)
      ]

  -- The commands of the console, each with what its addition depends on, until one asks for the end.
  unfoldable pub console_controller : List (Addition × Variables) → App → App × Bool
  unfolding dispatch_vm
  console_controller [] a = (a, true)
  console_controller ((i, v) ∷ commands) a =
      let (b, o) = dispatch_vm i v a in
      let rest = console_controller commands b in
      if a.exit
      then (a, true)
      else elim o [ returns x ↦ rest | threw ↦ rest | escaped ↦ rest | undefined ↦ (b, false) ]
