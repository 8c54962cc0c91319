-- ===== src/Torrent/Text.antt =====
-- src/core/torrent_core/torrent_info.cpp: the JSON text about a torrent, and what is prepared before a
-- torrent is added. The paths of boost and libtorrent, the directories and the numbers as text are
-- parameters.
pub mod Slashes
use t2h.Common.{
  ℕ, zero, suc, ◌+◌, ◌==◌, Bool, true, false, not, ◌&&◌, ◌||◌, List, [], ◌∷◌, ◌++◌, Option, none,
  some, Bytes, codes, length, if◌then◌else◌,
}

abbrev pub is_slash : ℕ → Bool
is_slash c = c == b'/' || c == b'\\'

-- The loop of replace_slashes: a slash becomes two backslashes, and `first` then goes on by three, over
-- the two and over the character that followed the slash.
unfoldable pub replace_slashes : Bytes → Bytes
replace_slashes [] = []
replace_slashes (c ∷ []) = if is_slash c then b'\\' ∷ b'\\' ∷ [] else c ∷ []
replace_slashes (c ∷ d ∷ path) =
    let skipped = replace_slashes path in
    let next = replace_slashes (d ∷ path) in
    if is_slash c then b'\\' ∷ b'\\' ∷ d ∷ skipped else c ∷ next

module _ (combine_path : Bytes → Bytes → Bytes) (lexical_cast : ℕ → Bytes) where
  -- The object of one file; `it` is its index and `left` the number of files after it.
  unfoldable pub file_to_json : Bytes → (it left : ℕ) → Bytes × ℕ → Bytes
  unfolding replace_slashes
  file_to_json save_path it left (path, size) =
      (((((codes "{\n\"size\": " ++ lexical_cast size) ++ codes ",\n")
            ++ ((codes "\"path\": \"" ++ replace_slashes (combine_path save_path path))
                ++ codes "\",\n"))
          ++ (codes "\"id\": " ++ lexical_cast it))
        ++ (if left == 0 then codes "\n}\n" else codes "\n},\n"))

  unfoldable pub files_to_json : Bytes → ℕ → List (Bytes × ℕ) → Bytes
  unfolding file_to_json
  files_to_json save_path it [] = []
  files_to_json save_path it (file ∷ files) =
      file_to_json save_path it (length files) file ++ files_to_json save_path (suc it) files

  -- Every exception is caught.
  unfoldable pub torrent_info_to_json : Bytes → Option (List (Bytes × ℕ)) → Bytes
  unfolding files_to_json
  torrent_info_to_json save_path none = []
  torrent_info_to_json save_path (some files) =
      (codes "[\n" ++ files_to_json save_path 0 files) ++ codes "]"

-- What boost::filesystem and the random strings give; `none` is an exception.
pub record Paths : Type 0 where
  pub combine : Bytes → Bytes → Bytes
  pub random_string : Bytes
  pub torrent_file_error : Bytes → Bool
  pub exists : Bytes → Option Bool
  pub create_directory : Bytes → Option Bool

-- torrent_core_utility.cpp, create_random_path: the path and the string.
unfoldable pub create_random_path : Paths → Bytes → Bytes × Bytes
create_random_path paths root_path =
    (paths.combine root_path paths.random_string, paths.random_string)

-- prepare_f: the path to save to and the name of the sandbox.
unfoldable pub prepare_f : Paths → (save_root path : Bytes) → Option (Bytes × Bytes)
unfolding create_random_path
prepare_f paths save_root path =
    if paths.torrent_file_error path then none else some (create_random_path paths save_root)

unfoldable pub is_empty : Bytes → Bool
is_empty [] = true
is_empty (c ∷ cs) = false

unfoldable pub prepare_sandbox : Paths → Bytes → Bool
unfolding is_empty
prepare_sandbox paths save_path = elim (paths.exists save_path) [
  | none ↦ false
  | some there ↦
      if not there && not (is_empty save_path)
      then elim (paths.create_directory save_path) [ none ↦ false | some made ↦ made ]
      else false
]

-- The path and the name of the sandbox of a torrent that may be added.
unfoldable pub initialize_f : Paths → (save_root path : Bytes) → Option (Bytes × Bytes)
unfolding prepare_f prepare_sandbox
initialize_f paths save_root path = elim (prepare_f paths save_root path) [
  | none ↦ none
  | some (save_path, sandbox) ↦
      if prepare_sandbox paths save_path then some (save_path, sandbox) else none
]
