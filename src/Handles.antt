-- ===== src/Handles.antt =====
-- src/core/external_api/handles_manager.hpp: the numbers that stand for handles outside of the
-- library.
mod Lookup
mod Tests
use t2h.Common.{
  ℕ, zero, suc, ◌+◌, ◌==◌, Bool, List, [], Option, none, some, find, erase, assign, size,
  if◌then◌else◌,
}

module _ {H : Type 0} where
  abbrev pub handles_manager : List (ℕ × H)
  handles_manager = []

  unfoldable pub registr_new_handle : List (ℕ × H) → H → List (ℕ × H) × ℕ
  registr_new_handle handles_map handle =
      let new_id = size ◌==◌ handles_map + 1 in (assign ◌==◌ new_id handle handles_map, new_id)

  -- `none` is the handle that the default constructor makes.
  unfoldable pub unregistr_handle : List (ℕ × H) → ℕ → List (ℕ × H) × Option H
  unregistr_handle handles_map handle_id = elim (find ◌==◌ handle_id handles_map) [
    | none ↦ (handles_map, none)
    | some handle ↦ (erase ◌==◌ handle_id handles_map, some handle)
  ]

  unfoldable pub get_handle : List (ℕ × H) → ℕ → Option H
  get_handle handles_map handle_id = find ◌==◌ handle_id handles_map
