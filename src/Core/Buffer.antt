-- ===== src/Core/Buffer.antt =====
-- src/core/torrent_core/details/shared_buffer.cpp: the torrents by the hash of the path that they are
-- saved to, as pointers to their information. boost::hash is a parameter.
pub mod Laws
use t2h.Common.{
  ℕ, ◌+◌, ◌-◌, ◌^◌, ◌==◌, Bool, true, false, List, Option, none, some, Bytes, find, erase, assign,
}
use t2h.Core.World.{TorrentExInfo}

abbrev pub Torrents : Type 0
Torrents = List (ℕ × ℕ)

-- static_cast<std::size_t>(-1)
abbrev pub no_hash : ℕ
no_hash = 2 ^ 64 - 1

unfoldable pub get_usafe : Torrents → ℕ → Option ℕ
get_usafe torrents hash_value = find ◌==◌ hash_value torrents

unfoldable pub remove_usafe : Torrents → ℕ → Torrents
remove_usafe torrents hash_value = erase ◌==◌ hash_value torrents

module _ (hasher : Bytes → ℕ) where
  -- `p` is the pointer to `info`, whose index is written through it.
  unfoldable pub add :
      Torrents
      → List (ℕ × TorrentExInfo)
      → ℕ
      → TorrentExInfo
      → Torrents × (List (ℕ × TorrentExInfo) × (Bool × ℕ))
  add torrents ex_infos p info =
      let hash_value = hasher info.save_path in
      elim (find ◌==◌ hash_value torrents) [
        | none ↦ (
          assign ◌==◌ hash_value p torrents,
          (assign ◌==◌ p (record info { index = hash_value }) ex_infos, (true, hash_value)),
        )
        | some _ ↦ (torrents, (ex_infos, (false, no_hash)))
      ]

  unfoldable pub get : Torrents → Bytes → Option ℕ
  unfolding get_usafe
  get torrents path = get_usafe torrents (hasher path)

  unfoldable pub remove : Torrents → Bytes → Torrents
  unfolding remove_usafe
  remove torrents path = remove_usafe torrents (hasher path)
