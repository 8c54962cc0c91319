-- ===== src/Core/Buffer/Laws.antt =====
-- shared_buffer: what is got after an addition and a removal.
use t2h.Common.{
  ℕ, ◌==◌, ==_iff, true, false, List, none, some, Bytes, find, find-assign, find-assign_same,
  find-erase, if◌then◌else◌, ◌≡◌, refl,
}
use t2h.Core.World.{TorrentExInfo}
use t2h.Core.Buffer.{Torrents, no_hash, get_usafe, remove_usafe, add, get, remove}

-- A torrent whose hash is free is kept under it, with the hash as its index, and no other hash changes;
-- with a hash that is taken nothing changes and the answer is no. After the removal by its path the
-- hash is free, whatever it held, and no other changes.
pub add-get-remove :
    (hasher : Bytes → ℕ) (t : Torrents) (m : List (ℕ × TorrentExInfo)) (p : ℕ)
    (info : TorrentExInfo) (j : ℕ)
    → let h = hasher info.save_path in
      let (u, (n, (ok, id))) = add hasher t m p info in
      ((get hasher t info.save_path ≡ none
          → ((ok ≡ true) × (id ≡ h))
            × ((get_usafe u j ≡ (if h == j then some p else get_usafe t j))
                × (find ◌==◌ p n ≡ some (record info { index = h }))))
        × ((q : ℕ)
            → get hasher t info.save_path ≡ some q
            → add hasher t m p info ≡ (t, (m, (false, no_hash)))))
      × (get_usafe (remove hasher t info.save_path) j ≡ (if h == j then none else get_usafe t j))
unfolding add get get_usafe remove remove_usafe
add-get-remove hasher t m p info j =
    let h = hasher info.save_path in
    (
      (
        λ e.
            rw (e, add)
              (
                (refl, refl),
                (
                  find-assign ◌==◌ ==_iff h p t j,
                  find-assign_same ◌==◌ ==_iff p (record info { index = h }) m,
                ),
              ),
        λ q e. rw (e, add) refl,
      ),
      find-erase ◌==◌ ==_iff h t j,
    )
