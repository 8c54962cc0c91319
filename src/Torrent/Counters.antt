-- ===== src/Torrent/Counters.antt =====
-- The counters of a file: they stay in step, and with them the index that is written to stays inside
-- the vector of pieces.
use t2h.Common.{
  ℕ, zero, suc, ◌+◌, ◌-◌, ◌≤◌, ◌<◌, min, true, false, List, [], ◌∷◌, ◌++◌, none, some, Bytes,
  length, length-replicate, All, Bool-cases, inl, inr, ◌≡◌, refl, ◌∙◌, arith,
}
use t2h.Torrent.{
  FileInfo, file_info_update_counters_, file_info_get_download_offset, file_info_add, not_there,
  block_of, file_info_init, file_info_bin_search, file_info_piece_in_range, not_there, block_of,
  file_info_init, file_info_bin_search, file_info_piece_in_range,
}

-- The position of the next piece is the count of the pieces, which is at most their number, and the
-- vector has one place more.
abbrev pub IsCounted : FileInfo → Type 0
IsCounted fi =
    (fi.last_av_pieces_pos ≡ fi.total_pieces_download_count)
    × ((fi.total_pieces_download_count ≤ fi.pieces) × (length fi.av_pieces ≡ fi.pieces + 1))

abbrev pub pieces_came : ℕ → FileInfo → FileInfo
pieces_came zero fi = fi
pieces_came (suc n) fi = pieces_came n (file_info_update_counters_ fi)

one_more : (fi : FileInfo) → IsCounted fi → IsCounted (file_info_update_counters_ fi)
unfolding file_info_update_counters_
one_more fi h = ground (arith, h)

counted :
    (fi : FileInfo) (n : ℕ)
    → IsCounted fi
    → min
        (file_info_update_counters_ fi).pieces
        ((file_info_update_counters_ fi).total_pieces_download_count + n)
      ≡ min fi.pieces (fi.total_pieces_download_count + suc n)
unfolding file_info_update_counters_
counted fi n h = ground (arith, h)

-- After n more pieces the count is larger by n, up to the number of pieces, and the file is still in
-- step; the place for the next piece is always inside the vector.
pub file_info_update_counters-IsCounted :
    (n : ℕ) (fi : FileInfo)
    → IsCounted fi
    → IsCounted (pieces_came n fi)
      × ((pieces_came n fi).total_pieces_download_count
          ≡ min fi.pieces (fi.total_pieces_download_count + n))
unfolding file_info_update_counters_
file_info_update_counters-IsCounted zero fi h = (h, omega (arith, h.1.0))
file_info_update_counters-IsCounted (suc n) fi h =
    let (a, b) =
      file_info_update_counters-IsCounted n (file_info_update_counters_ fi) (one_more fi h) in
    (a, b ∙ counted fi n h)

offset_of_block :
    (b size pieces limit : ℕ)
    → 0 < b
    → (o : ℕ) × (file_info_get_download_offset b size pieces limit ≡ some o)
unfolding file_info_get_download_offset
offset_of_block zero size pieces limit h = absurd (omega arith)
offset_of_block (suc b) size pieces limit h = (_, refl)

-- A file with bytes, in a torrent whose pieces have a length, is put behind the others and starts in
-- step; a file without any is a division by zero.
pub file_info_add_lem :
    (flist : List FileInfo) (first last piece_length : ℕ) (save_path entry_path : Bytes)
    (size file_index limit : ℕ)
    → let added =
        file_info_add flist first last piece_length save_path entry_path size file_index limit in
      (size ≡ 0 → added ≡ none)
      × (0 < size
          → 0 < piece_length
          → (fi : FileInfo) × ((added ≡ some (flist ++ fi ∷ [], fi))
              × (IsCounted fi × (fi.block_size ≤ size))))
unfolding file_info_add file_info_get_download_offset
file_info_add_lem flist first last piece_length save_path entry_path size file_index limit = (
  λ e. rw e (by_length piece_length),
  λ h k.
      let (o, e) =
        offset_of_block (block_of size piece_length) size (last - first) limit (ground arith) in
      (
        file_info_init first last piece_length save_path entry_path size file_index o,
        (
          rw (e, file_info_add) refl,
          ((refl, (omega arith, length-replicate (last - first + 1) not_there)), ground arith),
        ),
      ),
)
  where
    by_length :
        (l : ℕ) → file_info_add flist first last l save_path entry_path 0 file_index limit ≡ none
    by_length zero = ground arith
    by_length (suc l) = ground arith

-- A search by piece gives a file that has the piece, and nothing only where no file has it.
pub file_info_bin_search_lem :
    (flist : List FileInfo) (piece : ℕ)
    → ((fi : FileInfo)
        → file_info_bin_search flist piece ≡ some fi
        → file_info_piece_in_range fi piece ≡ true)
      × (file_info_bin_search flist piece ≡ none
          → All (λ fi. file_info_piece_in_range fi piece ≡ false) flist)
unfolding file_info_bin_search
file_info_bin_search_lem [] piece = (λ fi e. cc, λ e. tt)
file_info_bin_search_lem (f ∷ flist) piece = elim (Bool-cases (file_info_piece_in_range f piece)) [
  | inl g ↦
      rw (g, file_info_bin_search) (λ fi e. ground (arith, e, g), λ e. absurd (ground (arith, e)))
  | inr g ↦
      rw (g, file_info_bin_search)
        (
          (file_info_bin_search_lem flist piece).0,
          λ e. (refl, (file_info_bin_search_lem flist piece).1 e),
        )
]
