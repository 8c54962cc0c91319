-- ===== src/Torrent/Tests.antt =====
-- Tests of the information about the files of a torrent.
use t2h.Common.{
  ◌+◌, ◌≤◌, min, true, List, [], ◌∷◌, ◌++◌, some, codes, ℕ, All, ◌≢◌, ◌≡◌, refl, arith,
}
use t2h.Torrent.{
  FileInfo, file_info_init, file_info_add, file_info_bin_search, file_info_piece_in_range,
}
use t2h.Torrent.Update.{threw, file_info_update}
use t2h.Torrent.Update.Window.{IsReady, file_info_update-IsReady, file_info_init-IsReady}
use t2h.Torrent.Counters.{
  IsCounted, pieces_came, file_info_update_counters-IsCounted, file_info_add_lem,
  file_info_bin_search_lem,
}

abbrev three_pieces : FileInfo
three_pieces = file_info_init 4 7 100 (codes "/s") (codes "m") 350 0 10

abbrev no_files : List FileInfo
no_files = []

file_info_update_counters-IsCounted_example :
    IsCounted (pieces_came 5 three_pieces)
    × ((pieces_came 5 three_pieces).total_pieces_download_count
        ≡ min three_pieces.pieces (three_pieces.total_pieces_download_count + 5))
file_info_update_counters-IsCounted_example =
    file_info_update_counters-IsCounted 5 three_pieces (refl, (omega arith, refl))

file_info_add_lem_test :
    (fi : FileInfo) × ((file_info_add no_files 4 7 100 (codes "/s") (codes "m") 350 0 5000
        ≡ some (no_files ++ fi ∷ [], fi))
      × (IsCounted fi × (fi.block_size ≤ 350)))
file_info_add_lem_test =
    (file_info_add_lem no_files 4 7 100 (codes "/s") (codes "m") 350 0 5000).1 (omega arith)
      (omega arith)

file_info_bin_search_lem_test : file_info_piece_in_range three_pieces 5 ≡ true
unfolding file_info_bin_search file_info_piece_in_range
file_info_bin_search_lem_test = (file_info_bin_search_lem (three_pieces ∷ []) 5).0 three_pieces refl

file_info_update-IsReady_example :
    All IsReady (file_info_update (λ n xs. xs) (three_pieces ∷ []) 5).0
    × ((file_info_update (λ n xs. xs) (three_pieces ∷ []) 5).1.0 ≢ threw)
file_info_update-IsReady_example =
    file_info_update-IsReady (λ n xs. xs) (λ n xs. refl) (three_pieces ∷ []) 5
      (file_info_init-IsReady 4 7 100 (codes "/s") (codes "m") 350 0 10, tt)

abbrev gap_after_four : List ℕ
gap_after_four = 4 ∷ 7 ∷ 8 ∷ 9 ∷ 10 ∷ []
