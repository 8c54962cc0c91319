-- ===== src/Torrent.antt =====
-- src/core/torrent_core/torrent_info.cpp and torrent_info.hpp: what is kept of each file of a
-- torrent, without the Windows clause of the paths. Counts and sizes are numbers from 0 on.
pub mod Counters
mod Tests
pub mod Update
pub mod Text
use t2h.Common.{
  ℕ, zero, suc, ◌+◌, ◌-◌, ◌/◌, ltb, leb, ◌==◌, Bool, true, false, ◌&&◌, ◌||◌, List, [], ◌∷◌, ◌++◌,
  Option, none, some, Bytes, codes, str_eq, replicate, ℤ, pos, negsuc, ◌+ℤ◌, eqb_ℤ, if◌then◌else◌,
}

pub record FileInfo : Type 0 where
  pub pieces : ℕ
  pub total_pieces_download_count : ℕ
  pub pieces_download_count : ℕ
  pub avaliable_bytes : ℕ
  pub pieces_range_first : ℕ
  pub pieces_range_last : ℕ
  pub path : Bytes
  pub size : ℕ
  pub block_size : ℕ
  pub file_index : ℕ
  pub chocked_range : ℕ
  pub av_pieces : List ℕ
  pub last_av_pos : ℕ
  pub end_av_pos : ℕ
  pub last_av_pieces_pos : ℕ
  pub recheck_av : ℤ

abbrev pub off_recheck : ℤ
off_recheck = negsuc 0

-- std::numeric_limits<int>::max(), a piece that is not there yet.
abbrev pub not_there : ℕ
not_there = 2147483647

unfoldable pub file_info_update_counters_ : FileInfo → FileInfo
file_info_update_counters_ fi =
    if ltb fi.pieces (fi.total_pieces_download_count + 1)
    then record fi { total_pieces_download_count = fi.pieces }
    else record fi {
      total_pieces_download_count = fi.total_pieces_download_count + 1;
      pieces_download_count = fi.pieces_download_count + 1;
      last_av_pieces_pos = fi.last_av_pieces_pos + 1;
      recheck_av =
          if eqb_ℤ fi.recheck_av off_recheck then fi.recheck_av else fi.recheck_av +ℤ pos 1;
    }

unfoldable pub file_info_piece_in_range : FileInfo → ℕ → Bool
file_info_piece_in_range fi piece =
    leb fi.pieces_range_first piece && leb piece fi.pieces_range_last

-- `none` is a division by zero.
unfoldable pub file_info_get_download_offset :
    (block_size size pieces max_partial_download_size : ℕ) → Option ℕ
file_info_get_download_offset zero size pieces limit = none
file_info_get_download_offset (suc b) size pieces limit =
    let dow_offset = limit / suc b in
    some (
      if ltb dow_offset 10
      then 10
      else if leb size limit || leb pieces dow_offset
      then pieces
      else dow_offset)

abbrev pub block_of : (size piece_length : ℕ) → ℕ
block_of size piece_length = if ltb size piece_length then size else piece_length

-- The information that file_info_add makes, where the offset is known.
abbrev pub file_info_init :
    (first last piece_length : ℕ)
    → (save_path entry_path : Bytes) → (size file_index offset : ℕ) → FileInfo
file_info_init first last piece_length save_path entry_path size file_index offset = record {
  pieces = last - first;
  total_pieces_download_count = 0;
  pieces_download_count = 0;
  avaliable_bytes = 0;
  pieces_range_first = first;
  pieces_range_last = last;
  path = (save_path ++ codes "/") ++ entry_path;
  size = size;
  block_size = block_of size piece_length;
  file_index = file_index;
  chocked_range = offset;
  av_pieces = replicate (last - first + 1) not_there;
  last_av_pos = 0;
  end_av_pos = offset;
  last_av_pieces_pos = 0;
  recheck_av = off_recheck;
}

-- The parameters are what libtorrent gives: the pieces of the file's first and last byte, the length
-- of a piece, the path to save to, and of the entry its path and size.
unfoldable pub file_info_add :
    List FileInfo
    → (first last piece_length : ℕ) → (save_path entry_path : Bytes)
    → (size file_index max_partial_download_size : ℕ) → Option (List FileInfo × FileInfo)
file_info_add flist first last piece_length save_path entry_path size file_index limit =
    elim (file_info_get_download_offset (block_of size piece_length) size (last - first) limit) [
      | none ↦ none
      | some offset ↦
          let info =
            file_info_init first last piece_length save_path entry_path size file_index offset in
          some (flist ++ info ∷ [], info)
    ]

unfoldable pub file_info_bin_search : List FileInfo → ℕ → Option FileInfo
unfolding file_info_piece_in_range
file_info_bin_search [] piece = none
file_info_bin_search (fi ∷ flist) piece =
    if file_info_piece_in_range fi piece then some fi else file_info_bin_search flist piece

unfoldable pub file_info_search : List FileInfo → Bytes → Option FileInfo
file_info_search [] path = none
file_info_search (fi ∷ flist) path =
    if str_eq fi.path path then some fi else file_info_search flist path

unfoldable pub file_info_search_by_index : List FileInfo → ℕ → Option FileInfo
file_info_search_by_index [] index = none
file_info_search_by_index (fi ∷ flist) index =
    if fi.file_index == index then some fi else file_info_search_by_index flist index

unfoldable pub file_info_remove : List FileInfo → Bytes → List FileInfo
file_info_remove [] path = []
file_info_remove (fi ∷ flist) path =
    let rest = file_info_remove flist path in if str_eq fi.path path then flist else fi ∷ rest

unfoldable pub file_info_reinit : FileInfo → FileInfo
file_info_reinit fi = record fi {
  recheck_av = off_recheck;
  last_av_pos = 0;
  last_av_pieces_pos = 0;
  pieces_download_count = 0;
  total_pieces_download_count = 0;
  av_pieces = replicate (fi.pieces + 1) not_there;
}
