-- ===== src/Torrent/Update.antt =====
-- src/core/torrent_core/torrent_info.cpp, file_info_update: how many bytes of a file are there from
-- its start on, from the pieces that came in any order. std::partial_sort and the calls of
-- libtorrent's piece_priority are a parameter and a list of the pieces.
pub mod Window
pub mod Gaps
use t2h.Common.{
  ℕ, zero, suc, ◌+◌, ◌-◌, ◌*◌, ◌%◌, ◌^◌, ltb, leb, ◌==◌, Bool, true, false, not, ◌&&◌, ◌||◌, List,
  [], ◌∷◌, ◌++◌, Option, none, some, length, get_elem?, ℤ, pos, negsuc, ◌+ℤ◌, eqb_ℤ, ltb_ℤ,
  if◌then◌else◌,
}
use t2h.Torrent.{FileInfo, off_recheck, file_info_update_counters_, file_info_piece_in_range}

abbrev pub recheck_limit : ℤ
recheck_limit = pos 5

-- The assignment through std::vector::at, which throws std::out_of_range.
unfoldable pub assign_at : ℕ → ℕ → List ℕ → Option (List ℕ)
assign_at i v [] = none
assign_at zero v (x ∷ xs) = some (v ∷ xs)
assign_at (suc i) v (x ∷ xs) = elim (assign_at i v xs) [ none ↦ none | some ys ↦ some (x ∷ ys) ]

-- The pieces from `first` on, n of them.
unfoldable pub pieces_from : (n first : ℕ) → List ℕ
pieces_from zero first = []
pieces_from (suc n) first = first ∷ pieces_from n (suc first)

-- What the loop over the window leaves: the position, whether a read threw, and the pieces that got
-- the maximum priority.
pub record Scan : Type 0 where
  pub last_av_pos : ℕ
  pub threw : Bool
  pub prioritised : List ℕ

-- The loop from the position `it`, with `rounds` rounds left up to the end of the window.
unfoldable pub scan_window : (rounds : ℕ) → List ℕ → (off : Bool) → (it last end : ℕ) → Scan
unfolding pieces_from
scan_window zero av off it last end = record { last_av_pos = last; threw = false; prioritised = [] }
scan_window (suc k) av off it last end =
    if length av == it
    then record { last_av_pos = last; threw = false; prioritised = [] }
    else elim (get_elem? av it) [
      | none ↦ record { last_av_pos = last; threw = true; prioritised = [] }
      | some p ↦ elim (get_elem? av (it + 1)) [
        | none ↦ record { last_av_pos = last; threw = true; prioritised = [] }
        | some q ↦
            let rest = scan_window k av off (suc it) (if p + 1 == q then it else last) end in
            if p + 1 == q || not off then rest else record {
              last_av_pos = last;
              threw = false;
              prioritised = pieces_from (end - last) last;
            }
      ]
    ]

-- The window is looked through when it has got its pieces, or was looked through too often.
unfoldable pub is_due : FileInfo → Bool
is_due fi =
    (leb fi.chocked_range fi.pieces_download_count || ltb_ℤ recheck_limit fi.recheck_av)
    && ltb fi.total_pieces_download_count fi.pieces

-- `end_av_pos - 1` of unsigned numbers.
abbrev pub before : ℕ → ℕ
before n = if n == 0 then 2 ^ 64 - 1 else n - 1

-- The window moves on when it is complete, and is rechecked otherwise.
unfoldable pub move_window : FileInfo → FileInfo
move_window fi =
    if leb (before fi.end_av_pos) fi.last_av_pos
    then record fi {
      last_av_pos = fi.end_av_pos;
      end_av_pos = fi.end_av_pos + fi.chocked_range;
      pieces_download_count = 0;
      recheck_av = off_recheck;
    }
    else record fi { recheck_av = fi.recheck_av +ℤ pos 1 }

pub data Report : Type 0 where
  threw silent told : Report

-- A product of unsigned numbers, which is read as a signed one: from 2^63 on it is negative.
abbrev pub curr_avb : FileInfo → ℕ
curr_avb fi = (fi.last_av_pos * fi.block_size) % 2 ^ 64

unfoldable pub report_bytes : FileInfo → FileInfo × Report
report_bytes fi =
    if ltb (curr_avb fi) (2 ^ 63) && ltb fi.avaliable_bytes (curr_avb fi)
    then (record fi { avaliable_bytes = curr_avb fi }, told)
    else (fi, silent)

module _ (partial_sort : ℕ → List ℕ → List ℕ) where
  -- The part from the sort on, of a window that is due.
  unfoldable pub check_window : FileInfo → FileInfo × (Report × List ℕ)
  unfolding scan_window move_window report_bytes
  check_window fi =
      let av = partial_sort fi.total_pieces_download_count fi.av_pieces in
      let off = eqb_ℤ fi.recheck_av off_recheck in
      let s =
        scan_window (fi.end_av_pos - fi.last_av_pos) av off fi.last_av_pos fi.last_av_pos
          fi.end_av_pos in
      let sorted = record fi { av_pieces = av; last_av_pos = s.last_av_pos } in
      if s.threw
      then (sorted, (threw, s.prioritised))
      else let (told_fi, r) = report_bytes (move_window sorted) in (told_fi, (r, s.prioritised))

  -- The body of the loop for the file that has the piece.
  unfoldable pub piece_came : FileInfo → ℕ → FileInfo × (Report × List ℕ)
  unfolding assign_at is_due check_window
  piece_came fi piece = elim (assign_at fi.last_av_pieces_pos piece fi.av_pieces) [
    | none ↦ (fi, (threw, []))
    | some av ↦
        let counted = file_info_update_counters_ (record fi { av_pieces = av }) in
        if is_due counted then check_window counted else (counted, (silent, []))
  ]

  -- The files after the piece, and what came of it; the file that is told about is the one that has
  -- changed.
  unfoldable pub file_info_update : List FileInfo → ℕ → List FileInfo × (Report × List ℕ)
  unfolding file_info_piece_in_range piece_came
  file_info_update [] piece = ([], (silent, []))
  file_info_update (fi ∷ flist) piece =
      let (rest, r) = file_info_update flist piece in
      let (changed, s) = piece_came fi piece in
      if file_info_piece_in_range fi piece then (changed ∷ flist, s) else (fi ∷ rest, r)
