-- ===== src/Torrent/Update/Window.antt =====
-- file_info_update keeps a file in order, and no read or write of it is out of the vector.
use t2h.Common.{
  ℕ, zero, suc, ◌+◌, ◌-◌, ◌*◌, ◌^◌, ◌≤◌, ◌<◌, ltb, leb, ◌==◌, Bool, true, false, not, ◌&&◌, ◌||◌,
  List, [], ◌∷◌, some, Bytes, length, length-replicate, get_elem?, All, pos, ◌+ℤ◌, pos_+ℤ, eqb_ℤ,
  if◌then◌else◌, Bool-cases, inl, inr, ◌⊎◌, ◌≢◌, ◌≡◌, refl, ap, ◌∙◌, arith,
}
use native.Mathlib.Nat.{mul-le-mul_right, mod-le, le_trans}
use t2h.Torrent.{
  FileInfo, off_recheck, file_info_update_counters_, file_info_piece_in_range, file_info_init,
  not_there,
}
use t2h.Torrent.Counters.{IsCounted}
use t2h.Torrent.Update.{
  assign_at, scan_window, is_due, before, move_window, threw, curr_avb, report_bytes, check_window,
  piece_came, file_info_update,
}

assign_at-length :
    (i v : ℕ) (xs : List ℕ)
    → i < length xs
    → (ys : List ℕ) × ((assign_at i v xs ≡ some ys) × (length ys ≡ length xs))
unfolding assign_at
assign_at-length i v [] h = absurd (omega arith)
assign_at-length zero v (x ∷ xs) h = (v ∷ xs, (refl, refl))
assign_at-length (suc i) v (x ∷ xs) h =
    let (ys, (e, l)) = assign_at-length i v xs (omega arith) in
    (x ∷ ys, (rw (e, assign_at) refl, ap suc l))

pub get_elem?-some : (i : ℕ) (xs : List ℕ) → i < length xs → (x : ℕ) × (get_elem? xs i ≡ some x)
get_elem?-some i [] h = absurd (omega arith)
get_elem?-some zero (x ∷ xs) h = (x, refl)
get_elem?-some (suc i) (x ∷ xs) h = get_elem?-some i xs (omega arith)

-- A scan that stays below the last place reads inside the vector and ends inside the window.
scan_window_lem :
    (k : ℕ) (av : List ℕ) (off : Bool) (it last end : ℕ)
    → last ≤ it
    → it + k < length av
    → ((scan_window k av off it last end).threw ≡ false)
      × ((scan_window k av off it last end).last_av_pos ≤ it + k)
unfolding scan_window
scan_window_lem zero av off it last end l h = (refl, omega arith)
scan_window_lem (suc k) av off it last end l h =
    let (p, e) = get_elem?-some it av (omega arith) in
    let (q, f) = get_elem?-some (it + 1) av (omega arith) in
    let next : ℕ = if p + 1 == q then it else last in
    let (a, b) = scan_window_lem k av off (suc it) next end (ground arith) (omega arith) in
    let h0 : (length av == it) ≡ false = ground (arith, h) in
    elim (Bool-cases (p + 1 == q || not off)) [
      | inl g ↦ rw (h0, e, f, g, scan_window) (a, omega (arith, b))
      | inr g ↦ rw (h0, e, f, g, scan_window) (refl, omega arith)
    ]

-- The window is behind the pieces that came once it has been looked at, and reaches them before; the
-- bytes that are told of are not more than those of the pieces that came.
pub record IsReady (fi : FileInfo) : Type 0 where
  pub counted : IsCounted fi
  pub window : fi.last_av_pos ≤ fi.end_av_pos
  pub waits :
      ((fi.recheck_av ≡ off_recheck)
        × (fi.end_av_pos + fi.pieces_download_count
            ≤ fi.total_pieces_download_count + fi.chocked_range))
      ⊎ ((n : ℕ) × ((fi.recheck_av ≡ pos n) × (fi.end_av_pos ≤ fi.total_pieces_download_count)))
  pub bytes : fi.avaliable_bytes ≤ fi.total_pieces_download_count * fi.block_size

not_off : (n : ℕ) → eqb_ℤ (pos n) off_recheck ≡ false
not_off n = ground arith

-- A piece is written down and counted.
counted-IsReady :
    (fi : FileInfo) (av : List ℕ)
    → length av ≡ length fi.av_pieces
    → IsReady fi
    → IsReady (file_info_update_counters_ (record fi { av_pieces = av }))
unfolding file_info_update_counters_
counted-IsReady fi av l r =
    let m : fi.total_pieces_download_count * fi.block_size
        ≤ (fi.total_pieces_download_count + 1) * fi.block_size =
      mul-le-mul_right fi.block_size (omega arith) in
    record {
      counted = ground (arith, l, r.counted);
      window = ground (arith, r.window);
      waits = elim r.waits [
        | inl (e, h) ↦ inl (ground (arith, e, h, r.counted), ground (arith, e, h, r.counted))
        | inr (n, (e, h)) ↦ elim (Bool-cases (ltb fi.pieces (fi.total_pieces_download_count + 1))) [
          | inl g ↦ inr (n, (rw (g, file_info_update_counters_) e, ground (arith, g, h, r.counted)))
          | inr g ↦ inr (
            n + 1,
            (rw (g, e, not_off n, file_info_update_counters_) (pos_+ℤ n 1), ground (arith, g, h)),
          )
        ]
      ];
      bytes = ground (arith, r.bytes, m);
    }

-- A window that is due ends inside the pieces that came, which are fewer than the file has.
due_window :
    (fi : FileInfo)
    → IsReady fi
    → is_due fi ≡ true
    → (fi.end_av_pos ≤ fi.total_pieces_download_count)
      × (fi.total_pieces_download_count < fi.pieces)
unfolding is_due ◌+ℤ◌
due_window fi r e = elim r.waits [
  | inl (k, h) ↦ ground (arith, e, k, h)
  | inr (n, (k, h)) ↦ ground (arith, e, k, h)
]

once : off_recheck +ℤ pos 1 ≡ pos 0
unfolding ◌+ℤ◌
once = refl

-- After the scan, a window that is complete moves on and one that is not is looked at again.
moved-IsReady :
    (fi : FileInfo) (av : List ℕ) (last : ℕ)
    → length av ≡ length fi.av_pieces
    → last ≤ fi.end_av_pos
    → fi.end_av_pos ≤ fi.total_pieces_download_count
    → IsReady fi
    → let moved = move_window (record fi { av_pieces = av; last_av_pos = last }) in
      IsReady moved
      × (moved.last_av_pos ≤ fi.total_pieces_download_count)
      × (moved.total_pieces_download_count ≡ fi.total_pieces_download_count)
unfolding move_window
moved-IsReady fi av last l h k r =
    let tested : FileInfo = record fi { av_pieces = av; last_av_pos = last } in
    let still : IsCounted tested = (r.counted.0, (r.counted.1.0, l ∙ r.counted.1.1)) in
    elim (Bool-cases (leb (before fi.end_av_pos) last)) [
      | inl g ↦
          rw (g, move_window)
            (
              record {
                counted = still;
                window = omega arith;
                waits = inl (refl, omega (arith, k));
                bytes = r.bytes;
              },
              k,
              refl,
            )
      | inr g ↦
          rw (g, move_window)
            (
              record {
                counted = still;
                window = h;
                waits = inr (rechecked r.waits);
                bytes = r.bytes;
              },
              omega (arith, h, k),
              refl,
            )
    ]
  where
    rechecked :
        ((fi.recheck_av ≡ off_recheck)
            × (fi.end_av_pos + fi.pieces_download_count
                ≤ fi.total_pieces_download_count + fi.chocked_range))
          ⊎ ((n : ℕ) × ((fi.recheck_av ≡ pos n) × (fi.end_av_pos ≤ fi.total_pieces_download_count)))
        → (n : ℕ) × ((fi.recheck_av +ℤ pos 1 ≡ pos n)
            × (fi.end_av_pos ≤ fi.total_pieces_download_count))
    rechecked (inl (e, _)) = (0, (rw e once, k))
    rechecked (inr (n, (e, _))) = (n + 1, (rw e (pos_+ℤ n 1), k))

-- The bytes that are told of are those of the pieces before the window.
report_bytes-IsReady :
    (fi : FileInfo)
    → fi.last_av_pos ≤ fi.total_pieces_download_count
    → IsReady fi
    → IsReady (report_bytes fi).0 × ((report_bytes fi).1 ≢ threw)
unfolding report_bytes
report_bytes-IsReady fi h r =
    let m : curr_avb fi ≤ fi.total_pieces_download_count * fi.block_size =
      le_trans (mod-le (fi.last_av_pos * fi.block_size) (2 ^ 64))
        (mul-le-mul_right fi.block_size h) in
    elim (Bool-cases (ltb (curr_avb fi) (2 ^ 63) && ltb fi.avaliable_bytes (curr_avb fi))) [
      | inl g ↦
          rw (g, report_bytes)
            (record { counted = r.counted; window = r.window; waits = r.waits; bytes = m }, λ e. cc)
      | inr g ↦ rw (g, report_bytes) (r, λ e. cc)
    ]

module _ (partial_sort : ℕ → List ℕ → List ℕ)
    (keeps : (n : ℕ) (xs : List ℕ) → length (partial_sort n xs) ≡ length xs) where
  check_window-IsReady :
      (fi : FileInfo)
      → IsReady fi
      → is_due fi ≡ true
      → IsReady (check_window partial_sort fi).0 × ((check_window partial_sort fi).1.0 ≢ threw)
  unfolding check_window
  check_window-IsReady fi r d =
      let (a, b) = due_window fi r d in
      let av = partial_sort fi.total_pieces_download_count fi.av_pieces in
      let (t, l) =
        scan_window_lem (fi.end_av_pos - fi.last_av_pos) av (eqb_ℤ fi.recheck_av off_recheck)
          fi.last_av_pos fi.last_av_pos fi.end_av_pos (omega arith)
          (omega (
            arith,
            a,
            b,
            r.window,
            keeps fi.total_pieces_download_count fi.av_pieces,
            r.counted.1.1,
          )) in
      let s =
        scan_window (fi.end_av_pos - fi.last_av_pos) av (eqb_ℤ fi.recheck_av off_recheck)
          fi.last_av_pos fi.last_av_pos fi.end_av_pos in
      let (m, p, q) =
        moved-IsReady fi av s.last_av_pos (keeps fi.total_pieces_download_count fi.av_pieces)
          (omega (arith, l, r.window)) a r in
      rw (t, check_window)
        (report_bytes-IsReady
          (move_window (record fi { av_pieces = av; last_av_pos = s.last_av_pos }))
          (omega (arith, p, q)) m)

  piece_came-IsReady :
      (fi : FileInfo) (piece : ℕ)
      → IsReady fi
      → IsReady (piece_came partial_sort fi piece).0
        × ((piece_came partial_sort fi piece).1.0 ≢ threw)
  unfolding piece_came
  piece_came-IsReady fi piece r =
      let (av, (e, l)) =
        assign_at-length fi.last_av_pieces_pos piece fi.av_pieces (omega (arith, r.counted)) in
      let counted : FileInfo = file_info_update_counters_ (record fi { av_pieces = av }) in
      let c : IsReady counted = counted-IsReady fi av l r in
      elim (Bool-cases (is_due counted)) [
        | inl d ↦ rw (e, d, piece_came) (check_window-IsReady counted c d)
        | inr d ↦ rw (e, d, piece_came) (c, λ e. cc)
      ]

  -- With a sort that keeps the number of pieces, a piece that comes to files in order leaves all files in
  -- order, and no position outside a vector is read or written.
  pub file_info_update-IsReady :
      (flist : List FileInfo) (piece : ℕ)
      → All IsReady flist
      → All IsReady (file_info_update partial_sort flist piece).0
        × ((file_info_update partial_sort flist piece).1.0 ≢ threw)
  unfolding file_info_update
  file_info_update-IsReady [] piece r = (tt, λ e. cc)
  file_info_update-IsReady (fi ∷ flist) piece (r, rs) =
      let (a, b) = piece_came-IsReady fi piece r in
      let (c, d) = file_info_update-IsReady flist piece rs in
      elim (Bool-cases (file_info_piece_in_range fi piece)) [
        | inl g ↦ rw (g, file_info_update) ((a, rs), b)
        | inr g ↦ rw (g, file_info_update) ((r, c), d)
      ]

-- A file starts in order.
pub file_info_init-IsReady :
    (first last piece_length : ℕ) (save_path entry_path : Bytes) (size file_index offset : ℕ)
    → IsReady (file_info_init first last piece_length save_path entry_path size file_index offset)
file_info_init-IsReady first last piece_length save_path entry_path size file_index offset =
    record {
      counted = (refl, (omega arith, length-replicate (last - first + 1) not_there));
      window = omega arith;
      waits = inl (refl, omega arith);
      bytes = omega arith;
    }
