-- ===== src/Server/Stream/Content.antt =====
-- hs_chunked_ostream_impl::write_content_impl: which bytes of the file the client gets, and that the
-- loop ends.
use t2h.Common.{
  ℕ, zero, suc, ◌+◌, ◌*◌, ◌≤◌, ◌<◌, ltb, leb, Bool, true, false, List, [], ◌∷◌, ◌++◌, Option, some,
  Bytes, length, take, drop, length-take, length-drop, take_add, drop_add, take_of_le, append_assoc,
  ◌≡◌, ◌⊎◌, refl, ap, ◌∙◌, ℤ, pos, ◌+ℤ◌, leb_ℤ, if◌then◌else◌, pos_+ℤ, arith, Bool-cases,
  List-cases, inl, inr,
}
use t2h.Server.Stream.{
  state_default, ExData, Wakeup, changed, breaks, deadline, goes_on, arrivals,
  on_bytes_avaliable_change, wait_for_bytes, int64_max, Sending, returned, send_chunk,
  write_content_impl, bytes_to_wait,
}

-- A stream that nobody broke and that knows of n bytes.
abbrev pub ready : ℤ → ExData
ready n = record { avaliable_bytes = n; state = state_default }

-- What comes neither breaks the stream nor tells it of fewer than e bytes.
abbrev pub IsQuiet : ℕ → List Wakeup → Type 0
IsQuiet e [] = Unit {0}
IsQuiet e (changed n ∷ ws) = (leb_ℤ (pos e) n ≡ true) × IsQuiet e ws
IsQuiet e (breaks ∷ ws) = ⊥
IsQuiet e (deadline ∷ ws) = IsQuiet e ws
IsQuiet e (goes_on ∷ ws) = IsQuiet e ws

arrivals-ready :
    (e : ℕ) (n : ℤ) (ws : List Wakeup)
    → leb_ℤ (pos e) n ≡ true
    → IsQuiet e ws
    → (m : ℤ) × ((vs : List Wakeup) × ((leb_ℤ (pos e) m ≡ true)
          × (IsQuiet e vs × (arrivals (ready n) ws ≡ (ready m, vs)))))
unfolding arrivals on_bytes_avaliable_change
arrivals-ready e n [] h q = (n, ([], (h, (tt, refl))))
arrivals-ready e n (changed m ∷ ws) h (g, q) = arrivals-ready e m ws g q
arrivals-ready e n (breaks ∷ ws) h q = absurd q
arrivals-ready e n (deadline ∷ ws) h q = (n, (deadline ∷ ws, (h, (q, refl))))
arrivals-ready e n (goes_on ∷ ws) h q = (n, (ws, (h, (q, refl))))

wait_for_bytes-ready :
    (bytes n : ℤ) (ws : List Wakeup)
    → leb_ℤ bytes n ≡ true
    → wait_for_bytes bytes (ready n) ws ≡ (true, (ready n, ws))
unfolding wait_for_bytes
wait_for_bytes-ready bytes n [] h = ground arith
wait_for_bytes-ready bytes n (w ∷ ws) h = ground arith

enough :
    (e s size : ℕ) (n : ℤ)
    → leb_ℤ (pos e) n ≡ true
    → leb_ℤ (bytes_to_wait (pos e) (pos s +ℤ pos size)) n ≡ true
unfolding bytes_to_wait
enough e s size n h = rw (pos_+ℤ s size) (ground arith)

last_chunk : (e s size : ℕ) → leb_ℤ (pos e) (pos s +ℤ pos size) ≡ leb e (s + size)
last_chunk e s size = rw (pos_+ℤ s size) (ground arith)

module _ (file : Bytes) (read_at : ℤ → ℕ → Option Bytes) (write : Bytes → Bytes → Bytes × ℕ)
    (reads : (p n : ℕ) → read_at (pos p) n ≡ some (take n (drop p file)))
    (writes : (w bs : Bytes) → write w bs ≡ (w ++ bs, length bs)) where
  send_chunk_lem :
      (p size : ℕ) (eof : Bool) (w : Bytes) (rest : ℤ → Bytes → Bytes × Sending)
      → 0 < length (take size (drop p file))
      → send_chunk read_at write (pos p) size eof w rest ≡ (
          if eof
          then (w ++ take size (drop p file), returned true)
          else rest (pos (p + length (take size (drop p file)))) (w ++ take size (drop p file)))
  unfolding send_chunk
  send_chunk_lem p size eof w rest h = elim (List-cases (take size (drop p file))) [
    | inl e ↦ absurd (ground arith)
    | inr (c, (cs, e)) ↦
        rw (reads p size, e, send_chunk, writes w (c ∷ cs), pos_+ℤ p (length (c ∷ cs)))
          (ground (arith, e))
  ]

  abbrev chunk : ℕ → ℕ → Bytes
  chunk s size = take size (drop s file)

  round :
      (fuel size s e : ℕ) (n n_1 n_2 : ℤ) (ws ws_1 ws_2 : List Wakeup) (w : Bytes)
      → s < length file
      → 0 < size
      → length file + size ≤ int64_max
      → arrivals (ready n) ws ≡ (ready n_1, ws_1)
      → arrivals (ready n_1) ws_1 ≡ (ready n_2, ws_2)
      → wait_for_bytes (bytes_to_wait (pos e) (pos s +ℤ pos size)) (ready n_2) ws_2
        ≡ (true, (ready n_2, ws_2))
      → write_content_impl read_at write (suc fuel) size (pos s) (pos e) (ready n) ws w ≡ (
          if leb e (s + size)
          then (w ++ chunk s size, returned true)
          else write_content_impl read_at write fuel size
              (pos (s + length (chunk s size)))
              (pos e)
              (ready n_2)
              ws_2
              (w ++ chunk s size))
  unfolding write_content_impl
  round fuel size s e n n_1 n_2 ws ws_1 ws_2 w a b c e_1 e_2 e_3 =
      rw (e_1, write_content_impl, small)
        (rw (e_1, e_2, e_3)
          (rw (e_1, e_2, e_3)
            (rw⁻¹ (last_chunk e s size)
              (send_chunk_lem s size (leb_ℤ (pos e) (pos s +ℤ pos size)) w _ full))))
    where
      small : ltb int64_max (s + size) ≡ false
      small = ground arith

      full : 0 < length (chunk s size)
      full = omega (arith, length-take size (drop s file), length-drop s file)

  -- One round of the loop, which leaves a stream that is told nothing worse.
  one_turn :
      (fuel size s e : ℕ) (n : ℤ) (ws : List Wakeup) (w : Bytes)
      → s < length file
      → 0 < size
      → length file + size ≤ int64_max
      → leb_ℤ (pos e) n ≡ true
      → IsQuiet e ws
      → (m : ℤ) × ((vs : List Wakeup) × ((leb_ℤ (pos e) m ≡ true)
            × (IsQuiet e vs
                × (write_content_impl read_at write (suc fuel) size (pos s) (pos e) (ready n) ws w
                    ≡ (if leb e (s + size)
                        then (w ++ chunk s size, returned true)
                        else write_content_impl read_at write fuel size
                            (pos (s + length (chunk s size)))
                            (pos e)
                            (ready m)
                            vs
                            (w ++ chunk s size))))))
  one_turn fuel size s e n ws w a c d h q =
      let (n_1, (ws_1, (h_1, (q_1, e_1)))) = arrivals-ready e n ws h q in
      let (n_2, (ws_2, (h_2, (q_2, e_2)))) = arrivals-ready e n_1 ws_1 h_1 q_1 in
      (
        n_2,
        (
          ws_2,
          (
            h_2,
            (q_2, round fuel size s e n n_1 n_2 ws ws_1 ws_2 w a c d e_1 e_2 (waited n_2 ws_2 h_2)),
          ),
        ),
      )
    where
      waited :
          (m : ℤ) (vs : List Wakeup)
          → leb_ℤ (pos e) m ≡ true
          → wait_for_bytes (bytes_to_wait (pos e) (pos s +ℤ pos size)) (ready m) vs
            ≡ (true, (ready m, vs))
      waited m vs g =
          wait_for_bytes-ready (bytes_to_wait (pos e) (pos s +ℤ pos size)) m vs
            (enough e s size m g)

  full_chunk : (s size e : ℕ) → e ≤ length file → s + size < e → length (chunk s size) ≡ size
  full_chunk s size e d h = omega (arith, length-take size (drop s file), length-drop s file)

  glue :
      (s size k : ℕ) (w : Bytes)
      → (w ++ chunk s size) ++ take ((k + 1) * size) (drop (s + size) file)
        ≡ w ++ take ((suc k + 1) * size) (drop s file)
  glue s size k w =
      rw (drop_add s size file, longer, take_add size ((k + 1) * size) (drop s file))
        (append_assoc w (chunk s size) (take ((k + 1) * size) (drop size (drop s file))))
    where
      longer : (suc k + 1) * size ≡ size + (k + 1) * size
      longer = omega arith

  -- A file whose bytes up to the end e of the range are there goes out from the start s of the range in
  -- whole chunks, the last one cut only by the end of the file: one, or k + 1 of them where k do not
  -- reach the end of the range. The loop returns true, with as much fuel as the range has bytes and one
  -- more. The conditions: every read of the file is full and every write is taken whole; s is a place
  -- of the file and e is not beyond it, with e ≤ s allowed; chunks are not empty and the sums are within
  -- int64; and what comes to the stream before, between and during the chunks neither breaks it nor
  -- tells it of fewer bytes than the range needs.
  pub write_content_impl_lem :
      (fuel size s e : ℕ) (n : ℤ) (ws : List Wakeup) (w : Bytes)
      → 0 < fuel
      → e < s + fuel
      → 0 < size
      → s < length file
      → e ≤ length file
      → length file + size ≤ int64_max
      → leb_ℤ (pos e) n ≡ true
      → IsQuiet e ws
      → (k : ℕ) × (((k ≡ 0) ⊎ (s + k * size < e))
          × ((e ≤ s + (k + 1) * size)
              × (write_content_impl read_at write fuel size (pos s) (pos e) (ready n) ws w
                  ≡ (w ++ take ((k + 1) * size) (drop s file), returned true))))
  write_content_impl_lem zero size s e n ws w z a b c d f h q = absurd (omega (arith, z))
  write_content_impl_lem (suc fuel) size s e n ws w z a b c d f h q =
      let (m, (vs, (g, (p, t)))) = one_turn fuel size s e n ws w c b f h q in
      elim (Bool-cases (leb e (s + size))) [
        | inl j ↦ (0, (inl refl, (ground (arith, j), ground (arith, t, j))))
        | inr j ↦
            let l : s + size < e = ground (arith, j) in
            let (k, (u, (v, y))) =
              write_content_impl_lem fuel size (s + size) e m vs (w ++ chunk s size)
                (omega (arith, l, a, b)) (omega (arith, a, b)) b (omega (arith, l, d)) d f g p in
            (
              suc k,
              (
                inr (further s size e k l u),
                (
                  omega (arith, v),
                  t
                      ∙ rw (j, full_chunk s size e d l) y
                      ∙ ap (λ v. (v, returned true)) (glue s size k w),
                ),
              ),
            )
      ]
    where
      further :
          (s size e k : ℕ)
          → s + size < e
          → (k ≡ 0) ⊎ (s + size + k * size < e)
          → s + suc k * size < e
      further s size e k l (inl z) = rw z (omega (arith, l))
      further s size e k l (inr h) = omega (arith, h)

  -- A file that is all there and is asked for from s to its end is sent from s to its end.
  pub whole_file_sent :
      (fuel size s : ℕ) (n : ℤ) (ws : List Wakeup) (w : Bytes)
      → length file < s + fuel
      → 0 < size
      → s < length file
      → length file + size ≤ int64_max
      → leb_ℤ (pos (length file)) n ≡ true
      → IsQuiet (length file) ws
      → write_content_impl read_at write fuel size (pos s) (pos (length file)) (ready n) ws w
        ≡ (w ++ drop s file, returned true)
  whole_file_sent fuel size s n ws w a b c f h q =
      let (k, (u, (v, z))) =
        write_content_impl_lem fuel size s (length file) n ws w (omega (arith, a, c)) a b c
          (omega arith) f h q in
      z
      ∙ ap (λ bs. (w ++ bs, returned true))
          (take_of_le ((k + 1) * size) (drop s file) (omega (arith, v, length-drop s file)))
