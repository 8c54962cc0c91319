-- ===== src/Server/Stream/Safety.antt =====
-- hs_chunked_ostream_impl: what holds of a wait and of the bytes sent on every branch, however the
-- other threads, the file and the transport behave.
use t2h.Common.{
  ℕ, zero, suc, ◌+◌, ◌≤◌, ltb, Bool, true, false, List, [], ◌∷◌, ◌++◌, Option, some, Bytes, length,
  take, drop, take_add, drop_add, append_assoc, take_of_length, take_of_le, take-take, append-nil,
  ◌≡◌, sym, ap, ◌∙◌, ℤ, pos, ◌+ℤ◌, leb_ℤ, pos_+ℤ, arith, Bool-cases, Option-cases, List-cases, inl,
  inr, ◌==◌, ==_iff,
}
use t2h.Server.Stream.{
  state_default, ExData, Wakeup, changed, breaks, deadline, goes_on, arrivals, wait_for_bytes,
  int64_max, Sending, returned, overflows, unfinished, send_chunk, write_content_impl, broken,
  bytes_to_wait, on_break, on_bytes_avaliable_change,
}

-- A wait that says true leaves a stream that nobody broke and that knows of the bytes it waited for.
pub wait_for_bytes_lem :
    (bytes : ℤ) (x : ExData) (ws : List Wakeup)
    → (wait_for_bytes bytes x ws).0 ≡ true
    → ((wait_for_bytes bytes x ws).1.0.state ≡ state_default)
      × (leb_ℤ bytes (wait_for_bytes bytes x ws).1.0.avaliable_bytes ≡ true)
unfolding wait_for_bytes
wait_for_bytes_lem bytes x [] h = ground arith
wait_for_bytes_lem bytes x (changed n ∷ ws) h =
    ground (arith, wait_for_bytes_lem bytes (on_bytes_avaliable_change x n) ws)
wait_for_bytes_lem bytes x (breaks ∷ ws) h =
    ground (arith, wait_for_bytes_lem bytes (on_break x) ws)
wait_for_bytes_lem bytes x (deadline ∷ ws) h = ground arith
wait_for_bytes_lem bytes x (goes_on ∷ ws) h = ground (arith, wait_for_bytes_lem bytes x ws)

module _ (file : Bytes) (read_at : ℤ → ℕ → Option Bytes) (write : Bytes → Bytes → Bytes × ℕ)
    (reads : (p n : ℕ)
      → (bs : Bytes) → read_at (pos p) n ≡ some bs
      → (k : ℕ) × (bs ≡ take k (drop p file)))
    (writes : (w bs : Bytes)
      → ((write w bs).1 ≤ length bs) × ((write w bs).0 ≡ w ++ take (write w bs).1 bs)) where
  abbrev IsSlice : ℕ → Bytes → Bytes × Sending → Type 0
  IsSlice s w out = (k : ℕ) × (out.0 ≡ w ++ take k (drop s file))

  nothing_sent : (s : ℕ) (w : Bytes) (o : Sending) → IsSlice s w (w, o)
  nothing_sent s w o = (0, sym (append-nil w))

  part_sent :
      (s size : ℕ) (w bs : Bytes) (o : Sending)
      → read_at (pos s) size ≡ some bs
      → IsSlice s w ((write w bs).0, o)
  part_sent s size w bs o e =
      let (k, f) = reads s size bs e in
      let (j, g) = take-take (write w bs).1 k (drop s file) in
      (j, (writes w bs).1 ∙ ap (λ c. w ++ c) (ap (take (write w bs).1) f ∙ g))

  own_length :
      (s size : ℕ) (bs : Bytes)
      → read_at (pos s) size ≡ some bs
      → take (length bs) (drop s file) ≡ bs
  own_length s size bs e = let (k, f) = reads s size bs e in rw f (take_of_length k (drop s file))

  joined :
      (s size : ℕ) (w bs : Bytes) (j : ℕ)
      → read_at (pos s) size ≡ some bs
      → (w ++ bs) ++ take j (drop (s + length bs) file) ≡ w ++ take (length bs + j) (drop s file)
  joined s size w bs j e =
      rw (drop_add s (length bs) file, take_add (length bs) j (drop s file), own_length s size bs e)
        (append_assoc w bs (take j (drop (length bs) (drop s file))))

  all_sent :
      (s size : ℕ) (w bs : Bytes) (o : Bytes × Sending)
      → read_at (pos s) size ≡ some bs
      → (write w bs).1 ≡ length bs
      → IsSlice (s + length bs) (write w bs).0 o
      → IsSlice s w o
  all_sent s size w bs o e f (j, g) = (
    length bs + j,
    g ∙ rw ((writes w bs).1, f, take_of_le (length bs) bs (omega arith)) (joined s size w bs j e),
  )

  whole_sent :
      (s size : ℕ) (w bs : Bytes) (o : Sending)
      → read_at (pos s) size ≡ some bs
      → (write w bs).1 ≡ length bs
      → IsSlice s w ((write w bs).0, o)
  whole_sent s size w bs o e f =
      all_sent s size w bs ((write w bs).0, o) e f (nothing_sent (s + length bs) (write w bs).0 o)

  chunk_written :
      (s size : ℕ) (eof : Bool) (w : Bytes) (rest : ℤ → Bytes → Bytes × Sending) (c : ℕ)
      (cs : Bytes)
      → ((p : ℕ) (v : Bytes) → IsSlice p v (rest (pos p) v))
      → read_at (pos s) size ≡ some (c ∷ cs)
      → IsSlice s w (send_chunk read_at write (pos s) size eof w rest)
  unfolding send_chunk
  chunk_written s size eof w rest c cs h e =
      elim (Bool-cases ((write w (c ∷ cs)).1 == length (c ∷ cs))) [
        | inr g ↦ rw (e, send_chunk, g) (part_sent s size w (c ∷ cs) (returned false) e)
        | inl g ↦ elim (Bool-cases eof) [
          | inl j ↦
              rw (e, send_chunk, g, j)
                (whole_sent s size w (c ∷ cs) (returned true) e ((==_iff _ _).0 g))
          | inr j ↦
              rw (e, send_chunk, g, j, pos_+ℤ s (write w (c ∷ cs)).1, (==_iff _ _).0 g)
                (all_sent s size w (c ∷ cs) (rest (pos (s + length (c ∷ cs))) (write w (c ∷ cs)).0)
                  e ((==_iff _ _).0 g) (h (s + length (c ∷ cs)) (write w (c ∷ cs)).0))
        ]
      ]

  chunk_sent :
      (s size : ℕ) (eof : Bool) (w : Bytes) (rest : ℤ → Bytes → Bytes × Sending)
      → ((p : ℕ) (v : Bytes) → IsSlice p v (rest (pos p) v))
      → IsSlice s w (send_chunk read_at write (pos s) size eof w rest)
  unfolding send_chunk
  chunk_sent s size eof w rest h = elim (Option-cases (read_at (pos s) size)) [
    | inl e ↦ rw (e, send_chunk) (nothing_sent s w (returned false))
    | inr (bs, e) ↦ elim (List-cases bs) [
      | inl f ↦ rw (e, f, send_chunk) (nothing_sent s w (returned false))
      | inr (c, (cs, f)) ↦ chunk_written s size eof w rest c cs h (e ∙ ap some f)
    ]
  ]

  -- However the file's reads come short and the transport takes part of what it is given, whenever
  -- bytes arrive or the stream is broken: what the client got is a stretch of the file from the start
  -- of the range on, without a gap and in order.
  pub sent-IsSlice :
      (fuel size s : ℕ) (read_end : ℤ) (x : ExData) (ws : List Wakeup) (w : Bytes)
      → IsSlice s w (write_content_impl read_at write fuel size (pos s) read_end x ws w)
  unfolding write_content_impl
  sent-IsSlice zero size s read_end x ws w = nothing_sent s w unfinished
  sent-IsSlice (suc fuel) size s read_end x ws w =
      let (x_1, ws_1) = arrivals x ws in
      let (x_2, ws_2) = arrivals x_1 ws_1 in
      let bytes = bytes_to_wait read_end (pos s +ℤ pos size) in
      elim (Bool-cases (broken x_1.state)) [
        | inl e ↦ rw (e, write_content_impl) (nothing_sent s w (returned false))
        | inr e ↦ elim (Bool-cases (ltb int64_max (s + size))) [
          | inl f ↦ rw (e, f, write_content_impl) (nothing_sent s w overflows)
          | inr f ↦ elim (Bool-cases (wait_for_bytes bytes x_2 ws_2).0) [
            | inl g ↦
                rw (e, f, g, write_content_impl)
                  (chunk_sent s size _ w _ (λ p v. sent-IsSlice fuel size p read_end _ _ v))
            | inr g ↦ rw (e, f, g, write_content_impl) (nothing_sent s w (returned false))
          ]
        ]
      ]
