-- ===== src/Server/Tests.antt =====
-- Tests of the server.
use t2h.Common.{
  ℕ, ◌+◌, ◌*◌, ◌≤◌, ◌<◌, true, false, List, [], ◌∷◌, ◌++◌, Option, some, Bytes, codes, length, take,
  drop, ◌≡◌, ◌⊎◌, refl, ℤ, pos, pos_part, leb_ℤ, ◌+ℤ◌, arith, append-nil, sym,
}
use t2h.Server.Stream.{
  state_default, ExData, Wakeup, changed, breaks, goes_on, arrivals, on_break, wait_for_bytes,
  bytes_to_wait, on_bytes_avaliable_change, returned, send_chunk, write_content_impl,
}
use t2h.Server.Stream.Content.{ready, write_content_impl_lem, whole_file_sent}
use t2h.Server.Stream.Safety.{wait_for_bytes_lem, sent-IsSlice}

abbrev ten_bytes : Bytes
ten_bytes = codes "0123456789"

abbrev no_bytes : Bytes
no_bytes = []

abbrev reads_all : ℤ → ℕ → Option Bytes
reads_all p n = some (take n (drop (pos_part p) ten_bytes))

abbrev writes_all : Bytes → Bytes → Bytes × ℕ
writes_all w bs = (w ++ bs, length bs)

-- One change comes before the first chunk, one before the second.
abbrev quiet_changes : List Wakeup
quiet_changes = changed (pos 8) ∷ goes_on ∷ goes_on ∷ changed (pos 9) ∷ []

-- Bytes 2 to 4 are asked for; the chunks are of three bytes, and byte 5 to 7 go out as well.
write_content_impl_lem_example :
    (k : ℕ) × (((k ≡ 0) ⊎ (2 + k * 3 < 6))
      × ((6 ≤ 2 + (k + 1) * 3)
          × (write_content_impl reads_all writes_all 5 3
                (pos 2)
                (pos 6)
                (ready (pos 10))
                quiet_changes
                no_bytes
              ≡ (take ((k + 1) * 3) (drop 2 ten_bytes), returned true))))
write_content_impl_lem_example =
    write_content_impl_lem ten_bytes reads_all writes_all (λ p n. refl) (λ w bs. refl) 5 3 2 6
      (pos 10) quiet_changes no_bytes (omega arith) (omega arith) (omega arith) (omega arith)
      (omega arith) (omega arith) refl (refl, (refl, tt))

-- A break between the two chunks ends the loop with false, with the first of them sent.
broken_between_test :
    write_content_impl reads_all writes_all 5 3
      (pos 2)
      (pos 6)
      (ready (pos 10))
      (goes_on ∷ goes_on ∷ breaks ∷ [])
      no_bytes
    ≡ (codes "234", returned false)
unfolding write_content_impl send_chunk wait_for_bytes bytes_to_wait arrivals on_break ◌+ℤ◌
broken_between_test = refl

beyond_range_test :
    write_content_impl reads_all writes_all 5 3 (pos 2) (pos 6) (ready (pos 10)) [] no_bytes
    ≡ (codes "234567", returned true)
unfolding write_content_impl send_chunk wait_for_bytes bytes_to_wait arrivals ◌+ℤ◌
beyond_range_test = refl

whole_file_sent_test :
    write_content_impl reads_all writes_all 7 3 (pos 4) (pos 10) (ready (pos 10)) [] no_bytes
    ≡ (drop 4 ten_bytes, returned true)
whole_file_sent_test =
    whole_file_sent ten_bytes reads_all writes_all (λ p n. refl) (λ w bs. refl) 7 3 4 (pos 10) []
      no_bytes (omega arith) (omega arith) (omega arith) (omega arith) refl tt

abbrev empty_stream : ExData
empty_stream = ready (pos 0)

abbrev two_changes : List Wakeup
two_changes = changed (pos 3) ∷ changed (pos 7) ∷ []

wait_for_bytes_lem_test :
    ((wait_for_bytes (pos 5) empty_stream two_changes).1.0.state ≡ state_default)
    × (leb_ℤ (pos 5) (wait_for_bytes (pos 5) empty_stream two_changes).1.0.avaliable_bytes ≡ true)
unfolding wait_for_bytes on_bytes_avaliable_change
wait_for_bytes_lem_test = wait_for_bytes_lem (pos 5) empty_stream two_changes refl

-- A transport that takes two bytes at most.
abbrev writes_two : Bytes → Bytes → Bytes × ℕ
writes_two w [] = (w, 0)
writes_two w (c ∷ []) = (w ++ c ∷ [], 1)
writes_two w (c ∷ d ∷ bs) = (w ++ c ∷ d ∷ [], 2)

writes_two_lem :
    (w bs : Bytes)
    → ((writes_two w bs).1 ≤ length bs) × ((writes_two w bs).0 ≡ w ++ take (writes_two w bs).1 bs)
writes_two_lem w [] = (omega arith, sym (append-nil w))
writes_two_lem w (c ∷ []) = (omega arith, refl)
writes_two_lem w (c ∷ d ∷ bs) = (omega arith, refl)

sent-IsSlice_example :
    (k : ℕ) × ((write_content_impl reads_all writes_two 7 3
        (pos 4)
        (pos 10)
        empty_stream
        two_changes
        no_bytes).0
      ≡ take k (drop 4 ten_bytes))
sent-IsSlice_example =
    sent-IsSlice ten_bytes reads_all writes_two (λ p n bs e. (n, ground arith)) writes_two_lem 7 3 4
      (pos 10) empty_stream two_changes no_bytes
