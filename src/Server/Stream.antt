-- ===== src/Server/Stream.antt =====
-- src/core/http_server/details/hs_chunked_ostream_impl.cpp and hs_chunked_ostream_impl.hpp: a stream
-- waits until the torrent has the bytes of a chunk, reads them from the file and writes them to the
-- client. What other threads tell the stream is a list in the order of its coming, with marks for how far
-- the thread that sends has come.
pub mod Content
pub mod Safety
use t2h.Common.{
  ℕ, zero, suc, ◌+◌, ◌-◌, ◌^◌, ltb, leb, ◌==◌, Bool, true, false, not, List, [], ◌∷◌, Option, none,
  some, Bytes, length, ℤ, pos, ◌+ℤ◌, leb_ℤ, ltb_ℤ, if◌then◌else◌, pos_part,
}

-- hs_chunked_ostream_impl::{is_breaked, state_default}
pub data StreamState : Type 0 where
  is_breaked state_default : StreamState

-- ex_data_
pub record ExData : Type 0 where
  pub avaliable_bytes : ℤ
  pub state : StreamState

abbrev pub broken : StreamState → Bool
broken is_breaked = true
broken state_default = false

unfoldable pub on_bytes_avaliable_change : ExData → ℤ → ExData
on_bytes_avaliable_change x n = record x { avaliable_bytes = n }

unfoldable pub on_break : ExData → ExData
on_break x = record x { state = is_breaked }

-- What comes to a stream: a notification, the deadline of a timed wait, or nothing while the thread that
-- sends goes on to its next test of the stream's state.
pub data Wakeup : Type 0 where
  changed : ℤ → Wakeup
  breaks : Wakeup
  deadline : Wakeup
  goes_on : Wakeup

-- The notifications that come before the next test, and what is left behind them.
unfoldable pub arrivals : ExData → List Wakeup → ExData × List Wakeup
unfolding on_bytes_avaliable_change on_break
arrivals x [] = (x, [])
arrivals x (w ∷ ws) = elim w [
  | changed n ↦ arrivals (on_bytes_avaliable_change x n) ws
  | breaks ↦ arrivals (on_break x) ws
  | deadline ↦ (x, deadline ∷ ws)
  | goes_on ↦ (x, ws)
]

-- Where no wakeup is left the deadline passes. The result has what comes after the wait.
unfoldable pub wait_for_bytes : ℤ → ExData → List Wakeup → Bool × (ExData × List Wakeup)
unfolding on_bytes_avaliable_change on_break
wait_for_bytes bytes x [] =
    if broken x.state then (false, (x, [])) else (leb_ℤ bytes x.avaliable_bytes, (x, []))
wait_for_bytes bytes x (w ∷ ws) = elim (broken x.state) [
  | true ↦ (false, (x, w ∷ ws))
  | false ↦ elim (leb_ℤ bytes x.avaliable_bytes) [
    | true ↦ (true, (x, w ∷ ws))
    | false ↦ elim w [
      | changed n ↦ wait_for_bytes bytes (on_bytes_avaliable_change x n) ws
      | breaks ↦ wait_for_bytes bytes (on_break x) ws
      | deadline ↦ (false, (x, ws))
      | goes_on ↦ wait_for_bytes bytes x ws
    ]
  ]
]

abbrev pub int64_max : ℕ
int64_max = 2 ^ 63 - 1

-- How the loop ends. `overflows` is a sum beyond int64, `unfinished` is a loop that has no fuel left.
pub data Sending : Type 0 where
  returned : Bool → Sending
  overflows : Sending
  unfinished : Sending

-- Up to where a chunk that ends at `next` waits.
unfoldable pub bytes_to_wait : ℤ → ℤ → ℤ
bytes_to_wait read_end next = if leb_ℤ read_end next then read_end else next

-- `W` is the state of the transport. `read_at` opens the file, seeks and reads, `none` where one of
-- them fails (the exception of a file that cannot be opened is not told apart from that); `write` is the transport's, with the number of bytes that it took.
module _ {W : Type 0} (read_at : ℤ → ℕ → Option Bytes) (write : W → Bytes → W × ℕ) where
  -- The body of the loop from the read on, with `rest` for the iterations to come.
  unfoldable pub send_chunk : ℤ → ℕ → Bool → W → (ℤ → W → W × Sending) → W × Sending
  send_chunk seek_pos read_offset eof w rest = elim (read_at seek_pos read_offset) [
    | none ↦ (w, returned false)
    | some [] ↦ (w, returned false)
    | some (c ∷ cs) ↦
        let out = write w (c ∷ cs) in
        if not (out.1 == length (c ∷ cs))
        then (out.0, returned false)
        else if eof
        then (out.0, returned true)
        else rest (seek_pos +ℤ pos out.1) out.0
  ]

  -- Notifications come before the test at the head of the loop, before the wait and while it lasts.
  unfoldable pub write_content_impl :
      (fuel : ℕ)
      → (max_chunk_size : ℕ) → (seek_pos read_end : ℤ) → ExData
      → List Wakeup
      → W
      → W × Sending
  write_content_impl zero size seek_pos read_end x ws w = (w, unfinished)
  write_content_impl (suc fuel) size seek_pos read_end x ws w =
      let (x_1, ws_1) = arrivals x ws in
      elim (broken x_1.state) [
        | true ↦ (w, returned false)
        | false ↦ elim (ltb int64_max (pos_part seek_pos + size)) [
          | true ↦ (w, overflows)
          | false ↦
              let next = seek_pos +ℤ pos size in
              let (x_2, ws_2) = arrivals x_1 ws_1 in
              let (got, (y, vs)) = wait_for_bytes (bytes_to_wait read_end next) x_2 ws_2 in
              elim got [
                | false ↦ (w, returned false)
                | true ↦
                    send_chunk seek_pos size (leb_ℤ read_end next) w
                      (λ p v. write_content_impl fuel size p read_end y vs v)
              ]
        ]
      ]
