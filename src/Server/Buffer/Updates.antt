-- ===== src/Server/Buffer/Updates.antt =====
-- file_info_buffer: what an update and a new file change, and who hears of it.
use t2h.Common.{
  ℕ, suc, ◌==◌, ==_iff, Bool, true, false, List, [], ◌∷◌, none, some, Bytes, str_eq, find, assign,
  find-assign_same, find-assign_other, ℤ, if◌then◌else◌, ◌≡◌, ◌≢◌, refl, ap, ◌∙◌, Option-cases, inl,
  inr, arith, Bool-cases,
}
use t2h.Server.Stream.{ExData, on_bytes_avaliable_change}
use t2h.Server.Buffer.{
  HcFileInfo, FileInfoBuffer, on_stream, notify_subscribers, get_info, update_info, holds,
}

pub on_stream-same :
    (f : ExData → ExData) (i : ℕ) (m : List (ℕ × ExData)) (x : ExData)
    → find ◌==◌ i m ≡ some x
    → find ◌==◌ i (on_stream f i m) ≡ some (f x)
unfolding on_stream
on_stream-same f i m x e = rw (e, on_stream) (find-assign_same ◌==◌ ==_iff i (f x) m)

pub on_stream-other :
    (f : ExData → ExData) (i j : ℕ) (m : List (ℕ × ExData))
    → i ≢ j
    → find ◌==◌ j (on_stream f i m) ≡ find ◌==◌ j m
unfolding on_stream
on_stream-other f i j m d = elim (Option-cases (find ◌==◌ i m)) [
  | inl e ↦ rw (e, on_stream) refl
  | inr (x, e) ↦ rw (e, on_stream) (find-assign_other ◌==◌ ==_iff i j (f x) m d)
]

-- What a loop over subscribers leaves of the stream `j`, for a call that made twice is made once.
pub notify_subscribers_lem :
    (f : ExData → ExData) (is : List ℕ) (m : List (ℕ × ExData)) (j : ℕ) (x : ExData)
    → ((y : ExData) → f (f y) ≡ f y)
    → find ◌==◌ j m ≡ some x
    → find ◌==◌ j (notify_subscribers f is m) ≡ some (if holds j is then f x else x)
unfolding notify_subscribers holds
notify_subscribers_lem f [] m j x h e = e
notify_subscribers_lem f (i ∷ is) m j x h e = elim (Bool-cases (i == j)) [
  | inl g ↦
      rw (g, holds)
        (notify_subscribers_lem f is (on_stream f i m) j (f x) h (hit g)
          ∙ ap some (once (holds j is)))
  | inr g ↦
      rw (g, holds)
        (notify_subscribers_lem f is (on_stream f i m) j x h
          (on_stream-other f i j m (λ d. ground (arith, g)) ∙ e))
]
  where
    hit : (i == j) ≡ true → find ◌==◌ j (on_stream f i m) ≡ some (f x)
    hit g = rw ((==_iff i j).0 g) (on_stream-same f j m x e)

    once : (b : Bool) → (if b then f (f x) else f x) ≡ f x
    once true = h x
    once false = refl

unfoldable pub updated : FileInfoBuffer → ℕ → HcFileInfo → ℤ → FileInfoBuffer
updated b p fi n = record b {
  store = assign ◌==◌ p (record fi { avaliable_bytes = n }) b.store;
  streams = notify_subscribers (λ x. on_bytes_avaliable_change x n) fi.subscribers b.streams;
}

-- New bytes of a file are written down for it and told to all its subscribers; a stream that is not
-- subscribed hears nothing, and no other file changes. A path that the table does not have changes
-- nothing.
pub update_info_lem :
    (b : FileInfoBuffer) (path : Bytes) (n : ℤ) (p q j : ℕ) (fi : HcFileInfo) (x : ExData)
    → find ◌==◌ p b.store ≡ some fi
    → p ≢ q
    → find ◌==◌ j b.streams ≡ some x
    → (get_info b path ≡ some p
        → (c : FileInfoBuffer) × ((update_info b path n ≡ some c)
            × ((find ◌==◌ p c.store ≡ some (record fi { avaliable_bytes = n }))
                × ((find ◌==◌ q c.store ≡ find ◌==◌ q b.store)
                    × (find ◌==◌ j c.streams
                        ≡ some (
                            if holds j fi.subscribers
                            then on_bytes_avaliable_change x n
                            else x))))))
      × (get_info b path ≡ none → update_info b path n ≡ some b)
unfolding get_info update_info on_bytes_avaliable_change updated
update_info_lem b path n p q j fi x s d e = (
  λ f. (
    updated b p fi n,
    (
      rw (f, s, update_info) refl,
      (
        find-assign_same ◌==◌ ==_iff p (record fi { avaliable_bytes = n }) b.store,
        (
          find-assign_other ◌==◌ ==_iff p q (record fi { avaliable_bytes = n }) b.store d,
          notify_subscribers_lem (λ y. on_bytes_avaliable_change y n) fi.subscribers b.streams j x
              (λ y. twice y) e,
        ),
      ),
    ),
  ),
  λ f. rw (f, update_info) refl,
)
  where
    twice :
        (y : ExData)
        → on_bytes_avaliable_change (on_bytes_avaliable_change y n) n
          ≡ on_bytes_avaliable_change y n
    twice y = refl

unfoldable pub added : FileInfoBuffer → Bytes → ℤ → ℤ → FileInfoBuffer
added b path size n = record b {
  infos = assign str_eq path b.fresh b.infos;
  store =
      assign ◌==◌ b.fresh
        (record { file_path = path; file_size = size; avaliable_bytes = n; subscribers = [] })
        b.store;
  fresh = suc b.fresh;
}

unfoldable pub resized : FileInfoBuffer → ℕ → HcFileInfo → ℤ → ℤ → FileInfoBuffer
resized b p fi size n = record b {
  store = assign ◌==◌ p (record fi { file_size = size; avaliable_bytes = n }) b.store;
}
