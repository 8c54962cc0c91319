-- ===== src/Server/Buffer/Subscribers.antt =====
-- file_info_buffer: how subscribers come and go, and the end of a file and of the table.
use t2h.Common.{
  ℕ, pos, ◌==◌, ==_iff, Bool, true, false, List, [], ◌∷◌, ◌++◌, none, some, Bytes, str_eq,
  str_eq_iff, find, assign, find-assign_same, find-erase_same, length, if◌then◌else◌, ◌≡◌, refl, ap,
  ◌∙◌, Option-cases, inl, inr, arith, ◌||◌,
}
use t2h.Server.Stream.{ExData, on_bytes_avaliable_change, on_break}
use t2h.Server.Buffer.{
  HcFileInfo, FileInfoBuffer, on_stream, notify_subscribers, get_info, remove_info,
  registr_subscriber, unregistr_subscriber_id, unregistr_subscriber, erase_first, holds, break_all,
  stop,
}
use t2h.Server.Buffer.Updates.{on_stream-same, notify_subscribers_lem}

-- A removal is undefined, whether the path is there or not: the iterator that it reads is past the
-- end, or at the element that it has just erased.
pub remove_info-undefined : (b : FileInfoBuffer) (path : Bytes) → remove_info b path ≡ none
unfolding remove_info
remove_info-undefined b path = rw (find-erase_same str_eq str_eq_iff path b.infos, remove_info) refl

holds-last : (is : List ℕ) (i : ℕ) → holds i (is ++ i ∷ []) ≡ true
unfolding holds
holds-last [] i = ground arith
holds-last (j ∷ is) i = ground (arith, holds-last is i)

erase_first-last : (is : List ℕ) (i : ℕ) → holds i is ≡ false → erase_first i (is ++ i ∷ []) ≡ is
unfolding holds erase_first
erase_first-last [] i h = ground arith
erase_first-last (j ∷ is) i h = ground (arith, erase_first-last is i)

subscribed : FileInfoBuffer → ℕ → ℕ → HcFileInfo → FileInfoBuffer
subscribed b p i fi = record b {
  store = assign ◌==◌ p (record fi { subscribers = fi.subscribers ++ i ∷ [] }) b.store;
  streams = on_stream (λ x. on_bytes_avaliable_change x fi.avaliable_bytes) i b.streams;
}

with_last : HcFileInfo → ℕ → HcFileInfo
with_last fi i = record fi { subscribers = fi.subscribers ++ i ∷ [] }

unsubscribed : FileInfoBuffer → ℕ → ℕ → HcFileInfo → FileInfoBuffer
unsubscribed b p i fi = record b {
  store = assign ◌==◌ p (record fi { subscribers = erase_first i fi.subscribers }) b.store;
  streams = on_stream on_break i b.streams;
}

-- A new subscriber is told at once how many bytes its file has. Taking it out by the number that the
-- call gave back does nothing; taking it out as a stream restores the subscribers and breaks it.
pub registr_subscriber_lem :
    (b : FileInfoBuffer) (p i : ℕ) (fi : HcFileInfo) (x : ExData)
    → find ◌==◌ p b.store ≡ some fi
    → find ◌==◌ i b.streams ≡ some x
    → holds i fi.subscribers ≡ false
    → (c : FileInfoBuffer) × ((d : FileInfoBuffer) × ((sid : ℕ) × ((registr_subscriber b p i
              ≡ some (c, sid))
            × ((find ◌==◌ i c.streams ≡ some (on_bytes_avaliable_change x fi.avaliable_bytes))
                × ((unregistr_subscriber_id c p (pos sid) ≡ some c)
                    × ((unregistr_subscriber c p i ≡ some d)
                        × ((find ◌==◌ p d.store ≡ some fi)
                            × (find ◌==◌ i d.streams
                                ≡ some (
                                    on_break
                                      (on_bytes_avaliable_change x fi.avaliable_bytes))))))))))
unfolding registr_subscriber unregistr_subscriber_id unregistr_subscriber subscribed with_last
    unsubscribed
registr_subscriber_lem b p i fi x s e h = (
  subscribed b p i fi,
  (
    unsubscribed (subscribed b p i fi) p i (with_last fi i),
    (
      length (fi.subscribers ++ i ∷ []),
      (
        rw (s, registr_subscriber) refl,
        (
          told,
          (
            rw (there, unregistr_subscriber_id) (ground arith),
            (
              rw (there, unregistr_subscriber, holds-last fi.subscribers i) refl,
              (
                find-assign_same ◌==◌ ==_iff p _ (subscribed b p i fi).store
                    ∙ ap (λ l. some (record fi { subscribers = l }))
                        (erase_first-last fi.subscribers i h),
                on_stream-same on_break i (subscribed b p i fi).streams _ told,
              ),
            ),
          ),
        ),
      ),
    ),
  ),
)
  where
    there : find ◌==◌ p (subscribed b p i fi).store ≡ some (with_last fi i)
    there = find-assign_same ◌==◌ ==_iff p (with_last fi i) b.store

    told :
        find ◌==◌ i (subscribed b p i fi).streams
        ≡ some (on_bytes_avaliable_change x fi.avaliable_bytes)
    told = on_stream-same (λ y. on_bytes_avaliable_change y fi.avaliable_bytes) i b.streams x e

-- The streams that the table knows as subscribers of one of its files.
unfoldable pub is_subscribed : ℕ → List (Bytes × ℕ) → List (ℕ × HcFileInfo) → Bool
is_subscribed j [] store = false
is_subscribed j ((path, p) ∷ infos) store = elim (find ◌==◌ p store) [
  | none ↦ is_subscribed j infos store
  | some fi ↦ holds j fi.subscribers || is_subscribed j infos store
]

break_all_lem :
    (infos : List (Bytes × ℕ)) (store : List (ℕ × HcFileInfo)) (m : List (ℕ × ExData)) (j : ℕ)
    (x : ExData)
    → find ◌==◌ j m ≡ some x
    → find ◌==◌ j (break_all infos store m)
      ≡ some (if is_subscribed j infos store then on_break x else x)
unfolding break_all is_subscribed on_break
break_all_lem [] store m j x e = e
break_all_lem ((path, p) ∷ infos) store m j x e = elim (Option-cases (find ◌==◌ p store)) [
  | inl f ↦ rw (f, break_all, is_subscribed) (break_all_lem infos store m j x e)
  | inr (fi, f) ↦
      rw (f, break_all, is_subscribed)
        (break_all_lem infos store (notify_subscribers on_break fi.subscribers m) j
            (if holds j fi.subscribers then on_break x else x)
            (notify_subscribers_lem on_break fi.subscribers m j x break_twice e)
          ∙ ap some (both (holds j fi.subscribers) (is_subscribed j infos store)))
]
  where
    break_twice : (y : ExData) → on_break (on_break y) ≡ on_break y
    break_twice y = refl

    both :
        (a c : Bool)
        → (if c then on_break (if a then on_break x else x) else (if a then on_break x else x))
          ≡ (if a || c then on_break x else x)
    both true true = refl
    both true false = refl
    both false true = refl
    both false false = refl

-- Stopping forgets every file and breaks the streams that are subscribed to one of them, and no
-- other.
pub stop_lem :
    (b : FileInfoBuffer) (path : Bytes) (j : ℕ) (x : ExData)
    → find ◌==◌ j b.streams ≡ some x
    → (get_info (stop b) path ≡ none)
      × (find ◌==◌ j (stop b).streams
          ≡ some (if is_subscribed j b.infos b.store then on_break x else x))
unfolding get_info stop find
stop_lem b path j x e = (refl, break_all_lem b.infos b.store b.streams j x e)
