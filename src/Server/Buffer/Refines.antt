-- ===== src/Server/Buffer/Refines.antt =====
-- file_info_buffer and its updater: the table of pointers refines a map from a path to its two sizes.
use t2h.Common.{
  ℕ, ◌==◌, ==_iff, List, [], ◌∷◌, Option, none, some, Bytes, str_eq, str_eq_iff, find, assign,
  find-assign, find-assign_same, find-assign_other, All, ℤ, if◌then◌else◌, ◌≡◌, ◌≢◌, refl, sym, ap,
  ◌∙◌, Option-cases, Bool-cases, inl, inr, arith,
}
use mathlib.Core.Path.{fun_ext}
use t2h.Server.Buffer.{
  HcFileInfo, FileInfoBuffer, file_info_buffer, on_file_add, update_info,
  CoreFileChangeNotification, ChangeState, file_update, file_remove, file_add, on_notify,
}
use t2h.Server.Buffer.Updates.{updated, added, resized}
use t2h.Server.Buffer.Sound.{IsSound, new_file, restored-IsSound, added-IsSound}

-- What a reader of the table can ask for: the size of a path's file and the bytes that are there.
abbrev pub Table : Type 0
Table = Bytes → Option (ℤ × ℤ)

unfoldable pub sizes : Option HcFileInfo → Option (ℤ × ℤ)
sizes none = none
sizes (some fi) = some (fi.file_size, fi.avaliable_bytes)

unfoldable pub sizes_of : List (ℕ × HcFileInfo) → Option ℕ → Option (ℤ × ℤ)
sizes_of m none = none
sizes_of m (some p) = sizes (find ◌==◌ p m)

unfoldable pub view : FileInfoBuffer → Table
view b path = sizes_of b.store (find str_eq path b.infos)

-- The notification as the abstract map sees it. A file that is not in the map has no progress.
unfoldable pub progress : ℤ → Option (ℤ × ℤ) → Option (ℤ × ℤ)
progress n none = none
progress n (some (size, m)) = some (size, n)

unfoldable pub change : CoreFileChangeNotification → Option (ℤ × ℤ) → Option (ℤ × ℤ)
change n old = elim n.event_type [
  | file_update ↦ progress n.avaliable_bytes old
  | file_remove ↦ none
  | file_add ↦ some (n.file_size, n.avaliable_bytes)
]

unfoldable pub follow : CoreFileChangeNotification → Table → Table
follow n t path = if str_eq n.file_path path then change n (t path) else t path

stored-view :
    (b : FileInfoBuffer) (path other : Bytes) (p : ℕ) (gi : HcFileInfo)
    → IsSound b
    → find str_eq path b.infos ≡ some p
    → sizes_of (assign ◌==◌ p gi b.store) (find str_eq other b.infos)
      ≡ (if str_eq path other then some (gi.file_size, gi.avaliable_bytes) else view b other)
unfolding view sizes_of sizes
stored-view b path other p gi h e = elim (Bool-cases (str_eq path other)) [
  | inl k ↦
      rw (k, sym ((str_eq_iff path other).0 k), e, sizes_of)
        (ap sizes (find-assign_same ◌==◌ ==_iff p gi b.store))
  | inr k ↦ elim (Option-cases (find str_eq other b.infos)) [
    | inl f ↦ rw (k, f, sizes_of) refl
    | inr (q, f) ↦
        rw (k, f, sizes_of)
          (ap sizes (
            find-assign_other ◌==◌ ==_iff p q gi b.store (λ d. ground (
              arith,
              k,
              (str_eq_iff path other).1 (h.apart path other p e (f ∙ ap some (sym d))),
            ))))
  ]
]

added-view :
    (b : FileInfoBuffer) (path other : Bytes) (size n : ℤ)
    → IsSound b
    → view (added b path size n) other
      ≡ (if str_eq path other then some (size, n) else view b other)
unfolding view sizes_of sizes added new_file
added-view b path other size n h = elim (Bool-cases (str_eq path other)) [
  | inl k ↦
      rw (find-assign str_eq str_eq_iff path b.fresh b.infos other, k, sizes_of)
        (ap sizes (find-assign_same ◌==◌ ==_iff b.fresh (new_file path size n) b.store))
  | inr k ↦ elim (Option-cases (find str_eq other b.infos)) [
    | inl f ↦ rw (find-assign str_eq str_eq_iff path b.fresh b.infos other, k, f, sizes_of) refl
    | inr (q, f) ↦
        let (fi, s) = h.held other q f in
        rw (find-assign str_eq str_eq_iff path b.fresh b.infos other, k, f, sizes_of)
          (ap sizes (
            find-assign_other ◌==◌ ==_iff b.fresh q _ b.store
              (λ d. omega (arith, d, h.below q fi s))))
  ]
]

-- A notification that is handled: the table that it leaves, and what a reader sees there.
pub record IsHandled (b : FileInfoBuffer) (n : CoreFileChangeNotification) : Type 0 where
  pub table : FileInfoBuffer
  pub returns : on_notify b n ≡ some table
  pub sound : IsSound table
  pub sees : (path : Bytes) → view table path ≡ follow n (view b) path

added-IsHandled :
    (b : FileInfoBuffer) (n : CoreFileChangeNotification)
    → IsSound b
    → n.event_type ≡ file_add
    → IsHandled b n
unfolding on_notify on_file_add follow change added resized new_file view sizes_of sizes
added-IsHandled b n h a = elim (Option-cases (find str_eq n.file_path b.infos)) [
  | inl e ↦ record {
    table = added b n.file_path n.file_size n.avaliable_bytes;
    returns = rw (a, e, on_file_add) refl;
    sound = added-IsSound b n.file_path n.file_size n.avaliable_bytes h;
    sees = λ path. rw a (added-view b n.file_path path n.file_size n.avaliable_bytes h);
  }
  | inr (p, e) ↦
      let (fi, s) = h.held n.file_path p e in
      record {
        table = resized b p fi n.file_size n.avaliable_bytes;
        returns = rw (a, e, s, on_file_add) refl;
        sound =
            restored-IsSound b (resized b p fi n.file_size n.avaliable_bytes) p fi _ h s refl refl
              refl;
        sees = λ path. rw a (stored-view b n.file_path path p _ h e);
      }
]

-- Progress, when what the map has of the path is known.
follow_update :
    (n : CoreFileChangeNotification) (t : Table) (path : Bytes) (new : Option (ℤ × ℤ))
    → n.event_type ≡ file_update
    → progress n.avaliable_bytes (t n.file_path) ≡ new
    → follow n t path ≡ (if str_eq n.file_path path then new else t path)
unfolding follow change
follow_update n t path new a e = elim (Bool-cases (str_eq n.file_path path)) [
  | inl k ↦ rw (k, a, sym ((str_eq_iff n.file_path path).0 k)) e
  | inr k ↦ rw k refl
]

absent_update :
    (n : CoreFileChangeNotification) (t : Table) (path : Bytes)
    → n.event_type ≡ file_update
    → t n.file_path ≡ none
    → t path ≡ follow n t path
unfolding follow change progress
absent_update n t path a e = elim (Bool-cases (str_eq n.file_path path)) [
  | inl k ↦ rw (k, a, sym ((str_eq_iff n.file_path path).0 k), e) refl
  | inr k ↦ rw k refl
]

updated-IsHandled :
    (b : FileInfoBuffer) (n : CoreFileChangeNotification)
    → IsSound b
    → n.event_type ≡ file_update
    → IsHandled b n
unfolding on_notify update_info follow change updated view sizes_of sizes progress
updated-IsHandled b n h a = elim (Option-cases (find str_eq n.file_path b.infos)) [
  | inl e ↦ record {
    table = b;
    returns = rw (a, e, update_info) refl;
    sound = h;
    sees = λ path. absent_update n (view b) path a (ap (sizes_of b.store) e);
  }
  | inr (p, e) ↦
      let (fi, s) = h.held n.file_path p e in
      record {
        table = updated b p fi n.avaliable_bytes;
        returns = rw (a, e, s, update_info) refl;
        sound = restored-IsSound b (updated b p fi n.avaliable_bytes) p fi _ h s refl refl refl;
        sees = λ path.
            stored-view b n.file_path path p _ h e
            ∙ sym (
                follow_update n (view b) path (some (fi.file_size, n.avaliable_bytes)) a
                  (rw (e, s) refl));
      }
]

-- What the updater makes of a sequence of notifications, and what the map makes of it.
unfoldable pub replay : FileInfoBuffer → List CoreFileChangeNotification → Option FileInfoBuffer
replay b [] = some b
replay b (n ∷ ns) = elim (on_notify b n) [ none ↦ none | some c ↦ replay c ns ]

unfoldable pub follow_all : List CoreFileChangeNotification → Table → Table
follow_all [] t = t
follow_all (n ∷ ns) t = follow_all ns (follow n t)

abbrev pub Kept : CoreFileChangeNotification → Type 0
Kept n = n.event_type ≢ file_remove

-- An addition or a progress on a table in order is handled: the call returns, the table is in order
-- again, and a reader sees of each path what the map of paths to sizes has after the same notification.
pub on_notify-IsHandled :
    (b : FileInfoBuffer) (n : CoreFileChangeNotification) → IsSound b → Kept n → IsHandled b n
on_notify-IsHandled b n h k = go n.event_type refl
  where
    go : (e : ChangeState) → n.event_type ≡ e → IsHandled b n
    go file_update e = updated-IsHandled b n h e
    go file_remove e = absurd (k e)
    go file_add e = added-IsHandled b n h e

follow_all-same :
    (ns : List CoreFileChangeNotification) (t u : Table)
    → ((path : Bytes) → t path ≡ u path)
    → (path : Bytes) → follow_all ns t path ≡ follow_all ns u path
follow_all-same ns t u e path = ap (λ v. follow_all ns v path) (fun_ext e)

-- The table refines the map: any sequence of additions and progress, on a table in order, is handled to
-- its end, leaves a table in order, and a reader then sees of every path what the map has after the same
-- sequence.
pub replay-view :
    (ns : List CoreFileChangeNotification) (b : FileInfoBuffer)
    → IsSound b
    → All Kept ns
    → (c : FileInfoBuffer) × ((replay b ns ≡ some c)
        × (IsSound c × ((path : Bytes) → view c path ≡ follow_all ns (view b) path)))
unfolding replay follow_all
replay-view [] b h k = (b, (refl, (h, λ path. refl)))
replay-view (n ∷ ns) b h (k, ks) =
    let d = on_notify-IsHandled b n h k in
    let (c, (e, (s, v))) = replay-view ns d.table d.sound ks in
    (
      c,
      (
        rw (d.returns, replay) e,
        (s, λ path. v path ∙ follow_all-same ns (view d.table) (follow n (view b)) d.sees path),
      ),
    )

pub file_info_buffer-IsSound : IsSound file_info_buffer
unfolding find
file_info_buffer-IsSound = record {
  held = λ path p e. ground (arith, e);
  below = λ p fi e. ground (arith, e);
  apart = λ path other p e f. ground (arith, e);
}
