-- ===== src/Server/Buffer/Additions.antt =====
-- file_info_buffer::on_file_add: what an addition gives a path, and that the others keep what they have.
use t2h.Common.{
  ℕ, ◌==◌, ==_iff, none, some, Bytes, str_eq, str_eq_iff, find, find-assign_same, find-assign_other,
  ℤ, ◌≡◌, ◌≢◌, refl, sym, ◌∙◌, Option-cases, [], inl, inr, arith,
}
use t2h.Server.Buffer.{HcFileInfo, FileInfoBuffer, get_info, on_file_add}
use t2h.Server.Buffer.Updates.{added, resized}
use t2h.Server.Buffer.Sound.{IsSound, added-IsSound, restored-IsSound, new_file}

-- Every other path keeps its pointer and what it stands for, and the pointer is not that of the path.
abbrev pub KeepsOthers : FileInfoBuffer → FileInfoBuffer → Bytes → ℕ → Type 0
KeepsOthers b c path p =
    (other : Bytes) (q : ℕ)
    → path ≢ other
    → get_info b other ≡ some q
    → (get_info c other ≡ some q) × ((p ≢ q) × (find ◌==◌ q c.store ≡ find ◌==◌ q b.store))

kept :
    (b : FileInfoBuffer) (path : Bytes) (size n : ℤ)
    → IsSound b
    → KeepsOthers b (added b path size n) path b.fresh
unfolding get_info added new_file
kept b path size n h other q d e =
    let (fi, s) = h.held other q e in
    let l : b.fresh ≢ q = λ x. omega (arith, x, h.below q fi s) in
    (
      find-assign_other str_eq str_eq_iff path other b.fresh b.infos d ∙ e,
      (l, find-assign_other ◌==◌ ==_iff b.fresh q (new_file path size n) b.store l),
    )

-- In a table whose pointers are in order, which an addition keeps so. A file with a new path gets an
-- information that no other path has, without subscribers; one whose path is there keeps its pointer
-- and its subscribers, only the two sizes change, and nobody is told. Either way every other path
-- keeps its pointer and its information.
pub on_file_add_lem :
    (b : FileInfoBuffer) (path : Bytes) (size n : ℤ)
    → IsSound b
    → (c : FileInfoBuffer) × ((on_file_add b path size n ≡ some c)
        × (IsSound c
            × ((get_info b path ≡ none
                  → (get_info c path ≡ some b.fresh)
                    × ((find ◌==◌ b.fresh c.store
                          ≡ some (record {
                            file_path = path;
                            file_size = size;
                            avaliable_bytes = n;
                            subscribers = [];
                          }))
                        × KeepsOthers b c path b.fresh))
                × ((p : ℕ) (fi : HcFileInfo)
                    → get_info b path ≡ some p
                    → find ◌==◌ p b.store ≡ some fi
                    → (get_info c path ≡ some p)
                      × ((find ◌==◌ p c.store
                            ≡ some (record fi { file_size = size; avaliable_bytes = n }))
                          × ((c.streams ≡ b.streams) × KeepsOthers b c path p))))))
unfolding get_info on_file_add added resized new_file
on_file_add_lem b path size n h = elim (Option-cases (find str_eq path b.infos)) [
  | inl e ↦ (
    added b path size n,
    (
      rw (e, on_file_add) refl,
      (
        added-IsSound b path size n h,
        (
          λ _. (
            find-assign_same str_eq str_eq_iff path b.fresh b.infos,
            (find-assign_same ◌==◌ ==_iff b.fresh _ b.store, kept b path size n h),
          ),
          λ p fi g s. absurd (ground (arith, e, g)),
        ),
      ),
    ),
  )
  | inr (p, e) ↦
      let (fi, s) = h.held path p e in
      (
        resized b p fi size n,
        (
          rw (e, s, on_file_add) refl,
          (
            restored-IsSound b (resized b p fi size n) p fi _ h s refl refl refl,
            (
              λ g. absurd (ground (arith, e, g)),
              λ q gi g t.
                  let i : p ≡ q = ground (arith, e, g) in
                  let j : fi ≡ gi = ground (arith, s, t, i) in
                  (g, (stored p q fi gi i j, (refl, others p q fi i e))),
            ),
          ),
        ),
      )
]
  where
    stored :
        (p q : ℕ) (fi gi : HcFileInfo)
        → p ≡ q
        → fi ≡ gi
        → find ◌==◌ q (resized b p fi size n).store
          ≡ some (record gi { file_size = size; avaliable_bytes = n })
    stored p q fi gi i j =
        rw (sym i, sym j)
          (find-assign_same ◌==◌ ==_iff p (record fi { file_size = size; avaliable_bytes = n })
            b.store)

    others :
        (p q : ℕ) (fi : HcFileInfo)
        → p ≡ q
        → find str_eq path b.infos ≡ some p
        → KeepsOthers b (resized b p fi size n) path q
    others p q fi i e other r d g =
        let l : p ≢ r = λ x. d (h.apart path other p e (rw x g)) in
        (
          g,
          (
            λ x. l (i ∙ x),
            find-assign_other ◌==◌ ==_iff p r (record fi { file_size = size; avaliable_bytes = n })
                b.store l,
          ),
        )
