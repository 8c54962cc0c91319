-- ===== src/Server/Buffer/Sound.antt =====
-- file_info_buffer: the invariant of its pointers, which a new file and an update keep.
use t2h.Common.{
  ℕ, ◌<◌, ◌⊎◌, ◌==◌, ==_iff, [], some, Bytes, str_eq, str_eq_iff, find, assign, find-assign,
  find-assign_same, find-assign_other, ℤ, ◌≡◌, refl, sym, ap, ◌∙◌, Option-cases, Bool-cases, inl,
  inr, arith,
}
use t2h.Server.Buffer.{HcFileInfo, FileInfoBuffer, on_file_add, update_info}
use t2h.Server.Buffer.Updates.{updated, added, resized}

-- A path's pointer is in the store, all pointers of the store have been given out, and two paths have
-- two pointers.
pub record IsSound (b : FileInfoBuffer) : Type 0 where
  pub held :
      (path : Bytes) (p : ℕ)
      → find str_eq path b.infos ≡ some p
      → (fi : HcFileInfo) × (find ◌==◌ p b.store ≡ some fi)
  pub below : (p : ℕ) (fi : HcFileInfo) → find ◌==◌ p b.store ≡ some fi → p < b.fresh
  pub apart :
      (path other : Bytes) (p : ℕ)
      → find str_eq path b.infos ≡ some p
      → find str_eq other b.infos ≡ some p
      → path ≡ other

-- Writing another information under a pointer that is there keeps the pointers in order.
pub restored-IsSound :
    (b c : FileInfoBuffer) (p : ℕ) (fi gi : HcFileInfo)
    → IsSound b
    → find ◌==◌ p b.store ≡ some fi
    → c.infos ≡ b.infos
    → c.store ≡ assign ◌==◌ p gi b.store
    → c.fresh ≡ b.fresh
    → IsSound c
restored-IsSound b c p fi gi h e i s f = record {
  held = λ path q g. still q (h.held path q (ap (find str_eq path) (sym i) ∙ g));
  below = λ q hi g. rw f (under q hi (ap (find ◌==◌ q) (sym s) ∙ g));
  apart = λ path other q g k.
      h.apart path other q (ap (find str_eq path) (sym i) ∙ g) (ap (find str_eq other) (sym i) ∙ k);
}
  where
    still :
        (q : ℕ)
        → (fi : HcFileInfo) × (find ◌==◌ q b.store ≡ some fi)
        → (fi : HcFileInfo) × (find ◌==◌ q c.store ≡ some fi)
    still q (hi, g) = elim (Bool-cases (p == q)) [
      | inl k ↦ (gi, rw (s, find-assign ◌==◌ ==_iff p gi b.store q, k) refl)
      | inr k ↦ (hi, rw (s, find-assign ◌==◌ ==_iff p gi b.store q, k) g)
    ]

    under :
        (q : ℕ) (hi : HcFileInfo) → find ◌==◌ q (assign ◌==◌ p gi b.store) ≡ some hi → q < b.fresh
    under q hi g = elim (Bool-cases (p == q)) [
      | inl k ↦ rw (sym ((==_iff p q).0 k)) (h.below p fi e)
      | inr k ↦ h.below q hi (
          sym (
            find-assign_other ◌==◌ ==_iff p q gi b.store (λ d. ground (arith, k, (==_iff p q).1 d)))
          ∙ g)
    ]

unfoldable pub new_file : Bytes → ℤ → ℤ → HcFileInfo
new_file path size n = record {
  file_path = path;
  file_size = size;
  avaliable_bytes = n;
  subscribers = [];
}

-- What a new path's pointer leaves of a lookup.
added_cases :
    (b : FileInfoBuffer) (path other : Bytes) (size n : ℤ) (p : ℕ)
    → find str_eq other (assign str_eq path b.fresh b.infos) ≡ some p
    → ((path ≡ other) × (b.fresh ≡ p)) ⊎ (find str_eq other b.infos ≡ some p)
added_cases b path other size n p g =
    let e = sym (find-assign str_eq str_eq_iff path b.fresh b.infos other) ∙ g in
    elim (Bool-cases (str_eq path other)) [
      | inl k ↦ inl ((str_eq_iff path other).0 k, ground (arith, e, k))
      | inr k ↦ inr (ground (arith, e, k))
    ]

pub added-IsSound :
    (b : FileInfoBuffer) (path : Bytes) (size n : ℤ) → IsSound b → IsSound (added b path size n)
unfolding added new_file
added-IsSound b path size n h = record {
  held = λ other p g. elim (added_cases b path other size n p g) [
    | inl (k, i) ↦ (
      new_file path size n,
      ap (λ q. find ◌==◌ q (assign ◌==◌ b.fresh (new_file path size n) b.store)) (sym i)
          ∙ find-assign_same ◌==◌ ==_iff b.fresh (new_file path size n) b.store,
    )
    | inr e ↦
        let (fi, s) = h.held other p e in
        (
          fi,
          find-assign_other ◌==◌ ==_iff b.fresh p _ b.store (λ d. omega (arith, d, h.below p fi s))
              ∙ s,
        )
  ];
  below = λ p fi g. elim (Bool-cases (b.fresh == p)) [
    | inl k ↦ ground (arith, k)
    | inr k ↦
        let e =
          sym (
            find-assign_other ◌==◌ ==_iff b.fresh p _ b.store
              (λ d. ground (arith, k, (==_iff b.fresh p).1 d)))
          ∙ g in
        omega (arith, h.below p fi e)
  ];
  apart = λ other another p g k. elim (added_cases b path other size n p g) [
    | inl (i, f) ↦ elim (added_cases b path another size n p k) [
      | inl (j, _) ↦ sym i ∙ j
      | inr e ↦ let (fi, s) = h.held another p e in absurd (omega (arith, f, h.below p fi s))
    ]
    | inr e ↦ elim (added_cases b path another size n p k) [
      | inl (_, f) ↦ let (fi, s) = h.held other p e in absurd (omega (arith, f, h.below p fi s))
      | inr f ↦ h.apart other another p e f
    ]
  ];
}

pub on_file_add-IsSound :
    (b : FileInfoBuffer) (path : Bytes) (size n : ℤ)
    → IsSound b
    → (c : FileInfoBuffer) × ((on_file_add b path size n ≡ some c) × IsSound c)
unfolding on_file_add added resized
on_file_add-IsSound b path size n h = elim (Option-cases (find str_eq path b.infos)) [
  | inl e ↦ (added b path size n, (rw (e, on_file_add) refl, added-IsSound b path size n h))
  | inr (p, e) ↦
      let (fi, s) = h.held path p e in
      (
        resized b p fi size n,
        (
          rw (e, s, on_file_add) refl,
          restored-IsSound b (resized b p fi size n) p fi _ h s refl refl refl,
        ),
      )
]

pub update_info-IsSound :
    (b : FileInfoBuffer) (path : Bytes) (n : ℤ)
    → IsSound b
    → (c : FileInfoBuffer) × ((update_info b path n ≡ some c) × IsSound c)
unfolding update_info updated
update_info-IsSound b path n h = elim (Option-cases (find str_eq path b.infos)) [
  | inl e ↦ (b, (rw (e, update_info) refl, h))
  | inr (p, e) ↦
      let (fi, s) = h.held path p e in
      (
        updated b p fi n,
        (
          rw (e, s, update_info) refl,
          restored-IsSound b (updated b p fi n) p fi _ h s refl refl refl,
        ),
      )
]
