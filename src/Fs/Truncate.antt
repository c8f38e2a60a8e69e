-- ===== src/Fs/Truncate.antt =====
-- `itrunc` of kernel/fs.c: the blocks of a file that it gives back.
pub mod Loop
use os_assignment.Prelude.{
  ℕ, zero, suc, ◌+◌, ◌-◌, ◌≤◌, ◌<◌, ◌≡◌, ◌≢◌, refl, sym, ap, ◌∙◌, inl, inr, Bool, true, false, ◌&&◌,
  ◌||◌, some, arith, leb, ltb, ◌==◌, if◌then◌else◌, update, update-eq, update-ne, Bool-cases,
  ℕ_discrete,
}
use os_assignment.Fs.{ndirect, Disk, bfree, free_entries, free_indirect, itrunc}
use os_assignment.Fs.Blocks.Entries.{slot-direct, slot-indirect}
use os_assignment.Fs.Blocks.Slots.{slot, nslots, IsFile}
use os_assignment.Fs.Truncate.Loop.{
  free_entries-Frees, Clears, range, split_entries, split_apart, split_apart2,
}

module _ (d0 : Disk) (addrs : ℕ → ℕ) (file : IsFile d0 addrs) where
  abbrev at : ℕ → ℕ
  at = slot d0 addrs

  Clears-both :
      {d d1 d2 : Disk} {s t : ℕ → Bool}
      → ((i : ℕ) → s i ≡ true → t i ≡ false)
      → Clears at s d d1
      → Clears at t d1 d2
      → Clears at (λ i. s i || t i) d d2
  Clears-both {d} {d1} {d2} {s} {t} apart x y = record {
    size = y.size ∙ x.size;
    words = λ b k. y.words b k ∙ x.words b k;
    gone = λ i hi m ne. elim (Bool-cases (t i)) [
      | inl second ↦ y.gone i hi second ne
      | inr other ↦
          let first : s i ≡ true = ground arith in
          y.rest (at i) (λ j hj m' ne' e.
            (let same : j ≡ i = file.apart j i hj hi ne' e in
              let is : t i ≡ true = ap t (sym same) ∙ m' in cc))
          ∙ x.gone i hi first ne
    ];
    rest = λ b all.
        y.rest b (λ i hi m. all i hi (ground arith)) ∙ x.rest b (λ i hi m. all i hi (ground arith));
  }

  free_slots :
      (n k : ℕ) (f : ℕ → ℕ) (d : Disk)
      → k + n ≤ nslots
      → ((j : ℕ) → j < 0 + n → f j ≡ at (j + k))
      → ((s : ℕ) → s < nslots → range k n s ≡ true → at s ≢ 0 → d.used (at s) ≡ true)
      → (d' : Disk) × (free_entries n 0 f d ≡ some d') × Clears at (range k n) d d'
  free_slots n k f d bound is busy =
      let (d', e, r) = free_entries-Frees n 0 f d (record {
        in_use = λ j lo hi ne.
            ap d.used (is j hi) ∙ busy (j + k) (omega arith) (ground arith) (λ z. ne (is j hi ∙ z));
        apart = λ i j lo hi lo' hi' ne e.
            (let same : i + k ≡ j + k =
                file.apart (i + k) (j + k) (omega arith) (omega arith) (λ z. ne (is i hi ∙ z))
                  (sym (is i hi) ∙ e ∙ is j hi') in
              omega arith);
      }) in
      (
        d',
        e,
        record {
          size = r.size;
          words = r.words;
          gone = λ s hs m ne.
              let here : f (s - k) ≡ at s =
                is (s - k) (ground arith)
                ∙ (let back : s - k + k ≡ s = ground arith in ap at back) in
              ap d'.used (sym here)
              ∙ r.gone (s - k) (omega arith) (ground arith) (λ z. ne (sym here ∙ z));
          rest = λ b all. r.rest b (λ j lo hi ne e.
              all (j + k) (omega arith) (ground arith) (λ z. ne (is j hi ∙ z)) (sym (is j hi) ∙ e));
        },
      )

  keeps_busy :
      {d d' : Disk} {s : ℕ → Bool} (i : ℕ)
      → i < nslots
      → s i ≡ false
      → at i ≢ 0
      → Clears at s d d'
      → d.used (at i) ≡ true
      → d'.used (at i) ≡ true
  keeps_busy {d} {d'} {s} i hi out ne x u =
      x.rest (at i) (λ j hj m ne' e.
        (let same : j ≡ i = file.apart j i hj hi ne' e in
          let is : s i ≡ true = ap s (sym same) ∙ m in cc))
      ∙ u

  free_block :
      (d : Disk) (i : ℕ)
      → i < nslots
      → at i ≢ 0
      → d.used (at i) ≡ true
      → (bfree d (at i) ≡ some (record d { used = update d.used (at i) false }))
        × Clears at (range i 1) d (record d { used = update d.used (at i) false })
  unfolding bfree
  free_block d i hi ne u = (
    rw (u, bfree) refl,
    record {
      size = refl;
      words = λ b k. refl;
      gone = λ s hs m ne.
          (let same : s ≡ i = ground arith in
            update-eq d.used (at i) (at s) false (ap at (sym same)));
      rest = λ b all. update-ne d.used (at i) b false (all i hi (ground arith) ne);
    },
  )

  Clears-same :
      {d d' : Disk} {s t : ℕ → Bool}
      → ((i : ℕ) → i < nslots → at i ≢ 0 → s i ≡ t i)
      → Clears at s d d'
      → Clears at t d d'
  Clears-same same x = record {
    size = x.size;
    words = x.words;
    gone = λ i hi m ne. x.gone i hi (same i hi ne ∙ m) ne;
    rest = λ b all. x.rest b (λ i hi m ne. all i hi (sym (same i hi ne) ∙ m) ne);
  }

  no_indirect : addrs ndirect ≡ 0 → (s : ℕ) → s < nslots → ndirect ≤ s → at s ≡ 0
  no_indirect z s hs lo = elim (ℕ_discrete s ndirect) [
    | yes same ↦ ap at same ∙ slot-direct d0 addrs ndirect (omega arith) ∙ z
    | no differ ↦ slot-indirect d0 addrs s (omega arith) ∙ rw z refl
  ]

  free_indirect-Clears :
      (d1 : Disk)
      → Clears at (range 0 12) d0 d1
      → (d' : Disk) × (free_indirect (addrs ndirect) d1 ≡ some d') × Clears at (λ s. true) d0 d'
  unfolding free_indirect
  free_indirect-Clears d1 c1 = elim (Bool-cases (addrs ndirect == 0)) [
    | inl z ↦ (
      d1,
      rw z refl,
      Clears-same
          (λ s hs ne. elim (Bool-cases (ltb s ndirect)) [
            | inl low ↦ ground arith
            | inr high ↦ absurd (ne (no_indirect (ground arith) s hs (ground arith)))
          ])
          c1,
    )
    | inr nz ↦
        let here : at ndirect ≡ addrs ndirect = slot-direct d0 addrs ndirect (omega arith) in
        let real : at ndirect ≢ 0 = ground (arith, here) in
        let (d2, e2, c2) =
          free_slots 256 13 (d1.words (addrs ndirect)) d1 (omega arith)
            (λ j hj. c1.words (addrs ndirect) j ∙ sym (in_block j nz))
            (λ s hs m ne. keeps_busy s hs (ground arith) ne c1 (file.in_use s hs ne)) in
        let (e3, c3) = free_block d2 ndirect (omega arith) real (
          keeps_busy ndirect (omega arith) refl real c2 (
            keeps_busy ndirect (omega arith) refl real c1
              (file.in_use ndirect (omega arith) real))) in
        (
          _,
          rw (nz, e2) (ap (bfree d2) (sym here) ∙ e3),
          Clears-same (λ s hs ne. split_entries s hs)
              (Clears-both split_apart c1 (Clears-both split_apart2 c2 c3)),
        )
  ]
    where
      in_block : (j : ℕ) → (addrs ndirect == 0) ≡ false → at (j + 13) ≡ d0.words (addrs ndirect) j
      in_block j nz =
          slot-indirect d0 addrs (j + 13) (omega arith)
          ∙ (let e : j + 13 - ndirect - 1 ≡ j = omega arith in rw (nz, e) refl)

itrunc-both :
    (d d1 d2 : Disk) (addrs : ℕ → ℕ)
    → free_entries ndirect 0 addrs d ≡ some d1
    → free_indirect (addrs ndirect) d1 ≡ some d2
    → itrunc d addrs ≡ some (d2, λ i. if leb i ndirect then 0 else addrs i)
unfolding itrunc
itrunc-both d d1 d2 addrs e1 e2 = rw (e1, e2, itrunc) refl

-- `itrunc` of a file does not panic. Its blocks are free afterwards, every other block is as it was,
-- and no entry is left.
pub itrunc-Clears :
    (d : Disk) (addrs : ℕ → ℕ)
    → IsFile d addrs
    → (d' : Disk) × (addrs' : ℕ → ℕ) × (itrunc d addrs ≡ some (d', addrs'))
      × Clears (slot d addrs) (λ s. true) d d'
      × IsFile d' addrs'
      × ((s : ℕ) → s < nslots → slot d' addrs' s ≡ 0)
itrunc-Clears d addrs file =
    let direct : (j : ℕ) → j < 0 + 12 → addrs j ≡ slot d addrs (j + 0) = λ j h.
      (let e : j + 0 ≡ j = omega arith in
        sym (slot-direct d addrs j (omega arith)) ∙ ap (slot d addrs) (sym e)) in
    let (d1, e1, c1) =
      free_slots d addrs file 12 0 addrs d (omega arith) direct
        (λ s hs m ne. file.in_use s hs ne) in
    let (d2, e2, c2) = free_indirect-Clears d addrs file d1 c1 in
    (
      d2,
      λ i. if leb i ndirect then 0 else addrs i,
      itrunc-both d d1 d2 addrs e1 e2,
      c2,
      record {
        boot = c2.rest 0 (λ s hs m ne e. ne e) ∙ file.boot;
        in_use = λ s hs ne. absurd (ne (no_entry d2 s));
        in_range = λ s hs ne. absurd (ne (no_entry d2 s));
        apart = λ s t hs ht ne e. absurd (ne (no_entry d2 s));
      },
      λ s hs. no_entry d2 s,
    )
  where
    no_entry : (x : Disk) (s : ℕ) → slot x (λ i. if leb i ndirect then 0 else addrs i) s ≡ 0
    no_entry x s = elim (Bool-cases (leb s ndirect)) [
      | inl low ↦
          slot-direct x (λ i. if leb i ndirect then 0 else addrs i) s (ground arith) ∙ rw low refl
      | inr high ↦ slot-indirect x (λ i. if leb i ndirect then 0 else addrs i) s (ground arith)
    ]
