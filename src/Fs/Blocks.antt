-- ===== src/Fs/Blocks.antt =====
-- The blocks of a file are in use and all different, and `bmap` of kernel/fs.c keeps it so.
pub mod Entries
pub mod Slots
use mathlib.Core.Path.{subst}
use os_assignment.Prelude.{
  ℕ, zero, suc, ◌+◌, ◌-◌, ◌≤◌, ◌<◌, ◌≡◌, ◌≢◌, refl, sym, ap, ◌∙◌, ◌⊎◌, inl, inr, Bool, true, false,
  ◌&&◌, Option, none, some, arith, ltb, leb, ◌==◌, if◌then◌else◌, update, Bool-cases,
}
use os_assignment.Fs.{
  ndirect, nindirect, Disk, zeroed, find_free, balloc, set_word, direct_entry, indirect_entry, bmap,
}
use os_assignment.Fs.Blocks.Slots.{slot, nslots, slot_of, IsFile, Balloc, full, took, balloc-Balloc}
use os_assignment.Fs.Blocks.Entries.{
  Extends, Extends-IsFile, Entry, kept, added, fails, slot-direct, slot-indirect,
  direct_entry-Entry, indirect_entry-Entry,
}

-- A file that has grown: its blocks have stayed where they were, no block in use is given back, and
-- the blocks that are newly in use are blocks of the file.
pub record Grows (d : Disk) (addrs : ℕ → ℕ) (d' : Disk) (addrs' : ℕ → ℕ) : Type 0 where
  pub before : IsFile d addrs
  pub file : IsFile d' addrs'
  pub size : d'.size ≡ d.size
  pub stays : (t : ℕ) → t < nslots → slot d addrs t ≢ 0 → slot d' addrs' t ≡ slot d addrs t
  pub keeps : (k : ℕ) → d.used k ≡ true → d'.used k ≡ true
  pub owns :
      (k : ℕ)
      → d.used k ≡ false
      → d'.used k ≡ true
      → (t : ℕ) × (t < nslots) × (slot d' addrs' t ≡ k)

Grows-self : (d : Disk) (addrs : ℕ → ℕ) → IsFile d addrs → Grows d addrs d addrs
Grows-self d addrs f = record {
  before = f;
  file = f;
  size = refl;
  stays = λ t h ne. refl;
  keeps = λ k h. h;
  owns = λ k h h'. absurd (cc);
}

Grows-Extends :
    {d d' : Disk} {addrs addrs' : ℕ → ℕ} (s b : ℕ)
    → s < nslots
    → IsFile d addrs
    → slot d addrs s ≡ 0
    → Extends d addrs s b d' addrs'
    → Grows d addrs d' addrs'
Grows-Extends {d} {d'} {addrs} {addrs'} s b hs f z x = record {
  before = f;
  file = Extends-IsFile s b hs x f;
  size = x.size;
  stays = λ t h ne. x.slots t h ∙ ground (arith, z);
  keeps = λ k h. x.marked k ∙ ground arith;
  owns = λ k h h'. (s, hs, x.slots s hs ∙ ground (arith, x.marked k));
}

Grows-trans :
    {d d1 d2 : Disk} {a a1 a2 : ℕ → ℕ} → Grows d a d1 a1 → Grows d1 a1 d2 a2 → Grows d a d2 a2
Grows-trans {d} {d1} {d2} {a} {a1} {a2} g h = record {
  before = g.before;
  file = h.file;
  size = h.size ∙ g.size;
  stays = λ t ht ne. h.stays t ht (λ z. ne (sym (g.stays t ht ne) ∙ z)) ∙ g.stays t ht ne;
  keeps = λ k u. h.keeps k (g.keeps k u);
  owns = λ k free used_now. elim (Bool-cases (d1.used k)) [
    | inr later ↦ h.owns k later used_now
    | inl before ↦
        let (t, ht, e) = g.owns k free before in
        (t, ht, h.stays t ht (λ z. not_boot k free (sym e ∙ z)) ∙ e)
  ];
}
  where
    not_boot : (k : ℕ) → d.used k ≡ false → k ≢ 0
    not_boot k free e = let busy : d.used k ≡ true = ap d.used e ∙ g.before.boot in cc

-- What an operation on one entry gives: the file has grown; the address is that of the entry, or it
-- is 0 and no block is free.
record Answers (d : Disk) (addrs : ℕ → ℕ) (s : ℕ) (r : Disk × (ℕ → ℕ) × ℕ) : Type 0 where
  pub grows : Grows d addrs r.0 r.1
  pub address : slot r.0 r.1 s ≡ r.2
  pub empty : r.2 ≡ 0 → (b : ℕ) → b < r.0.size → r.0.used b ≡ true

Entry-Answers :
    {d : Disk} {addrs : ℕ → ℕ} (s : ℕ) {r : Disk × (ℕ → ℕ) × ℕ}
    → s < nslots
    → IsFile d addrs
    → Entry d addrs s r
    → Answers d addrs s r
Entry-Answers {d} {addrs} s hs f (kept ne b e) = record {
  grows = Grows-self d addrs f;
  address = sym e;
  empty = λ z. absurd (ne (sym e ∙ z));
}
Entry-Answers s hs f (added b z x) = record {
  grows = Grows-Extends s b hs f z x;
  address = x.slots s hs ∙ ground arith;
  empty = λ e. absurd (x.real e);
}
Entry-Answers {d} {addrs} s hs f (fails z all) = record {
  grows = Grows-self d addrs f;
  address = z;
  empty = λ e. all;
}

-- The entry for block `bn` of a file.
abbrev pub BmapAt : Disk → (ℕ → ℕ) → ℕ → Disk × (ℕ → ℕ) × ℕ → Type 0
BmapAt d addrs bn r =
    Grows d addrs r.0 r.1
    × (slot r.0 r.1 (slot_of bn) ≡ r.2)
    × (r.2 ≡ 0 → (b : ℕ) → b < r.0.size → r.0.used b ≡ true)

-- What `bmap` gives from what the entry of the indirect block gave.
abbrev through : Disk × (ℕ → ℕ) × ℕ → ℕ → Disk × (ℕ → ℕ) × ℕ
through r i =
    if r.2 == 0 then (r.0, r.1, 0) else (let r' = indirect_entry r.0 r.2 i in (r'.0, r.1, r'.1))

second_entry :
    (d : Disk) (addrs : ℕ → ℕ) (i : ℕ) (r : Disk × (ℕ → ℕ) × ℕ)
    → i < nindirect
    → Answers d addrs ndirect r
    → BmapAt d addrs (i + ndirect) (through r i)
second_entry d addrs i (d1, a1, b) hi w = elim (Bool-cases (b == 0)) [
  | inl z ↦ rw z (w.grows, no_indirect (ground arith), λ e. w.empty (ground arith))
  | inr nz ↦
      let same : a1 ndirect ≡ b = sym (slot-direct d1 a1 ndirect (omega arith)) ∙ w.address in
      rw nz (
        subst
          (λ x. BmapAt d addrs (i + ndirect) (let r' = indirect_entry d1 x i in (r'.0, a1, r'.1)))
          same
          (next (ground (arith, same))
            (indirect_entry-Entry d1 a1 i hi (ground (arith, same)) w.grows.file)))
]
  where
    where_to : slot_of (i + ndirect) ≡ i + ndirect + 1
    where_to = ground arith

    no_indirect : b ≡ 0 → slot d1 a1 (slot_of (i + ndirect)) ≡ 0
    no_indirect z =
        ap (slot d1 a1) where_to
        ∙ slot-indirect d1 a1 (i + ndirect + 1) (omega arith)
        ∙ (let none_there : a1 ndirect ≡ 0 =
              sym (slot-direct d1 a1 ndirect (omega arith)) ∙ w.address ∙ z in
            rw none_there refl)

    next :
        a1 ndirect ≢ 0
        → Entry d1 a1 (i + ndirect + 1) (let r = indirect_entry d1 (a1 ndirect) i in (r.0, a1, r.1))
        → BmapAt d addrs
            (i + ndirect)
            (let r' = indirect_entry d1 (a1 ndirect) i in (r'.0, a1, r'.1))
    next has e =
        let v = Entry-Answers (i + ndirect + 1) (omega arith) w.grows.file e in
        (Grows-trans w.grows v.grows, ap (slot _ a1) where_to ∙ v.address, v.empty)

-- `bmap` of a block below the largest size of a file does not panic. The file stays a file: its
-- blocks are in use, different from one another, and where they were; what is newly in use belongs
-- to it. The address is the one in the entry of the block, and 0 only when no block is free. Past
-- the largest size it panics.
pub bmap_lem :
    (d : Disk) (addrs : ℕ → ℕ) (bn : ℕ)
    → IsFile d addrs
    → (bn < ndirect + nindirect
        → (r : Disk × (ℕ → ℕ) × ℕ) × (bmap d addrs bn ≡ some r) × BmapAt d addrs bn r)
      × (ndirect + nindirect ≤ bn → bmap d addrs bn ≡ none)
unfolding bmap
bmap_lem d addrs bn f = (
  λ h. elim (Bool-cases (ltb bn ndirect)) [
    | inl low ↦
        let w =
          Entry-Answers bn (ground arith) f (direct_entry-Entry d addrs bn (ground arith) f) in
        let here : slot_of bn ≡ bn = ground arith in
        (direct_entry d addrs bn, rw low refl, (w.grows, ap (slot _ _) here ∙ w.address, w.empty))
    | inr high ↦
        let near : ltb (bn - ndirect) nindirect ≡ true = ground arith in
        let back : bn - ndirect + ndirect ≡ bn = ground arith in
        (
          through (direct_entry d addrs ndirect) (bn - ndirect),
          rw (high, near) (some_if (direct_entry d addrs ndirect) (bn - ndirect)),
          subst (λ x. BmapAt d addrs x (through (direct_entry d addrs ndirect) (bn - ndirect))) back
              (second_entry d addrs (bn - ndirect) (direct_entry d addrs ndirect) (ground arith) (
                Entry-Answers ndirect (omega arith) f
                  (direct_entry-Entry d addrs ndirect (omega arith) f))),
        )
  ],
  λ h. ground arith,
)
  where
    some_if :
        (r : Disk × (ℕ → ℕ) × ℕ) (i : ℕ)
        → (if r.2 == 0
            then some (r.0, r.1, 0)
            else (let r' = indirect_entry r.0 r.2 i in some (r'.0, r.1, r'.1)))
          ≡ some (through r i)
    some_if r i = elim (Bool-cases (r.2 == 0)) [ inl z ↦ rw z refl | inr nz ↦ rw nz refl ]
