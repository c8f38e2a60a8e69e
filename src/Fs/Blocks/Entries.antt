-- ===== src/Fs/Blocks/Entries.antt =====
-- What `bmap` does with one entry of a file: it is kept, gets a new block, or no block is free.
use os_assignment.Prelude.{
  ℕ, ◌+◌, ◌-◌, ◌≤◌, ◌<◌, ◌≡◌, ◌≢◌, refl, sym, ap, ◌∙◌, inl, inr, true, false, ◌&&◌, arith, leb,
  ◌==◌, if◌then◌else◌, update, Bool-cases,
}
use os_assignment.Fs.{
  ndirect, nindirect, Disk, zeroed, balloc, set_word, direct_entry, indirect_entry,
}
use os_assignment.Fs.Blocks.Slots.{slot, nslots, IsFile, Balloc, full, took, balloc-Balloc}

-- Entry `s` of the file gets block `b`, which was free; nothing else changes.
pub record Extends (d : Disk) (addrs : ℕ → ℕ) (s b : ℕ) (d' : Disk) (addrs' : ℕ → ℕ) : Type 0 where
  pub real : b ≢ 0
  pub fresh : d.used b ≡ false
  pub fits : b < d.size
  pub size : d'.size ≡ d.size
  pub marked : (k : ℕ) → d'.used k ≡ (if b == k then true else d.used k)
  pub slots : (t : ℕ) → t < nslots → slot d' addrs' t ≡ (if t == s then b else slot d addrs t)

pub Extends-IsFile :
    {d d' : Disk} {addrs addrs' : ℕ → ℕ} (s b : ℕ)
    → s < nslots
    → Extends d addrs s b d' addrs'
    → IsFile d addrs
    → IsFile d' addrs'
Extends-IsFile {d} {d'} {addrs} {addrs'} s b hs x f = record {
  boot = x.marked 0 ∙ (ground (arith, f.boot));
  in_use = λ t ht ne. ground (arith, x.slots t ht, x.marked (slot d' addrs' t), f.in_use t ht);
  in_range = λ t ht ne. ground (arith, x.slots t ht, x.size, x.fits, f.in_range t ht);
  apart = λ t u ht hu ne e. ground (
    arith,
    x.slots t ht,
    x.slots u hu,
    f.apart t u ht hu,
    f.in_use t ht,
    f.in_use u hu,
    x.fresh,
    x.real,
  );
}

-- What an operation on one entry does.
pub data Entry (d : Disk) (addrs : ℕ → ℕ) (s : ℕ) : Disk × (ℕ → ℕ) × ℕ → Type 0 where
  kept : slot d addrs s ≢ 0 → (b : ℕ) → b ≡ slot d addrs s → Entry d addrs s (d, addrs, b)
  added :
      {d' : Disk} {addrs' : ℕ → ℕ} (b : ℕ)
      → slot d addrs s ≡ 0
      → Extends d addrs s b d' addrs'
      → Entry d addrs s (d', addrs', b)
  fails :
      slot d addrs s ≡ 0 → ((b : ℕ) → b < d.size → d.used b ≡ true) → Entry d addrs s (d, addrs, 0)

pub slot-direct : (d : Disk) (addrs : ℕ → ℕ) (s : ℕ) → s ≤ ndirect → slot d addrs s ≡ addrs s
unfolding slot
slot-direct d addrs s h = ground arith

pub slot-indirect :
    (d : Disk) (addrs : ℕ → ℕ) (s : ℕ)
    → ndirect < s
    → slot d addrs s ≡ (if addrs ndirect == 0 then 0 else d.words (addrs ndirect) (s - ndirect - 1))
unfolding slot
slot-indirect d addrs s h = ground arith

-- The indirect block of a file is not one that is free.
indirect-ne :
    (d : Disk) (addrs : ℕ → ℕ) (b : ℕ)
    → IsFile d addrs
    → d.used b ≡ false
    → addrs ndirect ≢ 0
    → addrs ndirect ≢ b
indirect-ne d addrs b f free ne e =
    let same : slot d addrs ndirect ≡ addrs ndirect = slot-direct d addrs ndirect (omega arith) in
    let busy : d.used (slot d addrs ndirect) ≡ true =
      f.in_use ndirect (omega arith) (λ z. ne (sym same ∙ z)) in
    let busy' : d.used b ≡ true = ap d.used (sym (same ∙ e)) ∙ busy in cc

direct-Extends :
    (d : Disk) (addrs : ℕ → ℕ) (i b : ℕ)
    → i ≤ ndirect
    → addrs i ≡ 0
    → IsFile d addrs
    → b ≢ 0
    → b < d.size
    → d.used b ≡ false
    → Extends d addrs i b
        (record d { used = update d.used b true; words = zeroed d.words b })
        (update addrs i b)
direct-Extends d addrs i b hi z f nz lt free = record {
  real = nz;
  fresh = free;
  fits = lt;
  size = refl;
  marked = λ k. refl;
  slots = λ t ht. elim (Bool-cases (leb t ndirect)) [
    | inl low ↦
        slot-direct _ (update addrs i b) t (ground arith)
        ∙ (let e : slot d addrs t ≡ addrs t = slot-direct d addrs t (ground arith) in ground arith)
    | inr high ↦
        slot-indirect _ (update addrs i b) t (ground arith)
        ∙ far t (ground arith)
        ∙ ap (λ x. if t == i then b else x) (sym (slot-indirect d addrs t (ground arith)))
  ];
}
  where
    far :
        (t : ℕ)
        → ndirect < t
        → (if update addrs i b ndirect == 0
            then 0
            else zeroed d.words b (update addrs i b ndirect) (t - ndirect - 1))
          ≡ (if t == i
              then b
              else (if addrs ndirect == 0 then 0 else d.words (addrs ndirect) (t - ndirect - 1)))
    far t h = ground (arith, indirect-ne d addrs b f free)

pub direct_entry-Entry :
    (d : Disk) (addrs : ℕ → ℕ) (i : ℕ)
    → i ≤ ndirect
    → IsFile d addrs
    → Entry d addrs i (direct_entry d addrs i)
unfolding direct_entry
direct_entry-Entry d addrs i hi f = elim (Bool-cases (addrs i == 0)) [
  | inr some_block ↦
      rw some_block
        (kept (λ z. (let e : addrs i ≡ 0 = sym same ∙ z in ground arith)) (addrs i) (sym same))
  | inl zero_entry ↦ rw zero_entry (go (balloc d) (balloc-Balloc d f.boot) (ground arith))
]
  where
    same : slot d addrs i ≡ addrs i
    same = slot-direct d addrs i hi

    go :
        (r : Disk × ℕ)
        → Balloc d r
        → addrs i ≡ 0
        → Entry d addrs i (if r.1 == 0 then (r.0, addrs, 0) else (r.0, update addrs i r.1, r.1))
    go _ (full all) z = fails (same ∙ z) all
    go _ (took b nz lt free below) z =
        let real : (b == 0) ≡ false = ground arith in
        rw real (added b (same ∙ z) (direct-Extends d addrs i b hi z f nz lt free))

indirect-Extends :
    (d : Disk) (addrs : ℕ → ℕ) (i b : ℕ)
    → i < nindirect
    → addrs ndirect ≢ 0
    → d.words (addrs ndirect) i ≡ 0
    → IsFile d addrs
    → b ≢ 0
    → b < d.size
    → d.used b ≡ false
    → Extends d addrs
        (i + ndirect + 1)
        b
        (set_word
          (record d { used = update d.used b true; words = zeroed d.words b })
          (addrs ndirect)
          i
          b)
        addrs
indirect-Extends d addrs i b hi has z f nz lt free = record {
  real = nz;
  fresh = free;
  fits = lt;
  size = refl;
  marked = λ k. refl;
  slots = λ t ht. elim (Bool-cases (leb t ndirect)) [
    | inl low ↦
        slot-direct _ addrs t (ground arith)
        ∙ (let e : slot d addrs t ≡ addrs t = slot-direct d addrs t (ground arith) in ground arith)
    | inr high ↦
        slot-indirect _ addrs t (ground arith)
        ∙ far t (ground arith)
        ∙ ap (λ x. if t == i + ndirect + 1 then b else x)
            (sym (slot-indirect d addrs t (ground arith)))
  ];
}
  where
    far :
        (t : ℕ)
        → ndirect < t
        → (if addrs ndirect == 0
            then 0
            else (if addrs ndirect == addrs ndirect && t - ndirect - 1 == i
                then b
                else zeroed d.words b (addrs ndirect) (t - ndirect - 1)))
          ≡ (if t == i + ndirect + 1
              then b
              else (if addrs ndirect == 0 then 0 else d.words (addrs ndirect) (t - ndirect - 1)))
    far t h = ground (arith, indirect-ne d addrs b f free has)

pub indirect_entry-Entry :
    (d : Disk) (addrs : ℕ → ℕ) (i : ℕ)
    → i < nindirect
    → addrs ndirect ≢ 0
    → IsFile d addrs
    → Entry d addrs
        (i + ndirect + 1)
        (let r = indirect_entry d (addrs ndirect) i in (r.0, addrs, r.1))
unfolding indirect_entry
indirect_entry-Entry d addrs i hi has f = elim (Bool-cases (d.words (addrs ndirect) i == 0)) [
  | inr some_block ↦ rw some_block (
      kept (λ z. (let e : d.words (addrs ndirect) i ≡ 0 = sym same ∙ z in ground arith))
        (d.words (addrs ndirect) i) (sym same))
  | inl zero_entry ↦ rw zero_entry (go (balloc d) (balloc-Balloc d f.boot) (ground arith))
]
  where
    same : slot d addrs (i + ndirect + 1) ≡ d.words (addrs ndirect) i
    same =
        slot-indirect d addrs (i + ndirect + 1) (omega arith)
        ∙ (let e : i + ndirect + 1 - ndirect - 1 ≡ i = omega arith in ground (arith, e))

    go :
        (r : Disk × ℕ)
        → Balloc d r
        → d.words (addrs ndirect) i ≡ 0
        → Entry d addrs (i + ndirect + 1) (
            let x : Disk × ℕ =
              (if r.1 == 0 then (r.0, 0) else (set_word r.0 (addrs ndirect) i r.1, r.1)) in
            (x.0, addrs, x.1))
    go _ (full all) z = fails (same ∙ z) all
    go _ (took b nz lt free below) z =
        let real : (b == 0) ≡ false = ground arith in
        rw real (added b (same ∙ z) (indirect-Extends d addrs i b hi has z f nz lt free))
