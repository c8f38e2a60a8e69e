-- ===== src/Fs/Truncate/Loop.antt =====
-- The loop of `itrunc`, and the three parts of the entries of a file.
use os_assignment.Prelude.{
  ℕ, zero, suc, ◌+◌, ◌≤◌, ◌<◌, ◌≡◌, ◌≢◌, refl, sym, ap, ◌∙◌, inl, inr, Bool, true, false, ◌&&◌,
  ◌||◌, some, arith, leb, ltb, ◌==◌, update, Bool-cases, ℕ_discrete,
}
use os_assignment.Fs.{Disk, bfree, free_entries}
use os_assignment.Fs.Blocks.Slots.{nslots}

-- The blocks among the entries `f i` to `f (i + n - 1)` have become free, and no others.
pub record Frees (n i : ℕ) (f : ℕ → ℕ) (d d' : Disk) : Type 0 where
  pub size : d'.size ≡ d.size
  pub words : (b k : ℕ) → d'.words b k ≡ d.words b k
  pub gone : (j : ℕ) → i ≤ j → j < i + n → f j ≢ 0 → d'.used (f j) ≡ false
  pub rest : (b : ℕ) → ((j : ℕ) → i ≤ j → j < i + n → f j ≢ 0 → f j ≢ b) → d'.used b ≡ d.used b

-- The entries that `free_entries` can free: in use, and different from one another.
pub record IsFreeable (n i : ℕ) (f : ℕ → ℕ) (d : Disk) : Type 0 where
  pub in_use : (j : ℕ) → i ≤ j → j < i + n → f j ≢ 0 → d.used (f j) ≡ true
  pub apart : (j k : ℕ) → i ≤ j → j < i + n → i ≤ k → k < i + n → f j ≢ 0 → f j ≡ f k → j ≡ k

skip_entry :
    (n i : ℕ) (f : ℕ → ℕ) (d : Disk)
    → (f i == 0) ≡ true
    → free_entries (suc n) i f d ≡ free_entries n (i + 1) f d
unfolding free_entries
skip_entry n i f d z = rw (z, free_entries) refl

free_entry :
    (n i : ℕ) (f : ℕ → ℕ) (d : Disk)
    → (f i == 0) ≡ false
    → d.used (f i) ≡ true
    → free_entries (suc n) i f d
      ≡ free_entries n (i + 1) f (record d { used = update d.used (f i) false })
unfolding free_entries bfree
free_entry n i f d nz busy = rw (nz, busy, free_entries) refl

pub free_entries-Frees :
    (n i : ℕ) (f : ℕ → ℕ) (d : Disk)
    → IsFreeable n i f d
    → (d' : Disk) × (free_entries n i f d ≡ some d') × Frees n i f d d'
unfolding free_entries
free_entries-Frees zero i f d h = (
  d,
  refl,
  record {
    size = refl;
    words = λ b k. refl;
    gone = λ j lo hi. absurd (omega arith);
    rest = λ b all. refl;
  },
)
free_entries-Frees (suc n) i f d h = elim (Bool-cases (f i == 0)) [
  | inl z ↦
      let (d', e, r) = free_entries-Frees n (i + 1) f d (record {
        in_use = λ j lo hi. h.in_use j (omega arith) (omega arith);
        apart = λ j k lo hi lo' hi'.
            h.apart j k (omega arith) (omega arith) (omega arith) (omega arith);
      }) in
      (
        d',
        skip_entry n i f d z ∙ e,
        record {
          size = r.size;
          words = r.words;
          gone = λ j lo hi ne. r.gone j (ground arith) (omega arith) ne;
          rest = λ b all. r.rest b (λ j lo hi. all j (omega arith) (omega arith));
        },
      )
  | inr nz ↦
      let real : f i ≢ 0 = ground arith in
      let busy : d.used (f i) ≡ true = h.in_use i (omega arith) (omega arith) real in
      let other : (j : ℕ) → i < j → j < i + suc n → f i ≢ f j = λ j lo hi e.
        (let same : i ≡ j = h.apart i j (omega arith) (omega arith) (omega arith) hi real e in
          omega arith) in
      let (d', e, r) =
        free_entries-Frees n (i + 1) f (record d { used = update d.used (f i) false })
          (record {
            in_use = λ j lo hi ne. ground (
              arith,
              other j (omega arith) (omega arith),
              h.in_use j (omega arith) (omega arith) ne,
            );
            apart = λ j k lo hi lo' hi'.
                h.apart j k (omega arith) (omega arith) (omega arith) (omega arith);
          }) in
      (
        d',
        free_entry n i f d nz busy ∙ e,
        record {
          size = r.size;
          words = r.words;
          gone = λ j lo hi ne. elim (ℕ_discrete i j) [
            | yes same ↦
                ap (λ x. d'.used (f x)) (sym same)
                ∙ r.rest (f i) (λ k lo' hi' ne' e'. other k (omega arith) (omega arith) (sym e'))
                ∙ ground arith
            | no differ ↦ r.gone j (omega arith) (omega arith) ne
          ];
          rest = λ b all.
              r.rest b (λ j lo hi. all j (omega arith) (omega arith))
              ∙ (let differ : f i ≢ b = all i (omega arith) (omega arith) real in ground arith);
        },
      )
]

-- The block of entry `s` is free where `among s`, and no other has changed.
pub record Clears (at : ℕ → ℕ) (among : ℕ → Bool) (d d' : Disk) : Type 0 where
  pub size : d'.size ≡ d.size
  pub words : (b k : ℕ) → d'.words b k ≡ d.words b k
  pub gone : (s : ℕ) → s < nslots → among s ≡ true → at s ≢ 0 → d'.used (at s) ≡ false
  pub rest :
      (b : ℕ) → ((s : ℕ) → s < nslots → among s ≡ true → at s ≢ 0 → at s ≢ b) → d'.used b ≡ d.used b

abbrev pub range : ℕ → ℕ → ℕ → Bool
range k n s = leb k s && ltb s (k + n)

-- The direct entries, the entries of the indirect block, and the indirect block.
pub split_entries : (s : ℕ) → s < nslots → (range 0 12 s || (range 13 256 s || range 12 1 s)) ≡ true
split_entries s h = ground arith

pub split_apart : (s : ℕ) → range 0 12 s ≡ true → (range 13 256 s || range 12 1 s) ≡ false
split_apart s h = ground arith

pub split_apart2 : (s : ℕ) → range 13 256 s ≡ true → range 12 1 s ≡ false
split_apart2 s h = ground arith
