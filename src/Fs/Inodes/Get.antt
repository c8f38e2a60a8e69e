-- ===== src/Fs/Inodes/Get.antt =====
-- `iget` of kernel/fs.c: an inode has one entry at most.
use mathlib.Core.Path.{subst}
use os_assignment.Prelude.{
  ℕ, zero, suc, ◌+◌, ◌≤◌, ◌<◌, ◌≡◌, ◌≢◌, refl, sym, ap, ◌∙◌, ◌⊎◌, inl, inr, true, false, Option,
  none, some, arith, ◌==◌, update, update_self, update-eq, update-ne, Bool-cases, ℕ_discrete,
}
use os_assignment.Fs.Inodes.{
  ninode, Inode, Itable, Scanned, hit, miss, is_entry, first_empty, scan, recycled, iget,
}

-- No two entries in use are of one inode.
unfoldable pub IsUnique : Itable → Type 0
IsUnique t =
    (i j : ℕ)
    → i < ninode
    → j < ninode
    → 0 < (t i).ref
    → 0 < (t j).ref
    → (t i).dev ≡ (t j).dev
    → (t i).inum ≡ (t j).inum
    → i ≡ j

module _ (t : Itable) (dev inum : ℕ) where
  NoneBefore : ℕ → ℕ → Type 0
  NoneBefore i e = (k : ℕ) → i ≤ k → k < e → is_entry (t k) dev inum ≡ false

  -- Where the empty entry comes from.
  data Empty (i n : ℕ) (empty : Option ℕ) : Option ℕ → Type 0 where
    no_entry : ((k : ℕ) → i ≤ k → k < i + n → (t k).ref ≢ 0) → empty ≡ none → Empty i n empty none
    given : (e : ℕ) → empty ≡ some e → Empty i n empty (some e)
    first : (e : ℕ) → i ≤ e → e < i + n → (t e).ref ≡ 0 → Empty i n empty (some e)

  Scans : ℕ → ℕ → Option ℕ → Scanned → Type 0
  Scans n i empty (hit k) = (i ≤ k) × (k < i + n) × (is_entry (t k) dev inum ≡ true)
  Scans n i empty (miss e) = NoneBefore i (i + n) × Empty i n empty e

  Empty-step :
      (n i : ℕ) (empty e : Option ℕ)
      → Empty (i + 1) n (first_empty empty i (t i)) e
      → Empty i (suc n) empty e
  Empty-step n i (some x) _ (no_entry all z) = absurd (cc)
  Empty-step n i none _ (no_entry all z) = elim (Bool-cases ((t i).ref == 0)) [
    | inl used ↦ (let c : some i ≡ none = sym (rw used refl) ∙ z in absurd (cc))
    | inr busy ↦
        no_entry
          (λ k lo hi. elim (ℕ_discrete k i) [
            | yes same ↦
                (let c : (t k).ref ≡ (t i).ref = ap (λ x. (t x).ref) same in ground (arith))
            | no differ ↦ all k (omega arith) (omega arith)
          ])
          refl
  ]
  Empty-step n i (some x) _ (given e z) = given e z
  Empty-step n i none _ (given e z) = elim (Bool-cases ((t i).ref == 0)) [
    | inl free ↦
        let c : some i ≡ some e = sym (rw free refl) ∙ z in
        let same : i ≡ e = cc in
        first e (omega arith) (omega arith) (ap (λ x. (t x).ref) (sym same) ∙ ground arith)
    | inr busy ↦ (let c : none ≡ some e = sym (rw busy refl) ∙ z in absurd (cc))
  ]
  Empty-step n i empty _ (first e lo hi free) = first e (omega arith) (omega arith) free

  scan-Scans : (n i : ℕ) (empty : Option ℕ) → Scans n i empty (scan n i t dev inum empty)
  unfolding scan Scans NoneBefore
  scan-Scans zero i none =
      ((λ k lo hi. absurd (omega arith)), no_entry (λ k lo hi. absurd (omega arith)) refl)
  scan-Scans zero i (some e) = ((λ k lo hi. absurd (omega arith)), given e refl)
  scan-Scans (suc n) i empty = elim (Bool-cases (is_entry (t i) dev inum)) [
    | inl is ↦ rw (is, scan) (omega arith, omega arith, is)
    | inr not_it ↦
        rw (not_it, scan)
          (go not_it (scan n (i + 1) t dev inum (first_empty empty i (t i)))
            (scan-Scans n (i + 1) (first_empty empty i (t i))))
  ]
    where
      go :
          is_entry (t i) dev inum ≡ false
          → (r : Scanned) → Scans n (i + 1) (first_empty empty i (t i)) r
          → Scans (suc n) i empty r
      go not_it (hit k) (lo, hi, is) = (omega arith, omega arith, is)
      go not_it (miss e) (before, empties) = (
        (λ k lo hi. elim (ℕ_discrete k i) [
          | yes same ↦ ap (λ x. is_entry (t x) dev inum) same ∙ not_it
          | no differ ↦ before k (omega arith) (omega arith)
        ]),
        Empty-step n i empty e empties,
      )

-- An entry that `iget` returns: one more reference to an entry of the inode, or an entry that was
-- empty when there was none of the inode, not read from the disk yet.
pub record Got (t : Itable) (dev inum : ℕ) (t' : Itable) (i : ℕ) : Type 0 where
  pub in_table : i < ninode
  pub is : is_entry (t' i) dev inum ≡ true
  pub unique : IsUnique t'
  pub others : (k : ℕ) → k ≢ i → t' k ≡ t k
  pub origin :
      ((is_entry (t i) dev inum ≡ true) × (t' i ≡ record (t i) { ref = (t i).ref + 1 }))
      ⊎ (((t i).ref ≡ 0)
          × ((k : ℕ) → k < ninode → is_entry (t k) dev inum ≡ false)
          × ((t' i).ref ≡ 1)
          × ((t' i).valid ≡ false))

pub Gets : Itable → ℕ → ℕ → Option (Itable × ℕ) → Type 0
Gets t dev inum none = (k : ℕ) → k < ninode → ((t k).ref ≢ 0) × (is_entry (t k) dev inum ≡ false)
Gets t dev inum (some (t', i)) = Got t dev inum t' i

is_entry-parts :
    (ip : Inode) (dev inum : ℕ)
    → is_entry ip dev inum ≡ true
    → (0 < ip.ref) × (ip.dev ≡ dev) × (ip.inum ≡ inum)
is_entry-parts ip dev inum h = (ground arith, ground arith, ground arith)

is_entry-true :
    (ip : Inode) (dev inum : ℕ)
    → 0 < ip.ref
    → ip.dev ≡ dev
    → ip.inum ≡ inum
    → is_entry ip dev inum ≡ true
is_entry-true ip dev inum h e e' = ground arith

update-IsUnique :
    (t : Itable) (dev inum i : ℕ) (ip : Inode)
    → IsUnique t
    → is_entry ip dev inum ≡ true
    → ((k : ℕ) → k < ninode → k ≢ i → is_entry (t k) dev inum ≡ false)
    → IsUnique (update t i ip)
unfolding IsUnique
update-IsUnique t dev inum i ip u is only j k hj hk rj rk ed en = elim (ℕ_discrete i j) [
  | yes ji ↦ elim (ℕ_discrete i k) [
    | yes ki ↦ sym ji ∙ ki
    | no kn ↦
        let at : update t i ip j ≡ ip = update-eq t i j ip ji in
        absurd (
          clash k hk kn rk (sym ed ∙ ap (λ x. x.dev) at ∙ (is_entry-parts ip dev inum is).1)
            (sym en ∙ ap (λ x. x.inum) at ∙ (is_entry-parts ip dev inum is).2))
  ]
  | no jn ↦ elim (ℕ_discrete i k) [
    | yes ki ↦
        let at : update t i ip k ≡ ip = update-eq t i k ip ki in
        absurd (
          clash j hj jn rj (ed ∙ ap (λ x. x.dev) at ∙ (is_entry-parts ip dev inum is).1)
            (en ∙ ap (λ x. x.inum) at ∙ (is_entry-parts ip dev inum is).2))
    | no kn ↦
        let at_j : update t i ip j ≡ t j = update-ne t i j ip jn in
        let at_k : update t i ip k ≡ t k = update-ne t i k ip kn in
        u j k hj hk (subst (λ x. 0 < x.ref) at_j rj) (subst (λ x. 0 < x.ref) at_k rk)
          (ap (λ x. x.dev) (sym at_j) ∙ ed ∙ ap (λ x. x.dev) at_k)
          (ap (λ x. x.inum) (sym at_j) ∙ en ∙ ap (λ x. x.inum) at_k)
  ]
]
  where
    clash :
        (k : ℕ)
        → k < ninode
        → i ≢ k
        → 0 < (update t i ip k).ref
        → (update t i ip k).dev ≡ dev
        → (update t i ip k).inum ≡ inum
        → ⊥
    clash k hk ne r e e' =
        let at : update t i ip k ≡ t k = update-ne t i k ip ne in
        let is_k : is_entry (t k) dev inum ≡ true =
          is_entry-true (t k) dev inum (subst (λ x. 0 < x.ref) at r) (ap (λ x. x.dev) (sym at) ∙ e)
            (ap (λ x. x.inum) (sym at) ∙ e') in
        let both : true ≡ false = sym is_k ∙ only k hk (λ z. ne (sym z)) in absurd (cc)

hit-Got :
    (t : Itable) (dev inum i : ℕ)
    → i < ninode
    → IsUnique t
    → is_entry (t i) dev inum ≡ true
    → Got t dev inum (update t i (record (t i) { ref = (t i).ref + 1 })) i
unfolding IsUnique
hit-Got t dev inum i hi u is =
    let (r, ed, en) = is_entry-parts (t i) dev inum is in
    let now : is_entry (record (t i) { ref = (t i).ref + 1 }) dev inum ≡ true =
      is_entry-true (record (t i) { ref = (t i).ref + 1 }) dev inum (omega arith) ed en in
    record {
      in_table = hi;
      is = ap (λ x. is_entry x dev inum) (update_self t i _) ∙ now;
      unique = update-IsUnique t dev inum i _ u now (λ k hk ne. not_other k hk ne r ed en);
      others = λ k ne. update-ne t i k _ (λ z. ne (sym z));
      origin = inl (is, update_self t i _);
    }
  where
    not_other :
        (k : ℕ)
        → k < ninode
        → k ≢ i
        → 0 < (t i).ref
        → (t i).dev ≡ dev
        → (t i).inum ≡ inum
        → is_entry (t k) dev inum ≡ false
    not_other k hk ne r ed en = elim (Bool-cases (is_entry (t k) dev inum)) [
      | inl is_k ↦
          let (rk, edk, enk) = is_entry-parts (t k) dev inum is_k in
          absurd (ne (u k i hk hi rk r (edk ∙ sym ed) (enk ∙ sym en)))
      | inr other ↦ other
    ]

miss-Got :
    (t : Itable) (dev inum i : ℕ)
    → i < ninode
    → IsUnique t
    → (t i).ref ≡ 0
    → ((k : ℕ) → k < ninode → is_entry (t k) dev inum ≡ false)
    → Got t dev inum (update t i (recycled (t i) dev inum)) i
miss-Got t dev inum i hi u z only =
    let now : is_entry (recycled (t i) dev inum) dev inum ≡ true =
      is_entry-true (recycled (t i) dev inum) dev inum (omega arith) refl refl in
    record {
      in_table = hi;
      is = ap (λ x. is_entry x dev inum) (update_self t i _) ∙ now;
      unique = update-IsUnique t dev inum i _ u now (λ k hk ne. only k hk);
      others = λ k ne. update-ne t i k _ (λ e. ne (sym e));
      origin =
          inr (z, only, ap (λ x. x.ref) (update_self t i _), ap (λ x. x.valid) (update_self t i _));
    }

-- `iget` in a table where an inode has one entry at most. It panics only when all entries are in use
-- and none is of the inode. Otherwise it returns an entry of the inode, the only one, changes no
-- other entry, and either counts one more reference to the entry that there was, or starts the
-- count in an empty entry, which is not valid yet.
pub iget-Gets : (t : Itable) (dev inum : ℕ) → IsUnique t → Gets t dev inum (iget t dev inum)
unfolding iget Scans NoneBefore Gets
iget-Gets t dev inum u = go (scan ninode 0 t dev inum none) (scan-Scans t dev inum ninode 0 none)
  where
    go :
        (r : Scanned)
        → Scans t dev inum ninode 0 none r
        → Gets t dev inum (elim r as (λ x. Option (Itable × ℕ)) [
          | hit i ↦ some (update t i (record (t i) { ref = (t i).ref + 1 }), i)
          | miss empty ↦ elim empty [
            | none ↦ none
            | some i ↦ some (update t i (recycled (t i) dev inum), i)
          ]
        ])
    go (hit i) (lo, hi, is) = hit-Got t dev inum i (omega arith) u is
    go (miss _) (before, no_entry all z) =
        λ k hk. (all k (omega arith) (omega arith), before k (omega arith) (omega arith))
    go (miss _) (before, given e z) = absurd (cc)
    go (miss _) (before, first e lo hi free) =
        miss-Got t dev inum e (omega arith) u free (λ k hk. before k (omega arith) (omega arith))
