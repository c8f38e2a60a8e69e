-- ===== src/Bio/Shared.antt =====
-- `brelse`, `bpin` and `bunpin` keep the blocks of the cache and their number.
use os_assignment.Prelude.{
  ℕ, suc, ◌≡◌, inl, inr, refl, ap, Option, none, some, List, [], ◌∷◌, ◌==◌, arith, length,
  Bool-cases,
}
use os_assignment.Bio.{
  Buf, one_more, holds, modify, unlink, lookup_id, less_one, brelse, bpin, bunpin,
}
use os_assignment.Bio.Unique.{copies, Unique}

-- A change to a buffer that leaves its block.
module _ (f : Buf → Buf) (keeps : (b : Buf) (d n : ℕ) → holds (f b) d n ≡ holds b d n)
    (id : ℕ) where
  modify-copies : (bs : List Buf) (d n : ℕ) → copies (modify f id bs) d n ≡ copies bs d n
  unfolding modify copies
  modify-copies [] d n = refl
  modify-copies (b ∷ bs) d n = elim (Bool-cases (b.id == id)) [
    | inl here ↦ rw (here, keeps b d n) refl
    | inr there ↦ rw (there, modify-copies bs d n) refl
  ]

  modify-length : (bs : List Buf) → length (modify f id bs) ≡ length bs
  unfolding modify
  modify-length [] = refl
  modify-length (b ∷ bs) = elim (Bool-cases (b.id == id)) [
    | inl here ↦ rw here refl
    | inr there ↦ rw (there, modify-length bs) refl
  ]

-- A buffer taken off the list and put in front.
front-copies :
    (id : ℕ) (bs : List Buf) (b : Buf)
    → lookup_id id bs ≡ some b
    → (r d n : ℕ) → copies (record b { refcnt = r } ∷ unlink id bs) d n ≡ copies bs d n
unfolding lookup_id unlink copies holds
front-copies id [] b e r d n = cc
front-copies id (x ∷ bs) b e r d n = elim (Bool-cases (x.id == id)) [
  | inl here ↦ rw here (ground arith)
  | inr there ↦ rw there (ground (arith, front-copies id bs b (ground arith) r d n))
]

front-length :
    (id : ℕ) (bs : List Buf) (b : Buf)
    → lookup_id id bs ≡ some b
    → suc (length (unlink id bs)) ≡ length bs
unfolding lookup_id unlink
front-length id [] b e = cc
front-length id (x ∷ bs) b e = elim (Bool-cases (x.id == id)) [
  | inl here ↦ rw here refl
  | inr there ↦ rw there (ap suc (front-length id bs b (ground arith)))
]

unpinned_key :
    (x : Buf) (d n : ℕ) → holds (record x { refcnt = less_one x.refcnt }) d n ≡ holds x d n
unfolding holds
unpinned_key x d n = refl

brelse_at :
    (bs : List Buf) (id : ℕ) (o : Option Buf)
    → lookup_id id bs ≡ o
    → ((d n : ℕ) → copies (brelse bs id) d n ≡ copies bs d n) × (length (brelse bs id) ≡ length bs)
unfolding brelse
brelse_at bs id none e = rw (e, brelse) ((λ d n. refl), refl)
brelse_at bs id (some b) e = elim (Bool-cases (less_one b.refcnt == 0)) [
  | inl last ↦
      rw (e, brelse, last)
        ((λ d n. front-copies id bs b e (less_one b.refcnt) d n), front-length id bs b e)
  | inr more ↦
      rw (e, brelse, more)
        (
          (λ d n.
              modify-copies (λ x. record x { refcnt = less_one x.refcnt }) unpinned_key id bs d n),
          modify-length (λ x. record x { refcnt = less_one x.refcnt }) unpinned_key id bs,
        )
]

pinned_key : (x : Buf) (d n : ℕ) → holds (record x { refcnt = one_more x.refcnt }) d n ≡ holds x d n
unfolding holds
pinned_key x d n = refl

-- On a cache that holds no block twice, `brelse`, `bpin` and `bunpin` keep it so, and `brelse` keeps
-- the number of buffers.
pub shared-Unique :
    (bs : List Buf) (id : ℕ)
    → Unique bs
    → Unique (brelse bs id)
      × Unique (bpin bs id)
      × Unique (bunpin bs id)
      × (length (brelse bs id) ≡ length bs)
unfolding Unique bpin bunpin
shared-Unique bs id u = (
  (λ d n nz. rw ((brelse_at bs id _ refl).0 d n) (u d n nz)),
  (λ d n nz.
      rw (modify-copies (λ x. record x { refcnt = one_more x.refcnt }) pinned_key id bs d n)
        (u d n nz)),
  (λ d n nz.
      rw (modify-copies (λ x. record x { refcnt = less_one x.refcnt }) unpinned_key id bs d n)
        (u d n nz)),
  (brelse_at bs id _ refl).1,
)
