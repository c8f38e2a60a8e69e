-- ===== src/Bio/Unique.antt =====
-- No block is cached twice.
use os_assignment.Prelude.{
  ℕ, zero, suc, ◌+◌, ◌≤◌, ◌≡◌, ◌≢◌, ◌∙◌, ◌++◌, ◌⊎◌, inl, inr, true, false, refl, ap, none, some,
  List, [], ◌∷◌, ◌==◌, if◌then◌else◌, arith, Bool-cases, ℕ_discrete,
}
use os_assignment.Bio.{
  Buf, one_more, nbuf, init_from, binit, holds, Found, behind, find_cached, taken, recycle, bget,
}

-- How many buffers hold a block.
unfoldable pub copies : List Buf → ℕ → ℕ → ℕ
copies [] dev blockno = 0
copies (b ∷ bs) dev blockno = (if holds b dev blockno then 1 else 0) + copies bs dev blockno

-- The list `bs` with `x` in the place of `old`, between `pre` and `post`.
pub record Replaces (bs bs' : List Buf) (x : Buf) : Type 0 where
  pub pre : List Buf
  pub post : List Buf
  pub old : Buf
  pub before : bs ≡ pre ++ (old ∷ post)
  pub after : bs' ≡ pre ++ (x ∷ post)

abbrev put_behind :
    (b : Buf) (bs bs' : List Buf) (x : Buf) → Replaces bs bs' x → Replaces (b ∷ bs) (b ∷ bs') x
put_behind b bs bs' x r = record {
  pre = b ∷ r.pre;
  post = r.post;
  old = r.old;
  before = ap (λ l. b ∷ l) r.before;
  after = ap (λ l. b ∷ l) r.after;
}

-- What a found buffer is, and how the list changes: the first buffer that holds the block, with one
-- more reference.
pub record Cached (bs : List Buf) (dev blockno : ℕ) (bs' : List Buf) (x : Buf) : Type 0 where
  pub place : Replaces bs bs' x
  pub first : copies place.pre dev blockno ≡ 0
  pub hit : holds place.old dev blockno ≡ true
  pub counted : x ≡ record (place.old) { refcnt = one_more place.old.refcnt }
  pub same_copies : (d n : ℕ) → copies bs' d n ≡ copies bs d n

nil_copies : (dev blockno : ℕ) → copies [] dev blockno ≡ 0
unfolding copies
nil_copies dev blockno = refl

same_head :
    (b : Buf) (r : ℕ) (bs : List Buf) (d n : ℕ)
    → copies (record b { refcnt = r } ∷ bs) d n ≡ copies (b ∷ bs) d n
unfolding copies holds
same_head b r bs d n = refl

other_key :
    (b : Buf) (bs : List Buf) (dev blockno d n : ℕ)
    → (d ≢ dev) ⊎ (n ≢ blockno)
    → copies (taken b dev blockno ∷ bs) d n ≤ copies (b ∷ bs) d n
unfolding copies holds
other_key b bs dev blockno d n ne = ground arith

-- What the first loop of `bget` ends with.
abbrev pub CachedOr : List Buf → ℕ → ℕ → Found → Type 0
CachedOr bs dev blockno none = copies bs dev blockno ≡ 0
CachedOr bs dev blockno (some (bs', x)) = Cached bs dev blockno bs' x

cached_behind :
    (b : Buf) (bs : List Buf) (dev blockno : ℕ) (r : Found)
    → holds b dev blockno ≡ false
    → CachedOr bs dev blockno r
    → CachedOr (b ∷ bs) dev blockno (behind b r)
unfolding copies behind
cached_behind b bs dev blockno none miss h = ground arith
cached_behind b bs dev blockno (some (bs', x)) miss h = record {
  place = put_behind b bs bs' x h.place;
  first = rw miss (omega (arith, h.first));
  hit = h.hit;
  counted = h.counted;
  same_copies = λ d n. ap (λ k. (if holds b d n then 1 else 0) + k) (h.same_copies d n);
}

find_cached_lem :
    (bs : List Buf) (dev blockno : ℕ) → CachedOr bs dev blockno (find_cached bs dev blockno)
unfolding find_cached
find_cached_lem [] dev blockno = nil_copies dev blockno
find_cached_lem (b ∷ bs) dev blockno = elim (Bool-cases (holds b dev blockno)) [
  | inl hit ↦ rw hit (record {
    place = record { pre = []; post = bs; old = b; before = refl; after = refl };
    first = nil_copies dev blockno;
    hit = hit;
    counted = refl;
    same_copies = λ d n. same_head b (one_more b.refcnt) bs d n;
  })
  | inr miss ↦ rw miss (cached_behind b bs dev blockno _ miss (find_cached_lem bs dev blockno))
]

pub AllReferred : List Buf → Type 0
AllReferred [] = Unit
AllReferred (b ∷ bs) = (b.refcnt ≢ 0) × AllReferred bs

-- What the second loop of `bget` ends with, for a block that no buffer holds: the last buffer that
-- has no reference, taken for the block.
pub record Recycled (bs : List Buf) (dev blockno : ℕ) (bs' : List Buf) (x : Buf) : Type 0 where
  pub place : Replaces bs bs' x
  pub unreferred : place.old.refcnt ≡ 0
  pub last : AllReferred place.post
  pub new : x ≡ taken place.old dev blockno
  pub one_copy : copies bs' dev blockno ≤ copies bs dev blockno + 1
  pub no_more : (d n : ℕ) → (d ≢ dev) ⊎ (n ≢ blockno) → copies bs' d n ≤ copies bs d n

abbrev RecycledOr : List Buf → ℕ → ℕ → Found → Type 0
RecycledOr bs dev blockno none = AllReferred bs
RecycledOr bs dev blockno (some (bs', x)) = Recycled bs dev blockno bs' x

recycle_step :
    (b : Buf) (bs : List Buf) (dev blockno : ℕ) (r : Found)
    → recycle bs dev blockno ≡ r
    → RecycledOr bs dev blockno r
    → RecycledOr (b ∷ bs) dev blockno (recycle (b ∷ bs) dev blockno)
unfolding recycle copies AllReferred
recycle_step b bs dev blockno (some (bs', x)) e h = rw e (record {
  place = put_behind b bs bs' x h.place;
  unreferred = h.unreferred;
  last = h.last;
  new = h.new;
  one_copy = omega (arith, h.one_copy);
  no_more = λ d n ne. omega (arith, h.no_more d n ne);
})
recycle_step b bs dev blockno none e h = elim (Bool-cases (b.refcnt == 0)) [
  | inl free ↦
      rw (e, free)
        (record {
          place = record { pre = []; post = bs; old = b; before = refl; after = refl };
          unreferred = ground arith;
          last = h;
          new = refl;
          one_copy = ground arith;
          no_more = λ d n ne. other_key b bs dev blockno d n ne;
        })
  | inr used ↦ rw (e, used) (ground arith, h)
]

recycle_nil : (dev blockno : ℕ) → RecycledOr [] dev blockno (recycle [] dev blockno)
unfolding recycle AllReferred
recycle_nil dev blockno = tt

recycle_lem : (bs : List Buf) (dev blockno : ℕ) → RecycledOr bs dev blockno (recycle bs dev blockno)
recycle_lem [] dev blockno = recycle_nil dev blockno
recycle_lem (b ∷ bs) dev blockno = recycle_step b bs dev blockno _ refl (recycle_lem bs dev blockno)

-- Every block is held by at most one buffer, but for block 0 of device 0, which every buffer names
-- until it is first used; no file system is on device 0.
unfoldable pub Unique : List Buf → Type 0
Unique bs = (dev blockno : ℕ) → (dev ≢ 0) ⊎ (blockno ≢ 0) → copies bs dev blockno ≤ 1

-- What `bget` returns: a panic when every buffer is in use and none is of the block; the buffer of
-- the block; or, where there is none, the last one without a reference. The list holds what it
-- returns in the place of the buffer that it was.
pub data Gets (bs : List Buf) (dev blockno : ℕ) : Found → Type 0 where
  panics : copies bs dev blockno ≡ 0 → AllReferred bs → Gets bs dev blockno none
  cached :
      (bs' : List Buf) (x : Buf) → Cached bs dev blockno bs' x → Gets bs dev blockno (some (bs', x))
  recycles :
      (bs' : List Buf) (x : Buf)
      → copies bs dev blockno ≡ 0
      → Recycled bs dev blockno bs' x
      → Gets bs dev blockno (some (bs', x))

abbrev pub UniqueIn : Found → Type 0
UniqueIn none = Unit
UniqueIn (some (bs', x)) = Unique bs'

bget_recycled :
    (bs : List Buf) (dev blockno : ℕ) (r : Found)
    → Unique bs
    → copies bs dev blockno ≡ 0
    → RecycledOr bs dev blockno r
    → Gets bs dev blockno r × UniqueIn r
unfolding Unique
bget_recycled bs dev blockno none u z h = (panics z h, tt)
bget_recycled bs dev blockno (some (bs', x)) u z h = (recycles bs' x z h, unique)
  where
    unique : (d n : ℕ) → (d ≢ 0) ⊎ (n ≢ 0) → copies bs' d n ≤ 1
    unique d n nz = elim (ℕ_discrete d dev) [
      | no ne ↦ omega (arith, h.no_more d n (inl ne), u d n nz)
      | yes ed ↦ elim (ℕ_discrete n blockno) [
        | no ne ↦ omega (arith, h.no_more d n (inr ne), u d n nz)
        | yes en ↦ rw (ed, en) (omega (arith, h.one_copy))
      ]
    ]

bget_found :
    (bs : List Buf) (dev blockno : ℕ) (r : Found)
    → find_cached bs dev blockno ≡ r
    → Unique bs
    → CachedOr bs dev blockno r
    → Gets bs dev blockno (bget bs dev blockno) × UniqueIn (bget bs dev blockno)
unfolding bget Unique
bget_found bs dev blockno (some (bs', x)) e u h =
    rw (e, bget) (cached bs' x h, λ d n nz. rw (h.same_copies d n) (u d n nz))
bget_found bs dev blockno none e u z =
    rw (e, bget)
      (bget_recycled bs dev blockno (recycle bs dev blockno) u z (recycle_lem bs dev blockno))

-- `bget` returns the first buffer of the block, with one more reference, or, when no buffer is of
-- the block, the last one without a reference, taken for the block; the cache has what it returns in
-- the place of that buffer and is else as it was. It panics only when no buffer is of the block and
-- every buffer is referenced. If the cache holds no block twice, but for block 0 of device 0, then it
-- holds none twice afterwards.
pub bget-Gets :
    (bs : List Buf) (dev blockno : ℕ)
    → Unique bs
    → Gets bs dev blockno (bget bs dev blockno) × UniqueIn (bget bs dev blockno)
bget-Gets bs dev blockno u = bget_found bs dev blockno _ refl u (find_cached_lem bs dev blockno)

-- `binit` leaves a cache that holds no block twice.
init_from-copies :
    (n i : ℕ) (bs : List Buf) (d k : ℕ)
    → (d ≢ 0) ⊎ (k ≢ 0)
    → copies (init_from n i bs) d k ≡ copies bs d k
unfolding init_from copies holds
init_from-copies zero i bs d k nz = refl
init_from-copies (suc n) i bs d k nz = init_from-copies n (i + 1) _ d k nz ∙ ground arith

pub binit-Unique : Unique binit
unfolding binit Unique copies
binit-Unique d k nz = omega (arith, init_from-copies nbuf 0 [] d k nz)
