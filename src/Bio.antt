-- ===== src/Bio.antt =====
-- kernel/bio.c: the buffer cache.
-- The linked list of buffers is a list, most recently used first; `id` is the place of a buffer in
-- the array `bcache.buf`. Each function is the section under `bcache.lock`; the sleep lock of a
-- buffer, which its user takes after `bget`, is kernel/sleeplock.c's. `none` is a panic.
pub mod Unique
pub mod Shared
mod Tests
use os_assignment.Prelude.{
  ◌%◌, ◌^◌, ℕ, zero, suc, ◌+◌, ◌-◌, Bool, true, false, not, ◌&&◌, Option, none, some, List, [], ◌∷◌,
  ◌++◌, ◌==◌, if◌then◌else◌,
}

abbrev pub nbuf : ℕ
nbuf = 30

-- `struct buf`; the contents of a block are a number here, since they are only moved.
pub record Buf : Type 0 where
  pub id : ℕ
  pub valid : Bool
  pub dev : ℕ
  pub blockno : ℕ
  pub refcnt : ℕ
  pub contents : ℕ

-- `binit`: each buffer goes to the front; the array is zero before.
pub init_from : ℕ → ℕ → List Buf → List Buf
init_from zero i bs = bs
init_from (suc n) i bs =
    init_from n (i + 1)
      (record { id = i; valid = false; dev = 0; blockno = 0; refcnt = 0; contents = 0 } ∷ bs)

pub binit : List Buf
binit = init_from nbuf 0 []

-- `refcnt++`, on a `uint`
abbrev pub one_more : ℕ → ℕ
one_more n = (n + 1) % 2 ^ 32

unfoldable pub holds : Buf → ℕ → ℕ → Bool
holds b dev blockno = b.dev == dev && b.blockno == blockno

-- A list with one buffer changed, and that buffer.
abbrev pub Found : Type 0
Found = Option (List Buf × Buf)

unfoldable pub behind : Buf → Found → Found
behind b none = none
behind b (some (bs, x)) = some (b ∷ bs, x)

-- The first loop of `bget`: the first buffer that holds the block, with one more reference.
unfoldable pub find_cached : List Buf → ℕ → ℕ → Found
unfolding behind holds
find_cached [] dev blockno = none
find_cached (b ∷ bs) dev blockno =
    let rest = find_cached bs dev blockno in
    let b' = record b { refcnt = one_more b.refcnt } in
    if holds b dev blockno then some (b' ∷ bs, b') else behind b rest

-- A buffer taken for another block.
abbrev pub taken : Buf → ℕ → ℕ → Buf
taken b dev blockno = record b { dev = dev; blockno = blockno; valid = false; refcnt = 1 }

-- The second loop of `bget`: the last buffer in the list with no reference.
unfoldable pub recycle : List Buf → ℕ → ℕ → Found
recycle [] dev blockno = none
recycle (b ∷ bs) dev blockno = elim (recycle bs dev blockno) [
  | some (bs', x) ↦ some (b ∷ bs', x)
  | none ↦ if b.refcnt == 0 then some (taken b dev blockno ∷ bs, taken b dev blockno) else none
]

unfoldable pub bget : List Buf → ℕ → ℕ → Found
unfolding find_cached recycle
bget bs dev blockno = elim (find_cached bs dev blockno) [
  | some r ↦ some r
  | none ↦ recycle bs dev blockno
]

-- A change to the buffer `id`.
unfoldable pub modify : (Buf → Buf) → ℕ → List Buf → List Buf
modify f id [] = []
modify f id (b ∷ bs) = if b.id == id then f b ∷ bs else b ∷ modify f id bs

-- The rest of `bread`: `disk` is what `virtio_disk_rw` reads.
unfoldable pub fill : (ℕ → ℕ → ℕ) → Buf → Buf
fill disk b = if not b.valid then record b { contents = disk b.dev b.blockno; valid = true } else b

unfoldable pub bread : (ℕ → ℕ → ℕ) → List Buf → ℕ → ℕ → Found
unfolding modify fill
bread disk bs dev blockno = elim (bget bs dev blockno) [
  | none ↦ none
  | some (bs', x) ↦ some (modify (fill disk) x.id bs', fill disk x)
]

-- The list without the buffer `id`.
unfoldable pub unlink : ℕ → List Buf → List Buf
unlink id [] = []
unlink id (b ∷ bs) = if b.id == id then bs else b ∷ unlink id bs

unfoldable pub lookup_id : ℕ → List Buf → Option Buf
lookup_id id [] = none
lookup_id id (b ∷ bs) = if b.id == id then some b else lookup_id id bs

-- `refcnt--`, on a `uint`
abbrev pub less_one : ℕ → ℕ
less_one n = if n == 0 then 2 ^ 32 - 1 else n - 1

-- The section of `brelse`: one reference less, and to the front when it was the last.
unfoldable pub brelse : List Buf → ℕ → List Buf
unfolding lookup_id unlink modify
brelse bs id = elim (lookup_id id bs) [
  | none ↦ bs
  | some b ↦
      let b' = record b { refcnt = less_one b.refcnt } in
      if less_one b.refcnt == 0
      then b' ∷ unlink id bs
      else modify (λ x. record x { refcnt = less_one x.refcnt }) id bs
]

unfoldable pub bpin : List Buf → ℕ → List Buf
unfolding modify
bpin bs id = modify (λ x. record x { refcnt = one_more x.refcnt }) id bs

unfoldable pub bunpin : List Buf → ℕ → List Buf
unfolding modify
bunpin bs id = modify (λ x. record x { refcnt = less_one x.refcnt }) id bs
