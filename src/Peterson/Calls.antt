-- ===== src/Peterson/Calls.antt =====
-- The system calls of kernel/peterson.c on every branch.
use os_assignment.Prelude.{
  ℕ, zero, suc, ◌+◌, ◌≤◌, ◌<◌, ◌≡◌, refl, ◌⊎◌, inl, inr, true, false, some, arith, Bool-cases,
  update,
}
use os_assignment.Prelude.Int.{ℤ, pos, minus_one}
use os_assignment.Peterson.{
  npetersonlocks, Table, unused, allocated, init_from, peterson_init, alloc_from, peterson_alloc,
  peterson_free, sys_peterson_create, failed, loop_test, begin_acquire, retry_acquire,
  sys_peterson_release, sys_peterson_destroy,
}

init_from-inactive :
    (n i : ℕ) (t : Table) (k : ℕ)
    → ((j : ℕ) → j < i → (t j).active ≡ false)
    → k < i + n
    → (init_from n i t k).active ≡ false
unfolding init_from
init_from-inactive zero i t k h lt = h k (omega arith)
init_from-inactive (suc n) i t k h lt =
    init_from-inactive n (i + 1) (update t i unused) k (λ j p. ground (arith, h j)) (omega arith)

-- After `peterson_init` every slot is inactive, whatever the memory held.
pub peterson_init-inactive :
    (t : Table) (k : ℕ) → k < npetersonlocks → (peterson_init t k).active ≡ false
unfolding peterson_init
peterson_init-inactive t k h =
    init_from-inactive npetersonlocks 0 t k (λ j p. absurd (omega arith)) (omega arith)

-- What the allocation loop started at `i` with `n` rounds left finds.
abbrev pub Allocates : Table → ℕ → ℕ → Table × ℤ → Type 0
Allocates t i n r =
    ((j : ℕ) × (i ≤ j)
      × (j < i + n)
      × ((t j).active ≡ false)
      × ((k : ℕ) → i ≤ k → k < j → (t k).active ≡ true)
      × (r ≡ (update t j allocated, pos j)))
    ⊎ (((k : ℕ) → i ≤ k → k < i + n → (t k).active ≡ true) × (r ≡ (t, minus_one)))

alloc_from-Allocates : (n i : ℕ) (t : Table) → Allocates t i n (alloc_from n i t)
unfolding alloc_from
alloc_from-Allocates zero i t = inr ((λ k p q. absurd (omega arith)), refl)
alloc_from-Allocates (suc n) i t = go (Bool-cases (t i).active) (alloc_from-Allocates n (i + 1) t)
  where
    go :
        ((t i).active ≡ true) ⊎ ((t i).active ≡ false)
        → Allocates t (i + 1) n (alloc_from n (i + 1) t)
        → Allocates t i (suc n) (alloc_from (suc n) i t)
    go (inr free) _ =
        inl (i, omega arith, omega arith, free, (λ k p q. absurd (omega arith)), ground arith)
    go (inl busy) (inl (j, lo, hi, free, below, e)) =
        inl (j, omega arith, omega arith, free, (λ k p q. grind (arith, below, busy)), ground arith)
    go (inl busy) (inr (full, e)) = inr ((λ k p q. grind (arith, full, busy)), ground arith)

-- `peterson_create` takes the first inactive slot, and fails just when all slots are active.
pub sys_peterson_create-Allocates :
    (t : Table) → Allocates t 0 npetersonlocks (sys_peterson_create t)
unfolding sys_peterson_create peterson_alloc
sys_peterson_create-Allocates t = alloc_from-Allocates npetersonlocks 0 t

-- `peterson_destroy` of an id in range never panics. At an active slot it makes the slot unused and returns 0; at an
-- inactive one it changes nothing and returns -1.
pub sys_peterson_destroy_lem :
    (t : Table) (id : ℕ)
    → id < npetersonlocks
    → ((t id).active ≡ true → sys_peterson_destroy t (pos id) ≡ some (update t id unused, pos 0))
      × ((t id).active ≡ false → sys_peterson_destroy t (pos id) ≡ some (t, minus_one))
unfolding sys_peterson_destroy peterson_free
sys_peterson_destroy_lem t id h = (λ e. ground arith, λ e. ground arith)

destroyed-inactive :
    (t t' : Table) (id : ℕ)
    → id < npetersonlocks
    → sys_peterson_destroy t (pos id) ≡ some (t', pos 0)
    → (t' id).active ≡ false
unfolding sys_peterson_destroy peterson_free
destroyed-inactive t t' id h e = elim (Bool-cases (t id).active) [
  | inl yes_active ↦ let e' : update t id unused ≡ t' = ground arith in rw (← e') (ground arith)
  | inr inactive ↦ ground arith
]

-- After a `peterson_destroy` that returns 0, a process that waits on the lock gets -1 from its next
-- round, and so does every acquire and release of that lock in this state, which change nothing.
pub destroyed_fails :
    (t t' : Table) (id role : ℕ)
    → id < npetersonlocks
    → role < 2
    → sys_peterson_destroy t (pos id) ≡ some (t', pos 0)
    → (retry_acquire t' (pos id) (pos role) ≡ failed)
      × (begin_acquire t' (pos id) (pos role) ≡ (t', failed))
      × (sys_peterson_release t' (pos id) (pos role) ≡ (t', minus_one))
unfolding retry_acquire begin_acquire sys_peterson_release loop_test
destroyed_fails t t' id role h r e =
    let f = destroyed-inactive t t' id h e in (ground arith, ground arith, ground arith)
