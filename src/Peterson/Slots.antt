-- ===== src/Peterson/Slots.antt =====
-- One slot of the table of kernel/peterson.c: its flags and its turn.
use os_assignment.Prelude.{
  ℕ, ◌-◌, ◌<◌, ◌≡◌, ◌≢◌, ◌⊎◌, inl, inr, refl, true, arith, update, ℕ_discrete,
}
use os_assignment.Prelude.Int.{pos}
use os_assignment.Peterson.{
  npetersonlocks, Table, Slot, flag, set_flag, interested, lowered, begin_acquire, retry_acquire,
  sys_peterson_release, loop_test, waiting, acquired,
}

pub flag-interested :
    (s : Slot) (r q : ℕ) → r < 2 → q < 2 → flag s q ≡ 1 → flag (interested s r) q ≡ 1
unfolding flag interested set_flag
flag-interested s r q hr hq h = ground arith

pub flag-interested_self : (s : Slot) (r : ℕ) → flag (interested s r) r ≡ 1
unfolding flag interested set_flag
flag-interested_self s r = ground arith

pub flag-lowered_other : (s : Slot) (r q : ℕ) → r < 2 → q ≡ 1 - r → flag (lowered s r) q ≡ flag s q
unfolding flag lowered set_flag
flag-lowered_other s r q hr hq = ground arith

pub active-interested : (s : Slot) (r : ℕ) → (interested s r).active ≡ s.active
unfolding interested set_flag
active-interested s r = ground arith

pub turn-interested : (s : Slot) (r : ℕ) → (interested s r).turn ≡ 1 - r
unfolding interested
turn-interested s r = refl

pub active-lowered : (s : Slot) (r : ℕ) → (lowered s r).active ≡ s.active
unfolding lowered set_flag
active-lowered s r = ground arith

pub turn-lowered : (s : Slot) (r : ℕ) → (lowered s r).turn ≡ s.turn
unfolding lowered set_flag
turn-lowered s r = ground arith

module _ (t : Table) (id role : ℕ) (hi : id < npetersonlocks) (hr : role < 2)
    (on : (t id).active ≡ true) where
  -- What the calls do at an active slot.
  pub begin_acquire-active :
      begin_acquire t (pos id) (pos role)
      ≡ (update t id (interested (t id) role), loop_test (interested (t id) role) role)
  unfolding begin_acquire
  begin_acquire-active = ground arith

  pub retry_acquire-active : retry_acquire t (pos id) (pos role) ≡ loop_test (t id) role
  unfolding retry_acquire
  retry_acquire-active = ground arith

  pub sys_peterson_release-active :
      sys_peterson_release t (pos id) (pos role) ≡ (update t id (lowered (t id) role), pos 0)
  unfolding sys_peterson_release
  sys_peterson_release-active = ground arith

-- The loop of an active lock goes on waiting, or it passes and the rival has lowered its flag or
-- does not have the turn.
pub loop_test-cases :
    (s : Slot) (r : ℕ)
    → s.active ≡ true
    → ((loop_test s r ≡ waiting) × (flag s (1 - r) ≡ 1) × (s.turn ≡ 1 - r))
      ⊎ ((loop_test s r ≡ acquired) × (flag s (1 - r) ≡ 1 → s.turn ≢ 1 - r))
unfolding loop_test
loop_test-cases s r on = elim (ℕ_discrete (flag s (1 - r)) 1) [
  | yes raised ↦ elim (ℕ_discrete s.turn (1 - r)) [
    | yes turned ↦ inl (ground arith, raised, turned)
    | no other ↦ inr (ground arith, λ _. other)
  ]
  | no lower ↦ inr (ground arith, λ h. absurd (lower h))
]
