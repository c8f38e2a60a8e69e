-- ===== src/Tournament/Invariant/Moves.antt =====
-- The invariant is kept by the moves of one process: a local one, an acquisition, a release.
pub mod Raise
pub mod Pass
pub mod Lower
use mathlib.Core.Path.{ap₂, subst}
use native.Mathlib.Decide.{dec_lt, ℕ_discrete}
use os_assignment.Prelude.{
  ℕ, zero, suc, ◌+◌, ◌-◌, ◌^◌, ◌≤◌, ◌<◌, ◌≡◌, ◌≢◌, ◌⊎◌, inl, inr, refl, sym, ap, ◌∙◌, true, false,
  some, arith, update, update_self, update-ne, update-eq, ◌==◌, Bool-cases, ◌&&◌, if◌then◌else◌,
  not, Bool,
}
use os_assignment.Peterson.{
  Slot, Table, flag, interested, lowered, Outcome, failed, waiting, acquired, loop_test,
}
use os_assignment.Peterson.Slots.{
  flag-interested, flag-interested_self, flag-lowered_other, active-interested, turn-interested,
  active-lowered, turn-lowered,
}
use os_assignment.Tournament.{
  Pc, idle, climbing, sleeping, critical, leaving, broken, role_at, group_at, array_index, settle,
}
use os_assignment.Tournament.Levels.{
  array_index-lt, array_index-injective, group_at-child, group_at-up, role_at-lt, array_index-eq,
}
use os_assignment.Tournament.Invariant.{IsTree, held, busy, slot, Inv}

-- Processes that share a lock in different roles, or in one.
pub busy-le-held : (levels : ℕ) (c : Pc) → busy levels c ≤ held levels c
busy-le-held levels c = ground arith

pub held-le-busy : (levels : ℕ) (c : Pc) → held levels c ≤ suc (busy levels c)
held-le-busy levels c = ground arith

role-cases : (r s : ℕ) → r < 2 → s < 2 → (r ≡ s) ⊎ (s ≡ 1 - r)
role-cases r s hr hs = ground arith

pub update-same :
    (f : Pc → ℕ) (pc : ℕ → Pc) (p : ℕ) (c : Pc)
    → f c ≡ f (pc p)
    → (i : ℕ) → f (update pc p c i) ≡ f (pc i)
update-same f pc p c e i = elim (Bool-cases (p == i)) [
  | inl same ↦ let e' : p ≡ i = ground arith in rw (same, e, e')
  | inr other ↦ rw other
]

pub other_turn : (v r : ℕ) → r < 2 → v < 2 → v ≢ 1 - r → v ≡ r
other_turn v r hr hv ne = omega arith

module _ {levels : ℕ} {ids : ℕ → ℕ} {t : Table} {pc : ℕ → Pc} (inv : Inv levels ids t pc) (p : ℕ)
    (lt : p < 2 ^ levels) where
  -- A move that changes neither the table nor what the process holds.
  pub local-Inv :
      (c : Pc)
      → held levels c ≡ held levels (pc p)
      → busy levels c ≡ busy levels (pc p)
      → c ≢ broken
      → Inv levels ids t (update pc p c)
  local-Inv c h b ok = record {
    active = inv.active;
    turns = inv.turns;
    sound = λ i hi. ground (arith, inv.sound i hi);
    bounded = λ i hi. ground (arith, inv.bounded i hi);
    apart = λ i j l hi hj hl a b e. ground (arith, inv.apart i j l);
    raised = λ i l hi hl a. ground (arith, inv.raised i l);
    turned = λ i j l hi hj hl a b d e.
        inv.turned i j l hi hj hl (rw (← same_held i) a) (rw (← same_busy j) b)
          (rw (← same_held j) d) e;
  }
    where
      same_held : (i : ℕ) → held levels (update pc p c i) ≡ held levels (pc i)
      same_held = update-same (held levels) pc p c h

      same_busy : (i : ℕ) → busy levels (update pc p c i) ≡ busy levels (pc i)
      same_busy = update-same (busy levels) pc p c b

  module _ (tree : (j k : ℕ) → j < 2 ^ levels - 1 → k < 2 ^ levels - 1 → ids j ≡ ids k → j ≡ k)
      (l : ℕ) (hl : l < levels) where
    -- The lock of `p` at level `l`.
    abbrev key : ℕ
    key = ids (array_index levels p l)

    -- Another process at a level of its own has this lock only in the same place.
    pub same_lock :
        (j m : ℕ)
        → j < 2 ^ levels
        → m < levels
        → key ≡ ids (array_index levels j m)
        → (m ≡ l) × (group_at levels j m ≡ group_at levels p l)
    same_lock j m hj hm e =
        array_index-injective levels j p m l (omega arith) (omega arith) hj lt
          (sym (tree _ _ (array_index-lt levels p l hl lt) (array_index-lt levels j m hm hj) e))

    -- At the level of the lock, who has another lock stands at another place, and is not `p`.
    pub not_self : (i m : ℕ) → key ≢ ids (array_index levels i m) → p ≡ i → m ≢ l
    not_self i m k e em = k (ap ids (ap₂ (array_index levels) e (sym em)))

    -- Who stands at the place of `p` at level `l`, below it, is `p` or has the other role.
    pub rival :
        (j : ℕ)
        → j < 2 ^ levels
        → held levels (pc p) ≤ suc l
        → held levels (pc j) ≤ suc l
        → group_at levels p l ≡ group_at levels j l
        → (p ≡ j) ⊎ (role_at levels j l ≡ 1 - role_at levels p l)
    rival j hj hp hh eg =
        elim (role-cases (role_at levels p l) (role_at levels j l) (role_at-lt levels p l)
          (role_at-lt levels j l)) [
            | inl er ↦ inl (
                inv.apart p j (suc l) lt hj hl (omega arith) hh
                  (group_at-child levels p j l hl eg er))
            | inr er ↦ inr er
          ]
