-- ===== src/Tournament/Invariant/Moves/Raise.antt =====
-- The first section of `peterson_acquire` at a lock of the tree keeps the invariant.
use mathlib.Core.Path.{ap₂, subst}
use native.Mathlib.Decide.{ℕ_discrete}
use os_assignment.Prelude.{
  ℕ, suc, ◌-◌, ◌^◌, ◌≤◌, ◌<◌, ◌≡◌, ◌≢◌, inl, inr, sym, ap, ◌∙◌, arith, update, update-ne, update-eq,
}
use os_assignment.Peterson.{Table, flag, interested}
use os_assignment.Peterson.Slots.{
  flag-interested, flag-interested_self, active-interested, turn-interested,
}
use os_assignment.Tournament.{Pc, broken, role_at, group_at, array_index}
use os_assignment.Tournament.Levels.{role_at-lt, array_index-eq}
use os_assignment.Tournament.Invariant.{held, busy, slot, Inv}
use os_assignment.Tournament.Invariant.Moves.{update-same, same_lock, not_self, rival}

module _ {levels : ℕ} {ids : ℕ → ℕ} {t : Table} {pc : ℕ → Pc} (inv : Inv levels ids t pc) (p : ℕ)
    (lt : p < 2 ^ levels)
    (tree : (j k : ℕ) → j < 2 ^ levels - 1 → k < 2 ^ levels - 1 → ids j ≡ ids k → j ≡ k) (l : ℕ)
    (hl : l < levels) where
  -- The lock of `p` at level `l`.
  abbrev key : ℕ
  key = ids (array_index levels p l)

  -- `p` sets its flag and the turn, and goes to sleep at level `l`.
  module _ (c : Pc) (hp : held levels (pc p) ≡ suc l) (bp : busy levels (pc p) ≡ suc l)
      (hc : held levels c ≡ suc l) (bc : busy levels c ≡ l) (ok : c ≢ broken) where
    abbrev raised_table : Table
    raised_table = update t key (interested (t key) (role_at levels p l))

    held_as_before : (i : ℕ) → held levels (update pc p c i) ≡ held levels (pc i)
    held_as_before = update-same (held levels) pc p c (hc ∙ sym hp)

    raise-raised :
        (i m : ℕ)
        → i < 2 ^ levels
        → m < levels
        → busy levels (update pc p c i) ≤ m
        → flag (slot levels ids raised_table i m) (role_at levels i m) ≡ 1
    raise-raised i m hi hm b = elim (ℕ_discrete key (ids (array_index levels i m))) [
      | yes k ↦ rw (update-eq t key (ids (array_index levels i m)) _ k) (shared k)
      | no k ↦
          rw (update-ne t key (ids (array_index levels i m)) _ k) (inv.raised i m hi hm (earlier k))
    ]
      where
        role : ℕ
        role = role_at levels p l

        earlier : key ≢ ids (array_index levels i m) → busy levels (pc i) ≤ m
        earlier k = elim (ℕ_discrete p i) [
          | yes e ↦ omega (
            arith,
            ap (busy levels) (update-eq pc p i c e),
            ap (λ x. busy levels (pc x)) e,
            not_self inv p lt tree l hl i m k e,
          )
          | no e ↦ rw (← update-ne pc p i c e) b
        ]

        shared :
            key ≡ ids (array_index levels i m)
            → flag (interested (t key) role) (role_at levels i m) ≡ 1
        shared k = elim (ℕ_discrete p i) [
          | yes e ↦
              subst (λ r. flag (interested (t key) role) r ≡ 1)
                (ap₂ (role_at levels) e (sym (same_lock inv p lt tree l hl i m hi hm k).0))
                (flag-interested_self (t key) role)
          | no e ↦
              flag-interested (t key) role (role_at levels i m) (role_at-lt levels p l)
                (role_at-lt levels i m)
                (rw k (inv.raised i m hi hm (rw (← update-ne pc p i c e) b)))
        ]

    raise-turned :
        (i j m : ℕ)
        → i < 2 ^ levels
        → j < 2 ^ levels
        → m < levels
        → held levels (update pc p c i) ≤ m
        → busy levels (update pc p c j) ≤ m
        → m < held levels (update pc p c j)
        → group_at levels i m ≡ group_at levels j m
        → (slot levels ids raised_table i m).turn ≡ role_at levels i m
    raise-turned i j m hi hj hm a b d e = elim (ℕ_discrete key (ids (array_index levels i m))) [
      | yes k ↦ rw (update-eq t key (ids (array_index levels i m)) _ k) (
          turn-interested (t key) (role_at levels p l)
          ∙ sym (
              other k (same_lock inv p lt tree l hl i m hi hm k).0
                (same_lock inv p lt tree l hl i m hi hm k).1))
      | no k ↦
          rw (update-ne t key (ids (array_index levels i m)) _ k)
            (inv.turned i j m hi hj hm held_i (rw (← update-ne pc p j c (elsewhere k)) b) held_j e)
    ]
      where
        held_i : held levels (pc i) ≤ m
        held_i = rw (← held_as_before i) a

        held_j : m < held levels (pc j)
        held_j = rw (← held_as_before j) d

        other :
            key ≡ ids (array_index levels i m)
            → m ≡ l
            → group_at levels i m ≡ group_at levels p l
            → role_at levels i m ≡ 1 - role_at levels p l
        other k em eg =
            elim (rival inv p lt tree l hl i hi (omega arith) (omega (arith, held_i))
              (sym eg ∙ ap (group_at levels i) em)) [
                | inl self ↦ absurd (omega (arith, held_i, ap (λ x. held levels (pc x)) self))
                | inr er ↦ ap (role_at levels i) em ∙ er
              ]

        elsewhere : key ≢ ids (array_index levels i m) → p ≢ j
        elsewhere k self = k (
            ap ids (
              ap (array_index levels p) (sym level)
              ∙ array_index-eq levels p i m (ap (λ x. group_at levels x m) self ∙ sym e)))
          where
            level : m ≡ l
            level = omega (
              arith,
              ap (busy levels) (update-eq pc p j c self),
              ap (held levels) (update-eq pc p j c self),
            )

    pub raise-Inv : Inv levels ids raised_table (update pc p c)
    raise-Inv = record {
      active = λ j h. ground (arith, inv.active j, active-interested (t key) (role_at levels p l));
      turns = λ j h. ground (arith, inv.turns j, turn-interested (t key) (role_at levels p l));
      sound = λ i hi. ground (arith, inv.sound i hi);
      bounded = λ i hi. rw (held_as_before i) (inv.bounded i hi);
      apart = λ i j m hi hj hm a b e.
          inv.apart i j m hi hj hm (rw (← held_as_before i) a) (rw (← held_as_before j) b) e;
      raised = raise-raised;
      turned = raise-turned;
    }
