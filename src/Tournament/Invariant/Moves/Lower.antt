-- ===== src/Tournament/Invariant/Moves/Lower.antt =====
-- `peterson_release` of a lock that the process holds keeps the invariant.
use native.Mathlib.Decide.{ℕ_discrete}
use os_assignment.Prelude.{
  ℕ, suc, ◌-◌, ◌^◌, ◌≤◌, ◌<◌, ◌≡◌, ◌≢◌, inl, inr, sym, ap, ◌∙◌, arith, update, update-ne, update-eq,
}
use os_assignment.Peterson.{Slot, Table, flag, lowered}
use os_assignment.Peterson.Slots.{flag-lowered_other, active-lowered, turn-lowered}
use os_assignment.Tournament.{Pc, broken, role_at, group_at, array_index}
use os_assignment.Tournament.Levels.{role_at-lt}
use os_assignment.Tournament.Invariant.{held, busy, slot, Inv}
use os_assignment.Tournament.Invariant.Moves.{held-le-busy, same_lock, rival}

module _ {levels : ℕ} {ids : ℕ → ℕ} {t : Table} {pc : ℕ → Pc} (inv : Inv levels ids t pc) (p : ℕ)
    (lt : p < 2 ^ levels)
    (tree : (j k : ℕ) → j < 2 ^ levels - 1 → k < 2 ^ levels - 1 → ids j ≡ ids k → j ≡ k) (l : ℕ)
    (hl : l < levels) where
  -- The lock of `p` at level `l`.
  abbrev key : ℕ
  key = ids (array_index levels p l)

  abbrev lowered_table : Table
  lowered_table = update t key (lowered (t key) (role_at levels p l))

  -- `p` holds level `l` and no level above it, and gives it up.
  module _ (c : Pc) (hp : held levels (pc p) ≡ l) (bp : busy levels (pc p) ≡ l)
      (hc : held levels c ≡ suc l) (bc : busy levels c ≡ suc l) (ok : c ≢ broken) where
    held_le : (i : ℕ) → held levels (pc i) ≤ held levels (update pc p c i)
    held_le i = elim (ℕ_discrete p i) [
      | yes e ↦
          omega (arith, ap (held levels) (update-eq pc p i c e), ap (λ x. held levels (pc x)) e)
      | no e ↦ omega (arith, ap (held levels) (update-ne pc p i c e))
    ]

    busy_le : (i : ℕ) → busy levels (pc i) ≤ busy levels (update pc p c i)
    busy_le i = elim (ℕ_discrete p i) [
      | yes e ↦
          omega (arith, ap (busy levels) (update-eq pc p i c e), ap (λ x. busy levels (pc x)) e)
      | no e ↦ omega (arith, ap (busy levels) (update-ne pc p i c e))
    ]

    lower-bounded : (i : ℕ) → i < 2 ^ levels → held levels (update pc p c i) ≤ levels
    lower-bounded i hi = elim (ℕ_discrete p i) [
      | yes e ↦ omega (arith, ap (held levels) (update-eq pc p i c e))
      | no e ↦ omega (arith, ap (held levels) (update-ne pc p i c e), inv.bounded i hi)
    ]

    lower-raised :
        (i m : ℕ)
        → i < 2 ^ levels
        → m < levels
        → busy levels (update pc p c i) ≤ m
        → flag (slot levels ids lowered_table i m) (role_at levels i m) ≡ 1
    lower-raised i m hi hm b = elim (ℕ_discrete key (ids (array_index levels i m))) [
      | yes k ↦ rw (update-eq t key (ids (array_index levels i m)) _ k) (
          rw
            (
              flag-lowered_other (t key) (role_at levels p l) (role_at levels i m)
                  (role_at-lt levels p l)
                  (other k (same_lock inv p lt tree l hl i m hi hm k).0
                    (same_lock inv p lt tree l hl i m hi hm k).1),
              k,
            )
            before)
      | no k ↦ rw (update-ne t key (ids (array_index levels i m)) _ k) before
    ]
      where
        before : flag (slot levels ids t i m) (role_at levels i m) ≡ 1
        before = inv.raised i m hi hm (omega (arith, busy_le i))

        other :
            key ≡ ids (array_index levels i m)
            → m ≡ l
            → group_at levels i m ≡ group_at levels p l
            → role_at levels i m ≡ 1 - role_at levels p l
        other k em eg =
            elim (rival inv p lt tree l hl i hi (omega arith)
              (omega (arith, held-le-busy levels (pc i), busy_le i))
              (sym eg ∙ ap (group_at levels i) em)) [
                | inl self ↦ absurd (omega (arith, b, ap (busy levels) (update-eq pc p i c self)))
                | inr er ↦ ap (role_at levels i) em ∙ er
              ]

    lower-turned :
        (i j m : ℕ)
        → i < 2 ^ levels
        → j < 2 ^ levels
        → m < levels
        → held levels (update pc p c i) ≤ m
        → busy levels (update pc p c j) ≤ m
        → m < held levels (update pc p c j)
        → group_at levels i m ≡ group_at levels j m
        → (slot levels ids lowered_table i m).turn ≡ role_at levels i m
    lower-turned i j m hi hj hm a b d e = same_turn ∙ before
      where
        same_turn : (slot levels ids lowered_table i m).turn ≡ (slot levels ids t i m).turn
        same_turn = elim (ℕ_discrete key (ids (array_index levels i m))) [
          | yes k ↦
              ap (λ (s : Slot). s.turn) (update-eq t key (ids (array_index levels i m)) _ k)
              ∙ turn-lowered (t key) (role_at levels p l)
              ∙ ap (λ x. (t x).turn) k
          | no k ↦ ap (λ (s : Slot). s.turn) (update-ne t key (ids (array_index levels i m)) _ k)
        ]

        other : p ≢ j
        other self = omega (
          arith,
          b,
          d,
          ap (busy levels) (update-eq pc p j c self),
          ap (held levels) (update-eq pc p j c self),
        )

        before : (slot levels ids t i m).turn ≡ role_at levels i m
        before =
            inv.turned i j m hi hj hm (omega (arith, held_le i)) (omega (arith, busy_le j))
              (omega (arith, ap (held levels) (update-ne pc p j c other))) e

    pub lower-Inv : Inv levels ids lowered_table (update pc p c)
    lower-Inv = record {
      active = λ j h. ground (arith, inv.active j, active-lowered (t key) (role_at levels p l));
      turns = λ j h. ground (arith, inv.turns j, turn-lowered (t key) (role_at levels p l));
      sound = λ i hi. ground (arith, inv.sound i hi);
      bounded = lower-bounded;
      apart = λ i j m hi hj hm a b e.
          inv.apart i j m hi hj hm (omega (arith, held_le i)) (omega (arith, held_le j)) e;
      raised = lower-raised;
      turned = lower-turned;
    }
