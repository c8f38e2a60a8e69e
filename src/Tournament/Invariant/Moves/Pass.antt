-- ===== src/Tournament/Invariant/Moves/Pass.antt =====
-- A process that the loop test of `peterson_acquire` lets pass keeps the invariant.
use mathlib.Core.Path.{subst}
use native.Mathlib.Decide.{ℕ_discrete}
use os_assignment.Prelude.{
  ℕ, suc, ◌-◌, ◌^◌, ◌≤◌, ◌<◌, ◌≡◌, ◌≢◌, inl, inr, sym, ap, ◌∙◌, arith, update, update-ne, update-eq,
}
use os_assignment.Peterson.{Table, flag}
use os_assignment.Tournament.{Pc, broken, role_at, group_at, array_index}
use os_assignment.Tournament.Levels.{array_index-lt, role_at-lt, array_index-eq}
use os_assignment.Tournament.Invariant.{held, busy, slot, Inv}
use os_assignment.Tournament.Invariant.Moves.{
  update-same, busy-le-held, held-le-busy, other_turn, rival,
}

module _ {levels : ℕ} {ids : ℕ → ℕ} {t : Table} {pc : ℕ → Pc} (inv : Inv levels ids t pc) (p : ℕ)
    (lt : p < 2 ^ levels)
    (tree : (j k : ℕ) → j < 2 ^ levels - 1 → k < 2 ^ levels - 1 → ids j ≡ ids k → j ≡ k) (l : ℕ)
    (hl : l < levels) where
  -- The lock of `p` at level `l`.
  abbrev key : ℕ
  key = ids (array_index levels p l)

  -- `p` finds that it may pass, and holds level `l`.
  module _ (c : Pc) (hp : held levels (pc p) ≡ suc l) (bp : busy levels (pc p) ≡ l)
      (hc : held levels c ≡ l) (bc : busy levels c ≡ l) (ok : c ≢ broken)
      (free : flag (t key) (1 - role_at levels p l) ≡ 1
        → (t key).turn ≢ 1 - role_at levels p l) where
    -- Who stands at the level, or waits there, has its flag in the slot.
    rival_flag :
        (j : ℕ)
        → j < 2 ^ levels
        → group_at levels p l ≡ group_at levels j l
        → busy levels (pc j) ≤ l
        → flag (t key) (role_at levels j l) ≡ 1
    rival_flag j hj eg b = rw (array_index-eq levels p j l eg) (inv.raised j l hj hl b)

    -- No rival inv p lt tree l hl holds the level.
    pass_alone :
        (j : ℕ)
        → j < 2 ^ levels
        → held levels (pc j) ≤ l
        → group_at levels p l ≡ group_at levels j l
        → p ≡ j
    pass_alone j hj hh eg = elim (rival inv p lt tree l hl j hj (omega arith) (omega arith) eg) [
      | inl self ↦ self
      | inr er ↦ absurd (
          free
            (subst (λ r. flag (t key) r ≡ 1) er
              (rival_flag j hj eg (omega (arith, busy-le-held levels (pc j)))))
            (rw (array_index-eq levels p j l eg)
              (inv.turned j p l hj lt hl hh (omega arith) (omega arith) (sym eg) ∙ er)))
    ]

    pass_below :
        (j m : ℕ)
        → j < 2 ^ levels
        → m ≤ levels
        → l ≤ m
        → held levels (pc j) ≤ m
        → group_at levels p m ≡ group_at levels j m
        → p ≡ j
    pass_below j m hj hm hl' hh eg = elim (ℕ_discrete l m) [
      | yes e ↦ pass_alone j hj (omega arith) (rw e eg)
      | no ne ↦ inv.apart p j m lt hj hm (omega arith) hh eg
    ]

    held_self : (i : ℕ) → p ≡ i → held levels (update pc p c i) ≡ l
    held_self i e = ap (held levels) (update-eq pc p i c e) ∙ hc

    held_other : (i : ℕ) → p ≢ i → held levels (update pc p c i) ≡ held levels (pc i)
    held_other i e = ap (held levels) (update-ne pc p i c e)

    busy_as_before : (i : ℕ) → busy levels (update pc p c i) ≡ busy levels (pc i)
    busy_as_before = update-same (busy levels) pc p c (bc ∙ sym bp)

    pass-apart :
        (i j m : ℕ)
        → i < 2 ^ levels
        → j < 2 ^ levels
        → m ≤ levels
        → held levels (update pc p c i) ≤ m
        → held levels (update pc p c j) ≤ m
        → group_at levels i m ≡ group_at levels j m
        → i ≡ j
    pass-apart i j m hi hj hm a b e = elim (ℕ_discrete p i) [
      | yes pi ↦ elim (ℕ_discrete p j) [
        | yes pj ↦ sym pi ∙ pj
        | no pj ↦
            sym pi
            ∙ pass_below j m hj hm (omega (arith, held_self i pi)) (omega (arith, held_other j pj))
                (ap (λ x. group_at levels x m) pi ∙ e)
      ]
      | no pi ↦ elim (ℕ_discrete p j) [
        | yes pj ↦
            sym (
              pass_below i m hi hm (omega (arith, held_self j pj)) (omega (arith, held_other i pi))
                (ap (λ x. group_at levels x m) pj ∙ sym e))
            ∙ pj
        | no pj ↦
            inv.apart i j m hi hj hm (omega (arith, held_other i pi))
              (omega (arith, held_other j pj)) e
      ]
    ]

    pass-raised :
        (i m : ℕ)
        → i < 2 ^ levels
        → m < levels
        → busy levels (update pc p c i) ≤ m
        → flag (slot levels ids t i m) (role_at levels i m) ≡ 1
    pass-raised i m hi hm b = inv.raised i m hi hm (rw (← busy_as_before i) b)

    -- A process that waits at the level finds its turn gone.
    pass_turn :
        (j : ℕ)
        → j < 2 ^ levels
        → p ≢ j
        → busy levels (pc j) ≤ l
        → group_at levels p l ≡ group_at levels j l
        → (t key).turn ≡ role_at levels p l
    pass_turn j hj ne b eg =
        elim (rival inv p lt tree l hl j hj (omega arith)
          (omega (arith, held-le-busy levels (pc j))) eg) [
            | inl self ↦ absurd (ne self)
            | inr er ↦
                other_turn (t key).turn (role_at levels p l) (role_at-lt levels p l)
                  (inv.turns (array_index levels p l) (array_index-lt levels p l hl lt))
                  (free (subst (λ r. flag (t key) r ≡ 1) er (rival_flag j hj eg b)))
          ]

    pass-turned :
        (i j m : ℕ)
        → i < 2 ^ levels
        → j < 2 ^ levels
        → m < levels
        → held levels (update pc p c i) ≤ m
        → busy levels (update pc p c j) ≤ m
        → m < held levels (update pc p c j)
        → group_at levels i m ≡ group_at levels j m
        → (slot levels ids t i m).turn ≡ role_at levels i m
    pass-turned i j m hi hj hm a b d e = elim (ℕ_discrete p i) [
      | yes pi ↦
          subst (λ x. (slot levels ids t x m).turn ≡ role_at levels x m) pi
            (elim (ℕ_discrete l m) [
              | yes lm ↦
                  subst (λ x. (slot levels ids t p x).turn ≡ role_at levels p x) lm
                    (pass_turn j hj not_j (omega (arith, busy_j))
                      (rw lm (ap (λ x. group_at levels x m) pi ∙ e)))
              | no lm ↦
                  inv.turned p j m lt hj hm (omega (arith, held_self i pi)) busy_j held_j
                    (ap (λ x. group_at levels x m) pi ∙ e)
            ])
      | no pi ↦ inv.turned i j m hi hj hm (omega (arith, held_other i pi)) busy_j held_j e
    ]
      where
        busy_j : busy levels (pc j) ≤ m
        busy_j = rw (← busy_as_before j) b

        not_j : p ≢ j
        not_j pj = omega (arith, held_self j pj, ap (λ x. busy levels (pc x)) pj, busy_j)

        held_j : m < held levels (pc j)
        held_j = omega (arith, held_other j not_j)

    pub pass-Inv : Inv levels ids t (update pc p c)
    pass-Inv = record {
      active = inv.active;
      turns = inv.turns;
      sound = λ i hi. ground (arith, inv.sound i hi);
      bounded = λ i hi. ground (arith, inv.bounded i hi);
      apart = pass-apart;
      raised = pass-raised;
      turned = pass-turned;
    }
