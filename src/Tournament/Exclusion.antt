-- ===== src/Tournament/Exclusion.antt =====
-- At most one process of a tournament is in the critical section, in every interleaving.
use mathlib.Core.Path.{subst}
use os_assignment.Prelude.{
  ℕ, zero, suc, ◌+◌, ◌-◌, ◌^◌, ◌≤◌, ◌<◌, ◌≡◌, ◌≢◌, ◌⊎◌, inl, inr, refl, sym, ap, ◌∙◌, true, false,
  some, arith, update, update_self, update-update, ltb, Bool-cases,
}
use os_assignment.Prelude.Int.{pos}
use os_assignment.Peterson.{
  npetersonlocks, Table, Slot, flag, interested, loop_test, waiting, acquired, Outcome, allocated,
}
use os_assignment.Peterson.Slots.{
  active-interested, begin_acquire-active, retry_acquire-active, sys_peterson_release-active,
  loop_test-cases,
}
use os_assignment.Tournament.{
  Lib, Pc, idle, climbing, sleeping, critical, leaving, broken, returns, loops, entry, lock_call,
  role_at, array_index, group_at, settle, enter, begin_level, retry_level, release_level, advance,
  System, step, Reach, here, next,
}
use os_assignment.Tournament.Levels.{
  pow2-le, role_at-lt, array_index-lt, group_at-lt, group_at-leaf,
}
use os_assignment.Tournament.Invariant.{IsMember, IsTree, lock_call-member, held, busy, Inv}
use os_assignment.Tournament.Invariant.Moves.{local-Inv}
use os_assignment.Tournament.Invariant.Moves.Raise.{raise-Inv}
use os_assignment.Tournament.Invariant.Moves.Pass.{pass-Inv}
use os_assignment.Tournament.Invariant.Moves.Lower.{lower-Inv}

-- A member of a tree passes the tests at the head of both calls; alone, it returns 0 at once.
entry-member :
    (levels : ℕ) (ids : ℕ → ℕ) (lib : Lib) (i : ℕ)
    → IsMember levels ids lib i
    → ((levels ≡ 0) × (entry lib ≡ returns (pos 0))) ⊎ (entry lib ≡ loops)
unfolding entry
entry-member zero ids lib i m = inl (refl, rw (m.me, m.count) refl)
entry-member (suc levels) ids lib i m =
    inr (rw (m.me, m.count, m.total, m.has) (ground (arith, pow2-le 1 (suc levels) (omega arith))))

module _ {levels : ℕ} {ids : ℕ → ℕ} {libs : ℕ → Lib} (tree : IsTree levels ids libs) {t : Table}
    {pc : ℕ → Pc} (inv : Inv levels ids t pc) (i : ℕ) (hi : i < 2 ^ levels) where
  -- What the process and the table are after the step from `c`.
  abbrev After : Table × Pc → Type 0
  After r = Inv levels ids r.0 (update pc i r.1)

  unmoved :
      (c d : Pc)
      → pc i ≡ c
      → held levels d ≡ held levels c
      → busy levels d ≡ busy levels c
      → d ≢ broken
      → After (t, d)
  unmoved c d e h b ok = local-Inv inv i hi d (rw e h) (rw e b) ok

  module _ (l : ℕ) (hl : l < levels) where
    abbrev key : ℕ
    key = ids (array_index levels i l)

    abbrev role : ℕ
    role = role_at levels i l

    call : lock_call (libs i) l ≡ some (pos key, pos role)
    call = lock_call-member levels ids (libs i) i l (tree.member i hi) hi hl

    valid : key < npetersonlocks
    valid = tree.valid (array_index levels i l) (array_index-lt levels i l hl hi)

    on : (t key).active ≡ true
    on = inv.active (array_index levels i l) (array_index-lt levels i l hl hi)

    asleep :
        pc i ≡ climbing (suc l)
        → Inv levels ids (update t key (interested (t key) role)) (update pc i (sleeping l))
    asleep e =
        raise-Inv inv i hi tree.distinct l hl (sleeping l) (rw e refl) (rw e refl) refl refl
          (ground arith)

    begun :
        (o : Outcome)
        → pc i ≡ climbing (suc l)
        → (o ≡ waiting)
          ⊎ ((o ≡ acquired)
              × (flag (interested (t key) role) (1 - role) ≡ 1
                  → (interested (t key) role).turn ≢ 1 - role))
        → After (update t key (interested (t key) role), settle o l)
    begun o e (inl w) = rw w (asleep e)
    begun o e (inr (w, free)) = rw w (
        rw (← update-update pc i (sleeping l) (climbing l)) (
          pass-Inv (asleep e) i hi tree.distinct l hl (climbing l)
            (rw (update_self pc i (sleeping l)) refl) (rw (update_self pc i (sleeping l)) refl) refl
            refl (ground arith) (rw (update_self t key (interested (t key) role)) free)))

    begin-After : pc i ≡ climbing (suc l) → After (begin_level t (lock_call (libs i) l) l)
    unfolding begin_level
    begin-After e =
        rw (call, begin_acquire-active t key role valid (role_at-lt levels i l) on)
          (begun (loop_test (interested (t key) role) role) e
            (elim (loop_test-cases (interested (t key) role) role
              (active-interested (t key) role ∙ on)) [ inl w ↦ inl w.0 | inr w ↦ inr w ]))

    retry-After : pc i ≡ sleeping l → After (retry_level t (lock_call (libs i) l) l)
    unfolding retry_level
    retry-After e =
        rw (call, retry_acquire-active t key role valid (role_at-lt levels i l) on)
          (elim (loop_test-cases (t key) role on) [
            | inl w ↦ rw (w.0) (unmoved (sleeping l) (sleeping l) e refl refl (ground arith))
            | inr w ↦ rw (w.0) (
                pass-Inv inv i hi tree.distinct l hl (climbing l) (rw e refl) (rw e refl) refl refl
                  (ground arith) w.1)
          ])

    release-After : pc i ≡ leaving l → After (release_level t (lock_call (libs i) l) l)
    unfolding release_level
    release-After e =
        rw (call, sys_peterson_release-active t key role valid (role_at-lt levels i l) on)
          (lower-Inv inv i hi tree.distinct l hl (leaving (l + 1)) (rw e refl) (rw e refl)
            (omega arith) (omega arith) (ground arith))

  enter-After :
      (c good loop : Pc)
      → pc i ≡ c
      → (levels ≡ 0 → held levels good ≡ held levels c)
      → (levels ≡ 0 → busy levels good ≡ busy levels c)
      → held levels loop ≡ held levels c
      → busy levels loop ≡ busy levels c
      → good ≢ broken
      → loop ≢ broken
      → After (t, enter (entry (libs i)) good loop)
  enter-After c good loop e hg bg hl bl okg okl =
      elim (entry-member levels ids (libs i) i (tree.member i hi)) [
        | inl w ↦ rw (w.1) (unmoved c good e (hg w.0) (bg w.0) okg)
        | inr w ↦ rw w (unmoved c loop e hl bl okl)
      ]

  height : (libs i).l_levels ≡ levels
  height = (tree.member i hi).height

  advance-After : (c : Pc) → pc i ≡ c → After (advance (libs i) t c)
  unfolding advance
  advance-After idle e =
      enter-After idle critical (climbing (libs i).l_levels) e (λ z. sym z) (λ z. sym z) height
        height (ground arith) (ground arith)
  advance-After (climbing zero) e = unmoved (climbing 0) critical e refl refl (ground arith)
  advance-After (climbing (suc l)) e =
      begin-After l (subst (λ c. held levels c ≤ levels) e (inv.bounded i hi)) e
  advance-After (sleeping l) e =
      retry-After l (subst (λ c. held levels c ≤ levels) e (inv.bounded i hi)) e
  advance-After critical e =
      enter-After critical idle (leaving 0) e (λ z. z) (λ z. z) refl refl (ground arith)
        (ground arith)
  advance-After (leaving l) e = elim (Bool-cases (ltb l (libs i).l_levels)) [
    | inl more ↦ rw more (release-After l (ground (arith, height)) e)
    | inr done ↦ rw done (unmoved (leaving l) idle e (top done) (top done) (ground arith))
  ]
    where
      top : ltb l (libs i).l_levels ≡ false → levels ≡ l
      top done = ground (arith, height, subst (λ c. held levels c ≤ levels) e (inv.bounded i hi))
  advance-After broken e = absurd (inv.sound i hi e)

-- Every step of a member keeps the invariant.
pub step-Inv :
    {levels : ℕ} {ids : ℕ → ℕ} {libs : ℕ → Lib} (s : System) (i : ℕ)
    → IsTree levels ids libs
    → i < 2 ^ levels
    → Inv levels ids s.table s.pc
    → Inv levels ids (step libs i s).table (step libs i s).pc
unfolding step
step-Inv s i tree hi inv = advance-After tree inv i hi (s.pc i) refl

pub Reach-Inv :
    {levels : ℕ} {ids : ℕ → ℕ} {libs : ℕ → Lib} {s u : System}
    → IsTree levels ids libs
    → Inv levels ids s.table s.pc
    → Reach libs (2 ^ levels) s u
    → Inv levels ids u.table u.pc
Reach-Inv tree inv here = inv
Reach-Inv tree inv (next {t = v} r i hi) = step-Inv v i tree hi (Reach-Inv tree inv r)

-- The locks of the tree as `peterson_create` leaves them, no process in a call.
pub record IsFresh (levels : ℕ) (ids : ℕ → ℕ) (s : System) : Type 0 where
  pub locks : (j : ℕ) → j < 2 ^ levels - 1 → s.table (ids j) ≡ allocated
  pub quiet : (i : ℕ) → s.pc i ≡ idle

pub IsFresh-Inv :
    {levels : ℕ} {ids : ℕ → ℕ} (s : System) → IsFresh levels ids s → Inv levels ids s.table s.pc
IsFresh-Inv {levels} {ids} s f = record {
  active = λ j h. ap (λ (x : Slot). x.active) (f.locks j h);
  turns = λ j h. rw (f.locks j h) (omega arith);
  sound = λ i hi. rw (f.quiet i) (ground arith);
  bounded = λ i hi. rw (f.quiet i) (omega arith);
  apart = λ i j l hi hj hl a b e.
      let top : l ≡ levels = omega (arith, ap (held levels) (f.quiet i)) in
      sym (group_at-leaf levels i)
      ∙ ap (group_at levels i) (sym top)
      ∙ e
      ∙ ap (group_at levels j) top
      ∙ group_at-leaf levels j;
  raised = λ i l hi hl b. absurd (omega (arith, ap (busy levels) (f.quiet i)));
  turned = λ i j l hi hj hl a b d e. absurd (omega (arith, ap (held levels) (f.quiet i)));
}

-- From free locks and idle processes, in every state that `2 ^ levels` processes reach which share
-- a tree of different locks, two that are in the critical section are one.
pub mutual_exclusion :
    {levels : ℕ} {ids : ℕ → ℕ} {libs : ℕ → Lib} {s u : System}
    → IsTree levels ids libs
    → IsFresh levels ids s
    → Reach libs (2 ^ levels) s u
    → (i j : ℕ) → i < 2 ^ levels
    → j < 2 ^ levels
    → u.pc i ≡ critical
    → u.pc j ≡ critical
    → i ≡ j
mutual_exclusion {levels} {s} tree f r i j hi hj ci cj =
    apart i j 0 hi hj (omega arith) (rw ci (omega arith)) (rw cj (omega arith)) root
  where
    open (Reach-Inv tree (IsFresh-Inv s f) r) use {apart}

    root : group_at levels i 0 ≡ group_at levels j 0
    root =
        omega
          (arith, group_at-lt levels i 0 (omega arith) hi, group_at-lt levels j 0 (omega arith) hj)

-- From free locks and idle processes, no call of the library fails in a state that `2 ^ levels`
-- processes reach which share a tree of different locks.
pub no_failure :
    {levels : ℕ} {ids : ℕ → ℕ} {libs : ℕ → Lib} {s u : System}
    → IsTree levels ids libs
    → IsFresh levels ids s
    → Reach libs (2 ^ levels) s u
    → (i : ℕ) → i < 2 ^ levels
    → u.pc i ≢ broken
no_failure {s} tree f r i hi = (Reach-Inv tree (IsFresh-Inv s f) r).sound i hi
