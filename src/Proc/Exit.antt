-- ===== src/Proc/Exit.antt =====
-- `exit`: what becomes of the process, of its children and of its parent.
use os_assignment.Prelude.{
  ℕ, zero, suc, ◌+◌, ◌<◌, ◌≡◌, ◌≢◌, inl, inr, ◌&&◌, ap, ◌∙◌, Option, some, arith, ltb, leb, update,
  Bool-cases, if◌then◌else◌, ◌==◌,
}
use os_assignment.Prelude.Int.{ℤ}
use os_assignment.Proc.{
  Proc, Procs, sleeping, zombie, Chan, proc_chan, Kernel, is_parent, nproc, wake_one, wakeup,
}
use os_assignment.Proc.Wakeup.{wakeup_lem, chan_eq_refl}
use os_assignment.Proc.Lifecycle.{reparent_one, reparent_from, reparent, exit_zombie, parent_chan}

wake_one-parent : (c : Chan) (p : Proc) → (wake_one c p).parent ≡ p.parent
unfolding wake_one
wake_one-parent c p = ground arith

wakeup-parent :
    (t : Procs) (me : Option ℕ) (c : Chan) (k : ℕ) → (wakeup t me c k).parent ≡ (t k).parent
wakeup-parent t me c k =
    ap (λ (p : Proc). p.parent) (wakeup_lem t me c k) ∙ ground (arith, wake_one-parent c (t k))

-- After `wakeup` no other process sleeps on the channel.
wakeup-awake :
    (t : Procs) (me : ℕ) (c : Chan) (k : ℕ)
    → k < nproc
    → k ≢ me
    → (wakeup t (some me) c k).state ≡ sleeping
    → (wakeup t (some me) c k).chan ≡ c
    → ⊥
unfolding wake_one
wakeup-awake t me c k h ne s e = ground (
  arith,
  ap (λ (p : Proc). p.state) (wakeup_lem t (some me) c k),
  ap (λ (p : Proc). p.chan) (wakeup_lem t (some me) c k),
  chan_eq_refl c,
)

-- The parent of a process after its parent `me` has exited.
abbrev pub adopted : Option ℕ → ℕ → ℕ → Option ℕ
adopted o me init = if is_parent o me then some init else o

reparent_one-parent :
    (t : Procs) (i me init k : ℕ)
    → (reparent_one t i me init k).parent
      ≡ (if i == k then adopted (t k).parent me init else (t k).parent)
unfolding reparent_one
reparent_one-parent t i me init k = elim (Bool-cases (is_parent (t i).parent me)) [
  | inr other ↦ rw other (ground arith)
  | inl own ↦ rw own (
      wakeup-parent (update t i (record (t i) { parent = some init })) (some me) (proc_chan init) k
      ∙ ground arith)
]

reparent_from_lem :
    (n i : ℕ) (t : Procs) (me init k : ℕ)
    → (reparent_from n i t me init k).parent
      ≡ (if leb i k && ltb k (i + n) then adopted (t k).parent me init else (t k).parent)
unfolding reparent_from
reparent_from_lem zero i t me init k = ground arith
reparent_from_lem (suc n) i t me init k = ground (
  arith,
  reparent_from_lem n (i + 1) (reparent_one t i me init) me init k,
  reparent_one-parent t i me init k,
)

reparent_lem :
    (t : Procs) (me init k : ℕ)
    → k < nproc
    → (reparent t me init k).parent ≡ adopted (t k).parent me init
unfolding reparent
reparent_lem t me init k h = reparent_from_lem nproc 0 t me init k ∙ ground arith

-- A process that is not the first, and has a parent, becomes a zombie with its status; each of its
-- children is handed to the first process and no other process changes its parent, so that nobody
-- has it for a parent; and its own parent is not asleep in `wait`.
pub exit_zombie_lem :
    (k : Kernel) (me p : ℕ) (status : ℤ)
    → me < nproc
    → me ≢ k.initproc
    → p < nproc
    → p ≢ me
    → (k.proc me).parent ≡ some p
    → let t = (exit_zombie k me status).proc in
      ((t me).state ≡ zombie)
      × ((t me).xstate ≡ status)
      × ((i : ℕ) → i < nproc → (t i).parent ≡ adopted (k.proc i).parent me k.initproc)
      × ((i : ℕ) → i < nproc → (t i).parent ≢ some me)
      × ((t p).state ≡ sleeping → (t p).chan ≢ proc_chan p)
unfolding exit_zombie
exit_zombie_lem k me p status hm ni hp ne own = (
  ground arith,
  ground arith,
  parents,
  (λ i hi e. ground (arith, parents i hi)),
  λ s e. wakeup-awake t me (proc_chan p) p hp ne (ground (arith, same)) (ground (arith, same)),
)
  where
    t : Procs
    t = reparent k.proc me k.initproc

    own_parent : (t me).parent ≡ some p
    own_parent = reparent_lem k.proc me k.initproc me hm ∙ ground arith

    t' : Procs
    t' = wakeup t (some me) (parent_chan (t me).parent)

    same : t' p ≡ wakeup t (some me) (proc_chan p) p
    same = ap (λ o. wakeup t (some me) (parent_chan o) p) own_parent

    parents :
        (i : ℕ)
        → i < nproc
        → ((exit_zombie k me status).proc i).parent ≡ adopted (k.proc i).parent me k.initproc
    parents i hi = ground (
      arith,
      wakeup-parent t (some me) (parent_chan (t me).parent) i,
      reparent_lem k.proc me k.initproc i hi,
    )
