-- ===== src/Log/Crash.antt =====
-- A commit is atomic: wherever a crash cuts it short, recovery finds all of it or nothing.
use mathlib.Core.Path.{subst}
use os_assignment.Prelude.{
  take_short, take_long, take_whole, take_none, take_past, ℕ, zero, suc, ◌+◌, ◌-◌, ◌≤◌, ◌<◌, ◌≡◌,
  ◌⊎◌, inl, inr, false, refl, sym, ap, ◌∙◌, List, [], ◌∷◌, ◌++◌, arith, length, length-append, take,
  if◌then◌else◌, Bool-cases, dec_lt,
}
use os_assignment.Log.{
  Write, block_write, head_write, Disk, apply, apply_all, install_trans, write_log, commit,
  recover_from_log, absorbs, is_empty,
}
use os_assignment.Log.Recovery.{
  Home, HomeAll, Logged, homes, logs, apply_all-append, install_trans-writes, homes_lem,
  AgreeAll-refl, write_log_lem, take-logs, logs-Logged, homes-Logged,
}

module _ {ℓ} {B : Type ℓ} where
  take-homes : (n : ℕ) (c : ℕ → B) (lh : List ℕ) → take n (homes c lh) ≡ homes c (take n lh)
  take-homes zero c lh = refl
  take-homes (suc n) c [] = refl
  take-homes (suc n) c (b ∷ lh) = ap (λ l. block_write b (c b) ∷ l) (take-homes n c lh)

  length-homes : (c : ℕ → B) (lh : List ℕ) → length (homes c lh) ≡ length lh
  length-homes c [] = refl
  length-homes c (b ∷ lh) = ap suc (length-homes c lh)

  length-logs :
      (start : ℕ) (c : ℕ → B) (tail : ℕ) (lh : List ℕ) → length (logs start c tail lh) ≡ length lh
  length-logs start c tail [] = refl
  length-logs start c tail (b ∷ lh) = ap suc (length-logs start c (tail + 1) lh)

HomeAll-take :
    (n start size : ℕ) (lh : List ℕ) → HomeAll start size lh → HomeAll start size (take n lh)
HomeAll-take zero start size lh h = tt
HomeAll-take (suc n) start size [] h = tt
HomeAll-take (suc n) start size (b ∷ lh) (hb, h) = (hb, HomeAll-take n start size lh h)

absorbs-take : (n : ℕ) (lh : List ℕ) (k : ℕ) → absorbs lh k ≡ false → absorbs (take n lh) k ≡ false
unfolding absorbs
absorbs-take zero lh k h = refl
absorbs-take (suc n) [] k h = refl
absorbs-take (suc n) (b ∷ lh) k h = ground (arith, absorbs-take n lh k)

module _ {ℓ} {B : Type ℓ} (start size : ℕ) where
  -- Recovery from a disk whose header names a complete log puts `c` at the homes.
  recover_full :
      (d : Disk B) (c : ℕ → B) (lh : List ℕ) (k : ℕ)
      → d.head ≡ lh
      → HomeAll start size lh
      → length lh < size
      → Logged d.block start 0 lh c
      → ((recover_from_log start d).block k ≡ (if absorbs lh k then c k else d.block k))
        × ((recover_from_log start d).head ≡ [])
  unfolding recover_from_log apply
  recover_full d c lh k e h fit lg =
      let ws : (install_trans start d.block 0 d.head).writes ≡ homes c lh =
        ap (λ l. (install_trans start d.block 0 l).writes) e
        ∙ install_trans-writes start size 0 d.block c lh h (omega arith) lg in
      rw ws ((homes_lem c lh d k).0, refl)

  module _ (d : Disk B) (c : ℕ → B) (lh : List ℕ) where
    -- The homes as they were, and as the transaction makes them.
    abbrev pub IsOld : Disk B → Type ℓ
    IsOld r = (k : ℕ) → Home start size k → r.block k ≡ d.block k

    abbrev pub IsNew : Disk B → Type ℓ
    IsNew r = (k : ℕ) → Home start size k → r.block k ≡ (if absorbs lh k then c k else d.block k)

    module _ (clean : d.head ≡ []) (h : HomeAll start size lh) (fit : length lh < size) where
      -- A disk with an empty header is recovered as it is.
      recover_clean :
          (e : Disk B) (k : ℕ)
          → e.head ≡ []
          → ((recover_from_log start e).block k ≡ e.block k)
            × ((recover_from_log start e).head ≡ [])
      unfolding recover_from_log install_trans apply_all apply
      recover_clean e k he = rw (he, install_trans) (refl, refl)

      -- The disk when the header is written.
      abbrev committed : Disk B
      committed = apply (apply_all d (logs start c 0 lh)) (head_write lh)

      committed-block : (k : ℕ) → Home start size k → committed.block k ≡ d.block k
      unfolding apply
      committed-block k hk =
          subst (λ ws. (apply_all d ws).block k ≡ d.block k) (take_whole (logs start c 0 lh))
            ((take-logs (length (logs start c 0 lh)) start size 0 c lh d (omega arith)).1 k hk)

      committed-Logged : Logged committed.block start 0 lh c
      unfolding apply
      committed-Logged = logs-Logged start 0 c lh d

      -- The writes of the commit of a log that is not empty.
      abbrev all_writes : List (Write B)
      all_writes = (logs start c 0 lh ++ (head_write lh ∷ homes c lh)) ++ (head_write [] ∷ [])

      commit-writes : is_empty lh ≡ false → (commit start c lh).writes ≡ all_writes
      unfolding commit
      commit-writes ne =
          let (ws, lg) = write_log_lem start size 0 c c lh h (omega arith) (AgreeAll-refl c lh) in
          rw
            (
              ne,
              ws,
              install_trans-writes start size 0 (write_log start c 0 lh).cache c lh h (omega arith)
                  lg,
            )
            refl

      -- The disk that a crash after `n` writes leaves.
      abbrev crashed : ℕ → Disk B
      crashed n = apply_all d (take n all_writes)

      before_head : (n : ℕ) → n ≤ length lh → IsOld (recover_from_log start (crashed n))
      before_head n le k hk =
          let (hd, bl) = take-logs n start size 0 c lh d (omega arith) in
          subst (λ ws. (recover_from_log start (apply_all d ws)).block k ≡ d.block k) (sym short)
            ((recover_clean (apply_all d (take n (logs start c 0 lh))) k (hd ∙ clean)).0 ∙ bl k hk)
        where
          short : take n all_writes ≡ take n (logs start c 0 lh)
          short =
              take_short n (logs start c 0 lh ++ (head_write lh ∷ homes c lh)) (head_write [] ∷ [])
                (omega (
                  arith,
                  length-append (logs start c 0 lh) (head_write lh ∷ homes c lh),
                  length-logs start c 0 lh,
                ))
              ∙ take_short n (logs start c 0 lh) (head_write lh ∷ homes c lh)
                  (omega (arith, length-logs start c 0 lh))

      -- `j` homes are written.
      installing :
          (j : ℕ) → IsNew (recover_from_log start (apply_all committed (homes c (take j lh))))
      unfolding apply
      installing j k hk =
          (recover_full now c lh k ((homes_lem c (take j lh) committed k).1) h fit (
            homes-Logged start size c (take j lh) lh committed (HomeAll-take j start size lh h) fit
              committed-Logged)).0
          ∙ elim (Bool-cases (absorbs lh k)) [
            | inl in_log ↦ rw in_log refl
            | inr out ↦ rw out (
                (homes_lem c (take j lh) committed k).0
                ∙ rw (absorbs-take j lh k out) (committed-block k hk))
          ]
        where
          now : Disk B
          now = apply_all committed (homes c (take j lh))

      installed :
          IsNew (recover_from_log start (apply (apply_all committed (homes c lh)) (head_write [])))
      unfolding apply
      installed k hk =
          (recover_clean (apply (apply_all committed (homes c lh)) (head_write [])) k refl).0
          ∙ (homes_lem c lh committed k).0
          ∙ elim (Bool-cases (absorbs lh k)) [
            | inl in_log ↦ rw in_log refl
            | inr out ↦ rw out (committed-block k hk)
          ]

      after_head :
          (n : ℕ)
          → length lh < n
          → n ≤ length lh + 1 + length lh
          → IsNew (recover_from_log start (crashed n))
      unfolding apply_all
      after_head n lo hi k hk =
          subst
            (λ ws.
              (recover_from_log start (apply_all d ws)).block k
              ≡ (if absorbs lh k then c k else d.block k))
            (sym cut)
            (rw (apply_all-append d (logs start c 0 lh) (head_write lh ∷ homes c (take j lh)))
              (installing j k hk))
        where
          j : ℕ
          j = n - length lh - 1

          inner :
              take (n - length (logs start c 0 lh)) (head_write lh ∷ homes c lh)
              ≡ head_write lh ∷ homes c (take j lh)
          inner =
              ap (λ i. take i (head_write lh ∷ homes c lh)) index
              ∙ ap (λ l. head_write lh ∷ l) (take-homes j c lh)
            where
              index : n - length (logs start c 0 lh) ≡ suc j
              index = omega (arith, length-logs start c 0 lh)

          cut : take n all_writes ≡ logs start c 0 lh ++ (head_write lh ∷ homes c (take j lh))
          cut =
              take_short n (logs start c 0 lh ++ (head_write lh ∷ homes c lh)) (head_write [] ∷ [])
                (omega (
                  arith,
                  length-append (logs start c 0 lh) (head_write lh ∷ homes c lh),
                  length-logs start c 0 lh,
                  length-homes c lh,
                ))
              ∙ take_long n (logs start c 0 lh) (head_write lh ∷ homes c lh)
                  (omega (arith, length-logs start c 0 lh))
              ∙ ap (λ l. logs start c 0 lh ++ l) inner

      at_end : (n : ℕ) → length lh + 1 + length lh < n → IsNew (recover_from_log start (crashed n))
      unfolding apply_all
      at_end n lo k hk =
          subst
            (λ ws.
              (recover_from_log start (apply_all d ws)).block k
              ≡ (if absorbs lh k then c k else d.block k))
            (sym whole)
            (rw
              (
                apply_all-append d (logs start c 0 lh ++ (head_write lh ∷ homes c lh))
                    (head_write [] ∷ []),
                apply_all-append d (logs start c 0 lh) (head_write lh ∷ homes c lh),
              )
              (installed k hk))
        where
          len :
              length (logs start c 0 lh ++ (head_write lh ∷ homes c lh)) ≡ length lh + 1 + length lh
          len = omega (
            arith,
            length-append (logs start c 0 lh) (head_write lh ∷ homes c lh),
            length-logs start c 0 lh,
            length-homes c lh,
          )

          whole : take n all_writes ≡ all_writes
          whole =
              take_long n (logs start c 0 lh ++ (head_write lh ∷ homes c lh)) (head_write [] ∷ [])
                (omega (arith, len))
              ∙ ap (λ l. (logs start c 0 lh ++ (head_write lh ∷ homes c lh)) ++ l)
                  (take_past (n - length (logs start c 0 lh ++ (head_write lh ∷ homes c lh)))
                    (head_write []) (omega (arith, len)))

      any_crash :
          (n : ℕ)
          → IsOld (recover_from_log start (crashed n)) ⊎ IsNew (recover_from_log start (crashed n))
      any_crash n = elim (dec_lt (length lh) n) [
        | no early ↦ inl (before_head n (omega arith))
        | yes late ↦ elim (dec_lt (length lh + 1 + length lh) n) [
          | no cut ↦ inr (after_head n late (omega arith))
          | yes done ↦ inr (at_end n done)
        ]
      ]

commit-nil {ℓ} : {B : Type ℓ} (start : ℕ) (c : ℕ → B) → (commit start c []).writes ≡ []
unfolding commit
commit-nil start c = refl

-- With a clean header, homes outside of the log and a transaction that fits, a crash after any
-- number of the writes of a commit: once the log is recovered, the homes are all
-- as they were before the transaction or all as it makes them, and a commit with no crash makes
-- them so.
pub commit_crash_safe {ℓ} :
    {B : Type ℓ} (start size : ℕ) (d : Disk B) (c : ℕ → B) (lh : List ℕ)
    → d.head ≡ []
    → HomeAll start size lh
    → length lh < size
    → ((n : ℕ)
        → let r = recover_from_log start (apply_all d (take n (commit start c lh).writes)) in
          IsOld start size d c lh r ⊎ IsNew start size d c lh r)
      × IsNew start size d c lh (recover_from_log start (apply_all d (commit start c lh).writes))
unfolding apply_all absorbs
commit_crash_safe start size d c [] clean h fit = (
  (λ n. inl (λ k hk. rw no_writes (rw (take_none n) (nothing k)))),
  λ k hk. rw no_writes (nothing k ∙ refl),
)
  where
    no_writes : (commit start c []).writes ≡ []
    no_writes = commit-nil start c

    nothing : (k : ℕ) → (recover_from_log start (apply_all d [])).block k ≡ d.block k
    nothing k = (recover_clean start size d c [] clean h fit (apply_all d []) k clean).0
commit_crash_safe start size d c (b ∷ lh) clean h fit =
    rw (commit-writes start size d c (b ∷ lh) clean h fit refl) (
      any_crash start size d c (b ∷ lh) clean h fit,
      subst (λ ws. IsNew start size d c (b ∷ lh) (recover_from_log start (apply_all d ws)))
          (take_whole (all_writes start size d c (b ∷ lh) clean h fit))
          (at_end start size d c (b ∷ lh) clean h fit _ long),
    )
  where
    long :
        length (b ∷ lh) + 1 + length (b ∷ lh)
        < length (all_writes start size d c (b ∷ lh) clean h fit)
    long = omega (
      arith,
      length-append (logs start c 0 (b ∷ lh) ++ (head_write (b ∷ lh) ∷ homes c (b ∷ lh)))
          (head_write [] ∷ []),
      length-append (logs start c 0 (b ∷ lh)) (head_write (b ∷ lh) ∷ homes c (b ∷ lh)),
      length-logs start c 0 (b ∷ lh),
      length-homes c (b ∷ lh),
    )
