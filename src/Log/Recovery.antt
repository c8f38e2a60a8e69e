-- ===== src/Log/Recovery.antt =====
-- What the loops of kernel/log.c leave on the disk, whole or cut short by a crash.
use mathlib.Core.Path.{ap₂}
use os_assignment.Prelude.{
  ℕ, zero, suc, ◌+◌, ◌≤◌, ◌<◌, ◌≡◌, ◌⊎◌, inl, inr, ◌||◌, refl, ap, ◌∙◌, List, [], ◌∷◌, ◌++◌, arith,
  length, take, update, update-eq, update-ne, ◌==◌, if◌then◌else◌, Bool-cases,
}
use os_assignment.Log.{
  Write, block_write, Disk, apply, apply_all, install_trans, write_log, absorbs,
}

-- A block outside of the log, whose `size` blocks begin at `start`.
abbrev pub Home : ℕ → ℕ → ℕ → Type 0
Home start size b = (b < start) ⊎ (start + size ≤ b)

abbrev pub HomeAll : ℕ → ℕ → List ℕ → Type 0
HomeAll start size [] = Unit
HomeAll start size (b ∷ lh) = Home start size b × HomeAll start size lh

module _ {ℓ} {B : Type ℓ} where
  -- The log blocks from entry `tail` on hold what `c` has for the entries' homes.
  abbrev pub Logged : (ℕ → B) → ℕ → ℕ → List ℕ → (ℕ → B) → Type ℓ
  Logged f start tail [] c = Unit
  Logged f start tail (b ∷ lh) c = (f (start + tail + 1) ≡ c b) × Logged f start (tail + 1) lh c

  -- The writes that put `c` at the homes.
  abbrev pub homes : (ℕ → B) → List ℕ → List (Write B)
  homes c [] = []
  homes c (b ∷ lh) = block_write b (c b) ∷ homes c lh

  pub apply_all-append :
      (d : Disk B) (a b : List (Write B)) → apply_all d (a ++ b) ≡ apply_all (apply_all d a) b
  unfolding apply_all
  apply_all-append d [] b = refl
  apply_all-append d (w ∷ a) b = apply_all-append (apply d w) a b

  -- Log blocks other than the entries' do not matter.
  Logged-update :
      (start size tail : ℕ) (f c : ℕ → B) (lh : List ℕ) (x : ℕ) (v : B)
      → Home start size x ⊎ (x < start + tail + 1)
      → tail + length lh < size
      → Logged f start tail lh c
      → Logged (update f x v) start tail lh c
  Logged-update start size tail f c [] x v h fit lg = tt
  Logged-update start size tail f c (b ∷ lh) x v h fit (e, lg) = (
    update-ne f x (start + tail + 1) v (ground arith) ∙ e,
    Logged-update start size (tail + 1) f c lh x v (ground arith) (omega arith) lg,
  )

  -- What `install_trans` writes, when the log is complete.
  pub install_trans-writes :
      (start size tail : ℕ) (f c : ℕ → B) (lh : List ℕ)
      → HomeAll start size lh
      → tail + length lh < size
      → Logged f start tail lh c
      → (install_trans start f tail lh).writes ≡ homes c lh
  unfolding install_trans
  install_trans-writes start size tail f c [] h fit lg = refl
  install_trans-writes start size tail f c (b ∷ lh) (hb, h) fit (e, lg) =
      ap₂ ◌∷◌ (ap (block_write b) e) (
        install_trans-writes start size (tail + 1) (update f b (f (start + tail + 1))) c lh h
          (omega arith) (Logged-update start size (tail + 1) f c lh b _ (inl hb) (omega arith) lg))

  -- The disk after the homes are written.
  pub homes_lem :
      (c : ℕ → B) (lh : List ℕ) (d : Disk B) (k : ℕ)
      → ((apply_all d (homes c lh)).block k ≡ (if absorbs lh k then c k else d.block k))
        × ((apply_all d (homes c lh)).head ≡ d.head)
  unfolding apply_all apply absorbs
  homes_lem c [] d k = (refl, refl)
  homes_lem c (b ∷ lh) d k =
      let (e, h) = homes_lem c lh (record d { block = update d.block b (c b) }) k in (e ∙ one, h)
    where
      one :
          (if absorbs lh k then c k else update d.block b (c b) k)
          ≡ (if b == k || absorbs lh k then c k else d.block k)
      one = elim (Bool-cases (b == k)) [
        | inl same ↦ let e : b ≡ k = ground arith in rw (same, e) (ground arith)
        | inr other ↦ rw other
      ]

  -- The writes that put `c` at the entries' log blocks.
  abbrev pub logs : ℕ → (ℕ → B) → ℕ → List ℕ → List (Write B)
  logs start c tail [] = []
  logs start c tail (b ∷ lh) = block_write (start + tail + 1) (c b) ∷ logs start c (tail + 1) lh

  abbrev AgreeAll : (ℕ → B) → (ℕ → B) → List ℕ → Type ℓ
  AgreeAll f c [] = Unit
  AgreeAll f c (b ∷ lh) = (f b ≡ c b) × AgreeAll f c lh

  AgreeAll-update :
      (start size tail : ℕ) (f c : ℕ → B) (lh : List ℕ) (v : B)
      → HomeAll start size lh
      → tail + 1 < size
      → AgreeAll f c lh
      → AgreeAll (update f (start + tail + 1) v) c lh
  AgreeAll-update start size tail f c [] v h fit a = tt
  AgreeAll-update start size tail f c (b ∷ lh) v (hb, h) fit (e, a) = (
    update-ne f (start + tail + 1) b v (ground arith) ∙ e,
    AgreeAll-update start size tail f c lh v h fit a,
  )

  pub AgreeAll-refl : (c : ℕ → B) (lh : List ℕ) → AgreeAll c c lh
  AgreeAll-refl c [] = tt
  AgreeAll-refl c (b ∷ lh) = (refl, AgreeAll-refl c lh)

  write_log-below :
      (start tail : ℕ) (f : ℕ → B) (lh : List ℕ) (k : ℕ)
      → k < start + tail + 1
      → (write_log start f tail lh).cache k ≡ f k
  unfolding write_log
  write_log-below start tail f [] k h = refl
  write_log-below start tail f (b ∷ lh) k h =
      write_log-below start (tail + 1) (update f (start + tail + 1) (f b)) lh k (omega arith)
      ∙ update-ne f (start + tail + 1) k _ (ground arith)

  -- `write_log` fills the log from the cache, on the disk and in the cache itself.
  pub write_log_lem :
      (start size tail : ℕ) (f c : ℕ → B) (lh : List ℕ)
      → HomeAll start size lh
      → tail + length lh < size
      → AgreeAll f c lh
      → ((write_log start f tail lh).writes ≡ logs start c tail lh)
        × Logged (write_log start f tail lh).cache start tail lh c
  unfolding write_log
  write_log_lem start size tail f c [] h fit a = (refl, tt)
  write_log_lem start size tail f c (b ∷ lh) (hb, h) fit (e, a) =
      let f' : ℕ → B = update f (start + tail + 1) (f b) in
      let (ws, lg) =
        write_log_lem start size (tail + 1) f' c lh h (omega arith)
          (AgreeAll-update start size tail f c lh (f b) h (omega arith) a) in
      (
        ap₂ ◌∷◌ (ap (block_write (start + tail + 1)) e) ws,
        (
          write_log-below start (tail + 1) f' lh (start + tail + 1) (omega arith)
              ∙ update-eq f (start + tail + 1) (start + tail + 1) (f b) refl
              ∙ e,
          lg,
        ),
      )

  -- Writes to the log leave the homes and the header, also when they are cut short.
  pub take-logs :
      (n start size tail : ℕ) (c : ℕ → B) (lh : List ℕ) (d : Disk B)
      → tail + length lh < size
      → ((apply_all d (take n (logs start c tail lh))).head ≡ d.head)
        × ((k : ℕ)
            → Home start size k
            → (apply_all d (take n (logs start c tail lh))).block k ≡ d.block k)
  unfolding apply_all apply
  take-logs zero start size tail c lh d fit = (refl, λ k h. refl)
  take-logs (suc n) start size tail c [] d fit = (refl, λ k h. refl)
  take-logs (suc n) start size tail c (b ∷ lh) d fit =
      let (hd, bl) =
        take-logs n start size (tail + 1) c lh
          (record d { block = update d.block (start + tail + 1) (c b) }) (omega arith) in
      (hd, λ k h. bl k h ∙ update-ne d.block (start + tail + 1) k (c b) (ground arith))

  logs-below :
      (start tail : ℕ) (c : ℕ → B) (lh : List ℕ) (d : Disk B) (k : ℕ)
      → k < start + tail + 1
      → (apply_all d (logs start c tail lh)).block k ≡ d.block k
  unfolding apply_all apply
  logs-below start tail c [] d k h = refl
  logs-below start tail c (b ∷ lh) d k h =
      logs-below start (tail + 1) c lh _ k (omega arith)
      ∙ update-ne d.block (start + tail + 1) k (c b) (ground arith)

  -- Written out whole, the log is complete.
  pub logs-Logged :
      (start tail : ℕ) (c : ℕ → B) (lh : List ℕ) (d : Disk B)
      → Logged (apply_all d (logs start c tail lh)).block start tail lh c
  unfolding apply_all apply
  logs-Logged start tail c [] d = tt
  logs-Logged start tail c (b ∷ lh) d = (
    logs-below start (tail + 1) c lh _ (start + tail + 1) (omega arith)
        ∙ update-eq d.block (start + tail + 1) (start + tail + 1) (c b) refl,
    logs-Logged start (tail + 1) c lh _,
  )

  -- Writes to homes leave the log.
  pub homes-Logged :
      (start size : ℕ) (c : ℕ → B) (xs : List ℕ) (lh : List ℕ) (d : Disk B)
      → HomeAll start size xs
      → length lh < size
      → Logged d.block start 0 lh c
      → Logged (apply_all d (homes c xs)).block start 0 lh c
  unfolding apply_all apply
  homes-Logged start size c [] lh d h fit lg = lg
  homes-Logged start size c (b ∷ xs) lh d (hb, h) fit lg =
      homes-Logged start size c xs lh _ h fit
        (Logged-update start size 0 d.block c lh b (c b) (inl hb) (omega arith) lg)
