-- ===== src/Fs/Blocks/Slots.antt =====
-- The entries of a file of kernel/fs.c by number, the files whose blocks are in use and all
-- different, and what `balloc` finds.
use os_assignment.Prelude.{
  ℕ, zero, suc, ◌+◌, ◌-◌, ◌≤◌, ◌<◌, ◌≡◌, ◌≢◌, ap, ◌∙◌, ◌⊎◌, inl, inr, Bool, true, false, Option,
  none, some, arith, ltb, leb, ◌==◌, if◌then◌else◌, update, Bool-cases,
}
use os_assignment.Fs.{ndirect, Disk, zeroed, find_free, balloc}

-- The entries of a file: the direct ones, the indirect block, and the entries of that block.
unfoldable pub slot : Disk → (ℕ → ℕ) → ℕ → ℕ
slot d addrs s =
    if leb s ndirect
    then addrs s
    else if addrs ndirect == 0
    then 0
    else d.words (addrs ndirect) (s - ndirect - 1)

-- How many entries there are, and the entry of block `bn` of the file.
abbrev pub nslots : ℕ
nslots = 269

abbrev pub slot_of : ℕ → ℕ
slot_of bn = if ltb bn ndirect then bn else bn + 1

pub record IsFile (d : Disk) (addrs : ℕ → ℕ) : Type 0 where
  pub boot : d.used 0 ≡ true
  pub in_use : (s : ℕ) → s < nslots → slot d addrs s ≢ 0 → d.used (slot d addrs s) ≡ true
  pub in_range : (s : ℕ) → s < nslots → slot d addrs s ≢ 0 → slot d addrs s < d.size
  pub apart :
      (s t : ℕ)
      → s < nslots
      → t < nslots
      → slot d addrs s ≢ 0
      → slot d addrs s ≡ slot d addrs t
      → s ≡ t

-- What the search of `balloc` finds.
abbrev Finds : ℕ → ℕ → (ℕ → Bool) → Option ℕ → Type 0
Finds n b used none = (k : ℕ) → b ≤ k → k < b + n → used k ≡ true
Finds n b used (some k) =
    (b ≤ k) × (k < b + n) × (used k ≡ false) × ((j : ℕ) → b ≤ j → j < k → used j ≡ true)

find_free-Finds : (n b : ℕ) (used : ℕ → Bool) → Finds n b used (find_free n b used)
unfolding find_free
find_free-Finds zero b used = λ k lo hi. absurd (omega arith)
find_free-Finds (suc n) b used =
    go (Bool-cases (used b)) (find_free n (b + 1) used) (find_free-Finds n (b + 1) used)
  where
    go :
        (used b ≡ true) ⊎ (used b ≡ false)
        → (r : Option ℕ) → Finds n (b + 1) used r
        → Finds (suc n) b used (if used b then r else some b)
    go (inr free) r h = rw free (omega arith, omega arith, free, λ j lo hi. absurd (omega arith))
    go (inl busy) none h = rw busy (λ k lo hi. grind (arith, h, busy))
    go (inl busy) (some k) (lo, hi, free, below) =
        rw busy (omega arith, omega arith, free, λ j lo' hi'. grind (arith, below, busy))

-- `balloc` on a disk whose block 0 is in use takes the first free block, marks it and clears it; it
-- returns 0 and changes nothing just when there is none.
pub data Balloc (d : Disk) : Disk × ℕ → Type 0 where
  full : ((b : ℕ) → b < d.size → d.used b ≡ true) → Balloc d (d, 0)
  took :
      (b : ℕ)
      → b ≢ 0
      → b < d.size
      → d.used b ≡ false
      → ((j : ℕ) → j < b → d.used j ≡ true)
      → Balloc d (record d { used = update d.used b true; words = zeroed d.words b }, b)

pub balloc-Balloc : (d : Disk) → d.used 0 ≡ true → Balloc d (balloc d)
unfolding balloc
balloc-Balloc d boot = go (find_free d.size 0 d.used) (find_free-Finds d.size 0 d.used)
  where
    go :
        (r : Option ℕ)
        → Finds d.size 0 d.used r
        → Balloc d (elim r [
          | none ↦ (d, 0)
          | some b ↦ (record d { used = update d.used b true; words = zeroed d.words b }, b)
        ])
    go none all = full (λ b h. all b (omega arith) (omega arith))
    go (some b) (lo, hi, free, below) =
        took b (λ e. let busy : d.used b ≡ true = ap d.used e ∙ boot in cc) (omega arith) free
          (λ j h. below j (omega arith) h)
