-- ===== src/Vm/Space/Alloc/Rounds.antt =====
-- What `uvmalloc` leaves, where its loop stands, and `mappages` of one page.
use mathlib.Core.Path.{subst}
use os_assignment.Prelude.{
  ℕ, ◌+◌, ◌-◌, ◌/◌, ◌%◌, ◌≤◌, ◌<◌, ◌≡◌, ◌≢◌, refl, sym, ap, ◌∙◌, ◌⊎◌, inl, inr, Bool, true, false,
  ◌&&◌, List, ◌∷◌, arith, ltb, leb, Bool-cases,
}
use os_assignment.Kalloc.{pgsize}
use os_assignment.Vm.{maxva, is_valid, pg_round_down, Mem, mappages}
use os_assignment.Vm.Tables.{AllFree}
use os_assignment.Vm.Map.{Maps, mappages-Maps}
use os_assignment.Vm.Map.Write.{entry, IsTree}
use os_assignment.Vm.Unmap.{IsBare}
use os_assignment.Vm.Space.{fresh_page}
use os_assignment.Vm.Space.Spare.{AllPages}
use os_assignment.Vm.Space.Undo.{Mine, Undone}

-- What `uvmalloc` leaves in the pages from `start` to `top`.
pub data Allocs (is_page : ℕ → Bool) (m : Mem) (root start top newsz perm : ℕ)
    : Mem × ℕ → Type 0 where
  grew :
      (m' : Mem)
      → IsTree m' root
      → AllPages is_page m'.free
      → ((va : ℕ) → start ≤ va → va < top → Mine is_page perm (entry m' root va))
      → ((va : ℕ) → va < maxva → (va < start) ⊎ (top ≤ va) → entry m' root va ≡ entry m root va)
      → Allocs is_page m root start top newsz perm (m', newsz)
  took_back :
      (m' : Mem)
      → IsBare m' root
      → ((va : ℕ) → start ≤ va → va < top → is_valid (entry m' root va) ≡ false)
      → ((va : ℕ) → va < maxva → (va < start) ⊎ (top ≤ va) → entry m' root va ≡ entry m root va)
      → Allocs is_page m root start top newsz perm (m', 0)

-- Where the loop stands at address `a`.
pub record Loop (is_page : ℕ → Bool) (m : Mem) (root start a top newsz perm : ℕ) : Type 0 where
  pub tree : IsTree m root
  pub pages : AllPages is_page m.free
  pub aligned_start : start % 4096 ≡ 0
  pub aligned : a % 4096 ≡ 0
  pub aligned_top : top % 4096 ≡ 0
  pub after : start ≤ a
  pub before : a ≤ top
  pub rounds : newsz ≤ top
  pub up : top < newsz + 4096
  pub fits : top ≤ maxva
  pub some_perm : perm % 1024 / 2 ≢ 0
  pub ours : (va : ℕ) → start ≤ va → va < a → Mine is_page perm (entry m root va)
  pub rest : (va : ℕ) → a ≤ va → va < top → is_valid (entry m root va) ≡ false

-- A memory that agrees on the pages gives the same result.
pub undone_lem :
    (is_page : ℕ → Bool) (m m1 : Mem) (root start a top newsz perm : ℕ) (r : Mem × ℕ)
    → start ≤ a
    → a ≤ top
    → top ≤ maxva
    → ((va : ℕ) → va < maxva → (va < a) ⊎ (top ≤ va) → entry m1 root va ≡ entry m root va)
    → ((va : ℕ) → a ≤ va → va < top → is_valid (entry m1 root va) ≡ false)
    → Undone m1 root start a r
    → Allocs is_page m root start top newsz perm r
undone_lem is_page m m1 root start a top newsz perm (m', size) lo hi fits same rest u =
    subst (λ x. Allocs is_page m root start top newsz perm (m', x)) (sym u.zero_size)
      (took_back m' u.bare
        (λ va lo' hi'. elim (Bool-cases (ltb va a)) [
          | inl low ↦
              let e : entry m' root va ≡ 0 =
                u.entries va (omega arith)
                ∙ (let c : (leb start va && ltb va a) ≡ true = ground arith in rw c refl) in
              ap is_valid e
          | inr high ↦
              let e : entry m' root va ≡ entry m1 root va =
                u.entries va (omega arith)
                ∙ (let c : (leb start va && ltb va a) ≡ false = ground arith in rw c refl) in
              ap is_valid e ∙ rest va (ground arith) hi'
        ])
        (λ va hv out.
          u.entries va hv
          ∙ (let c : (leb start va && ltb va a) ≡ false = ground arith in rw c refl)
          ∙ same va hv (omega arith)))

-- `mappages` of one page.
pub one_page-Maps :
    (m : Mem) (root a q perm : ℕ)
    → a % 4096 ≡ 0
    → a + 4096 ≤ maxva
    → IsTree m root
    → Maps m root a 0 q perm (mappages m root a pgsize q perm)
one_page-Maps m root a q perm al fit tree =
    let none_more : (a + 4096 - 1) / 4096 - a / 4096 ≡ 0 = omega arith in
    let at : pg_round_down a ≡ a = omega arith in
    subst (λ x. Maps m root x 0 q perm (mappages m root a pgsize q perm)) at
      (subst (λ n. Maps m root (pg_round_down a) n q perm (mappages m root a pgsize q perm))
        none_more (mappages-Maps m root a 4096 q perm (omega arith) fit tree))

pub fresh_page-IsTree :
    (m : Mem) (root q : ℕ) (l : List ℕ)
    → m.free ≡ q ∷ l
    → IsTree m root
    → IsTree (fresh_page m q l) root
fresh_page-IsTree m root q l e (place, t) = (
  place,
  record { at_top = t.at_top; below = t.below; spare = (subst (λ x. AllFree place x) e t.spare).3 },
)
