-- ===== src/Kalloc/Links/Stack.antt =====
-- The links that `kfree` and `kalloc` keep in the free pages make a stack of pages.
use mathlib.Core.Path.{subst}
use os_assignment.Prelude.{
  ℕ, zero, suc, ◌+◌, ◌*◌, ◌/◌, ◌%◌, ◌≤◌, ◌<◌, ◌≡◌, ◌⊎◌, ◌==◌, true, false, refl, Option, none, some,
  List, [], ◌∷◌, arith, inl, inr, update, Bool-cases, sym, ◌∙◌, dec_lt, ℕ_discrete,
}
use os_assignment.Strings.{Memory, memset}
use os_assignment.Strings.Move.{memset_lem}
use os_assignment.Kalloc.{pgsize, phystop, is_page}
use os_assignment.Kalloc.Pages.{Free}
use os_assignment.Kalloc.Links.{Links, load_bytes, store_bytes, kfree_link, kalloc_link}

-- An aligned page between the end of the kernel and the top of the memory.
abbrev pub Good : ℕ → ℕ → Type 0
Good end p = (p % 4096 ≡ 0) × (end ≤ p) × (p < phystop)

-- From `head` on, the links lead through the pages of the list to the null pointer.
abbrev pub Linked : Memory → ℕ → List ℕ → Type 0
Linked m head [] = head ≡ 0
Linked m head (p ∷ l) = (head ≡ p) × Linked m (load_bytes m p 8) l

-- Different good pages.
abbrev pub GoodPages : ℕ → List ℕ → Type 0
GoodPages end [] = Unit
GoodPages end (p ∷ l) = Good end p × Free p l × GoodPages end l

-- The free pages are those of the list, in its order.
abbrev pub Holds : ℕ → Links → List ℕ → Type 0
Holds end k l = Linked k.memory k.freelist l × GoodPages end l

-- The memories agree outside of the page.
abbrev pub Outside : ℕ → Memory → Memory → Type 0
Outside p m m' = (i : ℕ) → (i < p) ⊎ (p + 4096 ≤ i) → m i ≡ m' i

-- What `kfree` of `pa` makes of the free pages `l`: a good page comes first, with its other bytes
-- filled with 1; anything else panics.
abbrev pub Pushed : ℕ → Links → ℕ → List ℕ → Option Links → Type 0
Pushed end k pa l none = ¬ Good end pa
Pushed end k pa l (some k') =
    Good end pa
    × Holds end k' (pa ∷ l)
    × Outside pa k.memory k'.memory
    × ((i : ℕ) → pa + 8 ≤ i → i < pa + 4096 → k'.memory i ≡ 1)

-- What `kalloc` makes of the free pages: the first one is returned, filled with 5, and the others
-- are left; null and no change where there is none.
abbrev pub Popped : ℕ → Links → List ℕ → Links × ℕ → Type 0
Popped end k [] r = r ≡ (k, 0)
Popped end k (p ∷ l) (k', pa) =
    (pa ≡ p)
    × Holds end k' l
    × Outside p k.memory k'.memory
    × ((i : ℕ) → p ≤ i → i < p + 4096 → k'.memory i ≡ 5)

abbrev room : ℕ → ℕ
room zero = 1
room (suc n) = 256 * room n

load_bytes-ext :
    (n p : ℕ) (m m' : Memory)
    → ((i : ℕ) → p ≤ i → i < p + n → m i ≡ m' i)
    → load_bytes m p n ≡ load_bytes m' p n
unfolding load_bytes
load_bytes-ext zero p m m' h = refl
load_bytes-ext (suc n) p m m' h =
    let rest = load_bytes-ext n (p + 1) m m' (λ i a b. h i (omega arith) (omega arith)) in
    let first = h p (omega arith) (omega arith) in rw (first, rest) refl

store_bytes-other : (n p v i : ℕ) (m : Memory) → (i < p) ⊎ (p + n ≤ i) → store_bytes m p n v i ≡ m i
unfolding store_bytes
store_bytes-other zero p v i m h = refl
store_bytes-other (suc n) p v i m h =
    store_bytes-other n (p + 1) (v / 256) i (update m p (v % 256)) (ground arith) ∙ ground arith

load_bytes-store_bytes :
    (n p v : ℕ) (m : Memory) → v < room n → load_bytes (store_bytes m p n v) p n ≡ v
unfolding load_bytes store_bytes
load_bytes-store_bytes zero p v m h = omega arith
load_bytes-store_bytes (suc n) p v m h =
    let m1 = update m p (v % 256) in
    let first : store_bytes m1 (p + 1) n (v / 256) p ≡ v % 256 =
      store_bytes-other n (p + 1) (v / 256) p m1 (inl (omega arith)) ∙ ground arith in
    let rest : load_bytes (store_bytes m1 (p + 1) n (v / 256)) (p + 1) n ≡ v / 256 =
      load_bytes-store_bytes n (p + 1) (v / 256) m1 (omega arith) in
    rw (first, rest) (omega arith)

-- Links in other pages stay.
Linked-Outside :
    (end : ℕ) (m m' : Memory) (pa head : ℕ) (l : List ℕ)
    → pa % 4096 ≡ 0
    → Outside pa m m'
    → Free pa l
    → GoodPages end l
    → Linked m head l
    → Linked m' head l
Linked-Outside end m m' pa head [] a out f g h = h
Linked-Outside end m m' pa head (p ∷ l) a out (ne, f) ((ap, _, _), _, g) (e, h) = (
  e,
  subst (λ x. Linked m' x l)
      (load_bytes-ext 8 p m m' (λ i lo hi. out i (elim (dec_lt p pa) [
        | yes lt ↦ inl (omega arith)
        | no ge ↦ elim (ℕ_discrete p pa) [ yes s ↦ absurd (ne s) | no d ↦ inr (omega arith) ]
      ])))
      (Linked-Outside end m m' pa (load_bytes m p 8) l a out f g h),
)

Linked-room :
    (end : ℕ) (m : Memory) (head : ℕ) (l : List ℕ)
    → GoodPages end l
    → Linked m head l
    → head < room 8
Linked-room end m head [] g h = omega arith
Linked-room end m head (p ∷ l) ((_, _, top), _, _) (e, _) = omega arith

is_page-Good : (end p : ℕ) → is_page end p ≡ true → Good end p
is_page-Good end p h = ground arith

is_page-not_Good : (end p : ℕ) → is_page end p ≡ false → ¬ Good end p
is_page-not_Good end p h (a, b, c) = ground arith

kfree_link-Pushed :
    (end : ℕ) (k : Links) (pa : ℕ) (l : List ℕ)
    → Holds end k l
    → Free pa l
    → Pushed end k pa l (kfree_link end k pa)
unfolding kfree_link
kfree_link-Pushed end k pa l (links, pages) f = elim (Bool-cases (is_page end pa)) [
  | inr bad ↦ rw bad (is_page-not_Good end pa bad)
  | inl ok ↦
      let good = is_page-Good end pa ok in
      let m1 = memset k.memory pa 1 pgsize in
      let out : Outside pa k.memory (store_bytes m1 pa 8 k.freelist) = λ i o. sym (
        store_bytes-other 8 pa k.freelist i m1 (ground arith)
        ∙ memset_lem k.memory pa 1 pgsize i
        ∙ ground arith) in
      let next =
        load_bytes-store_bytes 8 pa k.freelist m1
          (Linked-room end k.memory k.freelist l pages links) in
      rw ok (
        good,
        (
          (
            refl,
            subst (λ x. Linked (store_bytes m1 pa 8 k.freelist) x l) (sym next)
                (Linked-Outside end k.memory (store_bytes m1 pa 8 k.freelist) pa k.freelist l good.0
                  out f pages links),
          ),
          (good, f, pages),
        ),
        out,
        (λ i lo hi.
            store_bytes-other 8 pa k.freelist i m1 (inr lo)
            ∙ memset_lem k.memory pa 1 pgsize i
            ∙ ground arith),
      )
]

kalloc_link-Popped :
    (end : ℕ) (k : Links) (l : List ℕ) → 0 < end → Holds end k l → Popped end k l (kalloc_link k)
unfolding kalloc_link
kalloc_link-Popped end k [] pos (e, _) = rw e refl
kalloc_link-Popped end k (p ∷ l) pos ((e, h), (good, f, pages)) =
    let ne : (k.freelist == 0) ≡ false = ground arith in
    let m1 = memset k.memory k.freelist 5 pgsize in
    let out : Outside p k.memory m1 =
      λ i o. sym (memset_lem k.memory k.freelist 5 pgsize i ∙ ground arith) in
    rw ne (
      e,
      (
        subst (λ x. Linked m1 (load_bytes k.memory x 8) l) (sym e)
            (Linked-Outside end k.memory m1 p (load_bytes k.memory p 8) l good.0 out f pages h),
        pages,
      ),
      out,
      (λ i lo hi. memset_lem k.memory k.freelist 5 pgsize i ∙ ground arith),
    )

-- Where the links lead through different good pages and the end of the kernel is not 0: `kfree` of
-- a good page that is not free puts it in front of the free pages and fills its bytes behind the
-- link with 1, and it panics for an address that is no good page; `kalloc` takes the first of the
-- free pages and fills it with 5, or returns null and changes nothing where none is free. The others
-- stay free in their order, and no byte outside of the page changes.
pub free_list_lem :
    (end : ℕ) (k : Links) (pa : ℕ) (l : List ℕ)
    → 0 < end
    → Holds end k l
    → Free pa l
    → Pushed end k pa l (kfree_link end k pa) × Popped end k l (kalloc_link k)
free_list_lem end k pa l pos h f =
    (kfree_link-Pushed end k pa l h f, kalloc_link-Popped end k l pos h)
