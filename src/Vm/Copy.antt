-- ===== src/Vm/Copy.antt =====
-- kernel/vm.c: `copyin` and `copyout`, page by page, do what a copy byte by byte does.
pub mod In
pub mod Bytes
pub mod Str
use mathlib.Core.List.{append_assoc}
use os_assignment.Prelude.{
  ℕ, zero, suc, ◌+◌, ◌-◌, ◌*◌, ◌/◌, ◌%◌, ◌≤◌, ◌<◌, ◌≡◌, refl, sym, ap, ◌∙◌, inl, inr, Bool, true,
  false, Option, none, some, List, [], ◌∷◌, ◌++◌, arith, ltb, ◌==◌, if◌then◌else◌, Bool-cases,
  Option-cases, update, length, take, drop, length-drop,
}
use os_assignment.Kalloc.{pgsize}
use os_assignment.Vm.Tables.{lookup}
use os_assignment.Vm.Map.Write.{entry}
use os_assignment.Vm.Unmap.Read.{walkaddr_lem}
use os_assignment.Vm.{pg_round_down, Mem, walkaddr}
use os_assignment.Vm.Copy.Bytes.{
  page_of, read_at, write_at, chunk, prepend, copyin_from, copyin, copyout_from, copyout, address,
  bytes_in, bytes_out,
}
use os_assignment.Vm.Copy.In.{page_of-same, address-in, address-out, chunk_bounds}

-- Writing bytes changes no translation.
page_of-bytes :
    (m : Mem) (root va : ℕ) (b : ℕ → ℕ)
    → page_of (record m { bytes = b }) root va ≡ page_of m root va
unfolding page_of entry lookup
page_of-bytes m root va b =
    ap (λ o. elim o [ none ↦ none | some pa ↦ if pa == 0 then none else some pa ])
      (walkaddr_lem (record m { bytes = b }) root (pg_round_down va)
        ∙ sym (walkaddr_lem m root (pg_round_down va)))

bytes_out-one :
    (m : Mem) (root va p x : ℕ) (xs : List ℕ)
    → address m root va ≡ some p
    → bytes_out m root va (x ∷ xs)
      ≡ bytes_out (record m { bytes = update m.bytes p x }) root (va + 1) xs
unfolding bytes_out
bytes_out-one m root va p x xs e = rw (e, bytes_out) refl

-- The bytes of a page are written together.
bytes_out-chunk :
    (k : ℕ) (m : Mem) (root va pa : ℕ) (src : List ℕ)
    → page_of m root va ≡ some pa
    → va % 4096 + k ≤ 4096
    → k ≤ length src
    → bytes_out m root va src
      ≡ bytes_out
          (record m { bytes = write_at m.bytes (pa + va % 4096) (take k src) })
          root
          (va + k)
          (drop k src)
unfolding write_at
bytes_out-chunk zero m root va pa src e h le = ap (λ a. bytes_out m root a src) (omega arith)
bytes_out-chunk (suc k) m root va pa [] e h le = absurd (omega arith)
bytes_out-chunk (suc zero) m root va pa (x ∷ xs) e h le =
    bytes_out-one m root va (pa + va % 4096) x xs (address-in m root va pa e)
bytes_out-chunk (suc (suc k)) m root va pa (x ∷ xs) e h le =
    bytes_out-one m root va (pa + va % 4096) x xs (address-in m root va pa e)
    ∙ bytes_out-chunk (suc k) (record m { bytes = update m.bytes (pa + va % 4096) x }) root (va + 1)
        pa xs
        (page_of-bytes m root (va + 1) (update m.bytes (pa + va % 4096) x)
          ∙ page_of-same m root (va + 1) va (omega arith)
          ∙ e)
        (omega arith) (omega arith)
    ∙ ap
        (λ a.
          bytes_out
            (record m { bytes = write_at (update m.bytes (pa + va % 4096) x) a (take (suc k) xs) })
            root (va + 1 + suc k) (drop (suc k) xs))
        (omega arith)
    ∙ ap
        (λ a.
          bytes_out
            (record m {
              bytes =
                  write_at (update m.bytes (pa + va % 4096) x) (pa + va % 4096 + 1)
                    (take (suc k) xs);
            })
            root a (drop (suc k) xs))
        (omega arith)

bytes_out-nil : (m : Mem) (root va : ℕ) → bytes_out m root va [] ≡ (m, true)
unfolding bytes_out
bytes_out-nil m root va = refl

drop_all : (xs : List ℕ) → drop (length xs) xs ≡ []
drop_all [] = refl
drop_all (x ∷ xs) = drop_all xs

copyout_from-nil : (f : ℕ) (m : Mem) (root va : ℕ) → copyout_from f m root va [] ≡ (m, true)
unfolding copyout_from
copyout_from-nil zero m root va = refl
copyout_from-nil (suc f) m root va = refl

copyout_from-stop :
    (f : ℕ) (m : Mem) (root va x : ℕ) (xs : List ℕ)
    → page_of m root va ≡ none
    → copyout_from (suc f) m root va (x ∷ xs) ≡ (m, false)
unfolding copyout_from
copyout_from-stop f m root va x xs e = ground (arith, e)

bytes_out-stop :
    (m : Mem) (root va x : ℕ) (xs : List ℕ)
    → page_of m root va ≡ none
    → bytes_out m root va (x ∷ xs) ≡ (m, false)
unfolding bytes_out
bytes_out-stop m root va x xs e = rw (address-out m root va e, bytes_out) refl

copyout_from-go :
    (f : ℕ) (m : Mem) (root va pa x : ℕ) (xs : List ℕ)
    → page_of m root va ≡ some pa
    → copyout_from (suc f) m root va (x ∷ xs)
      ≡ copyout_from f
          (record m {
            bytes =
                write_at m.bytes
                  (pa + (va - pg_round_down va))
                  (take (chunk va (length (x ∷ xs))) (x ∷ xs));
          })
          root
          (pg_round_down va + pgsize)
          (drop (chunk va (length (x ∷ xs))) (x ∷ xs))
unfolding copyout_from
copyout_from-go f m root va pa x xs e = ground (arith, e)

bytes_out-next :
    (m : Mem) (root va : ℕ) (src : List ℕ)
    → bytes_out m root (va + chunk va (length src)) (drop (chunk va (length src)) src)
      ≡ bytes_out m root (pg_round_down va + pgsize) (drop (chunk va (length src)) src)
unfolding bytes_out
bytes_out-next m root va src =
    elim (Bool-cases (ltb (length src) (pgsize - (va - pg_round_down va)))) [
      | inl last ↦ rw last (let z : drop (length src) src ≡ [] = drop_all src in rw z refl)
      | inr full ↦
          rw full (
            ap (λ a. bytes_out m root a (drop (pgsize - (va - pg_round_down va)) src))
              (omega arith))
    ]

copyout_from-bytes_out :
    (f : ℕ) (m : Mem) (root va : ℕ) (src : List ℕ)
    → length src ≤ f
    → copyout_from f m root va src ≡ bytes_out m root va src
copyout_from-bytes_out f m root va [] h =
    copyout_from-nil f m root va ∙ sym (bytes_out-nil m root va)
copyout_from-bytes_out zero m root va (x ∷ xs) h = absurd (omega arith)
copyout_from-bytes_out (suc f) m root va (x ∷ xs) h = elim (Option-cases (page_of m root va)) [
  | inl e ↦ copyout_from-stop f m root va x xs e ∙ sym (bytes_out-stop m root va x xs e)
  | inr (pa, e) ↦
      let (some_byte, fits, same) = chunk_bounds va (length (x ∷ xs)) (omega arith) in
      copyout_from-go f m root va pa x xs e
      ∙ copyout_from-bytes_out f
          (record m {
            bytes =
                write_at m.bytes (pa + (va - pg_round_down va))
                  (take (chunk va (length (x ∷ xs))) (x ∷ xs));
          })
          root (pg_round_down va + pgsize) (drop (chunk va (length (x ∷ xs))) (x ∷ xs))
          (omega (arith, length-drop {0} (chunk va (length (x ∷ xs))) (x ∷ xs)))
      ∙ sym (
          bytes_out-next
            (record m {
              bytes =
                  write_at m.bytes (pa + (va - pg_round_down va))
                    (take (chunk va (length (x ∷ xs))) (x ∷ xs));
            })
            root va (x ∷ xs))
      ∙ ap
          (λ a.
            bytes_out
              (record m {
                bytes = write_at m.bytes (pa + a) (take (chunk va (length (x ∷ xs))) (x ∷ xs));
              })
              root (va + chunk va (length (x ∷ xs))) (drop (chunk va (length (x ∷ xs))) (x ∷ xs)))
          (omega arith)
      ∙ sym (bytes_out-chunk (chunk va (length (x ∷ xs))) m root va pa (x ∷ xs) e same fits)
]

-- `copyout` leaves the memory that a copy byte by byte leaves, also where it fails in the middle,
-- and fails just where one of the addresses has no page.
pub copyout-bytes_out :
    (m : Mem) (root dstva : ℕ) (src : List ℕ)
    → copyout m root dstva src ≡ bytes_out m root dstva src
unfolding copyout
copyout-bytes_out m root dstva src =
    copyout_from-bytes_out (length src) m root dstva src (omega arith)
