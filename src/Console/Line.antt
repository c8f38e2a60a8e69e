-- ===== src/Console/Line.antt =====
-- The input buffer under `consoleintr`: its cursors stay in order, and what a reader may see is not
-- edited any more.
use os_assignment.Prelude.{
  ℕ, zero, suc, ◌+◌, ◌%◌, ◌^◌, ◌≤◌, ◌<◌, ◌≡◌, ◌≢◌, ◌⊎◌, inl, inr, refl, ap, ◌∙◌, true, false, not,
  ◌&&◌, ◌||◌, List, [], ◌∷◌, ◌++◌, arith, ltb, ◌==◌, Bool-cases,
}
use os_assignment.Ring.{window, window-push, window-keep}
use os_assignment.Pipe.{add_uint}
use os_assignment.Console.{
  input_buf_size, Cons, sub_uint, Typed, erase, kill_line, newline, store, stored, consoleintr,
}

pub record IsValid (c : Cons) : Type 0 where
  pub r_small : c.r < 2 ^ 32
  pub w_small : c.w < 2 ^ 32
  pub e_small : c.e < 2 ^ 32
  pub ordered : sub_uint c.w c.r ≤ sub_uint c.e c.r
  pub fits : sub_uint c.e c.r ≤ input_buf_size

-- What a reader may see, and all of the input with the line that is still edited.
abbrev pub committed : Cons → List ℕ
committed c = window input_buf_size c.buf c.r (sub_uint c.w c.r)

abbrev pub edited : Cons → List ℕ
edited c = window input_buf_size c.buf c.r (sub_uint c.e c.r)

erase-IsValid :
    (c : Cons)
    → IsValid c
    → c.e ≢ c.w
    → IsValid (erase c) × (sub_uint (erase c).e c.w + 1 ≡ sub_uint c.e c.w)
unfolding erase
erase-IsValid c v ne = (
  record {
    r_small = v.r_small;
    w_small = v.w_small;
    e_small = omega arith;
    ordered = omega arith;
    fits = omega arith;
  },
  omega arith,
)

kill_line-IsValid :
    (f : ℕ) (c : Cons)
    → IsValid c
    → IsValid (kill_line f c).0 × (committed (kill_line f c).0 ≡ committed c)
unfolding kill_line erase
kill_line-IsValid zero c v = (v, refl)
kill_line-IsValid (suc f) c v =
    elim (Bool-cases (c.e == c.w || c.buf (sub_uint c.e 1 % input_buf_size) == 10)) [
      | inl stop ↦ rw stop (v, refl)
      | inr go ↦ rw go (kill_line-IsValid f (erase c) (erase-IsValid c v (ground arith)).0)
    ]

store-IsValid :
    (c : Cons) (ch : ℕ)
    → IsValid c
    → sub_uint c.e c.r < input_buf_size
    → IsValid (store c ch)
      × (committed (store c ch) ≡ committed c)
      × (edited (store c ch) ≡ edited c ++ (ch ∷ []))
unfolding store
store-IsValid c ch v h = (
  record {
    r_small = v.r_small;
    w_small = v.w_small;
    e_small = omega arith;
    ordered = omega arith;
    fits = omega arith;
  },
  window-keep input_buf_size c.buf ch (sub_uint c.w c.r) (sub_uint c.e c.r) c.r
      (c.e % input_buf_size) h v.ordered (omega arith),
  ap (window input_buf_size (store c ch).buf c.r) more
      ∙ window-push input_buf_size c.buf ch (sub_uint c.e c.r) c.r (c.e % input_buf_size) h
          (omega arith),
)
  where
    more : sub_uint (add_uint c.e 1) c.r ≡ suc (sub_uint c.e c.r)
    more = omega arith

-- What an interrupt does to the bytes that a reader may see.
abbrev pub Seen : Cons → ℕ → Typed → Type 0
Seen c ch t =
    ((committed t.cons ≡ committed c) × (t.wakes ≡ false))
    ⊎ ((committed t.cons ≡ edited c ++ (newline ch ∷ [])) × (t.wakes ≡ true))

stored-IsValid :
    (c c' : Cons) (ch x : ℕ)
    → IsValid c'
    → committed c' ≡ committed c
    → edited c' ≡ edited c ++ (newline ch ∷ [])
    → IsValid (stored c' x).cons × Seen c ch (stored c' x)
unfolding stored
stored-IsValid c c' ch x v same all =
    elim (Bool-cases (x == 10 || x == 4 || sub_uint c'.e c'.r == input_buf_size)) [
      | inl over ↦ rw over (
        record {
          r_small = v.r_small;
          w_small = v.e_small;
          e_small = v.e_small;
          ordered = omega arith;
          fits = v.fits;
        },
        inr (all, refl),
      )
      | inr more ↦ rw more (v, inl (same, refl))
    ]

-- Every character keeps the cursors of the input in order. The bytes that a reader may see stay as
-- they are and nobody is woken, or they become all bytes of the input and the new one, and the
-- readers are woken.
pub consoleintr-IsValid :
    (c : Cons) (ch : ℕ) → IsValid c → IsValid (consoleintr c ch).cons × Seen c ch (consoleintr c ch)
unfolding consoleintr
consoleintr-IsValid c ch v = elim (Bool-cases (ch == 16)) [
  | inl p ↦ rw p (v, inl (refl, refl))
  | inr p ↦ elim (Bool-cases (ch == 21)) [
    | inl u ↦
        rw (p, u)
          (let (v', same) = kill_line-IsValid (sub_uint c.e c.w) c v in (v', inl (same, refl)))
    | inr u ↦ elim (Bool-cases (ch == 8 || ch == 127)) [
      | inl h ↦ elim (Bool-cases (c.e == c.w)) [
        | inl none_left ↦ rw (p, u, h, none_left) (v, inl (refl, refl))
        | inr left ↦ rw (p, u, h, left) ((erase-IsValid c v (ground arith)).0, inl (refl, refl))
      ]
      | inr h ↦ elim (Bool-cases (not (ch == 0) && ltb (sub_uint c.e c.r) input_buf_size)) [
        | inl room ↦
            rw (p, u, h, room)
              (let (v', same, all) = store-IsValid c (newline ch) v (ground arith) in
                stored-IsValid c (store c (newline ch)) ch (newline ch) v' same all)
        | inr full ↦ rw (p, u, h, full) (v, inl (refl, refl))
      ]
    ]
  ]
]
