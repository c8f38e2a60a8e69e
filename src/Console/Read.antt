-- ===== src/Console/Read.antt =====
-- `consoleread` takes what it may see from the front of the input buffer.
use os_assignment.Prelude.{
  ℕ, zero, suc, ◌+◌, ◌-◌, ◌%◌, ◌≤◌, ◌≡◌, ◌≢◌, inl, inr, refl, ap, ◌∙◌, Bool, true, false,
  if◌then◌else◌, List, [], ◌∷◌, ◌++◌, arith, length, ltb, ◌==◌, Bool-cases,
}
use os_assignment.Ring.{window, window-mod, window-pop}
use os_assignment.Pipe.{add_uint}
use os_assignment.Console.{
  input_buf_size, Cons, sub_uint, Stop, returned, read_killed, read_sleeps, consoleread_from,
  consoleread,
}
use os_assignment.Console.Line.{IsValid, committed}

-- The byte that is dropped, if any: the end-of-file character, with nothing before it, or one whose
-- copy fails after `done` bytes.
pub data Dropped (n target done : ℕ) (copies : ℕ → Bool) : List ℕ → Type 0 where
  nothing : Dropped n target done copies []
  eof_char : (x : ℕ) → x ≡ 4 → target ≤ n - done → Dropped n target done copies (x ∷ [])
  no_copy : (x : ℕ) → x ≢ 4 → copies (n - done) ≡ false → Dropped n target done copies (x ∷ [])

-- Why a section returns: enough bytes, a line, a byte that is dropped, or the end-of-file character,
-- which is left for the next call.
pub data Ends (n : ℕ) (out lost left : List ℕ) : Type 0 where
  enough : length out ≡ n → Ends n out lost left
  line : (xs : List ℕ) → out ≡ xs ++ (10 ∷ []) → Ends n out lost left
  loses : lost ≢ [] → Ends n out lost left
  eof_left : (xs : List ℕ) → left ≡ 4 ∷ xs → Ends n out lost left

-- No byte is the end-of-file character, and none but the last a newline.
pub Plain : List ℕ → Type 0
Plain [] = Unit
Plain (x ∷ xs) = (x ≢ 4) × (xs ≢ [] → x ≢ 10) × Plain xs

-- What a section of `consoleread` has done: the bytes of the first list are delivered, `lost` is
-- dropped.
pub record Reads (c : Cons) (n target : ℕ) (copies : ℕ → Bool) (s : Cons × List ℕ × Stop)
    : Type 0 where
  pub valid : IsValid s.0
  pub bounded : length s.1 ≤ n
  pub lost : List ℕ
  pub reason : Dropped n target (length s.1) copies lost
  pub plain : Plain s.1
  pub ends : s.2 ≡ returned → Ends n s.1 lost (committed s.0)
  pub split : committed c ≡ s.1 ++ lost ++ committed s.0
  pub waits : s.2 ≢ returned → committed s.0 ≡ []

-- A reader takes the first byte.
take_byte :
    (c : Cons)
    → IsValid c
    → c.r ≢ c.w
    → IsValid (record c { r = add_uint c.r 1 })
      × (committed c ≡ c.buf (c.r % input_buf_size) ∷ committed (record c { r = add_uint c.r 1 }))
take_byte c v ne = (
  record {
    r_small = omega arith;
    w_small = v.w_small;
    e_small = v.e_small;
    ordered = omega arith;
    fits = omega arith;
  },
  window-pop input_buf_size c.buf (sub_uint c.w c.r) c.r (omega arith)
      ∙ ap (λ l. c.buf (c.r % input_buf_size) ∷ l)
          (window-mod input_buf_size c.buf (sub_uint c.w c.r - 1) (c.r + 1) (add_uint c.r 1)
              (omega arith)
            ∙ ap (window input_buf_size c.buf (add_uint c.r 1)) less),
)
  where
    less : sub_uint c.w c.r - 1 ≡ sub_uint c.w (add_uint c.r 1)
    less = omega arith

nothing_seen : (c : Cons) → IsValid c → (c.r == c.w) ≡ true → committed c ≡ []
nothing_seen c v h = let e : sub_uint c.w c.r ≡ 0 = ground arith in rw e refl

Ends-behind :
    (n x : ℕ) (out lost left : List ℕ) → Ends n out lost left → Ends (suc n) (x ∷ out) lost left
Ends-behind n x out lost left (enough e) = enough (omega (arith, e))
Ends-behind n x out lost left (line xs e) = line (x ∷ xs) (ap (λ l. x ∷ l) e)
Ends-behind n x out lost left (loses e) = loses e
Ends-behind n x out lost left (eof_left xs e) = eof_left xs e

Dropped-behind :
    (n target done : ℕ) (copies : ℕ → Bool) (lost : List ℕ)
    → Dropped n target done copies lost
    → Dropped (suc n) target (suc done) copies lost
Dropped-behind n target done copies _ nothing = nothing
Dropped-behind n target done copies _ (eof_char x e le) = eof_char x e (omega arith)
Dropped-behind n target done copies _ (no_copy x ne h) =
    no_copy x ne (ap copies (let same : suc n - suc done ≡ n - done = omega arith in same) ∙ h)

not_returned : (killed : Bool) → (if killed then read_killed else read_sleeps) ≢ returned
not_returned true e = cc
not_returned false e = cc

-- One byte delivered, and then the rest.
Reads-behind :
    (c c' : Cons) (n target x : ℕ) (copies : ℕ → Bool) (s : Cons × List ℕ × Stop)
    → committed c ≡ x ∷ committed c'
    → x ≢ 4
    → x ≢ 10
    → Reads c' n target copies s
    → Reads c (suc n) target copies (s.0, x ∷ s.1, s.2)
unfolding Plain
Reads-behind c c' n target x copies s e no_eof no_line r = record {
  valid = r.valid;
  bounded = omega (arith, r.bounded);
  lost = r.lost;
  reason = Dropped-behind n target (length s.1) copies r.lost r.reason;
  plain = (no_eof, (λ h. no_line), r.plain);
  ends = λ h. Ends-behind n x s.1 r.lost (committed s.0) (r.ends h);
  split = e ∙ ap (λ l. x ∷ l) r.split;
  waits = r.waits;
}

-- A byte is there: it is the end-of-file character, its copy fails, it ends the line, or it is
-- delivered.
byte :
    (n : ℕ) (c : Cons) (target : ℕ) (killed : Bool) (copies : ℕ → Bool)
    → IsValid c
    → (c.r == c.w) ≡ false
    → IsValid (record c { r = add_uint c.r 1 })
    → committed c ≡ c.buf (c.r % input_buf_size) ∷ committed (record c { r = add_uint c.r 1 })
    → Reads
        (record c { r = add_uint c.r 1 })
        n
        target
        copies
        (consoleread_from (record c { r = add_uint c.r 1 }) n target killed copies)
    → Reads c (suc n) target copies (consoleread_from c (suc n) target killed copies)
unfolding consoleread_from Plain
byte n c target killed copies v some_left v' e ih =
    elim (Bool-cases (c.buf (c.r % input_buf_size) == 4)) [
      | inl eof ↦
          let four : c.buf (c.r % input_buf_size) ≡ 4 = ground arith in
          elim (Bool-cases (ltb (suc n) target)) [
            | inl later ↦
                rw (some_left, eof, later)
                  (record {
                    valid = v;
                    bounded = omega arith;
                    lost = [];
                    reason = nothing;
                    plain = tt;
                    ends = λ h.
                        eof_left (committed (record c { r = add_uint c.r 1 }))
                          (e ∙ ap (λ x. x ∷ committed (record c { r = add_uint c.r 1 })) four);
                    split = refl;
                    waits = λ h. absurd (h refl);
                  })
            | inr first ↦
                rw (some_left, eof, first)
                  (drops (c.buf (c.r % input_buf_size)) e (eof_char _ four (ground arith)))
          ]
      | inr char ↦
          let no_eof : c.buf (c.r % input_buf_size) ≢ 4 = ground arith in
          elim (Bool-cases (copies (suc n))) [
            | inr fails ↦
                rw (some_left, char, fails)
                  (drops (c.buf (c.r % input_buf_size)) e (
                    no_copy _ no_eof
                      (ap copies (let all : suc n - 0 ≡ suc n = omega arith in all) ∙ fails)))
            | inl copied ↦ elim (Bool-cases (c.buf (c.r % input_buf_size) == 10)) [
              | inl newline ↦
                  let ten : c.buf (c.r % input_buf_size) ≡ 10 = ground arith in
                  rw (some_left, char, copied, newline)
                    (record {
                      valid = v';
                      bounded = omega arith;
                      lost = [];
                      reason = nothing;
                      plain = (no_eof, (λ h. absurd (h refl)), tt);
                      ends = λ h. line [] (ap (λ x. x ∷ []) ten);
                      split = e;
                      waits = λ h. absurd (h refl);
                    })
              | inr on ↦
                  rw (some_left, char, copied, on)
                    (Reads-behind c (record c { r = add_uint c.r 1 }) n target
                      (c.buf (c.r % input_buf_size)) copies
                      (consoleread_from (record c { r = add_uint c.r 1 }) n target killed copies) e
                      no_eof (ground arith) ih)
            ]
          ]
    ]
  where
    drops :
        (x : ℕ)
        → committed c ≡ x ∷ committed (record c { r = add_uint c.r 1 })
        → Dropped (suc n) target 0 copies (x ∷ [])
        → Reads c (suc n) target copies (record c { r = add_uint c.r 1 }, [], returned)
    drops x e d = record {
      valid = v';
      bounded = omega arith;
      lost = x ∷ [];
      reason = d;
      plain = tt;
      ends = λ h. loses (λ z. cc);
      split = e;
      waits = λ h. absurd (h refl);
    }

consoleread_from-Reads :
    (n : ℕ) (c : Cons) (target : ℕ) (killed : Bool) (copies : ℕ → Bool)
    → IsValid c
    → Reads c n target copies (consoleread_from c n target killed copies)
unfolding consoleread_from Plain
consoleread_from-Reads zero c target killed copies v = record {
  valid = v;
  bounded = omega arith;
  lost = [];
  reason = nothing;
  plain = tt;
  ends = λ h. enough refl;
  split = refl;
  waits = λ h. absurd (h refl);
}
consoleread_from-Reads (suc n) c target killed copies v = elim (Bool-cases (c.r == c.w)) [
  | inl empty ↦ rw empty (record {
    valid = v;
    bounded = omega arith;
    lost = [];
    reason = nothing;
    plain = tt;
    ends = λ h. absurd (not_returned killed h);
    split = refl;
    waits = λ h. nothing_seen c v empty;
  })
  | inr some_left ↦
      let (v', e) = take_byte c v (ground arith) in
      byte n c target killed copies v some_left v' e
        (consoleread_from-Reads n (record c { r = add_uint c.r 1 }) target killed copies v')
]

-- A section of `consoleread` keeps the cursors in order and delivers at most `n` of the bytes that
-- it may see, in order and from the first on: no end-of-file character, and no newline but as the
-- last byte. At most one more is dropped: the end-of-file character, when nothing comes before it, or
-- a byte whose copy fails. It returns only with `n` bytes, after a newline, after a dropped byte, or
-- before an end-of-file character that it leaves; it sleeps or fails only when no byte is left.
pub consoleread_lem :
    (c : Cons) (n : ℕ) (killed : Bool) (copies : ℕ → Bool)
    → IsValid c
    → Reads c n n copies (consoleread c n killed copies)
unfolding consoleread
consoleread_lem c n killed copies v = consoleread_from-Reads n c n killed copies v
