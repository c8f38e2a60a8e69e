-- ===== src/Pipe/Fifo.antt =====
-- A pipe passes on the bytes that are written in their order, none lost and none twice.
use os_assignment.Prelude.{
  ℕ, zero, suc, ◌+◌, ◌%◌, ◌≤◌, ◌<◌, ◌≡◌, ◌⊎◌, inl, inr, Bool, true, false, not, ◌&&◌, ◌||◌, refl,
  sym, ap, ◌∙◌, List, [], ◌∷◌, ◌++◌, map, Option, none, some, arith, length, Bool-cases, ◌==◌,
  if◌then◌else◌,
}
use mathlib.Core.List.{append-nil, append_assoc}
use os_assignment.Pipe.{
  Pipe, pipesize, add_uint, put, skip, write_from, WriteEnd, wrote, broken, write_sleeps, read_from,
  piperead, got, read_killed, read_sleeps,
}
use os_assignment.Pipe.Valid.{count, IsValid, contents, full_test, empty_test, put_lem, skip_lem}

-- The reason for which a section of `pipewrite` ends, with `w` written and `rest` left.
abbrev pub Ended : Pipe → Bool → ℕ → List ℕ → List (Option ℕ) → WriteEnd → Type 0
Ended p killed i w rest (wrote k) =
    (k ≡ i + length w) × ((rest ≡ []) ⊎ ((more : List (Option ℕ)) × (rest ≡ none ∷ more)))
Ended p killed i w rest broken = not p.readopen || killed ≡ true
Ended p killed i w rest (write_sleeps k left) =
    (k ≡ i + length w) × (left ≡ rest) × (count p ≡ pipesize)

-- What a section of `pipewrite` has done when it ends.
pub record Wrote (p : Pipe) (killed : Bool) (src : List (Option ℕ)) (i : ℕ) (r : Pipe × WriteEnd)
    : Type 0 where
  pub written : List ℕ
  pub rest : List (Option ℕ)
  pub split : src ≡ map some written ++ rest
  pub valid : IsValid r.0
  pub appended : contents r.0 ≡ contents p ++ written
  pub ended : Ended r.0 killed i written rest r.1

write_stop :
    (p : Pipe) (killed : Bool) (src : List (Option ℕ)) (i : ℕ) (e : WriteEnd)
    → IsValid p
    → Ended p killed i [] src e
    → Wrote p killed src i (p, e)
write_stop p killed src i e v end = record {
  written = [];
  rest = src;
  split = refl;
  valid = v;
  appended = sym (append-nil (contents p));
  ended = end;
}

shift_end :
    (p : Pipe) (killed : Bool) (i ch : ℕ) (w : List ℕ) (rest : List (Option ℕ)) (e : WriteEnd)
    → Ended p killed (i + 1) w rest e
    → Ended p killed i (ch ∷ w) rest e
shift_end p killed i ch w rest (wrote k) (n, stop) = (omega arith, stop)
shift_end p killed i ch w rest broken h = h
shift_end p killed i ch w rest (write_sleeps k left) (n, same, full) = (omega arith, same, full)

write_more :
    (p : Pipe) (killed : Bool) (ch : ℕ) (src : List (Option ℕ)) (i : ℕ) (r : Pipe × WriteEnd)
    → contents (put p ch) ≡ contents p ++ (ch ∷ [])
    → Wrote (put p ch) killed src (i + 1) r
    → Wrote p killed (some ch ∷ src) i r
write_more p killed ch src i r e w = record {
  written = ch ∷ w.written;
  rest = w.rest;
  split = ap (λ l. some ch ∷ l) w.split;
  valid = w.valid;
  appended =
      w.appended ∙ ap (λ l. l ++ w.written) e ∙ append_assoc (contents p) (ch ∷ []) w.written;
  ended = shift_end r.0 killed i ch w.written w.rest r.1 w.ended;
}

is_full :
    (p : Pipe) → IsValid p → (p.nwrite == add_uint p.nread pipesize) ≡ true → count p ≡ pipesize
is_full p v h = ground arith

not_full :
    (p : Pipe) → IsValid p → (p.nwrite == add_uint p.nread pipesize) ≡ false → count p < pipesize
not_full p v h = full_test p v (ground arith)

-- A section of `pipewrite` on a valid pipe appends a prefix of its bytes, in order, and leaves the
-- pipe valid. It returns the count of these bytes when all are written or a copy fails, sleeps only
-- when the pipe is full, and fails only when no reader is left or the caller is killed.
pub write_from-Wrote :
    (src : List (Option ℕ)) (p : Pipe) (killed : Bool) (i : ℕ)
    → IsValid p
    → Wrote p killed src i (write_from p killed src i)
unfolding write_from
write_from-Wrote [] p killed i v = write_stop p killed [] i (wrote i) v (omega arith, inl refl)
write_from-Wrote (none ∷ src) p killed i v = elim (Bool-cases (not p.readopen || killed)) [
  | inl stop ↦ rw stop (write_stop p killed (none ∷ src) i broken v stop)
  | inr go ↦ rw go (elim (Bool-cases (p.nwrite == add_uint p.nread pipesize)) [
    | inl full ↦ rw full (
        write_stop p killed (none ∷ src) i (write_sleeps i (none ∷ src)) v
          (omega arith, refl, is_full p v full))
    | inr room ↦
        rw room (write_stop p killed (none ∷ src) i (wrote i) v (omega arith, inr (src, refl)))
  ])
]
write_from-Wrote (some ch ∷ src) p killed i v = elim (Bool-cases (not p.readopen || killed)) [
  | inl stop ↦ rw stop (write_stop p killed (some ch ∷ src) i broken v stop)
  | inr go ↦ rw go (elim (Bool-cases (p.nwrite == add_uint p.nread pipesize)) [
    | inl full ↦ rw full (
        write_stop p killed (some ch ∷ src) i (write_sleeps i (some ch ∷ src)) v
          (omega arith, refl, is_full p v full))
    | inr room ↦ rw room (
        let (v', e) = put_lem p ch v (not_full p v room) in
        write_more p killed ch src i _ e (write_from-Wrote src (put p ch) killed (i + 1) v'))
  ])
]

-- What the copy loop of `piperead` has done when it ends: the bytes delivered are the oldest ones,
-- and when every copy succeeds they and the bytes left are the bytes that were there.
pub record Read (p : Pipe) (n : ℕ) (r : Pipe × List ℕ) : Type 0 where
  pub valid : IsValid r.0
  pub bounded : length r.1 ≤ n
  pub split : contents p ≡ r.1 ++ contents r.0
  pub ended : (length r.1 ≡ n) ⊎ (contents r.0 ≡ [])

no_bytes : (p : Pipe) → IsValid p → (p.nread == p.nwrite) ≡ true → contents p ≡ []
no_bytes p v h = let e : count p ≡ 0 = ground arith in rw e refl

pub read_from-Read :
    (n : ℕ) (p : Pipe) (i : ℕ) (copies : ℕ → Bool)
    → IsValid p
    → ((k : ℕ) → copies k ≡ true)
    → Read p n (read_from p n i copies)
unfolding read_from
read_from-Read zero p i copies v all = record {
  valid = v;
  bounded = omega arith;
  split = refl;
  ended = inl refl;
}
read_from-Read (suc n) p i copies v all = elim (Bool-cases (p.nread == p.nwrite)) [
  | inl empty ↦
      rw empty (record {
        valid = v;
        bounded = omega arith;
        split = refl;
        ended = inr (no_bytes p v empty);
      })
  | inr some_left ↦
      rw (some_left, all i)
        (let (v', e) = skip_lem p v (empty_test p v (ground arith)) in
          let ih : Read (skip p) n (read_from (skip p) n (i + 1) copies) =
            read_from-Read n (skip p) (i + 1) copies v' all in
          record {
            valid = ih.valid;
            bounded = omega (arith, ih.bounded);
            split = e ∙ ap (λ l. p.buf (p.nread % pipesize) ∷ l) ih.split;
            ended = elim ih.ended [ inl full ↦ inl (ap suc full) | inr dry ↦ inr dry ];
          })
]

-- `piperead` whose copies succeed delivers the oldest bytes in order, as many as it wants or all
-- there are, and leaves the rest. It sleeps or fails only when the pipe is empty and a writer is left.
pub piperead_lem :
    (p : Pipe) (killed : Bool) (n : ℕ) (copies : ℕ → Bool)
    → IsValid p
    → ((k : ℕ) → copies k ≡ true)
    → ((contents p ≡ [])
        × (p.writeopen ≡ true)
        × (piperead p killed n copies ≡ (p, if killed then read_killed else read_sleeps)))
      ⊎ ((q : Pipe) × (out : List ℕ) × (piperead p killed n copies ≡ (q, got out))
          × Read p n (q, out))
unfolding piperead
piperead_lem p killed n copies v all = elim (Bool-cases (p.nread == p.nwrite && p.writeopen)) [
  | inl wait ↦ inl (no_bytes p v (ground arith), ground arith, ground arith)
  | inr go ↦ inr (
    (read_from p n 0 copies).0,
    (read_from p n 0 copies).1,
    rw go refl,
    read_from-Read n p 0 copies v all,
  )
]
