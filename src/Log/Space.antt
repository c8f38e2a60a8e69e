-- ===== src/Log/Space.antt =====
-- The space that `begin_op` of kernel/log.c reserves: what the operations that keep to their
-- `MAXOPBLOCKS` writes may still write fits in `LOGSIZE` blocks.
use os_assignment.Prelude.{
  ℕ, suc, ◌+◌, ◌-◌, ◌*◌, ◌≤◌, ◌≡◌, Bool, true, false, sym, ap, ◌∙◌, some, List, [], ◌∷◌, ◌++◌,
  arith, length, length-append,
}
use os_assignment.Log.{initlog, maxopblocks, logsize, Log, begin_op, end_op, end_commit, log_write}

-- The log and the operations between `begin_op` and `end_op`, each as the number of blocks that it
-- may still write.
pub record Run : Type 0 where
  pub log : Log
  pub ops : List ℕ

unfoldable pub sum : List ℕ → ℕ
sum [] = 0
sum (x ∷ xs) = x + sum xs

sum-append : (xs ys : List ℕ) → sum (xs ++ ys) ≡ sum xs + sum ys
unfolding sum
sum-append [] ys = omega arith
sum-append (x ∷ xs) ys = omega (arith, sum-append xs ys)

-- A section of one of the calls, by any operation.
pub data Step (s t : Run) : Type 0 where
  begins : begin_op s.log ≡ some t.log → t.ops ≡ maxopblocks ∷ s.ops → Step s t
  writes :
      (xs ys : List ℕ) (r b : ℕ) (pinned : Bool)
      → s.ops ≡ xs ++ (suc r ∷ ys)
      → log_write s.log b ≡ some (t.log, pinned)
      → t.ops ≡ xs ++ (r ∷ ys)
      → Step s t
  ends :
      (xs ys : List ℕ) (r : ℕ) (last : Bool)
      → s.ops ≡ xs ++ (r ∷ ys)
      → end_op s.log ≡ some (t.log, last)
      → t.ops ≡ xs ++ ys
      → Step s t
  commits : s.log.committing ≡ true → t.log ≡ end_commit s.log → t.ops ≡ s.ops → Step s t

pub data Reach (s : Run) : Run → Type 0 where
  here : Reach s s
  next : {t u : Run} → Reach s t → Step t u → Reach s u

-- No operation may write more than `MAXOPBLOCKS` blocks.
abbrev pub Small : List ℕ → Type 0
Small [] = Unit
Small (x ∷ xs) = (x ≤ maxopblocks) × Small xs

sum-le : (xs : List ℕ) → Small xs → sum xs ≤ maxopblocks * length xs
unfolding sum
sum-le [] h = omega arith
sum-le (x ∷ xs) (hx, h) = omega (arith, sum-le xs h)

Small-less : (xs ys : List ℕ) (r : ℕ) → Small (xs ++ (suc r ∷ ys)) → Small (xs ++ (r ∷ ys))
Small-less [] ys r (h, t) = (omega arith, t)
Small-less (x ∷ xs) ys r (h, t) = (h, Small-less xs ys r t)

Small-drop : (xs ys : List ℕ) (r : ℕ) → Small (xs ++ (r ∷ ys)) → Small (xs ++ ys)
Small-drop [] ys r (h, t) = t
Small-drop (x ∷ xs) ys r (h, t) = (h, Small-drop xs ys r t)

-- A log of `size` blocks just after `initlog`, with no operation.
abbrev pub fresh : ℕ → Run
fresh size = record { log = initlog size; ops = [] }

pub record Fits (size : ℕ) (s : Run) : Type 0 where
  pub same_size : s.log.size ≡ size
  pub counted : s.log.outstanding ≡ length s.ops
  pub reserved : length s.log.lh + sum s.ops ≤ logsize
  pub bounded : Small s.ops
  pub alone : s.log.committing ≡ true → s.log.outstanding ≡ 0

-- Operations before and after the one that moves.
split_sum : (ops xs ys : List ℕ) (r : ℕ) → ops ≡ xs ++ (r ∷ ys) → sum ops ≡ sum xs + (r + sum ys)
unfolding sum
split_sum ops xs ys r e = ap sum e ∙ sum-append xs (r ∷ ys)

split_length :
    (ops xs ys : List ℕ) (r : ℕ) → ops ≡ xs ++ (r ∷ ys) → length ops ≡ length xs + suc (length ys)
split_length ops xs ys r e = ap length e ∙ length-append xs (r ∷ ys)

-- What a `log_write` that does not panic does to the log.
record Written (g g' : Log) : Type 0 where
  same_size : g'.size ≡ g.size
  same_count : g'.outstanding ≡ g.outstanding
  same_mode : g'.committing ≡ g.committing
  longer : length g'.lh ≤ length g.lh + 1

log_write-Written :
    (g g' : Log) (b : ℕ) (pinned : Bool) → log_write g b ≡ some (g', pinned) → Written g g'
unfolding log_write
log_write-Written g g' b pinned e = ground (arith, length-append g.lh (b ∷ []))

record Begun (g g' : Log) : Type 0 where
  same_size : g'.size ≡ g.size
  one_entry_more : g'.outstanding ≡ g.outstanding + 1
  same_lh : g'.lh ≡ g.lh
  off : g'.committing ≡ false
  room : length g.lh + (g.outstanding + 1) * maxopblocks ≤ logsize

begin_op-Begun : (g g' : Log) → begin_op g ≡ some g' → Begun g g'
unfolding begin_op
begin_op-Begun g g' e = ground arith

begins-Fits :
    (size : ℕ) (s t : Run)
    → begin_op s.log ≡ some t.log
    → t.ops ≡ maxopblocks ∷ s.ops
    → Fits size s
    → Fits size t
unfolding sum
begins-Fits size s t e o f = record {
  same_size = b.same_size ∙ f.same_size;
  counted = b.one_entry_more ∙ omega (arith, f.counted, ap length o);
  reserved = rw o (omega (arith, ap length b.same_lh, sum-le s.ops f.bounded, b.room, f.counted));
  bounded = rw o (omega arith, f.bounded);
  alone = λ c. ground (arith, b.off);
}
  where
    b : Begun s.log t.log
    b = begin_op-Begun s.log t.log e

writes-Fits :
    (size : ℕ) (s t : Run) (xs ys : List ℕ) (r b : ℕ) (pinned : Bool)
    → s.ops ≡ xs ++ (suc r ∷ ys)
    → log_write s.log b ≡ some (t.log, pinned)
    → t.ops ≡ xs ++ (r ∷ ys)
    → Fits size s
    → Fits size t
writes-Fits size s t xs ys r b pinned o e o' f = record {
  same_size = w.same_size ∙ f.same_size;
  counted = omega (
    arith,
    w.same_count,
    f.counted,
    split_length s.ops xs ys (suc r) o,
    split_length t.ops xs ys r o',
  );
  reserved =
      omega
        (arith, w.longer, f.reserved, split_sum s.ops xs ys (suc r) o, split_sum t.ops xs ys r o');
  bounded = rw o' (Small-less xs ys r (rw o at f.bounded));
  alone = λ c. w.same_count ∙ f.alone (sym w.same_mode ∙ c);
}
  where
    w : Written s.log t.log
    w = log_write-Written s.log t.log b pinned e

record EndedOp (g g' : Log) : Type 0 where
  same_size : g'.size ≡ g.size
  one_less : g'.outstanding ≡ g.outstanding - 1
  same_lh : g'.lh ≡ g.lh
  mode : g'.committing ≡ true → g'.outstanding ≡ 0

end_op-EndedOp : (g g' : Log) (last : Bool) → end_op g ≡ some (g', last) → EndedOp g g'
unfolding end_op
end_op-EndedOp g g' last e = ground arith

ends-Fits :
    (size : ℕ) (s t : Run) (xs ys : List ℕ) (r : ℕ) (last : Bool)
    → s.ops ≡ xs ++ (r ∷ ys)
    → end_op s.log ≡ some (t.log, last)
    → t.ops ≡ xs ++ ys
    → Fits size s
    → Fits size t
ends-Fits size s t xs ys r last o e o' f = record {
  same_size = d.same_size ∙ f.same_size;
  counted = omega (
    arith,
    d.one_less,
    f.counted,
    split_length s.ops xs ys r o,
    ap length o',
    length-append xs ys,
  );
  reserved = omega (
    arith,
    ap length d.same_lh,
    f.reserved,
    split_sum s.ops xs ys r o,
    ap sum o',
    sum-append xs ys,
  );
  bounded = rw o' (Small-drop xs ys r (rw o at f.bounded));
  alone = d.mode;
}
  where
    d : EndedOp s.log t.log
    d = end_op-EndedOp s.log t.log last e

commits-Fits :
    (size : ℕ) (s t : Run)
    → s.log.committing ≡ true
    → t.log ≡ end_commit s.log
    → t.ops ≡ s.ops
    → Fits size s
    → Fits size t
unfolding end_commit
commits-Fits size s t c e o f = record {
  same_size = ap (λ (g : Log). g.size) e ∙ f.same_size;
  counted = ap (λ (g : Log). g.outstanding) e ∙ f.counted ∙ ap length (sym o);
  reserved = omega (arith, ap (λ (g : Log). length g.lh) e, f.reserved, ap sum o);
  bounded = rw o f.bounded;
  alone = λ q. ground (arith, ap (λ (g : Log). g.committing) e);
}

-- Every section of every call keeps the invariant that the log has space for what the operations
-- may still write.
pub Step-Fits : {size : ℕ} {s t : Run} → Step s t → Fits size s → Fits size t
Step-Fits {size} {s} {t} (begins e o) f = begins-Fits size s t e o f
Step-Fits {size} {s} {t} (writes xs ys r b pinned o e o') f =
    writes-Fits size s t xs ys r b pinned o e o' f
Step-Fits {size} {s} {t} (ends xs ys r last o e o') f = ends-Fits size s t xs ys r last o e o' f
Step-Fits {size} {s} {t} (commits c e o) f = commits-Fits size s t c e o f

pub Reach-Fits : {size : ℕ} {s t : Run} → Fits size s → Reach s t → Fits size t
Reach-Fits f here = f
Reach-Fits f (next r st) = Step-Fits st (Reach-Fits f r)
