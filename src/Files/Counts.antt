-- ===== src/Files/Counts.antt =====
-- The reference counts of kernel/file.c: which close is the last.
use os_assignment.Prelude.{
  ℕ, zero, suc, ◌+◌, ◌<◌, ◌≡◌, refl, none, some, arith, update, Option, List, [], ◌∷◌, ap,
  update_self, update-ne, ◌≢◌, ◌∙◌, sym,
}
use os_assignment.Files.{
  File, FileTable, FileType, filedup, fileclose, Teardown, nothing, teardown, fd_none, fd_pipe,
  fd_inode, fd_device,
}

-- A `filedup` of a file with a reference succeeds and is undone by a `fileclose`, which tears
-- nothing down.
pub fileclose-filedup :
    (t : FileTable) (f : ℕ)
    → 0 < (t f).ref
    → (t1 t2 : FileTable) × (filedup t f ≡ some t1)
      × (fileclose t1 f ≡ some (t2, nothing))
      × ((k : ℕ) → t2 k ≡ t k)
unfolding filedup fileclose
fileclose-filedup t f h = (
  update t f (record (t f) { ref = (t f).ref + 1 }),
  update (update t f (record (t f) { ref = (t f).ref + 1 })) f (record (t f) { ref = (t f).ref }),
  ground arith,
  ground arith,
  λ k. ground arith,
)

-- The closes of one file in a row, with what each leaves to do.
pub close_times : ℕ → FileTable → ℕ → Option (FileTable × List Teardown)
close_times zero t f = some (t, [])
close_times (suc n) t f = elim (fileclose t f) [
  | none ↦ none
  | some (t', d) ↦ elim (close_times n t' f) [ none ↦ none | some (t'', ds) ↦ some (t'', d ∷ ds) ]
]

-- `n` closes that do nothing, then one that does `d`.
abbrev pub quiet_then : ℕ → Teardown → List Teardown
quiet_then zero d = d ∷ []
quiet_then (suc n) d = nothing ∷ quiet_then n d

teardown-ref :
    (ty : FileType) (r : File) (n : ℕ) → teardown ty (record r { ref = n }) ≡ teardown ty r
unfolding teardown
teardown-ref fd_none r n = refl
teardown-ref fd_pipe r n = refl
teardown-ref fd_inode r n = refl
teardown-ref fd_device r n = refl

-- What the table is after all references of `f` are closed.
pub record Closed (t t' : FileTable) (f : ℕ) : Type 0 where
  pub unused : (t' f).ref ≡ 0
  pub untyped : (t' f).type ≡ fd_none
  pub others : (k : ℕ) → k ≢ f → t' k ≡ t k
  pub ended : fileclose t' f ≡ none

last_close :
    (t : FileTable) (f : ℕ)
    → (t f).ref ≡ 1
    → fileclose t f
      ≡ some (update t f (record (t f) { ref = 0; type = fd_none }), teardown (t f).type (t f))
unfolding fileclose
last_close t f h = ground arith

early_close :
    (t : FileTable) (f n : ℕ)
    → (t f).ref ≡ suc (suc n)
    → fileclose t f ≡ some (update t f (record (t f) { ref = suc n }), nothing)
unfolding fileclose
early_close t f n h = ground arith

last_close-Closed :
    (t : FileTable) (f : ℕ) → Closed t (update t f (record (t f) { ref = 0; type = fd_none })) f
unfolding fileclose
last_close-Closed t f = record {
  unused = ground arith;
  untyped = ground arith;
  others = λ k h. ground arith;
  ended = ground arith;
}

close_times-suc :
    (n : ℕ) (t t1 t2 : FileTable) (f : ℕ) (d : Teardown) (ds : List Teardown)
    → fileclose t f ≡ some (t1, d)
    → close_times n t1 f ≡ some (t2, ds)
    → close_times (suc n) t f ≡ some (t2, d ∷ ds)
unfolding close_times
close_times-suc n t t1 t2 f d ds e e' = ground arith

close_times-zero : (t : FileTable) (f : ℕ) → close_times 0 t f ≡ some (t, [])
unfolding close_times
close_times-zero t f = refl

-- Of as many closes as a file has references all succeed, only the last one tears the file down,
-- by what its type asks for, the other files stay as they are, and one more close panics.
pub close_times_lem :
    (n : ℕ) (t : FileTable) (f : ℕ)
    → (t f).ref ≡ suc n
    → (t' : FileTable) × (close_times (suc n) t f
        ≡ some (t', quiet_then n (teardown (t f).type (t f))))
      × Closed t t' f
close_times_lem zero t f h = (
  _,
  close_times-suc 0 t _ _ f _ _ (last_close t f h) (close_times-zero _ f),
  last_close-Closed t f,
)
close_times_lem (suc n) t f h =
    let t1 : FileTable = update t f (record (t f) { ref = suc n }) in
    let e1 : t1 f ≡ record (t f) { ref = suc n } = update_self t f _ in
    let (t', e, c) = close_times_lem n t1 f (ap (λ (r : File). r.ref) e1) in
    (
      t',
      close_times-suc (suc n) t t1 t' f nothing _ (early_close t f n h) (
          e
          ∙ ap (λ d. some (t', quiet_then n d))
              (ap (λ (r : File). teardown r.type r) e1 ∙ teardown-ref (t f).type (t f) (suc n))),
      record {
        unused = c.unused;
        untyped = c.untyped;
        others = λ k ne. c.others k ne ∙ update-ne t f k _ (λ q. ne (sym q));
        ended = c.ended;
      },
    )
