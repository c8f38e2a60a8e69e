-- ===== src/Strings.antt =====
-- kernel/string.c and the functions on memory of user/ulib.c, over a memory of bytes.
-- An address is a number and no range wraps round the end of the address space. A loop that runs
-- to a NUL takes as fuel a bound on the length of its string.
pub mod Move
pub mod Compare
pub mod Copy
pub mod Scan
mod Tests
use os_assignment.Prelude.{
  ℕ, zero, suc, ◌+◌, ◌-◌, ◌*◌, ◌%◌, Bool, true, false, not, ◌&&◌, ◌||◌, Option, none, some, ltb,
  leb, ◌==◌, if◌then◌else◌, update,
}
use os_assignment.Prelude.Int.{ℤ, pos, sub_ℕ}

abbrev pub Memory : Type 0
Memory = ℕ → ℕ

-- The loop of `memset`, from index `i` on, with `n` rounds left. The value is cut to a char.
set_from : ℕ → ℕ → Memory → ℕ → ℕ → Memory
set_from zero i m dst c = m
set_from (suc n) i m dst c = set_from n (i + 1) (update m (dst + i) (c % 256)) dst c

unfoldable pub memset : Memory → ℕ → ℕ → ℕ → Memory
unfolding set_from
memset m dst c n = set_from n 0 m dst c

pub memcmp : Memory → ℕ → ℕ → ℕ → ℤ
memcmp m v1 v2 zero = pos 0
memcmp m v1 v2 (suc n) =
    let rest = memcmp m (v1 + 1) (v2 + 1) n in if m v1 == m v2 then rest else sub_ℕ (m v1) (m v2)

-- `*d++ = *s++`, `n` times.
pub copy_up : ℕ → Memory → ℕ → ℕ → Memory
copy_up zero m d s = m
copy_up (suc n) m d s = copy_up n (update m d (m s)) (d + 1) (s + 1)

-- `*--d = *--s`, `n` times.
pub copy_down : ℕ → Memory → ℕ → ℕ → Memory
copy_down zero m d s = m
copy_down (suc n) m d s = copy_down n (update m (d - 1) (m (s - 1))) (d - 1) (s - 1)

-- kernel/string.c
unfoldable pub memmove : Memory → ℕ → ℕ → ℕ → Memory
unfolding copy_up copy_down
memmove m dst src n =
    if n == 0
    then m
    else if ltb src dst && ltb dst (src + n)
    then copy_down n m (dst + n) (src + n)
    else copy_up n m dst src

pub memcpy : Memory → ℕ → ℕ → ℕ → Memory
memcpy m dst src n = memmove m dst src n

-- user/ulib.c
unfoldable pub user_memmove : Memory → ℕ → ℕ → ℕ → Memory
unfolding copy_up copy_down
user_memmove m dst src n =
    if ltb dst src then copy_up n m dst src else copy_down n m (dst + n) (src + n)

pub strncmp : Memory → ℕ → ℕ → ℕ → ℤ
strncmp m p q zero = pos 0
strncmp m p q (suc n) =
    let rest = strncmp m (p + 1) (q + 1) n in
    if not (m p == 0) && m p == m q then rest else sub_ℕ (m p) (m q)

-- user/ulib.c, with fuel
pub strcmp : ℕ → Memory → ℕ → ℕ → Option ℤ
strcmp zero m p q = none
strcmp (suc f) m p q =
    let rest = strcmp f m (p + 1) (q + 1) in
    if not (m p == 0) && m p == m q then rest else some (sub_ℕ (m p) (m q))

-- The second loop of `strncpy`.
pub fill_zero : ℕ → Memory → ℕ → Memory
fill_zero zero m s = m
fill_zero (suc n) m s = fill_zero n (update m s 0) (s + 1)

-- The first loop of `strncpy`, then the second.
pub strncpy : Memory → ℕ → ℕ → ℕ → Memory
strncpy m s t zero = m
strncpy m s t (suc n) =
    let m' = update m s (m t) in
    let rest = strncpy m' (s + 1) (t + 1) n in if m t == 0 then fill_zero n m' (s + 1) else rest

-- The loop of `safestrcpy`; the number is one less than `n` at the loop's test.
pub safe_loop : ℕ → Memory → ℕ → ℕ → Memory
safe_loop zero m s t = update m s 0
safe_loop (suc n) m s t =
    let m' = update m s (m t) in
    let rest = safe_loop n m' (s + 1) (t + 1) in if m t == 0 then update m' (s + 1) 0 else rest

pub safestrcpy : Memory → ℕ → ℕ → ℕ → Memory
safestrcpy m s t zero = m
safestrcpy m s t (suc n) = safe_loop n m s t

-- With fuel; `none` when there is no NUL within it.
pub strlen_from : ℕ → Memory → ℕ → ℕ → Option ℕ
strlen_from zero m s n = none
strlen_from (suc f) m s n =
    let rest = strlen_from f m s (n + 1) in if m (s + n) == 0 then some n else rest

unfoldable pub strlen : ℕ → Memory → ℕ → Option ℕ
unfolding strlen_from
strlen f m s = strlen_from f m s 0

-- user/ulib.c: an address, or `some none` for the null pointer; `none` when the fuel runs out.
pub strchr : ℕ → Memory → ℕ → ℕ → Option (Option ℕ)
strchr zero m s c = none
strchr (suc f) m s c =
    let rest = strchr f m (s + 1) c in
    if m s == 0 then some none else if m s == c then some (some s) else rest

-- user/ulib.c
abbrev pub is_digit : ℕ → Bool
is_digit c = leb b'0' c && leb c b'9'

pub atoi_from : ℕ → Memory → ℕ → ℕ → Option ℕ
atoi_from zero m s n = none
atoi_from (suc f) m s n =
    let rest = atoi_from f m (s + 1) (n * 10 + m s - b'0') in
    if is_digit (m s) then rest else some n

unfoldable pub atoi : ℕ → Memory → ℕ → Option ℕ
unfolding atoi_from
atoi f m s = atoi_from f m s 0
