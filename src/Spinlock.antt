-- ===== src/Spinlock.antt =====
-- kernel/spinlock.c: spin locks, and the nesting of disabled interrupts.
-- CPU `i` runs `acquire` and `release` of one lock as a state machine (`advance`), an atomic access
-- at a time; the name of the lock is left out. `none` is a panic.
pub mod Nesting
pub mod Exclusion
mod Tests
use os_assignment.Prelude.{
  ℕ, zero, suc, ◌+◌, ◌-◌, ◌<◌, ◌≡◌, Bool, true, false, not, ◌&&◌, ◌||◌, Option, none, some, ltb,
  ◌==◌, if◌then◌else◌, update,
}

-- The part of `struct cpu` that matters here; `intr` is the interrupt-enable bit of the hart.
pub record Cpu : Type 0 where
  pub noff : ℕ
  pub intena : Bool
  pub intr : Bool

unfoldable pub push_off : Cpu → Cpu
push_off c = record {
  noff = c.noff + 1;
  intena = if c.noff == 0 then c.intr else c.intena;
  intr = false;
}

unfoldable pub pop_off : Cpu → Option Cpu
pop_off c =
    if c.intr
    then none
    else if ltb c.noff 1
    then none
    else some (record c { noff = c.noff - 1; intr = c.noff - 1 == 0 && c.intena })

-- `struct spinlock`; `cpu` is the CPU that holds the lock, `none` for 0.
pub record Lock : Type 0 where
  pub locked : Bool
  pub cpu : Option ℕ

unfoldable pub initlock : Lock
initlock = record { locked = false; cpu = none }

abbrev pub is_cpu : Option ℕ → ℕ → Bool
is_cpu none i = false
is_cpu (some j) i = j == i

-- `holding`, on CPU `i`
unfoldable pub holding : Lock → ℕ → Bool
holding lk i = lk.locked && is_cpu lk.cpu i

-- Where a CPU stands: outside; at the swap of `acquire`; before it records itself; inside; before
-- `release` clears the lock; or in a panic.
pub data Pc : Type 0 where
  outside : Pc
  spinning : Pc
  recording : Pc
  inside : Pc
  clearing : Pc
  panicked : Pc

-- The next access of CPU `i`.
unfoldable pub advance : ℕ → Lock → Pc → Lock × Pc
advance i lk outside = if holding lk i then (lk, panicked) else (lk, spinning)
advance i lk spinning = (record lk { locked = true }, if lk.locked then spinning else recording)
advance i lk recording = (record lk { cpu = some i }, inside)
advance i lk inside =
    if not (holding lk i) then (lk, panicked) else (record lk { cpu = none }, clearing)
advance i lk clearing = (record lk { locked = false }, outside)
advance i lk panicked = (lk, panicked)

pub record System : Type 0 where
  pub lock : Lock
  pub pc : ℕ → Pc

unfoldable pub step : ℕ → System → System
step i s = let r = advance i s.lock (s.pc i) in record { lock = r.0; pc = update s.pc i r.1 }

pub data Reach (s : System) : System → Type 0 where
  here : Reach s s
  next : {t : System} → Reach s t → (i : ℕ) → Reach s (step i t)

-- The lock after `initlock`, with every CPU outside.
abbrev pub start : System
start = record { lock = initlock; pc = λ _. outside }
