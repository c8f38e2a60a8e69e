-- ===== src/Spinlock/Tests.antt =====
-- The nesting of interrupts at a CPU with interrupts on, and a lock between two CPUs.
use os_assignment.Prelude.{ℕ, ◌≡◌, ◌≢◌, refl, ap, some, true, false}
use os_assignment.Spinlock.{
  Cpu, System, step, advance, holding, initlock, Reach, here, next, start, inside, spinning,
  panicked,
}
use os_assignment.Spinlock.Exclusion.{owns, one_holder, no_lock_panic}
use os_assignment.Spinlock.Nesting.{push_times, pop_times, push_pop_times}

abbrev idle_cpu : Cpu
idle_cpu = record { noff = 0; intena = false; intr = true }

push_pop_times_example :
    ((push_times 3 idle_cpu).intr ≡ false)
    × (pop_times 3 (push_times 3 idle_cpu) ≡ some (record { noff = 0; intena = true; intr = true }))
push_pop_times_example = push_pop_times 2 idle_cpu refl

-- CPU 0 enters, and CPU 1 spins.
abbrev two_cpus : System
two_cpus = step 1 (step 1 (step 0 (step 0 (step 0 start))))

two_cpus-Reach : Reach start two_cpus
two_cpus-Reach = next (next (next (next (next here 0) 0) 0) 1) 1

two_cpus_result : (two_cpus.pc 0 ≡ inside) × (two_cpus.pc 1 ≡ spinning)
unfolding step advance holding initlock
two_cpus_result = (refl, refl)

one_holder_example : ◌≡◌ {A = ℕ} 0 0
one_holder_example =
    one_holder two_cpus-Reach 0 0 (ap owns two_cpus_result.0) (ap owns two_cpus_result.0)

no_lock_panic_example : two_cpus.pc 1 ≢ panicked
no_lock_panic_example = no_lock_panic two_cpus-Reach 1
