-- ===== src/Peterson/Tests.antt =====
-- The system calls of kernel/peterson.c at concrete tables.
use os_assignment.Prelude.{◌≡◌, refl, some, arith, update}
use os_assignment.Prelude.Int.{pos, minus_one}
use os_assignment.Peterson.{
  Table, unused, allocated, failed, begin_acquire, retry_acquire, sys_peterson_release,
  sys_peterson_destroy,
}
use os_assignment.Peterson.Calls.{sys_peterson_destroy_lem, destroyed_fails}

-- Two locks are in use.
abbrev two_locks : Table
two_locks = update (update (λ k. unused) 0 allocated) 1 allocated

destroy_run : sys_peterson_destroy two_locks (pos 1) ≡ some (update two_locks 1 unused, pos 0)
destroy_run = (sys_peterson_destroy_lem two_locks 1 (omega arith)).0 refl

destroyed_fails_example :
    (retry_acquire (update two_locks 1 unused) (pos 1) (pos 0) ≡ failed)
    × (begin_acquire (update two_locks 1 unused) (pos 1) (pos 0)
        ≡ (update two_locks 1 unused, failed))
    × (sys_peterson_release (update two_locks 1 unused) (pos 1) (pos 0)
        ≡ (update two_locks 1 unused, minus_one))
destroyed_fails_example =
    destroyed_fails two_locks (update two_locks 1 unused) 1 0 (omega arith) (omega arith)
      destroy_run
