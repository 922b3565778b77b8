-- ===== src/Lease/Expire.antt =====
-- `LeaseLifecycleService.expire_leases`.
use swarmai.Prelude.{
  ℕ, Bool, true, not, ◌&&◌, Option, none, some, List, [], ◌∷◌, leb, ltb, ◌==◌, if◌then◌else◌, take,
  keep, lookup, put, select,
}
use swarmai.Prelude.Paging.{order_by}
use swarmai.Lease.Rows.{
  Db, Task, TaskStatus, Mission, Attempt, AttemptStatus, Lease, LeaseState, is_active, is_runnable,
  is_mission_cancelled, is_leased, is_in_flight,
}
use swarmai.Lease.Authority.{
  mission_source_revision, load_claimable_mission, lease_stamp_authority_stale,
}

-- `_expire_task_status` for the mission of the task.
unfoldable pub status_under : Lease → Option Attempt → Task → Db → Option Mission → TaskStatus
status_under l a t db none = TaskStatus.cancelled
status_under l a t db (some m) =
    if is_mission_cancelled m.status
    then TaskStatus.cancelled
    else if not (is_runnable m.status)
    then TaskStatus.cancelled
    else if lease_stamp_authority_stale l a t m (mission_source_revision m)
    then TaskStatus.superseded
    else elim (load_claimable_mission t db) [
      | none ↦ TaskStatus.superseded
      | some _ ↦ TaskStatus.ready
    ]

unfoldable pub expire_task_status : Lease → Option Attempt → Task → Db → TaskStatus
unfolding status_under
expire_task_status l a t db = status_under l a t db (lookup t.mission_id db.missions)

-- The attempt of an expired lease: in flight, it is over.
unfoldable pub expired_attempt : ℕ → Attempt → Attempt
expired_attempt clock a =
    if is_in_flight a.status
    then record a { status = AttemptStatus.expired; terminal_at = some clock }
    else a

unfoldable pub expire_attempt : ℕ → ℕ → Db → Db
unfolding expired_attempt
expire_attempt clock attempt_id db = elim (lookup attempt_id db.attempts) [
  | none ↦ db
  | some a ↦ record db { attempts = put attempt_id (expired_attempt clock a) db.attempts }
]

-- A task that is still leased goes back to the queue, or is closed if its authority has changed.
unfoldable pub expire_task : Lease → Db → Db
expire_task l db = elim (lookup l.task_id db.tasks) [
  | none ↦ db
  | some t ↦
      if is_leased t.status
      then record db {
        tasks =
            put l.task_id
              (record t { status = expire_task_status l (lookup l.attempt_id db.attempts) t db })
              db.tasks;
      }
      else db
]

-- One round of the loop.
abbrev pub expired_lease : ℕ → Lease → Lease
expired_lease clock l = record l { state = LeaseState.expired; updated_at = clock }

unfoldable pub expire_lease : ℕ → ℕ → Lease → Db → Db
unfolding expire_attempt expire_task
expire_lease clock lease_id l db = expire_task l (
    expire_attempt clock l.attempt_id
      (record db { leases = put lease_id (expired_lease clock l) db.leases }))

unfoldable pub expire_row : ℕ → ℕ → Db → Db
expire_row clock lease_id db = elim (lookup lease_id db.leases) [
  | none ↦ db
  | some l ↦ expire_lease clock lease_id l db
]

unfoldable pub expire_all : ℕ → List ℕ → Db → Db
expire_all clock [] db = db
expire_all clock (lease_id ∷ rest) db = expire_all clock rest (expire_row clock lease_id db)

-- The `WHERE` clause: an active lease that is due, of the project if one is given.
abbrev in_project : Option ℕ → ℕ → Bool
in_project none p = true
in_project (some q) p = p == q

unfoldable pub is_due : ℕ → Option ℕ → Lease → Bool
is_due clock project_id l =
    is_active l.state && leb l.expires_at clock && in_project project_id l.project_id

-- `ORDER BY expires_at`. Equal times are in the order of the table, which SQL leaves open.
abbrev pub expiry_of : Option Lease → ℕ
expiry_of none = 0
expiry_of (some l) = l.expires_at

unfoldable pub expires_before : Db → ℕ → ℕ → Bool
expires_before db i j = ltb (expiry_of (lookup i db.leases)) (expiry_of (lookup j db.leases))

-- The leases of one call. `SKIP LOCKED` passes over rows that other transactions hold.
unfoldable pub due_leases : ℕ → Option ℕ → ℕ → (ℕ → Bool) → Db → List ℕ
due_leases clock project_id limit locked db = take limit (
    order_by (expires_before db)
      (keep (λ i. not (locked i)) (select (is_due clock project_id) db.leases)))

unfoldable pub expire_leases : ℕ → Option ℕ → ℕ → (ℕ → Bool) → Db → List ℕ × Db
unfolding due_leases
expire_leases clock project_id limit locked db =
    let due = due_leases clock project_id limit locked db in (due, expire_all clock due db)
