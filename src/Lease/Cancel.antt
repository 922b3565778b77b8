-- ===== src/Lease/Cancel.antt =====
-- `cancel_active_lease`, `revoke_mission_work` and `cancel_mission`.
use swarmai.Prelude.{
  ℕ, ◌+◌, Bool, true, false, not, ◌&&◌, none, some, List, [], ◌∷◌, ◌++◌, ltb, ◌==◌, if◌then◌else◌,
  is_some, lookup, put, select, ok, err, raise_if, or_raise, Exec,
}
use swarmai.Prelude.Act.{pure, lift, reads, gets, modify, ◌>>=◌, ◌>>◌}
use swarmai.Prelude.Paging.{order_by}
use swarmai.Lease.Rows.{
  Db, Task, TaskStatus, Mission, MissionStatus, Attempt, AttemptStatus, Lease, LeaseState, Reason,
  LeaseError, lease_not_found, lease_not_active, mission_missing, is_active, is_leased,
  is_terminal_attempt, generation_bumped, lease_cancelled,
}

abbrev pub is_cancelled : Reason → Bool
is_cancelled Reason.cancelled = true
is_cancelled _ = false

-- The parts of `cancel_active_lease`, on the rows that it finds.
abbrev pub cancelled_lease : ℕ → Lease → Lease
cancelled_lease clock l = record l { state = LeaseState.cancelled; updated_at = clock }

unfoldable pub cancelled_attempt : ℕ → Attempt → Attempt
cancelled_attempt clock a =
    if not (is_some a.accepted_result_id) && not (is_terminal_attempt a.status)
    then record a { status = AttemptStatus.cancelled; terminal_at = some clock }
    else a

unfoldable pub cancel_attempt : ℕ → ℕ → Db → Db
unfolding cancelled_attempt
cancel_attempt clock attempt_id db = elim (lookup attempt_id db.attempts) [
  | none ↦ db
  | some a ↦ record db { attempts = put attempt_id (cancelled_attempt clock a) db.attempts }
]

unfoldable pub cancelled_task : Reason → Task → Task
cancelled_task reason t =
    if is_leased t.status
    then record t {
      status = if is_cancelled reason then TaskStatus.cancelled else TaskStatus.ready;
    }
    else t

unfoldable pub cancel_task : Reason → ℕ → Db → Db
unfolding cancelled_task
cancel_task reason task_id db = elim (lookup task_id db.tasks) [
  | none ↦ db
  | some t ↦ record db { tasks = put task_id (cancelled_task reason t) db.tasks }
]

abbrev pub emit_cancelled : ℕ → Reason → Db → Db
emit_cancelled lease_id reason db = record db {
  outbox = db.outbox ++ lease_cancelled lease_id reason ∷ [];
}

-- The writes of `cancel_active_lease`.
unfoldable pub cancel_lease : ℕ → Reason → ℕ → Lease → Db → Db
unfolding cancel_attempt cancel_task
cancel_lease lease_id reason clock l db = emit_cancelled lease_id reason (
    cancel_task reason l.task_id (
      cancel_attempt clock l.attempt_id
        (record db { leases = put lease_id (cancelled_lease clock l) db.leases })))

unfoldable pub cancel_active_lease : ℕ → Reason → ℕ → Exec Db LeaseError Lease
cancel_active_lease lease_id reason clock = do
  l ← reads (λ db. or_raise (lookup lease_id db.leases) lease_not_found)
  lift (raise_if (not (is_active l.state)) (lease_not_active l.state))
  modify (cancel_lease lease_id reason clock l)
  pure (cancelled_lease clock l)

-- `list_active_for_mission`, by lease.
unfoldable pub active_in_mission : ℕ → Lease → Bool
active_in_mission mission_id l = l.mission_id == mission_id && is_active l.state

unfoldable pub list_active_for_mission : ℕ → Db → List ℕ
unfolding active_in_mission
list_active_for_mission mission_id db =
    order_by ltb (select (active_in_mission mission_id) db.leases)

pub record MissionCancellation : Type 0 where
  pub mission_id : ℕ
  pub previous_generation : ℕ
  pub new_generation : ℕ
  pub terminal : Bool
  pub notified_lease_ids : List ℕ

-- The loop that notifies the leases.
unfoldable pub notify_all : Reason → ℕ → List ℕ → Exec Db LeaseError Unit
notify_all reason clock [] db = (ok tt, db)
notify_all reason clock (lease_id ∷ rest) db =
    let later = notify_all reason clock rest (cancel_active_lease lease_id reason clock db).1 in
    elim (cancel_active_lease lease_id reason clock db).0 [
      | ok _ ↦ later
      | err e ↦ (err e, (cancel_active_lease lease_id reason clock db).1)
    ]

-- The durable part of `revoke_mission_work`: the fence, before any worker hears of it.
unfoldable pub bump_generation : ℕ → Mission → Reason → Db → Db
bump_generation mission_id m reason db = record db {
  missions =
      put mission_id (record m { cancellation_generation = m.cancellation_generation + 1 })
        db.missions;
  outbox =
      db.outbox
      ++ generation_bumped mission_id m.cancellation_generation (m.cancellation_generation + 1)
          reason
        ∷ [];
}

unfoldable pub revoke_mission_work : ℕ → Reason → Bool → ℕ → Exec Db LeaseError MissionCancellation
unfolding bump_generation
revoke_mission_work mission_id reason notify_leases clock = do
  m ← reads (λ db. or_raise (lookup mission_id db.missions) mission_missing)
  modify (bump_generation mission_id m reason)
  notified ← gets (λ db. if notify_leases then list_active_for_mission mission_id db else [])
  notify_all reason clock notified
  pure (record {
    mission_id = mission_id;
    previous_generation = m.cancellation_generation;
    new_generation = m.cancellation_generation + 1;
    terminal = false;
    notified_lease_ids = notified;
  })

unfoldable pub close_mission : ℕ → ℕ → Db → Db
close_mission mission_id clock db = elim (lookup mission_id db.missions) [
  | none ↦ db
  | some m ↦ record db {
    missions =
        put mission_id (record m { status = MissionStatus.cancelled; updated_at = clock })
          db.missions;
  }
]

unfoldable pub cancel_mission : ℕ → ℕ → Exec Db LeaseError MissionCancellation
unfolding close_mission
cancel_mission mission_id clock = do
  outcome ← revoke_mission_work mission_id Reason.cancelled true clock
  modify (close_mission mission_id clock)
  pure (record outcome { mission_id = mission_id; terminal = true })
