-- ===== src/Lease/Acceptance/Outcome.antt =====
-- What a call of `accept_result` does, by the state of the result.
use swarmai.Prelude.{ℕ, ◌≡◌, ◌∙◌, ◌⊎◌, inl, inr, some, lookup, Option-cases, Result-cases, ok, err}
use swarmai.Lease.Rows.{
  Db, Task, Attempt, Lease, WorkerResult, AcceptanceState, LeaseError, missing_fence_rows,
}
use swarmai.Lease.AcceptFence.{assert_accept_fence}
use swarmai.Lease.AcceptFence.Passed.{Passed, fence-Passed, Passed-fence}
use swarmai.Lease.Results.{
  accept_result, accept_in_state, accept_rows, settle_acceptance, mark_rejected, accepted_outcome,
  write_acceptance,
}

-- The rows of the fence are there and the fence is passed.
pub record MayAccept (id : ℕ) (r : WorkerResult) (clock : ℕ) (db : Db) : Type 0 where
  pub lease : Lease
  pub attempt : Attempt
  pub task : Task
  pub lease_found : lookup r.lease_id db.leases ≡ some lease
  pub attempt_found : lookup r.attempt_id db.attempts ≡ some attempt
  pub task_found : lookup r.task_id db.tasks ≡ some task
  pub passed : Passed id r lease attempt task clock db

-- The two ends of an acceptance: the fence rows are there and the fence is passed, or not, and the
-- result is rejected for a reason and nothing else is written.
pub record IsAccepted (id : ℕ) (r : WorkerResult) (clock : ℕ) (db : Db) : Type 0 where
  pub may : MayAccept id r clock db
  pub outcome : accept_result id clock db ≡ (
    ok (accepted_outcome id r clock),
    write_acceptance id r may.lease may.attempt may.task clock db,
  )

pub record IsRejected (id : ℕ) (r : WorkerResult) (clock : ℕ) (db : Db) : Type 0 where
  pub why : LeaseError
  pub unmet : MayAccept id r clock db → ⊥
  pub outcome : accept_result id clock db ≡ (err why, mark_rejected id r why db)

accept-submitted :
    (id : ℕ) (r : WorkerResult) (clock : ℕ) (db : Db)
    → lookup id db.results ≡ some r
    → r.acceptance_state ≡ AcceptanceState.submitted
    → accept_result id clock db
      ≡ accept_rows id r clock
          (lookup r.lease_id db.leases)
          (lookup r.attempt_id db.attempts)
          (lookup r.task_id db.tasks)
          db
unfolding accept_result
accept-submitted id r clock db e s = rw (e, accept_result) (rw (s, accept_in_state))

without_rows :
    (id : ℕ) (r : WorkerResult) (clock : ℕ) (db : Db)
    → (MayAccept id r clock db → ⊥)
    → accept_result id clock db ≡ (err missing_fence_rows, mark_rejected id r missing_fence_rows db)
    → IsAccepted id r clock db ⊎ IsRejected id r clock db
without_rows id r clock db f h = inr (record { why = missing_fence_rows; unmet = f; outcome = h })

refused-unmet :
    (id : ℕ) (r : WorkerResult) (l : Lease) (a : Attempt) (t : Task) (clock : ℕ) (db : Db)
    {x : LeaseError}
    → lookup r.lease_id db.leases ≡ some l
    → lookup r.attempt_id db.attempts ≡ some a
    → lookup r.task_id db.tasks ≡ some t
    → assert_accept_fence id r l a t clock db ≡ err x
    → MayAccept id r clock db
    → ⊥
refused-unmet id r l a t clock db {x = x} el ea et refused p =
    let one : p.lease ≡ l = cc (el, p.lease_found) in
    let two : p.attempt ≡ a = cc (ea, p.attempt_found) in
    let three : p.task ≡ t = cc (et, p.task_found) in
    let passes = Passed-fence id r p.lease p.attempt p.task clock db p.passed in
    let moved : assert_accept_fence id r l a t clock db ≡ ok tt = cc (one, two, three, passes) in
    cc (moved, refused)

decided_by_fence :
    (id : ℕ) (r : WorkerResult) (l : Lease) (a : Attempt) (t : Task) (clock : ℕ) (db : Db)
    → lookup r.lease_id db.leases ≡ some l
    → lookup r.attempt_id db.attempts ≡ some a
    → lookup r.task_id db.tasks ≡ some t
    → accept_result id clock db
      ≡ settle_acceptance id r l a t clock (assert_accept_fence id r l a t clock db) db
    → IsAccepted id r clock db ⊎ IsRejected id r clock db
unfolding settle_acceptance
decided_by_fence id r l a t clock db el ea et h =
    elim (Result-cases (assert_accept_fence id r l a t clock db)) [
      | inr (x, refused) ↦ inr (record {
        why = x;
        unmet = refused-unmet id r l a t clock db {x = x} el ea et refused;
        outcome = h ∙ rw (refused, settle_acceptance);
      })
      | inl (u, passed) ↦ inl (record {
        may = record {
          lease = l;
          attempt = a;
          task = t;
          lease_found = el;
          attempt_found = ea;
          task_found = et;
          passed = fence-Passed id r l a t clock db passed;
        };
        outcome = h ∙ rw (passed, settle_acceptance);
      })
    ]

-- A submitted result is accepted exactly when its lease, attempt and task are there and every
-- condition of the fence holds, and then exactly the rows of the acceptance are written; in any
-- other case the call raises, and it writes the rejection of that one result and nothing else.
pub accept_decides :
    (id : ℕ) (r : WorkerResult) (clock : ℕ) (db : Db)
    → lookup id db.results ≡ some r
    → r.acceptance_state ≡ AcceptanceState.submitted
    → IsAccepted id r clock db ⊎ IsRejected id r clock db
unfolding accept_rows
accept_decides id r clock db e s =
    let h = accept-submitted id r clock db e s in
    elim (Option-cases (lookup r.lease_id db.leases)) [
      | inl missing ↦ without_rows id r clock db (λ p. cc (missing, p.lease_found)) (h ∙ rw missing)
      | inr (l, el) ↦ elim (Option-cases (lookup r.attempt_id db.attempts)) [
        | inl missing ↦
            without_rows id r clock db (λ p. cc (missing, p.attempt_found)) (h ∙ rw (el, missing))
        | inr (a, ea) ↦ elim (Option-cases (lookup r.task_id db.tasks)) [
          | inl missing ↦
              without_rows id r clock db (λ p. cc (missing, p.task_found))
                (h ∙ rw (el, ea, missing))
          | inr (t, et) ↦ decided_by_fence id r l a t clock db el ea et (h ∙ rw (el, ea, et))
        ]
      ]
    ]
