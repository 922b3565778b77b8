-- ===== src/Lease/System/Safety.antt =====
-- What holds after any sequence of steps.
use swarmai.Prelude.{
  ℕ, ◌≡◌, ◌∙◌, inl, inr, Bool, true, some, [], arith, lookup, Option-cases, Result-cases,
  if◌then◌else◌,
}
use swarmai.Lease.Rows.{Db, Lease, Reason}
use swarmai.Lease.Authority.{Service}
use swarmai.Lease.Cancel.{
  revoke_mission_work, cancel_mission, bump_generation, close_mission, notify_all,
  list_active_for_mission,
}
use swarmai.Lease.Moves.{Moves, still, Moves-trans}
use swarmai.Lease.Moves.Exclusive.{Exclusive, Moves-Exclusive, WithinHorizon, Moves-WithinHorizon}
use swarmai.Lease.Moves.Continuity.{Continues, Moves-Persists}
use swarmai.Lease.Refinement.Claims.{claim-Moves, renew-Moves}
use swarmai.Lease.Refinement.Expiry.{expire-Moves}
use swarmai.Lease.Refinement.Endings.{
  cancel_active_lease-Moves, revoke-Moves, cancel_mission-Moves, accept-Moves, leases-submit,
}
use swarmai.Lease.Refinement.Frames.{
  claim-Untouched, renew-Untouched, expire-Untouched, cancel_active_lease-Untouched,
  notify_all-Untouched,
}
use swarmai.Lease.Refinement.Workers.{run_worker-OnlyWorkers}
use swarmai.Lease.Acceptance.{AcceptedOnce, accept-AcceptedOnce, submit-AcceptedOnce}
use swarmai.Lease.System.{
  Step, claim, renew, expire, submit, accept, cancel_lease, revoke, cancel_all, worker, elsewhere,
  Reach, here, next,
}

-- Every step follows the protocol of the lease table.
pub Step-Moves : {s : Service} {d e : Db} → Step s d e → Moves d.leases e.leases
Step-Moves {s = s} {d = d} (claim c locked fresh w) = rw w (claim-Moves s c locked d fresh)
Step-Moves {s = s} {d = d} (renew c w) = rw w (renew-Moves s c d)
Step-Moves {d = d} (expire clock p limit locked w) = rw w (expire-Moves clock p limit locked d)
Step-Moves {s = s} {d = d} (submit c w) = rw (w, leases-submit s c d) still
Step-Moves {d = d} (accept id clock w) = rw w (accept-Moves id clock d)
Step-Moves {d = d} (cancel_lease id why clock w) = rw w (cancel_active_lease-Moves id why clock d)
Step-Moves {d = d} (revoke id why notify clock w) = rw w (revoke-Moves id why notify clock d)
Step-Moves {d = d} (cancel_all id clock w) = rw w (cancel_mission-Moves id clock d)
Step-Moves {s = s} {d = d} (worker c w) = rw (w, (run_worker-OnlyWorkers s c d).leases) still
Step-Moves (elsewhere w _) = rw w still

-- Whatever sequence of calls is run, with writes of missions and tasks by the rest of the program
-- in between, the lease table moves only as the protocol allows: a new lease is issued only for a
-- task that no active lease holds and within its horizon, and a lease that is there is rewritten
-- only while it is active, with its binding kept, either renewed within its horizon and not
-- shortened if it has one, or ended.
pub Reach-Moves : {s : Service} {d e : Db} → Reach s d e → Moves d.leases e.leases
Reach-Moves here = still
Reach-Moves (next r st) = Moves-trans (Reach-Moves r) (Step-Moves st)

-- Where no task had two active leases, and no lease ran past its horizon, no sequence of claims,
-- renewals, expiries, submissions, acceptances, cancellations and worker calls makes it so, nor do
-- writes of missions and tasks by the rest of the program in between; each claim comes with a lease
-- identifier that is not in the table.
pub Reach-Exclusive :
    {s : Service} {d e : Db}
    → Reach s d e
    → Exclusive d.leases
    → WithinHorizon d.leases
    → Exclusive e.leases × WithinHorizon e.leases
Reach-Exclusive r x h = (Moves-Exclusive (Reach-Moves r) x, Moves-WithinHorizon (Reach-Moves r) h)

-- A lease that is in the table stays there with the same task, attempt, mission, worker and
-- stamps; once it is not active it is never written again; and while it is active with a horizon
-- its expiry is not moved back.
pub Reach-Continues :
    {s : Service} {d e : Db} (id : ℕ) (l : Lease)
    → Reach s d e
    → lookup id d.leases ≡ some l
    → (m : Lease) × (lookup id e.leases ≡ some m) × Continues l m
Reach-Continues id l r e = Moves-Persists id l (Reach-Moves r) e

-- The results of the other operations.
results-revoke :
    (id : ℕ) (why : Reason) (notify : Bool) (clock : ℕ) (d : Db)
    → (revoke_mission_work id why notify clock d).1.results ≡ d.results
unfolding revoke_mission_work
results-revoke id why notify clock d = elim (Option-cases (lookup id d.missions)) [
  | inl missing ↦ rw (missing, revoke_mission_work)
  | inr (m, e) ↦
      let b = bump_generation id m why d in
      let ids = if notify then list_active_for_mission id b else [] in
      rw (e, revoke_mission_work)
        (elim (Result-cases (notify_all why clock ids b).0) [
          | inl (_, done) ↦ rw done (notify_all-Untouched why clock ids b).results
          | inr (_, failed) ↦ rw failed (notify_all-Untouched why clock ids b).results
        ])
]

results-close_mission : (id clock : ℕ) (d : Db) → (close_mission id clock d).results ≡ d.results
unfolding close_mission
results-close_mission id clock d = ground arith

results-cancel_mission : (id clock : ℕ) (d : Db) → (cancel_mission id clock d).1.results ≡ d.results
unfolding cancel_mission
results-cancel_mission id clock d =
    let revoked = results-revoke id Reason.cancelled true clock d in
    elim (Result-cases (revoke_mission_work id Reason.cancelled true clock d).0) [
      | inl (_, done) ↦ rw (done, cancel_mission) (results-close_mission id clock _ ∙ revoked)
      | inr (_, failed) ↦ rw (failed, cancel_mission) revoked
    ]

Step-AcceptedOnce :
    {s : Service} {d e : Db} → Step s d e → AcceptedOnce d.results → AcceptedOnce e.results
Step-AcceptedOnce {s = s} {d = d} (claim c locked fresh w) x =
    rw (w, (claim-Untouched s c locked d).results) x
Step-AcceptedOnce {s = s} {d = d} (renew c w) x = rw (w, (renew-Untouched s c d).results) x
Step-AcceptedOnce {d = d} (expire clock p limit locked w) x =
    rw (w, (expire-Untouched clock p limit locked d).results) x
Step-AcceptedOnce {s = s} {d = d} (submit c w) x = rw w (submit-AcceptedOnce s c d x)
Step-AcceptedOnce {d = d} (accept id clock w) x = rw w (accept-AcceptedOnce id clock d x)
Step-AcceptedOnce {d = d} (cancel_lease id why clock w) x =
    rw (w, (cancel_active_lease-Untouched id why clock d).results) x
Step-AcceptedOnce {d = d} (revoke id why notify clock w) x =
    rw (w, results-revoke id why notify clock d) x
Step-AcceptedOnce {d = d} (cancel_all id clock w) x = rw (w, results-cancel_mission id clock d) x
Step-AcceptedOnce {s = s} {d = d} (worker c w) x = rw (w, (run_worker-OnlyWorkers s c d).results) x
Step-AcceptedOnce (elsewhere _ w) x = rw w x

-- Where no attempt had two accepted results, none has after any sequence of claims, renewals,
-- expiries, submissions, acceptances, cancellations and worker calls, with writes of missions and
-- tasks by the rest of the program in between.
pub Reach-AcceptedOnce :
    {s : Service} {d e : Db} → Reach s d e → AcceptedOnce d.results → AcceptedOnce e.results
Reach-AcceptedOnce here x = x
Reach-AcceptedOnce (next r st) x = Step-AcceptedOnce st (Reach-AcceptedOnce r x)
