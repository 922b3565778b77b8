-- ===== src/Lease/Acceptance/Fencing.antt =====
-- Idempotence of acceptance, and the fence that a revocation puts up.
use swarmai.Prelude.{
  Result, ℕ, ◌+◌, ◌≡◌, refl, sym, ap, ◌∙◌, ◌⊎◌, inl, inr, Bool, Option, none, some, arith, lookup,
  put, lookup-put, Table, Option-cases, Result-cases, ok, err, if◌then◌else◌, ◌≤◌, [],
}
use mathlib.Core.Path.{subst}
use swarmai.Lease.Rows.{
  Db, Task, Lease, Mission, WorkerResult, AcceptanceState, LeaseError, Reason, result_not_found,
  assertion_failed, result_terminal,
}
use swarmai.Lease.Cancel.{revoke_mission_work, bump_generation, notify_all, list_active_for_mission}
use swarmai.Lease.Refinement.Frames.{notify_all-Untouched}
use swarmai.Lease.Results.{
  accept_result, accept_in_state, accepted_outcome, accepted_before, accepted_result,
  write_acceptance, AcceptedResult,
}
use swarmai.Lease.Acceptance.Outcome.{IsAccepted, IsRejected, accept_decides}

-- A result that is accepted with its time.
accept-accepted :
    (id : ℕ) (r : WorkerResult) (clock at : ℕ) (db : Db)
    → lookup id db.results ≡ some r
    → r.acceptance_state ≡ AcceptanceState.accepted
    → r.accepted_at ≡ some at
    → accept_result id clock db ≡ (ok (accepted_outcome id r at), db)
unfolding accept_result accept_in_state accepted_before
accept-accepted id r clock at db e s h =
    rw (e, accept_result) (rw (s, accept_in_state) (rw (h, accepted_before)))

-- The calls that raise and write nothing.
accept-missing :
    (id clock : ℕ) (db : Db)
    → lookup id db.results ≡ none
    → (accept_result id clock db).0 ≡ err result_not_found
unfolding accept_result
accept-missing id clock db e = rw (e, accept_result)

accept-untimed :
    (id : ℕ) (r : WorkerResult) (clock : ℕ) (db : Db)
    → lookup id db.results ≡ some r
    → r.acceptance_state ≡ AcceptanceState.accepted
    → r.accepted_at ≡ none
    → (accept_result id clock db).0 ≡ err assertion_failed
unfolding accept_result accept_in_state accepted_before
accept-untimed id r clock db e s h =
    rw (e, accept_result) (rw (s, accept_in_state) (rw (h, accepted_before)))

accept-closed :
    (id : ℕ) (r : WorkerResult) (clock : ℕ) (db : Db)
    → lookup id db.results ≡ some r
    → (r.acceptance_state ≡ AcceptanceState.rejected)
      ⊎ (r.acceptance_state ≡ AcceptanceState.superseded)
    → (accept_result id clock db).0 ≡ err (result_terminal r.acceptance_state)
unfolding accept_result accept_in_state
accept-closed id r clock db e (inl s) = rw (e, accept_result) (rw (s, accept_in_state))
accept-closed id r clock db e (inr s) = rw (e, accept_result) (rw (s, accept_in_state))

-- In every state with the row of a result that a call leaves, another call returns the same.
abbrev Stays : ℕ → ℕ → Db → Result LeaseError AcceptedResult × Db → Type 0
Stays id later now (outcome, after) =
    lookup id now.results ≡ lookup id after.results → accept_result id later now ≡ (outcome, now)

again_when_written :
    (id clock later : ℕ) (r : WorkerResult) (db now : Db)
    → IsAccepted id r clock db
    → Stays id later now (accept_result id clock db)
unfolding write_acceptance accepted_outcome
again_when_written id clock later r db now a = rw a.outcome (λ same.
    accept-accepted id (accepted_result r clock) later clock now
      (same ∙ lookup-put id id (accepted_result r clock) db.results ∙ ground arith) refl refl)

-- The other states, by the state of the row.
again_in_state :
    (state : AcceptanceState) (id clock later : ℕ) (r : WorkerResult) (db now : Db)
    {x : AcceptedResult}
    → lookup id db.results ≡ some r
    → r.acceptance_state ≡ state
    → (accept_result id clock db).0 ≡ ok x
    → Stays id later now (accept_result id clock db)
unfolding accept_result accept_in_state accepted_before
again_in_state AcceptanceState.submitted id clock later r db now e s h =
    elim (accept_decides id r clock db e s) [
      | inl a ↦ again_when_written id clock later r db now a
      | inr a ↦ cc (ap (λ (p : Result LeaseError AcceptedResult × Db). p.0) a.outcome)
    ]
again_in_state AcceptanceState.accepted id clock later r db now e s h =
    elim (Option-cases r.accepted_at) [
      | inl missing ↦ cc (accept-untimed id r clock db e s missing)
      | inr (t, found) ↦
          rw (accept-accepted id r clock t db e s found)
            (λ same. accept-accepted id r later t now (same ∙ e) s found)
    ]
again_in_state AcceptanceState.rejected id clock later r db now e s h =
    cc (accept-closed id r clock db e (inl s))
again_in_state AcceptanceState.superseded id clock later r db now e s h =
    cc (accept-closed id r clock db e (inr s))

-- To accept a result again, at any time and in any state in which its row is as the first call that
-- accepted it left it, returns what that call returned and writes nothing, whatever else was written
-- in between.
pub accept_idempotent :
    (id clock later : ℕ) (db now : Db) {outcome : AcceptedResult} {after : Db}
    → accept_result id clock db ≡ (ok outcome, after)
    → lookup id now.results ≡ lookup id after.results
    → accept_result id later now ≡ (ok outcome, now)
accept_idempotent id clock later db now h = elim (Option-cases (lookup id db.results)) [
  | inl missing ↦ cc (
    accept-missing id clock db missing,
    ap (λ (p : Result LeaseError AcceptedResult × Db). p.0) h,
  )
  | inr (r, e) ↦ subst (Stays id later now) h (
      again_in_state r.acceptance_state id clock later r db now e refl
        (ap (λ (p : Result LeaseError AcceptedResult × Db). p.0) h))
]

-- The missions after a revocation: the generation of that mission is one more.
missions-revoke :
    (id : ℕ) (m : Mission) (why : Reason) (notify : Bool) (clock : ℕ) (db : Db)
    → lookup id db.missions ≡ some m
    → (revoke_mission_work id why notify clock db).1.missions
      ≡ put id (record m { cancellation_generation = m.cancellation_generation + 1 }) db.missions
unfolding revoke_mission_work
missions-revoke id m why notify clock db e =
    let b = bump_generation id m why db in
    let ids = if notify then list_active_for_mission id b else [] in
    rw (e, revoke_mission_work)
      (elim (Result-cases (notify_all why clock ids b).0) [
        | inl (_, done) ↦ rw done (notify_all-Untouched why clock ids b).missions
        | inr (_, failed) ↦ rw failed (notify_all-Untouched why clock ids b).missions
      ])

some_once {ℓ} : {A : Type ℓ} {o : Option A} {x y : A} → o ≡ some x → o ≡ some y → x ≡ y
some_once p q = cc

-- A lease stamped with the generation of before a revocation, or an older one, is not of the
-- mission's generation.
outdated :
    (id mission_id : ℕ) (m now : Mission) (before after : Table Mission) (l used : Lease)
    → after ≡ put id (record m { cancellation_generation = m.cancellation_generation + 1 }) before
    → l ≡ used
    → l.cancellation_generation ≤ m.cancellation_generation
    → mission_id ≡ id
    → lookup mission_id after ≡ some now
    → used.cancellation_generation ≡ now.cancellation_generation
    → ⊥
outdated id mission_id m now before after l used written same_lease old same_id e current =
    let bumped : lookup id after
        ≡ some (record m { cancellation_generation = m.cancellation_generation + 1 }) =
      rw written (
        lookup-put id id (record m { cancellation_generation = m.cancellation_generation + 1 })
          before
        ∙ ground arith) in
    let g =
      ap (λ (k : Mission). k.cancellation_generation)
        (some_once bumped (subst (λ i. lookup i after ≡ some now) same_id e)) in
    let h = ap (λ (k : Lease). k.cancellation_generation) same_lease in
    omega (arith, g, h, old, current)

-- After `revoke_mission_work` of a mission that is there, whether or not its leases were notified, no
-- submitted result of a task of the mission under a lease of the generation before, or an older one,
-- is accepted: the call raises, and it writes only the rejection of the result.
pub revoke_fences :
    (id : ℕ) (m : Mission) (why : Reason) (notify : Bool) (clock : ℕ) (db : Db) (result_id : ℕ)
    (r : WorkerResult) (l : Lease) (t : Task) (later : ℕ)
    → lookup id db.missions ≡ some m
    → let after = (revoke_mission_work id why notify clock db).1 in
      lookup result_id after.results ≡ some r
      → r.acceptance_state ≡ AcceptanceState.submitted
      → lookup r.lease_id after.leases ≡ some l
      → l.cancellation_generation ≤ m.cancellation_generation
      → lookup r.task_id after.tasks ≡ some t
      → t.mission_id ≡ id
      → IsRejected result_id r later after
revoke_fences id m why notify clock db result_id r l t later found er s el old et same =
    let after = (revoke_mission_work id why notify clock db).1 in
    elim (accept_decides result_id r later after er s) [
      | inr rejected ↦ rejected
      | inl a ↦ absurd (
          outdated id a.may.task.mission_id m a.may.passed.mission db.missions after.missions l
            a.may.lease (missions-revoke id m why notify clock db found)
            (some_once el a.may.lease_found) old
            (sym (ap (λ (k : Task). k.mission_id) (some_once et a.may.task_found)) ∙ same)
            a.may.passed.mission_found a.may.passed.not_cancelled)
    ]
