-- ===== src/Lease/Acceptance.antt =====
-- About the table of results under `submit_result` and `accept_result`.
pub mod Outcome
pub mod Fencing
use swarmai.Prelude.{
  ℕ, ◌≡◌, refl, sym, ap, ◌∙◌, inl, inr, Bool, true, false, Option, none, some, List, [], ◌∷◌, arith,
  lookup, put, lookup-put, ◌==◌, if◌then◌else◌, any_row, any_row-false, Option-cases, Bool-cases,
  Result-cases, Table, ok, err,
}
use swarmai.Lease.Rows.{
  Verdict, Db, Task, Attempt, Lease, Worker, WorkerResult, AcceptanceState, LeaseError, is_accepted,
  Reason,
}
use swarmai.Lease.Authority.{Service, require_authenticated_worker}
use swarmai.Lease.AcceptFence.{accepted_for, assert_accept_fence}
use swarmai.Lease.AcceptFence.Passed.{fence-Passed}
use swarmai.Lease.Results.{
  accepted_before-store, SubmitCall, submit_found, submit_result, submitted_result,
  write_submission, accept_result, accept_in_state, accept_rows, settle_acceptance, mark_rejected,
  accepted_result, write_acceptance,
}

pub record AcceptedOnce (t : Table WorkerResult) : Type 0 where
  pub one_accepted :
      (i j : ℕ) (r q : WorkerResult)
      → lookup i t ≡ some r
      → lookup j t ≡ some q
      → is_accepted r.acceptance_state ≡ true
      → is_accepted q.acceptance_state ≡ true
      → r.attempt_id ≡ q.attempt_id
      → i ≡ j

-- A row that is not accepted is written.
put_open-AcceptedOnce :
    (i : ℕ) (r : WorkerResult) (t : Table WorkerResult)
    → is_accepted r.acceptance_state ≡ false
    → AcceptedOnce t
    → AcceptedOnce (put i r t)
put_open-AcceptedOnce i r t not_yet x = record {
  one_accepted = λ j k p q ej ek aj ak same.
      grind (arith, lookup-put j i r t, lookup-put k i r t, x.one_accepted j k p q);
}

none_accepted :
    (attempt_id j : ℕ) (q : WorkerResult) (t : Table WorkerResult)
    → any_row (accepted_for attempt_id) t ≡ false
    → lookup j t ≡ some q
    → is_accepted q.acceptance_state ≡ true
    → ¬ (q.attempt_id ≡ attempt_id)
unfolding accepted_for
none_accepted attempt_id j q t h e a same =
    ground (arith, any_row-false (accepted_for attempt_id) j {v = q} t h e)

-- A row is written that is the first accepted one of its attempt.
put_first-AcceptedOnce :
    (i : ℕ) (r : WorkerResult) (t : Table WorkerResult)
    → any_row (accepted_for r.attempt_id) t ≡ false
    → AcceptedOnce t
    → AcceptedOnce (put i r t)
put_first-AcceptedOnce i r t first x = record {
  one_accepted = λ j k p q ej ek aj ak same. grind (
    arith,
    lookup-put j i r t,
    lookup-put k i r t,
    none_accepted r.attempt_id j p t first,
    none_accepted r.attempt_id k q t first,
    x.one_accepted j k p q,
  );
}

settle-AcceptedOnce :
    (id : ℕ) (r : WorkerResult) (l : Lease) (a : Attempt) (t : Task) (clock : ℕ) (db : Db)
    → AcceptedOnce db.results
    → AcceptedOnce
        (settle_acceptance id r l a t clock (assert_accept_fence id r l a t clock db) db).1.results
unfolding settle_acceptance
settle-AcceptedOnce id r l a t clock db x =
    elim (Result-cases (assert_accept_fence id r l a t clock db)) [
      | inr (e, refused) ↦
          rw (refused, settle_acceptance) (put_open-AcceptedOnce id _ db.results refl x)
      | inl (u, passed) ↦
          rw (passed, settle_acceptance)
            (put_first-AcceptedOnce id (accepted_result r clock) db.results
              (fence-Passed id r l a t clock db passed).first_accepted x)
    ]

accept_rows-AcceptedOnce :
    (id : ℕ) (r : WorkerResult) (clock : ℕ) (l : Option Lease) (a : Option Attempt)
    (t : Option Task) (db : Db)
    → AcceptedOnce db.results
    → AcceptedOnce (accept_rows id r clock l a t db).1.results
unfolding accept_rows mark_rejected
accept_rows-AcceptedOnce id r clock (some l) (some a) (some t) db x =
    settle-AcceptedOnce id r l a t clock db x
accept_rows-AcceptedOnce id r clock _ _ _ db x = put_open-AcceptedOnce id _ db.results refl x

accept_in_state-AcceptedOnce :
    (state : AcceptanceState) (id : ℕ) (r : WorkerResult) (clock : ℕ) (db : Db)
    → AcceptedOnce db.results
    → AcceptedOnce (accept_in_state state id r clock db).1.results
unfolding accept_in_state
accept_in_state-AcceptedOnce AcceptanceState.submitted id r clock db x =
    accept_rows-AcceptedOnce id r clock _ _ _ db x
accept_in_state-AcceptedOnce AcceptanceState.accepted id r clock db x =
    rw (accepted_before-store id r db) x
accept_in_state-AcceptedOnce _ id r clock db x = x

pub accept-AcceptedOnce :
    (id clock : ℕ) (db : Db)
    → AcceptedOnce db.results
    → AcceptedOnce (accept_result id clock db).1.results
unfolding accept_result
accept-AcceptedOnce id clock db x = elim (Option-cases (lookup id db.results)) [
  | inl missing ↦ rw (missing, accept_result) x
  | inr (r, e) ↦
      rw (e, accept_result) (accept_in_state-AcceptedOnce r.acceptance_state id r clock db x)
]

-- A submission adds a row that is not accepted, or nothing.
pub results-submit_found :
    (c : SubmitCall) (w : Worker) (l : Lease) (db : Db)
    → (submit_found c w l db).1.results ≡ elim (submit_found c w l db).0 [
      | ok q ↦ put c.result_id (submitted_result c l) db.results
      | err e ↦ db.results
    ]
unfolding submit_found
results-submit_found c w l db = ground arith

submit_found-AcceptedOnce :
    (c : SubmitCall) (w : Worker) (l : Lease) (db : Db)
    → AcceptedOnce db.results
    → AcceptedOnce (submit_found c w l db).1.results
submit_found-AcceptedOnce c w l db x =
    rw (results-submit_found c w l db) (elim (Result-cases (submit_found c w l db).0) [
      | inl (q, e) ↦ rw e (
          put_open-AcceptedOnce c.result_id (submitted_result c l) db.results
            (unfold submitted_result in refl) x)
      | inr (r, e) ↦ rw e x
    ])

pub submit-AcceptedOnce :
    (s : Service) (c : SubmitCall) (db : Db)
    → AcceptedOnce db.results
    → AcceptedOnce (submit_result s c db).1.results
unfolding submit_result
submit-AcceptedOnce s c db x =
    elim (Result-cases (require_authenticated_worker s c.worker_id c.membership_token db)) [
      | inr (_, refused) ↦ rw (refused, submit_result) x
      | inl (w, known) ↦
          rw (known, submit_result)
            (elim (Option-cases (lookup c.lease_id db.leases)) [
              | inl missing ↦ rw missing x
              | inr (l, e) ↦ rw e (submit_found-AcceptedOnce c w l db x)
            ])
    ]
