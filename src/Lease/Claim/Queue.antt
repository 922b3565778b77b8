-- ===== src/Lease/Claim/Queue.antt =====
-- About the paginated scan of `claim_eligible_attempt` and the order of the queue.
use swarmai.Prelude.{
  ℕ, suc, ◌≡◌, refl, Bool, true, false, ◌||◌, none, [], arith, ◌==◌, max, length, rows, keep,
}
use swarmai.Prelude.Paging.{find, order_by-IsSorted}
use swarmai.Prelude.Paging.Scan.{scan-eq-find}
use swarmai.Prelude.Distinct.{rows-AreDistinct}
use swarmai.Lease.Rows.{Db, Worker, Task}
use swarmai.Lease.Authority.{Service}
use swarmai.Lease.Claim.{Candidate, before, is_candidate, ready_candidates, can_claim, next_claim}

before_trans : (x y z : Candidate) → before x y ≡ true → before y z ≡ true → before x z ≡ true
unfolding before
before_trans x y z h k = ground arith

before_irrefl : (x : Candidate) → before x x ≡ false
unfolding before
before_irrefl x = ground arith

before_total :
    (i j : ℕ) (t u : Task)
    → (i == j) ≡ false
    → (before (i, t) (j, u) || before (j, u) (i, t)) ≡ true
unfolding before
before_total i j t u h = ground arith

-- Whatever the page size, the scan of `claim_eligible_attempt` returns the first task that the
-- worker may claim in the order of priority, age and identifier, over all ready tasks of the
-- project that are not locked; it returns none only if there is no such task.
pub next_claim-eq-find :
    (s : Service) (w : Worker) (project_id : ℕ) (locked : ℕ → Bool) (db : Db)
    → next_claim s w project_id locked db
      ≡ find (can_claim w db) (ready_candidates project_id locked db)
unfolding next_claim
next_claim-eq-find s w project_id locked db =
    scan-eq-find before before_trans before_irrefl
      (suc (length (ready_candidates project_id locked db))) (max 1 s.candidate_page_size)
      (can_claim w db) [] (ready_candidates project_id locked db) none
      (ready_candidates project_id locked db) (omega arith)
      (unfold ready_candidates in
        order_by-IsSorted before before_trans before_irrefl
          (keep (is_candidate project_id locked) (rows db.tasks))
          (rows-AreDistinct before before_total (is_candidate project_id locked) db.tasks))
      refl refl (omega arith)
