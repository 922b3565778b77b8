-- ===== src/Mission/Finished.antt =====
-- About the completion of a mission.
use swarmai.Prelude.{
  ℕ, ◌≡◌, refl, inl, inr, Bool, true, false, not, ◌&&◌, ◌||◌, some, [], ◌∷◌, if◌then◌else◌, Table,
  lookup, lookup-put, rows, arith, Bool-cases,
}
use swarmai.Graph.Specs.{TaskStatus, TaskSpec}
use swarmai.Mission.State.{Mission, TaskAttempt, Tasks, Controller, tasks_of}
use swarmai.Mission.Complete.{
  has_failed, is_accepted, is_settled, verified, Progress, progress, complete_mission, conclude,
  unless_empty, try_complete,
}

-- A task that needs no more work: given up, or accepted with a verified attempt.
abbrev pub finished : Table TaskAttempt → TaskSpec → Bool
finished attempts t = is_settled t.status && (not (is_accepted t.status) || verified t.id attempts)

abbrev pub all_finished : Table TaskAttempt → Tasks → Bool
all_finished attempts [] = true
all_finished attempts ((_, t) ∷ ts) = finished attempts t && all_finished attempts ts

abbrev pub has_tasks : Tasks → Bool
has_tasks [] = false
has_tasks (_ ∷ _) = true

abbrev ends : Progress → Bool
ends Progress.is_finished = true
ends _ = false

failed_is_unsettled : (st : TaskStatus) → has_failed st ≡ true → is_settled st ≡ false
failed_is_unsettled TaskStatus.failed h = refl
failed_is_unsettled TaskStatus.rejected h = refl
failed_is_unsettled TaskStatus.proposed h = refl
failed_is_unsettled TaskStatus.ready h = refl
failed_is_unsettled TaskStatus.leased h = refl
failed_is_unsettled TaskStatus.running h = refl
failed_is_unsettled TaskStatus.waiting_children h = refl
failed_is_unsettled TaskStatus.waiting_capacity h = refl
failed_is_unsettled TaskStatus.waiting_approval h = refl
failed_is_unsettled TaskStatus.verifying h = refl
failed_is_unsettled TaskStatus.accepted h = cc
failed_is_unsettled TaskStatus.cancelled h = cc
failed_is_unsettled TaskStatus.superseded h = cc

ends-progress :
    (attempts : Table TaskAttempt) (ts : Tasks)
    → ends (progress attempts ts) ≡ all_finished attempts ts
unfolding progress
ends-progress attempts [] = refl
ends-progress attempts ((k, t) ∷ ts) = elim (Bool-cases (has_failed t.status)) [
  | inl e ↦ rw (e, failed_is_unsettled t.status e) refl
  | inr e ↦ rw e (elim (Bool-cases (is_settled t.status)) [
    | inr f ↦ rw f refl
    | inl f ↦ rw f (elim (Bool-cases (is_accepted t.status && not (verified t.id attempts))) [
      | inl g ↦ rw g (ground (arith, g))
      | inr g ↦ rw g (ground (arith, g, ends-progress attempts ts))
    ])
  ])
]

ends-unless_empty :
    (attempts : Table TaskAttempt) (ts : Tasks)
    → ends (unless_empty ts (progress attempts ts)) ≡ (has_tasks ts && all_finished attempts ts)
ends-unless_empty attempts [] = refl
ends-unless_empty attempts (row ∷ ts) = ends-progress attempts (row ∷ ts)

stored-conclude :
    (mission_id receipt : ℕ) (m : Mission) (p : Progress) (c : Controller)
    → lookup mission_id c.missions ≡ some m
    → lookup mission_id (conclude mission_id receipt m p c).1.missions
      ≡ some (if ends p then complete_mission receipt m else m)
stored-conclude mission_id receipt m Progress.has_failure c h = h
stored-conclude mission_id receipt m Progress.is_open c h = h
stored-conclude mission_id receipt m Progress.is_finished c h =
    ground (arith, lookup-put mission_id mission_id (complete_mission receipt m) c.missions)

-- A mission is stored as completed, with its receipt, exactly when it has tasks, each of them is
-- accepted, cancelled or superseded, and each accepted one has a verified attempt; otherwise the
-- mission stays as it is.
pub try_complete_lem :
    (mission_id receipt : ℕ) (m : Mission) (c : Controller)
    → lookup mission_id c.missions ≡ some m
    → lookup mission_id (try_complete mission_id receipt c).1.missions
      ≡ some (
          if has_tasks (rows (tasks_of mission_id c.tasks))
            && all_finished c.attempts (rows (tasks_of mission_id c.tasks))
          then complete_mission receipt m
          else m)
unfolding try_complete
try_complete_lem mission_id receipt m c h =
    let ts = rows (tasks_of mission_id c.tasks) in
    rw (h, ← ends-unless_empty c.attempts ts)
      (stored-conclude mission_id receipt m (unless_empty ts (progress c.attempts ts)) c h)
