-- ===== src/Mission/Revisions.antt =====
-- About the revision of a mission over the calls of a controller.
use swarmai.Prelude.{
  ℕ, ◌<◌, ◌≤◌, ◌≡◌, refl, ◌∙◌, ap, inl, inr, Bool, false, Option, none, some, List, ◌==◌, truthy,
  Table, lookup, put, lookup-put, arith, Bool-cases, Option-cases, Result, ok, err,
}
use swarmai.Graph.Specs.{TaskSpec, GraphProposal, ValidationResult}
use swarmai.Graph.Proposals.{is_spawn, is_stop}
use swarmai.Scheduler.Authority.{StaleEpochError}
use swarmai.Scheduler.Choose.{Scheduler, Explanation}
use swarmai.Mission.State.{
  Mission, MissionStatus, TaskAttempt, Tasks, Controller, submit_mission, propose_graph_change,
  register_attempt, expand_capacity, note_inference_exhaustion, verify_attempt, record_verification,
}
use swarmai.Mission.Commit.{
  written, apply_result, revise_mission, cancel_mission, commit_validated_revision,
}
use swarmai.Mission.Work.{scheduled, write_gathered, choose_ready_work}
use swarmai.Mission.Complete.{Progress, conclude, complete_mission, try_complete}
use swarmai.Mission.System.{Step}

-- Every mission is stored under its own identifier.
pub record AllKeyed (t : Table Mission) : Type 0 where
  pub keyed : (k : ℕ) (m : Mission) → lookup k t ≡ some m → m.id ≡ k

-- The missions are stored under their own identifiers, and mission `k` is beyond revision `n`.
pub record Beyond (k n : ℕ) (t : Table Mission) : Type 0 where
  pub each : AllKeyed t
  pub mission : Mission
  pub found : lookup k t ≡ some mission
  pub later : n < mission.revision

AllKeyed-put :
    (j : ℕ) (m : Mission) (t : Table Mission) → m.id ≡ j → AllKeyed t → AllKeyed (put j m t)
AllKeyed-put j m t own a = record {
  keyed = λ k x e. ground (arith, own, e, a.keyed k x, lookup-put k j m t);
}

-- A mission is written over the one that is there.
Beyond-put :
    (k n j : ℕ) (old new : Mission) (t : Table Mission)
    → lookup j t ≡ some old
    → new.id ≡ old.id
    → old.revision ≤ new.revision
    → Beyond k n t
    → Beyond k n (put j new t)
Beyond-put k n j old new t there same up b =
    let own : new.id ≡ j = ground (arith, same, b.each.keyed j old there) in
    let keyed = AllKeyed-put j new t own b.each in
    elim (Bool-cases (j == k)) [
      | inl e ↦ record {
        each = keyed;
        mission = new;
        found = ground (arith, e, lookup-put k j new t);
        later =
            let one : j ≡ k = ground (arith, e) in
            let met : old ≡ b.mission = ground (arith, one, there, b.found) in
            let r = ap (λ (m : Mission). m.revision) met in omega (arith, r, up, b.later);
      }
      | inr e ↦ record {
        each = keyed;
        mission = b.mission;
        found = ground (arith, e, lookup-put k j new t, b.found);
        later = b.later;
      }
    ]

-- Another mission is submitted.
Beyond-submit :
    (k n : ℕ) (m : Mission) (c : Controller)
    → (m.id == k) ≡ false
    → Beyond k n c.missions
    → Beyond k n (submit_mission m c).1.missions
unfolding submit_mission
Beyond-submit k n m c other b =
    let planned = record m { status = MissionStatus.planning } in
    record {
      each = AllKeyed-put m.id planned c.missions refl b.each;
      mission = b.mission;
      found = ground (arith, other, lookup-put k m.id planned c.missions, b.found);
      later = b.later;
    }

pub missions-written :
    (p : GraphProposal) (m : Mission) (c : Controller) → (written p m c).missions ≡ c.missions
missions-written p m c = elim (Bool-cases (is_spawn p.operation)) [
  | inl e ↦ rw e refl
  | inr e ↦ rw e refl
]

Beyond-apply_result :
    (k n j : ℕ) (p : GraphProposal) (m : Mission) (r : ValidationResult) (c : Controller)
    → lookup j c.missions ≡ some m
    → Beyond k n c.missions
    → Beyond k n (apply_result p m r c).1.missions
unfolding apply_result
Beyond-apply_result k n j p m r c there b =
    let own : m.id ≡ j = b.each.keyed j m there in
    let here : lookup m.id c.missions ≡ some m = ap (λ i. lookup i c.missions) own ∙ there in
    elim (Bool-cases r.is_accepted) [
      | inr e ↦ rw e (elim (Bool-cases (truthy r.merged_into)) [ inl f ↦ rw f b | inr f ↦ rw f b ])
      | inl e ↦ rw e (elim (Bool-cases (is_stop p.operation)) [
        | inl f ↦
            rw f (Beyond-put k n m.id m (cancel_mission m) c.missions here refl (omega arith) b)
        | inr f ↦ rw f (
            rw (missions-written p m c)
              (Beyond-put k n m.id m (revise_mission m) c.missions here refl (omega arith) b))
      ])
    ]

Beyond-commit :
    (k n proposal_id : ℕ) (c : Controller)
    → Beyond k n c.missions
    → Beyond k n (commit_validated_revision proposal_id c).1.missions
unfolding commit_validated_revision
Beyond-commit k n proposal_id c b = elim (Option-cases (lookup proposal_id c.proposals)) [
  | inl e ↦ rw e b
  | inr (p, e) ↦ rw e (elim (Option-cases (lookup p.mission_id c.missions)) [
    | inl f ↦ rw f b
    | inr (m, f) ↦ rw f (Beyond-apply_result k n p.mission_id p m _ _ f b)
  ])
]

missions-scheduled :
    (r : Result StaleEpochError (List TaskSpec × Explanation) × Scheduler) (c : Controller)
    → (scheduled r c).1.missions ≡ c.missions
missions-scheduled (ok _, s) c = refl
missions-scheduled (err e, s) c = refl

missions-write_gathered :
    (mission_id : ℕ) (ts : Tasks) (o : Option Tasks) (c : Controller)
    → (write_gathered mission_id ts o c).missions ≡ c.missions
missions-write_gathered mission_id ts none c = refl
missions-write_gathered mission_id ts (some old) c = refl

missions-choose_ready_work :
    (mission_id now : ℕ) (c : Controller)
    → (choose_ready_work mission_id now c).1.missions ≡ c.missions
unfolding choose_ready_work
missions-choose_ready_work mission_id now c = elim (Option-cases (lookup mission_id c.missions)) [
  | inl e ↦ rw e refl
  | inr (m, e) ↦
      rw e (
        missions-scheduled _ _ ∙ missions-write_gathered mission_id _ (lookup mission_id c.tasks) c)
]

missions-verify :
    (attempt_id receipt_id : ℕ) (o : Option TaskAttempt) (c : Controller)
    → (verify_attempt attempt_id receipt_id o c).missions ≡ c.missions
missions-verify attempt_id receipt_id none c = refl
missions-verify attempt_id receipt_id (some attempt) c = refl

Beyond-conclude :
    (k n mission_id receipt : ℕ) (m : Mission) (p : Progress) (c : Controller)
    → lookup mission_id c.missions ≡ some m
    → Beyond k n c.missions
    → Beyond k n (conclude mission_id receipt m p c).1.missions
Beyond-conclude k n mission_id receipt m Progress.has_failure c there b = b
Beyond-conclude k n mission_id receipt m Progress.is_open c there b = b
Beyond-conclude k n mission_id receipt m Progress.is_finished c there b =
    Beyond-put k n mission_id m (complete_mission receipt m) c.missions there refl (omega arith) b

Beyond-try_complete :
    (k n mission_id receipt : ℕ) (c : Controller)
    → Beyond k n c.missions
    → Beyond k n (try_complete mission_id receipt c).1.missions
unfolding try_complete
Beyond-try_complete k n mission_id receipt c b =
    elim (Option-cases (lookup mission_id c.missions)) [
      | inl e ↦ rw e b
      | inr (m, e) ↦ rw e (Beyond-conclude k n mission_id receipt m _ c e b)
    ]

-- Is the call a submission of mission `k`?
abbrev pub resubmits : ℕ → {c d : Controller} → Step c d → Bool
resubmits k (Step.submits m w) = m.id == k
resubmits k _ = false

Step-Beyond :
    (k n : ℕ) {c d : Controller} (s : Step c d)
    → resubmits k s ≡ false
    → Beyond k n c.missions
    → Beyond k n d.missions
Step-Beyond k n {c = c} (Step.submits m w) other b = rw w (Beyond-submit k n m c other b)
Step-Beyond k n (Step.proposes p w) other b = rw w (unfold propose_graph_change in b)
Step-Beyond k n {c = c} (Step.commits proposal_id w) other b =
    rw w (Beyond-commit k n proposal_id c b)
Step-Beyond k n {c = c} (Step.chooses mission_id now w) other b =
    rw (w, missions-choose_ready_work mission_id now c) b
Step-Beyond k n (Step.registers attempt w) other b = rw w (unfold register_attempt in b)
Step-Beyond k n {c = c} (Step.verifies attempt_id receipt_id w) other b = rw w (
    unfold record_verification in
    rw (missions-verify attempt_id receipt_id (lookup attempt_id c.attempts) _) b)
Step-Beyond k n {c = c} (Step.completes mission_id receipt w) other b =
    rw w (Beyond-try_complete k n mission_id receipt c b)
Step-Beyond k n (Step.expands inference workers w) other b = rw w (unfold expand_capacity in b)
Step-Beyond k n (Step.exhausts w) other b = rw w (unfold note_inference_exhaustion in b)

-- Any calls in any order, but for a submission of mission `k`.
pub data Later (k : ℕ) (c : Controller) : Controller → Type 0 where
  here : Later k c c
  next : {d e : Controller} → Later k c d → (s : Step d e) → resubmits k s ≡ false → Later k c e

pub Later-Beyond :
    (k n : ℕ) {c d : Controller} → Later k c d → Beyond k n c.missions → Beyond k n d.missions
Later-Beyond k n here b = b
Later-Beyond k n (next r s other) b = Step-Beyond k n s other (Later-Beyond k n r b)

pub put-Beyond :
    (k n : ℕ) (old new : Mission) (t : Table Mission)
    → AllKeyed t
    → lookup k t ≡ some old
    → new.id ≡ k
    → n < new.revision
    → Beyond k n (put k new t)
put-Beyond k n old new t a there own up = record {
  each = AllKeyed-put k new t own a;
  mission = new;
  found = ground (arith, lookup-put k k new t);
  later = up;
}
