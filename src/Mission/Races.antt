-- ===== src/Mission/Races.antt =====
-- About proposals that are based on the same revision of a mission.
use mathlib.Core.Path.{subst}
use swarmai.Prelude.{
  ℕ, ◌≡◌, ◌≢◌, refl, sym, ap, ◌∙◌, inl, inr, true, some, List, ◌!=◌, truthy, Table, lookup, put,
  arith, Bool-cases, Result, ok, err,
}
use swarmai.Graph.Specs.{GraphProposal, Reason, ValidationResult, refuse}
use swarmai.Graph.Proposals.{is_stop, validate_proposal}
use swarmai.Mission.Revisions.{AllKeyed, Beyond, put-Beyond, Later, Later-Beyond, missions-written}
use swarmai.Mission.State.{Mission, Tasks, Controller, MissionError, tasks_of, set_default, explain}
use swarmai.Mission.Commit.{
  revise_mission, apply_result, validation, explanation_of, defaulted, commit_validated_revision,
}

-- A proposal that is not based on the current revision is refused, whatever it asks for.
validate_stale :
    (p : GraphProposal) (ts : Tasks) (revision : ℕ) (scopes : List ℕ) (most : ℕ)
    → (p.based_on_revision != revision) ≡ true
    → validate_proposal p ts revision scopes most ≡ refuse Reason.stale_revision
unfolding validate_proposal
validate_stale p ts revision scopes most h = rw h refl

accepted-current :
    (p : GraphProposal) (ts : Tasks) (revision : ℕ) (scopes : List ℕ) (most : ℕ)
    → (validate_proposal p ts revision scopes most).is_accepted ≡ true
    → p.based_on_revision ≡ revision
accepted-current p ts revision scopes most h = elim (Bool-cases (p.based_on_revision != revision)) [
  | inl e ↦ let h' = rw (validate_stale p ts revision scopes most e) at h in cc
  | inr e ↦ ground (arith, e)
]

-- The mission has moved on to its next revision, and no other is written.
record Advanced (p : GraphProposal) (m : Mission) (before : Table Mission) (d : Controller)
    : Type 0 where
  missions : d.missions ≡ put m.id (revise_mission m) before
  based : p.based_on_revision ≡ m.revision

abbrev MayAdvance :
    GraphProposal → Mission → Table Mission → Result MissionError ℕ × Controller → Type 0
MayAdvance p m before (err e, d) = Unit
MayAdvance p m before (ok n, d) = n ≢ m.revision → Advanced p m before d

apply_result-MayAdvance :
    (p : GraphProposal) (m : Mission) (r : ValidationResult) (c : Controller)
    → (r.is_accepted ≡ true → p.based_on_revision ≡ m.revision)
    → MayAdvance p m c.missions (apply_result p m r c)
unfolding apply_result
apply_result-MayAdvance p m r c h = elim (Bool-cases r.is_accepted) [
  | inr e ↦ rw e (elim (Bool-cases (truthy r.merged_into)) [
    | inl f ↦ rw f (λ differs. absurd (differs refl))
    | inr f ↦ rw f tt
  ])
  | inl e ↦ rw e (elim (Bool-cases (is_stop p.operation)) [
    | inl f ↦ rw f (λ differs. absurd (differs refl))
    | inr f ↦ rw f (λ _. record {
      missions = ap (put m.id (revise_mission m)) (missions-written p m c);
      based = h e;
    })
  ])
]

module _ (proposal_id : ℕ) (p : GraphProposal) (m : Mission) (c : Controller)
    (stored : lookup proposal_id c.proposals ≡ some p)
    (known : lookup p.mission_id c.missions ≡ some m) where
  commit-apply_result :
      commit_validated_revision proposal_id c
      ≡ apply_result p m
          (validation p m (defaulted m c))
          (explain (explanation_of p (validation p m (defaulted m c))) (defaulted m c))
  unfolding commit_validated_revision
  commit-apply_result = rw (stored, known) refl

  commit-MayAdvance : MayAdvance p m c.missions (commit_validated_revision proposal_id c)
  commit-MayAdvance = subst (MayAdvance p m c.missions) (sym commit-apply_result) (
      apply_result-MayAdvance p m (validation p m (defaulted m c)) _ (
        accepted-current p (tasks_of m.id (set_default m.id c.tasks)) m.revision m.data_scope_ids
          m.max_graph_nodes))

  commit-stale :
      (p.based_on_revision != m.revision) ≡ true
      → commit_validated_revision proposal_id c ≡ (
        err (MissionError.value_error Reason.stale_revision),
        explain (explanation_of p (refuse Reason.stale_revision)) (defaulted m c),
      )
  unfolding apply_result
  commit-stale h =
      commit-apply_result
      ∙ rw
          (validate_stale p (tasks_of m.id (set_default m.id c.tasks)) m.revision m.data_scope_ids
            m.max_graph_nodes h)
          refl

-- Of two proposals that are based on the same revision of a mission at most one revises it: if the
-- missions are stored under their own identifiers, and the first has led to another revision, then
-- after any further calls in any order, but for a submission of that mission anew, the second is
-- refused as stale, and the missions stay as they are.
pub commit_once :
    (first second : ℕ) (p q : GraphProposal) (m : Mission) (c d e : Controller) (n : ℕ)
    → AllKeyed c.missions
    → lookup first c.proposals ≡ some p
    → lookup p.mission_id c.missions ≡ some m
    → commit_validated_revision first c ≡ (ok n, d)
    → n ≢ m.revision
    → Later p.mission_id d e
    → lookup second e.proposals ≡ some q
    → q.mission_id ≡ p.mission_id
    → q.based_on_revision ≡ p.based_on_revision
    → ((commit_validated_revision second e).0
        ≡ err (MissionError.value_error Reason.stale_revision))
      × ((commit_validated_revision second e).1.missions ≡ e.missions)
commit_once first second p q m c d e n keyed hp hm returned differs r hq same_mission same_base =
    let k = p.mission_id in
    let own : m.id ≡ k = keyed.keyed k m hm in
    let moved =
      (subst (MayAdvance p m c.missions) returned (commit-MayAdvance first p m c hp hm)) differs in
    let at_once : Beyond k m.revision d.missions =
      subst (Beyond k m.revision)
        (sym (moved.missions ∙ ap (λ i. put i (revise_mission m) c.missions) own))
        (put-Beyond k m.revision m (revise_mission m) c.missions keyed hm own (omega arith)) in
    let then = Later-Beyond k m.revision r at_once in
    let refused =
      commit-stale second q then.mission e hq
        (ap (λ i. lookup i e.missions) same_mission ∙ then.found)
        (ground (arith, same_base, moved.based, then.later)) in
    (ap (λ o. o.0) refused, ap (λ o. o.1.missions) refused)
