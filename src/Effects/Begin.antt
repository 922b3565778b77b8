-- ===== src/Effects/Begin.antt =====
-- How the effects go on under `begin_execution`: the approval step, and the start.
use swarmai.Prelude.{
  ℕ, ◌≡◌, refl, inl, inr, true, false, Option, none, some, leb, ◌==◌, lookup, arith, ok, is_some,
  Option-cases, Bool-cases, Result-cases,
}
use swarmai.Effects.Rows.{Store, Effect, Envelope, Grant, find_effect, find_effect-put_effect}
use swarmai.Effects.Store.{
  Fence, check_fence, executable, use_grant, unusable, consume_grant, consume_approval, started,
  start, begin_execution,
}
use swarmai.Effects.Frames.{Progress, Evolves, Evolves-refl, Evolves-trans, Evolves-write}

consumed-Progress :
    (now : ℕ) (row : Effect)
    → is_some row.approval_consumed_at ≡ false
    → Progress row (record row { approval_consumed_at = some now })
consumed-Progress now row h = record {
  same_id = refl;
  same_effect = refl;
  attempts = omega arith;
  closed = λ e. (e, refl);
  paid = λ t e. ground (arith, h, e);
}

started-Progress :
    (executor_id now : ℕ) (row : Effect)
    → executable row.state row.state_reason ≡ true
    → Progress row (started executor_id now row)
unfolding started
started-Progress executor_id now row h = record {
  same_id = refl;
  same_effect = refl;
  attempts = omega arith;
  closed = λ e. ground (arith, h, e);
  paid = λ t e. e;
}

use_grant-Evolves :
    (e : Envelope) (now id : ℕ) (g : Grant) (row : Effect) (s : Store)
    → find_effect e.project_id e.effect_key s.effects ≡ some row
    → Evolves s.effects (use_grant e now id g row s).1.effects
unfolding use_grant
use_grant-Evolves e now id g row s found = elim (Bool-cases (unusable g e.project_id now)) [
  | inl bad ↦ rw (bad, use_grant) (Evolves-refl s.effects)
  | inr fine ↦
      rw (fine, use_grant)
        (elim (Bool-cases (is_some row.approval_consumed_at)) [
          | inl before ↦ rw before (Evolves-refl s.effects)
          | inr first ↦ rw first (elim (Bool-cases (leb g.max_effect_count g.used_count)) [
            | inl full ↦ rw full (Evolves-refl s.effects)
            | inr free ↦ rw free (
                Evolves-write e.project_id e.effect_key row _ s.effects found
                  (consumed-Progress now row first))
          ])
        ])
]

-- The row that a use of a grant returns is the one in the store.
use_grant-row :
    (e : Envelope) (now id : ℕ) (g : Grant) (row next : Effect) (s : Store)
    → find_effect e.project_id e.effect_key s.effects ≡ some row
    → (use_grant e now id g row s).0 ≡ ok next
    → find_effect e.project_id e.effect_key (use_grant e now id g row s).1.effects ≡ some next
unfolding use_grant
use_grant-row e now id g row next s found h = ground (
  arith,
  found,
  h,
  find_effect-put_effect e.project_id e.effect_key e.project_id e.effect_key
      (record row { approval_consumed_at = some now }) s.effects,
)

consume_grant-Evolves :
    (e : Envelope) (now id : ℕ) (o : Option Grant) (row : Effect) (s : Store)
    → find_effect e.project_id e.effect_key s.effects ≡ some row
    → Evolves s.effects (consume_grant e now id o row s).1.effects
unfolding consume_grant
consume_grant-Evolves e now id none row s found = Evolves-refl s.effects
consume_grant-Evolves e now id (some g) row s found = use_grant-Evolves e now id g row s found

consume_grant-row :
    (e : Envelope) (now id : ℕ) (o : Option Grant) (row next : Effect) (s : Store)
    → find_effect e.project_id e.effect_key s.effects ≡ some row
    → (consume_grant e now id o row s).0 ≡ ok next
    → find_effect e.project_id e.effect_key (consume_grant e now id o row s).1.effects ≡ some next
unfolding consume_grant
consume_grant-row e now id none row next s found h = cc
consume_grant-row e now id (some g) row next s found h = use_grant-row e now id g row next s found h

pub consume-Evolves :
    (e : Envelope) (now : ℕ) (a : Option ℕ) (row : Effect) (s : Store)
    → find_effect e.project_id e.effect_key s.effects ≡ some row
    → Evolves s.effects (consume_approval e now a row s).1.effects
unfolding consume_approval
consume-Evolves e now none row s found = Evolves-refl s.effects
consume-Evolves e now (some id) row s found = elim (Bool-cases (id == 0)) [
  | inl empty ↦ rw (empty, consume_approval) (Evolves-refl s.effects)
  | inr named ↦
      rw (named, consume_approval)
        (consume_grant-Evolves e now id (lookup id s.approvals) row s found)
]

pub consume-row :
    (e : Envelope) (now : ℕ) (a : Option ℕ) (row next : Effect) (s : Store)
    → find_effect e.project_id e.effect_key s.effects ≡ some row
    → (consume_approval e now a row s).0 ≡ ok next
    → find_effect e.project_id e.effect_key (consume_approval e now a row s).1.effects ≡ some next
unfolding consume_approval
consume-row e now none row next s found h = ground (arith, found, h)
consume-row e now (some id) row next s found h = elim (Bool-cases (id == 0)) [
  | inl empty ↦ ground (arith, empty, found, h)
  | inr named ↦
      rw (named, consume_approval)
        (consume_grant-row e now id (lookup id s.approvals) row next s found
          (ground (arith, named, h)))
]

start-Evolves :
    (e : Envelope) (executor_id now : ℕ) (row : Effect) (s : Store)
    → find_effect e.project_id e.effect_key s.effects ≡ some row
    → Evolves s.effects (start e executor_id now row s).1.effects
unfolding start
start-Evolves e executor_id now row s found =
    elim (Bool-cases (executable row.state row.state_reason)) [
      | inl ready ↦
          rw (ready, start)
            (Evolves-write e.project_id e.effect_key row _ s.effects found
              (started-Progress executor_id now row ready))
      | inr other ↦ rw (other, start) (Evolves-refl s.effects)
    ]

pub begin-Evolves :
    (e : Envelope) (executor_id : ℕ) (fence : Option Fence) (now : ℕ) (s : Store)
    → Evolves s.effects (begin_execution e executor_id fence now s).1.effects
unfolding begin_execution
begin-Evolves e executor_id fence now s =
    elim (Option-cases (find_effect e.project_id e.effect_key s.effects)) [
      | inl missing ↦ rw (missing, begin_execution) (Evolves-refl s.effects)
      | inr (row, found) ↦
          rw (found, begin_execution)
            (elim (Result-cases (check_fence fence row)) [
              | inr (_, moved) ↦ rw moved (Evolves-refl s.effects)
              | inl (_, held) ↦ rw held (
                  let used = (consume_approval e now e.approval_id row s).1 in
                  let first = consume-Evolves e now e.approval_id row s found in
                  elim (Result-cases (consume_approval e now e.approval_id row s).0) [
                    | inr (_, refused) ↦ rw refused first
                    | inl (next, paid) ↦ rw paid (
                        Evolves-trans s.effects used.effects
                          (start e executor_id now next used).1.effects first
                          (start-Evolves e executor_id now next used
                            (consume-row e now e.approval_id row next s found paid)))
                  ])
            ])
    ]
