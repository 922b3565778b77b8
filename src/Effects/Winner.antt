-- ===== src/Effects/Winner.antt =====
-- About repeated calls of `reserve` and `begin_execution` on one effect.
use swarmai.Prelude.{
  ℕ, ◌≡◌, refl, ap, ◌∙◌, inl, inr, Bool, true, false, Option, none, some, ◌==◌, leb, lookup, arith,
  Result, ok, err, is_some, Option-cases, Bool-cases, Result-cases,
}
use mathlib.Core.Path.{subst}
use swarmai.Effects.Rows.{
  Store, Effects, Effect, EffectState, Binding, Envelope, Grant, EffectError, find_effect,
  put_effect, find_effect-put_effect, same_binding,
}
use swarmai.Effects.Store.{
  reserve, new_effect, Fence, check_fence, executable, use_grant, unusable, consume_grant,
  consume_approval, started, start, begin_execution,
}
use swarmai.Effects.Begin.{consume-row}

find-put : (p k : ℕ) (e : Effect) (t : Effects) → find_effect p k (put_effect p k e t) ≡ some e
find-put p k e t = find_effect-put_effect p k p k e t ∙ ground arith

same_binding_refl : (b : Binding) → same_binding b b ≡ true
same_binding_refl b = ground arith

pub reserve-found :
    (id now : ℕ) (e : Envelope) (s : Store) (row : Effect)
    → find_effect e.project_id e.effect_key s.effects ≡ some row
    → same_binding row.binding e.binding ≡ true
    → reserve id now e s ≡ (ok (row, false), s)
unfolding reserve
reserve-found id now e s row found same = rw (found, reserve) (rw same refl)

-- The row of an effect behind a reservation that succeeds.
pub record Reserved (e : Envelope) (row : Effect) (after : Store) : Type 0 where
  pub found : find_effect e.project_id e.effect_key after.effects ≡ some row
  pub same : same_binding row.binding e.binding ≡ true

abbrev ReservedBy : Envelope → Result EffectError (Effect × Bool) × Store → Type 0
ReservedBy e (ok (row, _), after) = Reserved e row after
ReservedBy e (err _, after) = Unit

reserve-ReservedBy : (id now : ℕ) (e : Envelope) (s : Store) → ReservedBy e (reserve id now e s)
unfolding reserve new_effect
reserve-ReservedBy id now e s =
    let p = e.project_id in
    let k = e.effect_key in
    elim (Option-cases (find_effect p k s.effects)) [
      | inl missing ↦
          rw (missing, reserve)
            (record {
              found = find-put p k (new_effect id now e) s.effects;
              same = same_binding_refl e.binding;
            })
      | inr (old, found) ↦
          rw (found, reserve)
            (elim (Bool-cases (same_binding old.binding e.binding)) [
              | inl same ↦ rw same (record { found = found; same = same })
              | inr other ↦ rw other tt
            ])
    ]

pub reserve-Reserved :
    (id now : ℕ) (e : Envelope) (s : Store) {row : Effect} {created : Bool} {after : Store}
    → reserve id now e s ≡ (ok (row, created), after)
    → Reserved e row after
reserve-Reserved id now e s h = subst (ReservedBy e) h (reserve-ReservedBy id now e s)

-- What an approval step keeps of the row.
pub record SameRun (row later : Effect) : Type 0 where
  pub state : later.state ≡ row.state
  pub executor : later.executor_id ≡ row.executor_id
  pub attempts : later.attempt_count ≡ row.attempt_count

abbrev pub RunStays : ℕ → ℕ → Effect → Store → Type 0
RunStays p k row s = (later : Effect) × (find_effect p k s.effects ≡ some later) × SameRun row later

unmoved : (row : Effect) → SameRun row row
unmoved row = record { state = refl; executor = refl; attempts = refl }

use_grant-stays :
    (e : Envelope) (now id : ℕ) (g : Grant) (row : Effect) (s : Store)
    → find_effect e.project_id e.effect_key s.effects ≡ some row
    → RunStays e.project_id e.effect_key row (use_grant e now id g row s).1
unfolding use_grant
use_grant-stays e now id g row s found =
    let p = e.project_id in
    let k = e.effect_key in
    elim (Bool-cases (unusable g e.project_id now)) [
      | inl bad ↦ rw (bad, use_grant) (row, found, unmoved row)
      | inr fine ↦
          rw (fine, use_grant)
            (elim (Bool-cases (is_some row.approval_consumed_at)) [
              | inl before ↦ rw before (row, found, unmoved row)
              | inr first ↦ rw first (elim (Bool-cases (leb g.max_effect_count g.used_count)) [
                | inl full ↦ rw full (row, found, unmoved row)
                | inr free ↦ rw free (
                  record row { approval_consumed_at = some now },
                  find-put p k (record row { approval_consumed_at = some now }) s.effects,
                  record { state = refl; executor = refl; attempts = refl },
                )
              ])
            ])
    ]

consume-stays :
    (e : Envelope) (now : ℕ) (a : Option ℕ) (row : Effect) (s : Store)
    → find_effect e.project_id e.effect_key s.effects ≡ some row
    → RunStays e.project_id e.effect_key row (consume_approval e now a row s).1
unfolding consume_approval consume_grant
consume-stays e now none row s found = (row, found, unmoved row)
consume-stays e now (some id) row s found = elim (Bool-cases (id == 0)) [
  | inl empty ↦ rw (empty, consume_approval) (row, found, unmoved row)
  | inr named ↦
      rw (named, consume_approval)
        (elim (Option-cases (lookup id s.approvals)) [
          | inl missing ↦ rw (missing, consume_grant) (row, found, unmoved row)
          | inr (g, there) ↦ rw (there, consume_grant) (use_grant-stays e now id g row s found)
        ])
]

-- What a call that begins has written.
pub record Begun (e : Envelope) (executor_id : ℕ) (row : Effect) (after : Store) : Type 0 where
  pub found : find_effect e.project_id e.effect_key after.effects ≡ some row
  pub executing : row.state ≡ EffectState.executing
  pub executor : row.executor_id ≡ some executor_id

abbrev BegunBy : Envelope → ℕ → Result EffectError Effect × Store → Type 0
BegunBy e executor_id (ok row, after) = Begun e executor_id row after
BegunBy e executor_id (err _, after) = Unit

start-BegunBy :
    (e : Envelope) (executor_id now : ℕ) (row : Effect) (s : Store)
    → BegunBy e executor_id (start e executor_id now row s)
unfolding start started
start-BegunBy e executor_id now row s = elim (Bool-cases (executable row.state row.state_reason)) [
  | inl ready ↦
      rw (ready, start)
        (record {
          found = find-put e.project_id e.effect_key (started executor_id now row) s.effects;
          executing = refl;
          executor = refl;
        })
  | inr other ↦ rw (other, start) tt
]

begin-BegunBy :
    (e : Envelope) (executor_id : ℕ) (fence : Option Fence) (now : ℕ) (s : Store)
    → BegunBy e executor_id (begin_execution e executor_id fence now s)
unfolding begin_execution
begin-BegunBy e executor_id fence now s =
    elim (Option-cases (find_effect e.project_id e.effect_key s.effects)) [
      | inl missing ↦ rw (missing, begin_execution) tt
      | inr (row, found) ↦
          rw (found, begin_execution)
            (elim (Result-cases (check_fence fence row)) [
              | inr (_, moved) ↦ rw moved tt
              | inl (_, held) ↦
                  rw held (elim (Result-cases (consume_approval e now e.approval_id row s).0) [
                    | inr (_, refused) ↦ rw refused tt
                    | inl (next, paid) ↦ rw paid (
                        start-BegunBy e executor_id now next
                          (consume_approval e now e.approval_id row s).1)
                  ])
            ])
    ]

-- A call on an effect that is executing raises, and leaves the run as it is.
pub record Refused (f : Envelope) (row : Effect) (outcome : Result EffectError Effect × Store)
    : Type 0 where
  pub why : EffectError
  pub raises : outcome.0 ≡ err why
  pub run : RunStays f.project_id f.effect_key row outcome.1

start-Refused :
    (f : Envelope) (y later : ℕ) (row next : Effect) (s : Store)
    → next.state ≡ EffectState.executing
    → RunStays f.project_id f.effect_key row s
    → Refused f row (start f y later next s)
unfolding start
start-Refused f y later row next s busy stays =
    let closed : executable next.state next.state_reason ≡ false = rw busy refl in
    rw (closed, start) (record { why = _; raises = refl; run = stays })

row_of_run :
    (p k : ℕ) (row next : Effect) (s : Store)
    → RunStays p k row s
    → find_effect p k s.effects ≡ some next
    → next.state ≡ row.state
row_of_run p k row next s (later, there, same) found =
    let one : later ≡ next = ground (arith, there, found) in rw (← one) same.state

begin-Refused :
    (f : Envelope) (y : ℕ) (fence : Option Fence) (later : ℕ) (row : Effect) (s : Store)
    → find_effect f.project_id f.effect_key s.effects ≡ some row
    → row.state ≡ EffectState.executing
    → Refused f row (begin_execution f y fence later s)
unfolding begin_execution
begin-Refused f y fence later row s found busy =
    rw (found, begin_execution)
      (elim (Result-cases (check_fence fence row)) [
        | inr (why, moved) ↦
            rw moved (record { why = why; raises = refl; run = (row, found, unmoved row) })
        | inl (_, held) ↦ rw held (
            let stays = consume-stays f later f.approval_id row s found in
            let used = (consume_approval f later f.approval_id row s).1 in
            elim (Result-cases (consume_approval f later f.approval_id row s).0) [
              | inr (why, refused) ↦ rw refused (record { why = why; raises = refl; run = stays })
              | inl (next, paid) ↦
                  let same =
                    row_of_run f.project_id f.effect_key row next used stays
                      (consume-row f later f.approval_id row next s found paid) in
                  rw paid (start-Refused f y later row next used (same ∙ busy) stays)
            ])
      ])

-- Of the calls that begin to execute one effect a single one wins: directly behind a call that
-- begins, any other call on the same project and effect key raises, whoever makes it and with
-- whatever approval and fence, and the run keeps its state, its executor and its number of attempts.
pub begin_single_winner :
    (e f : Envelope) (x y : ℕ) (fence other_fence : Option Fence) (now later : ℕ) (s : Store)
    {row : Effect} {after : Store}
    → begin_execution e x fence now s ≡ (ok row, after)
    → f.project_id ≡ e.project_id
    → f.effect_key ≡ e.effect_key
    → (row.executor_id ≡ some x) × Refused f row (begin_execution f y other_fence later after)
begin_single_winner e f x y fence other_fence now later s {row = row} {after = after} h same_project
      same_key =
    let b : Begun e x row after = subst (BegunBy e x) h (begin-BegunBy e x fence now s) in
    (
      b.executor,
      begin-Refused f y other_fence later row after
          (ap (λ p. find_effect p f.effect_key after.effects) same_project
            ∙ ap (λ k. find_effect e.project_id k after.effects) same_key
            ∙ b.found)
          b.executing,
    )
