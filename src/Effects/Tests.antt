-- ===== src/Effects/Tests.antt =====
-- Runs of the effect store at concrete envelopes.
use swarmai.Prelude.{◌≡◌, refl, true, false, Option, none, some, [], lookup, put, ok}
use swarmai.Effects.Rows.{
  Store, Effect, EffectState, Envelope, Grant, Receipt, find_effect, put_effect,
}
use swarmai.Effects.Store.{
  reserve, new_effect, put_approval, begin_execution, check_fence, consume_approval, consume_grant,
  use_grant, start, started, Outcome, finalize_with_receipt, Fence,
}
use swarmai.Effects.Frames.{Evolves}
use swarmai.Effects.Approvals.{WithinGrants}
use swarmai.Effects.Attempts.{AttemptsDiffer}
use swarmai.Effects.Winner.{Refused, begin_single_winner}
use swarmai.Effects.System.{
  approve, reserves, begins, finalizes, Reach, here, next, Reach-Evolves, Reach-WithinGrants,
  Reach-AttemptsDiffer, reserve_again,
}

abbrev envelope : Envelope
envelope = record {
  project_id = 1;
  effect_key = 2;
  action_id = 3;
  approval_id = some 4;
  binding = record {
    integration_id = 5;
    integration_version = 1;
    operation = 6;
    destination_digest = 7;
    payload_hash = 8;
  };
  lease_generation = 1;
  cancellation_generation = 0;
}

abbrev grant : Grant
grant = record {
  project_id = 1;
  max_effect_count = 1;
  used_count = 0;
  expires_at = 900;
  revoked_at = none;
}

abbrev empty : Store
empty = record { effects = []; receipts = []; approvals = [] }

abbrev approved : Store
approved = (put_approval 4 grant empty).1

abbrev reserved_store : Store
reserved_store = (reserve 20 10 envelope approved).1

abbrev fence : Option Fence
fence = some (record { lease_generation = some 1; cancellation_generation = none })

abbrev running : Store
running = (begin_execution envelope 30 fence 50 reserved_store).1

abbrev outcome : Outcome
outcome = record {
  state = EffectState.succeeded;
  state_reason = none;
  post_observation = some 9;
  external_id = none;
  reconciliation = none;
}

abbrev receipt : Receipt
receipt = record { project_id = 1; effect_key = 2; effect_id = 0; attempt_number = 0; outcome = 1 }

abbrev closed : Store
closed = (finalize_with_receipt 1 2 outcome 40 receipt 60 running).1

history : Reach empty closed
history =
    next
      (next (next (next here (approve 4 grant refl)) (reserves 20 10 envelope refl))
        (begins envelope 30 fence 50 refl))
      (finalizes 1 2 outcome 40 receipt 60 refl)

run : Reach reserved_store closed
run = next (next here (begins envelope 30 fence 50 refl)) (finalizes 1 2 outcome 40 receipt 60 refl)

Reach-Evolves_example : Evolves reserved_store.effects closed.effects
Reach-Evolves_example = Reach-Evolves run

empty-WithinGrants : WithinGrants empty.approvals
unfolding lookup
empty-WithinGrants = record { bounded = λ id g e. cc }

Reach-WithinGrants_example : WithinGrants closed.approvals
Reach-WithinGrants_example = Reach-WithinGrants history empty-WithinGrants

empty-AttemptsDiffer : AttemptsDiffer empty.receipts
unfolding lookup
empty-AttemptsDiffer = record { one_each = λ i j r q e f same number. cc }

Reach-AttemptsDiffer_example : AttemptsDiffer closed.receipts
Reach-AttemptsDiffer_example = Reach-AttemptsDiffer history empty-AttemptsDiffer

-- The effect has been executed and has succeeded by the time of the second call.
reserve_again_example :
    (current : Effect) × (find_effect 1 2 closed.effects ≡ some current)
    × (current.effect_id ≡ 20)
    × (reserve 21 90 envelope closed ≡ (ok (current, false), closed))
unfolding reserve lookup put_approval find_effect put
reserve_again_example =
    reserve_again 20 21 10 90 envelope approved {row = new_effect 20 10 envelope} {created = true}
      {e = reserved_store} refl run

abbrev running_row : Effect
running_row = started 30 50 (record (new_effect 20 10 envelope) { approval_consumed_at = some 50 })

begin_single_winner_example :
    (running_row.executor_id ≡ some 30)
    × Refused envelope running_row (begin_execution envelope 31 none 55 running)
unfolding begin_execution check_fence consume_approval consume_grant use_grant start started reserve
    new_effect find_effect put_effect lookup put put_approval
begin_single_winner_example =
    begin_single_winner envelope envelope 30 31 fence none 50 55 reserved_store {row = running_row}
      {after = running} refl refl refl
