-- ===== src/Effects/Rows.antt =====
-- The state of `InMemoryEffectStore`. Digests and other texts are numbers, 0 is the empty text; an
-- observation is the number of its dict, 0 for the empty one.
use swarmai.Prelude.{
  ℕ, Bool, ◌&&◌, Option, none, some, [], Table, lookup, put, lookup-put, ◌==◌, if◌then◌else◌, ◌≡◌,
  arith,
}

-- The states of an effect, and the reasons of a failure that the code tells apart.
pub data EffectState : Type 0 where
  reserved executing unknown succeeded failed denied cancelled reconciled : EffectState

pub data StateReason : Type 0 where
  not_applied : StateReason
  other_reason : ℕ → StateReason

-- `_binding_of`: what an effect key stands for.
pub record Binding : Type 0 where
  pub integration_id : ℕ
  pub integration_version : ℕ
  pub operation : ℕ
  pub destination_digest : ℕ
  pub payload_hash : ℕ

abbrev pub same_binding : Binding → Binding → Bool
same_binding a b =
    a.integration_id == b.integration_id
    && a.integration_version == b.integration_version
    && a.operation == b.operation
    && a.destination_digest == b.destination_digest
    && a.payload_hash == b.payload_hash

-- `ActionEnvelope`, with the digests of its destination and payload.
pub record Envelope : Type 0 where
  pub project_id : ℕ
  pub effect_key : ℕ
  pub action_id : ℕ
  pub approval_id : Option ℕ
  pub binding : Binding
  pub lease_generation : ℕ
  pub cancellation_generation : ℕ

-- A row of `effects`. Its key is the pair of project and effect key.
pub record Effect : Type 0 where
  pub effect_id : ℕ
  pub action_id : ℕ
  pub approval_id : Option ℕ
  pub binding : Binding
  pub state : EffectState
  pub state_reason : Option StateReason
  pub lease_generation : ℕ
  pub cancellation_generation : ℕ
  pub pre_observation : ℕ
  pub post_observation : ℕ
  pub reconciliation : ℕ
  pub created_at : ℕ
  pub started_at : Option ℕ
  pub finished_at : Option ℕ
  pub reconciled_at : Option ℕ
  pub external_id : Option ℕ
  pub attempt_count : ℕ
  pub executor_id : Option ℕ
  pub approval_consumed_at : Option ℕ

-- `ApprovalGrant`
pub record Grant : Type 0 where
  pub project_id : ℕ
  pub max_effect_count : ℕ
  pub used_count : ℕ
  pub expires_at : ℕ
  pub revoked_at : Option ℕ

-- `ActionReceiptV17`, with the effect and the attempt under which it is stored.
pub record Receipt : Type 0 where
  pub project_id : ℕ
  pub effect_key : ℕ
  pub effect_id : ℕ
  pub attempt_number : ℕ
  pub outcome : ℕ

pub data EffectError : Type 0 where
  approval_insert_revoked approval_already_exists effect_key_binding_mismatch
        fence_changed_before_execute approval_not_consumable effect_already_succeeded
        effect_unknown_requires_reconcile effect_already_executing effect_terminal
        finalize_state_conflict receipt_already_recorded effect_not_found :
      EffectError

-- A dict whose keys are pairs.
abbrev pub Effects : Type 0
Effects = Table (Table Effect)

abbrev pub project_rows : Option (Table Effect) → Table Effect
project_rows none = []
project_rows (some t) = t

unfoldable pub find_effect : ℕ → ℕ → Effects → Option Effect
find_effect p k t = lookup k (project_rows (lookup p t))

unfoldable pub put_effect : ℕ → ℕ → Effect → Effects → Effects
put_effect p k e t = put p (put k e (project_rows (lookup p t))) t

lookup-put_same :
    (p : ℕ) (u : Table Effect) (t : Effects) (q : ℕ)
    → project_rows (lookup q (put p u t)) ≡ (if p == q then u else project_rows (lookup q t))
lookup-put_same p u t q = ground (arith, lookup-put q p u t)

pub find_effect-put_effect :
    (q j p k : ℕ) (e : Effect) (t : Effects)
    → find_effect q j (put_effect p k e t)
      ≡ (if p == q && k == j then some e else find_effect q j t)
unfolding find_effect put_effect
find_effect-put_effect q j p k e t = grind (
  arith,
  lookup-put_same p (put k e (project_rows (lookup p t))) t q,
  lookup-put j k e (project_rows (lookup p t)),
)

pub record Store : Type 0 where
  pub effects : Effects
  pub receipts : Table Receipt
  pub approvals : Table Grant
