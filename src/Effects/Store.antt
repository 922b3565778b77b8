-- ===== src/Effects/Store.antt =====
-- The operations of `InMemoryEffectStore`. Each holds the lock of the store, so it is one step; what
-- was written before an exception stays written. `attach_pre_observation` takes no lock and writes
-- one field.
use swarmai.Prelude.{
  ℕ, ◌+◌, Bool, true, false, ◌||◌, Option, none, some, List, [], ◌∷◌, leb, ◌==◌, ◌!=◌,
  if◌then◌else◌, is_some, max, Table, lookup, put, keys, Result, ok, err, raise_if, or_raise, Exec,
}
use swarmai.Prelude.Act.{lift, reads, ◌>>=◌, ◌>>◌}
use swarmai.Effects.Rows.{
  Store, Effect, EffectState, StateReason, Envelope, Grant, Receipt, EffectError,
  approval_insert_revoked, approval_already_exists, effect_key_binding_mismatch,
  fence_changed_before_execute, approval_not_consumable, effect_already_succeeded,
  effect_unknown_requires_reconcile, effect_already_executing, effect_terminal,
  finalize_state_conflict, receipt_already_recorded, effect_not_found, find_effect, put_effect,
  same_binding,
}

abbrev pub Verdict : Type 0
Verdict = Result EffectError (Unit {0})

-- Approvals.
unfoldable pub put_approval : ℕ → Grant → Exec Store EffectError Grant
put_approval id g s =
    let stored = record g { used_count = 0 } in
    if is_some g.revoked_at
    then (err approval_insert_revoked, s)
    else if is_some (lookup id s.approvals)
    then (err approval_already_exists, s)
    else (ok stored, record s { approvals = put id stored s.approvals })

unfoldable pub get_approval : ℕ → ℕ → Store → Option Grant
get_approval id project_id s = elim (lookup id s.approvals) [
  | none ↦ none
  | some g ↦ if g.project_id != project_id then none else some g
]

-- Was the approval revoked by this call?
unfoldable pub revoke_approval : ℕ → ℕ → ℕ → Store → Bool × Store
revoke_approval project_id id now s = elim (lookup id s.approvals) [
  | none ↦ (false, s)
  | some g ↦
      if g.project_id != project_id || is_some g.revoked_at
      then (false, s)
      else (true, record s { approvals = put id (record g { revoked_at = some now }) s.approvals })
]

-- `reserve`, with the identifier that `new_id` draws. The answer says whether the row is new.
unfoldable pub new_effect : ℕ → ℕ → Envelope → Effect
new_effect effect_id now e = record {
  effect_id = effect_id;
  action_id = e.action_id;
  approval_id = e.approval_id;
  binding = e.binding;
  state = EffectState.reserved;
  state_reason = none;
  lease_generation = e.lease_generation;
  cancellation_generation = e.cancellation_generation;
  pre_observation = 0;
  post_observation = 0;
  reconciliation = 0;
  created_at = now;
  started_at = none;
  finished_at = none;
  reconciled_at = none;
  external_id = none;
  attempt_count = 0;
  executor_id = none;
  approval_consumed_at = none;
}

unfoldable pub reserve : ℕ → ℕ → Envelope → Exec Store EffectError (Effect × Bool)
unfolding new_effect
reserve effect_id now e s = elim (find_effect e.project_id e.effect_key s.effects) [
  | some row ↦
      if same_binding row.binding e.binding
      then (ok (row, false), s)
      else (err effect_key_binding_mismatch, s)
  | none ↦ (
    ok (new_effect effect_id now e, true),
    record s {
      effects = put_effect e.project_id e.effect_key (new_effect effect_id now e) s.effects;
    },
  )
]

-- The generations that a fence reader returns.
pub record Fence : Type 0 where
  pub lease_generation : Option ℕ
  pub cancellation_generation : Option ℕ

-- `_check_fence`
abbrev pub fence_moved : Option ℕ → ℕ → Bool
fence_moved none stored = false
fence_moved (some current) stored = stored != current

unfoldable pub check_fence : Option Fence → Effect → Verdict
check_fence none row = ok tt
check_fence (some f) row =
    raise_if
      (fence_moved f.lease_generation row.lease_generation
        || fence_moved f.cancellation_generation row.cancellation_generation)
      fence_changed_before_execute

-- `_executable` and `_not_executable`
abbrev pub is_not_applied : Option StateReason → Bool
is_not_applied (some StateReason.not_applied) = true
is_not_applied _ = false

abbrev pub executable : EffectState → Option StateReason → Bool
executable EffectState.reserved reason = true
executable EffectState.failed reason = is_not_applied reason
executable _ reason = false

abbrev pub not_executable : EffectState → EffectError
not_executable EffectState.succeeded = effect_already_succeeded
not_executable EffectState.unknown = effect_unknown_requires_reconcile
not_executable EffectState.executing = effect_already_executing
not_executable _ = effect_terminal

-- The approval of an execution, on the grant that was found.
abbrev pub unusable : Grant → ℕ → ℕ → Bool
unusable g project_id now =
    g.project_id != project_id || is_some g.revoked_at || leb g.expires_at now

unfoldable pub use_grant : Envelope → ℕ → ℕ → Grant → Effect → Exec Store EffectError Effect
use_grant e now id g row s =
    let consumed = record row { approval_consumed_at = some now } in
    if unusable g e.project_id now
    then (err approval_not_consumable, s)
    else if is_some row.approval_consumed_at
    then (ok row, s)
    else if leb g.max_effect_count g.used_count
    then (err approval_not_consumable, s)
    else (
      ok consumed,
      record s {
        approvals = put id (record g { used_count = g.used_count + 1 }) s.approvals;
        effects = put_effect e.project_id e.effect_key consumed s.effects;
      },
    )

unfoldable pub consume_grant :
    Envelope → ℕ → ℕ → Option Grant → Effect → Exec Store EffectError Effect
unfolding use_grant
consume_grant e now id none row s = (err approval_not_consumable, s)
consume_grant e now id (some g) row s = use_grant e now id g row s

unfoldable pub consume_approval : Envelope → ℕ → Option ℕ → Effect → Exec Store EffectError Effect
unfolding consume_grant
consume_approval e now none row s = (ok row, s)
consume_approval e now (some id) row s =
    let consumed = consume_grant e now id (lookup id s.approvals) row s in
    if id == 0 then (ok row, s) else consumed

-- The single winner.
unfoldable pub started : ℕ → ℕ → Effect → Effect
started executor_id now row = record row {
  state = EffectState.executing;
  state_reason = none;
  started_at = some now;
  executor_id = some executor_id;
  attempt_count = row.attempt_count + 1;
}

unfoldable pub start : Envelope → ℕ → ℕ → Effect → Exec Store EffectError Effect
unfolding started
start e executor_id now row s =
    if executable row.state row.state_reason
    then (
      ok (started executor_id now row),
      record s {
        effects = put_effect e.project_id e.effect_key (started executor_id now row) s.effects;
      },
    )
    else (err (not_executable row.state), s)

unfoldable pub begin_execution : Envelope → ℕ → Option Fence → ℕ → Exec Store EffectError Effect
begin_execution e executor_id fence now = do
  row ← reads (λ s. or_raise (find_effect e.project_id e.effect_key s.effects) effect_not_found)
  lift (check_fence fence row)
  row ← consume_approval e now e.approval_id row
  start e executor_id now row

unfoldable pub attach_pre_observation : ℕ → ℕ → ℕ → Exec Store EffectError Effect
attach_pre_observation project_id effect_key observation s =
    elim (find_effect project_id effect_key s.effects) [
      | none ↦ (err effect_not_found, s)
      | some row ↦ (
        ok (record row { pre_observation = observation }),
        record s {
          effects =
              put_effect project_id effect_key (record row { pre_observation = observation })
                s.effects;
        },
      )
    ]

-- `_store_receipt_locked`. The attempts of the receipts of one effect, by receipt.
unfoldable pub latest_among : ℕ → List ℕ → Table Receipt → ℕ
latest_among effect_id [] t = 0
latest_among effect_id (k ∷ ks) t =
    let rest = latest_among effect_id ks t in
    elim (lookup k t) [
      | none ↦ rest
      | some r ↦ if r.effect_id == effect_id then max r.attempt_number rest else rest
    ]

unfoldable pub next_attempt : ℕ → Table Receipt → ℕ
unfolding latest_among
next_attempt effect_id t = 1 + latest_among effect_id (keys t) t

unfoldable pub stamped : Effect → Receipt → Table Receipt → Receipt
stamped row r t = record r {
  effect_id = row.effect_id;
  attempt_number = next_attempt row.effect_id t;
}

unfoldable pub store_receipt : ℕ → Receipt → Exec Store EffectError Receipt
unfolding stamped
store_receipt receipt_id r s = elim (find_effect r.project_id r.effect_key s.effects) [
  | none ↦ (err effect_not_found, s)
  | some row ↦
      if is_some (lookup receipt_id s.receipts) then (err receipt_already_recorded, s) else (
        ok (stamped row r s.receipts),
        record s { receipts = put receipt_id (stamped row r s.receipts) s.receipts },
      )
]

-- The arguments of `finalize_with_receipt`.
pub record Outcome : Type 0 where
  pub state : EffectState
  pub state_reason : Option StateReason
  pub post_observation : Option ℕ
  pub external_id : Option ℕ
  pub reconciliation : Option ℕ

abbrev pub given_or : Option ℕ → ℕ → ℕ
given_or none old = old
given_or (some new) old = new

abbrev pub some_or : Option ℕ → Option ℕ → Option ℕ
some_or none old = old
some_or (some new) old = some new

abbrev pub reconciled_when : Option ℕ → ℕ → Option ℕ → Option ℕ
reconciled_when none now old = old
reconciled_when (some _) now old = some now

-- `FINALIZABLE_STATES`
abbrev pub is_finalizable : EffectState → Bool
is_finalizable EffectState.executing = true
is_finalizable EffectState.unknown = true
is_finalizable _ = false

unfoldable pub finished : Outcome → ℕ → Effect → Effect
finished o now row = record row {
  state = o.state;
  state_reason = o.state_reason;
  finished_at = some now;
  post_observation = given_or o.post_observation row.post_observation;
  external_id = some_or o.external_id row.external_id;
  reconciliation = given_or o.reconciliation row.reconciliation;
  reconciled_at = reconciled_when o.reconciliation now row.reconciled_at;
}

unfoldable pub finalize_with_receipt :
    ℕ → ℕ → Outcome → ℕ → Receipt → ℕ → Exec Store EffectError Receipt
unfolding finished store_receipt
finalize_with_receipt project_id effect_key o receipt_id r now s =
    elim (find_effect project_id effect_key s.effects) [
      | none ↦ (err effect_not_found, s)
      | some row ↦
          if is_finalizable row.state
          then store_receipt receipt_id r (record s {
            effects = put_effect project_id effect_key (finished o now row) s.effects;
          })
          else (err finalize_state_conflict, s)
    ]
