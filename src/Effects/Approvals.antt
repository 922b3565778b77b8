-- ===== src/Effects/Approvals.antt =====
-- About the approvals of `InMemoryEffectStore` and their use counts.
use swarmai.Prelude.{
  ℕ, ◌+◌, ◌≤◌, ◌≡◌, inl, inr, Option, none, some, leb, ◌==◌, ◌!=◌, ◌||◌, lookup, put, lookup-put,
  Table, arith, is_some, Option-cases, Bool-cases, Result-cases,
}
use swarmai.Effects.Rows.{Store, Effect, Envelope, Grant, Receipt, find_effect}
use swarmai.Effects.Store.{
  put_approval, revoke_approval, reserve, Fence, check_fence, use_grant, unusable, consume_grant,
  consume_approval, start, begin_execution, attach_pre_observation, store_receipt, Outcome,
  finalize_with_receipt,
}

pub record WithinGrants (t : Table Grant) : Type 0 where
  pub bounded : (id : ℕ) (g : Grant) → lookup id t ≡ some g → g.used_count ≤ g.max_effect_count

put-WithinGrants :
    (id : ℕ) (g : Grant) (t : Table Grant)
    → g.used_count ≤ g.max_effect_count
    → WithinGrants t
    → WithinGrants (put id g t)
put-WithinGrants id g t h x = record {
  bounded = λ j p e. ground (arith, e, h, lookup-put j id g t, x.bounded j p);
}

pub put_approval-WithinGrants :
    (id : ℕ) (g : Grant) (s : Store)
    → WithinGrants s.approvals
    → WithinGrants (put_approval id g s).1.approvals
unfolding put_approval
put_approval-WithinGrants id g s x = elim (Bool-cases (is_some g.revoked_at)) [
  | inl bad ↦ rw (bad, put_approval) x
  | inr fine ↦
      rw (fine, put_approval)
        (elim (Bool-cases (is_some (lookup id s.approvals))) [
          | inl taken ↦ rw taken x
          | inr free ↦
              rw free
                (put-WithinGrants id (record g { used_count = 0 }) s.approvals (omega arith) x)
        ])
]

pub revoke_approval-WithinGrants :
    (project_id id now : ℕ) (s : Store)
    → WithinGrants s.approvals
    → WithinGrants (revoke_approval project_id id now s).1.approvals
unfolding revoke_approval
revoke_approval-WithinGrants project_id id now s x = elim (Option-cases (lookup id s.approvals)) [
  | inl missing ↦ rw (missing, revoke_approval) x
  | inr (g, found) ↦
      rw (found, revoke_approval)
        (elim (Bool-cases (g.project_id != project_id || is_some g.revoked_at)) [
          | inl kept ↦ rw kept x
          | inr open_grant ↦ rw open_grant (
              put-WithinGrants id (record g { revoked_at = some now }) s.approvals
                (x.bounded id g found) x)
        ])
]

pub approvals-reserve :
    (id now : ℕ) (e : Envelope) (s : Store) → (reserve id now e s).1.approvals ≡ s.approvals
unfolding reserve
approvals-reserve id now e s = ground arith

pub approvals-attach :
    (p k o : ℕ) (s : Store) → (attach_pre_observation p k o s).1.approvals ≡ s.approvals
unfolding attach_pre_observation
approvals-attach p k o s = ground arith

pub approvals-store_receipt :
    (id : ℕ) (r : Receipt) (s : Store) → (store_receipt id r s).1.approvals ≡ s.approvals
unfolding store_receipt
approvals-store_receipt id r s = ground arith

pub approvals-finalize :
    (p k : ℕ) (o : Outcome) (id : ℕ) (r : Receipt) (now : ℕ) (s : Store)
    → (finalize_with_receipt p k o id r now s).1.approvals ≡ s.approvals
unfolding finalize_with_receipt store_receipt
approvals-finalize p k o id r now s = ground arith

approvals-start :
    (e : Envelope) (x now : ℕ) (row : Effect) (s : Store)
    → (start e x now row s).1.approvals ≡ s.approvals
unfolding start
approvals-start e x now row s = ground arith

use_grant-WithinGrants :
    (e : Envelope) (now id : ℕ) (g : Grant) (row : Effect) (s : Store)
    → lookup id s.approvals ≡ some g
    → WithinGrants s.approvals
    → WithinGrants (use_grant e now id g row s).1.approvals
unfolding use_grant
use_grant-WithinGrants e now id g row s found x = elim (Bool-cases (unusable g e.project_id now)) [
  | inl bad ↦ rw (bad, use_grant) x
  | inr fine ↦
      rw (fine, use_grant)
        (elim (Bool-cases (is_some row.approval_consumed_at)) [
          | inl before ↦ rw before x
          | inr first ↦ rw first (elim (Bool-cases (leb g.max_effect_count g.used_count)) [
            | inl full ↦ rw full x
            | inr free ↦ rw free (
                put-WithinGrants id (record g { used_count = g.used_count + 1 }) s.approvals
                  (ground (arith, free)) x)
          ])
        ])
]

consume-WithinGrants :
    (e : Envelope) (now : ℕ) (a : Option ℕ) (row : Effect) (s : Store)
    → WithinGrants s.approvals
    → WithinGrants (consume_approval e now a row s).1.approvals
unfolding consume_approval consume_grant
consume-WithinGrants e now none row s x = x
consume-WithinGrants e now (some id) row s x = elim (Bool-cases (id == 0)) [
  | inl empty ↦ rw (empty, consume_approval) x
  | inr named ↦
      rw (named, consume_approval)
        (elim (Option-cases (lookup id s.approvals)) [
          | inl missing ↦ rw (missing, consume_grant) x
          | inr (g, found) ↦
              rw (found, consume_grant) (use_grant-WithinGrants e now id g row s found x)
        ])
]

pub begin-WithinGrants :
    (e : Envelope) (executor_id : ℕ) (fence : Option Fence) (now : ℕ) (s : Store)
    → WithinGrants s.approvals
    → WithinGrants (begin_execution e executor_id fence now s).1.approvals
unfolding begin_execution
begin-WithinGrants e executor_id fence now s x =
    elim (Option-cases (find_effect e.project_id e.effect_key s.effects)) [
      | inl missing ↦ rw (missing, begin_execution) x
      | inr (row, found) ↦
          rw (found, begin_execution)
            (elim (Result-cases (check_fence fence row)) [
              | inr (_, moved) ↦ rw moved x
              | inl (_, held) ↦ rw held (
                  let y = consume-WithinGrants e now e.approval_id row s x in
                  elim (Result-cases (consume_approval e now e.approval_id row s).0) [
                    | inr (_, refused) ↦ rw refused y
                    | inl (next, paid) ↦ rw paid (
                        rw
                          (approvals-start e executor_id now next
                            (consume_approval e now e.approval_id row s).1)
                          y)
                  ])
            ])
    ]
