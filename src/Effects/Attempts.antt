-- ===== src/Effects/Attempts.antt =====
-- About the receipts of `InMemoryEffectStore` and their attempt numbers.
use swarmai.Prelude.{
  ℕ, ◌≤◌, ◌≡◌, refl, ◌∙◌, inl, inr, true, Option, some, List, [], ◌∷◌, lookup, put, lookup-put,
  keys, contains, contains-keys, Table, arith, is_some, Option-cases, Bool-cases, Result-cases,
}
use swarmai.Effects.Rows.{Store, Effect, Envelope, Grant, Receipt, find_effect, put_effect}
use swarmai.Effects.Store.{
  put_approval, revoke_approval, reserve, Fence, check_fence, use_grant, consume_grant,
  consume_approval, start, begin_execution, attach_pre_observation, latest_among, next_attempt,
  stamped, store_receipt, Outcome, finished, is_finalizable, finalize_with_receipt,
}

pub record AttemptsDiffer (t : Table Receipt) : Type 0 where
  pub one_each :
      (i j : ℕ) (r q : Receipt)
      → lookup i t ≡ some r
      → lookup j t ≡ some q
      → r.effect_id ≡ q.effect_id
      → r.attempt_number ≡ q.attempt_number
      → i ≡ j

latest_among-bound :
    (effect_id k : ℕ) (ks : List ℕ) (t : Table Receipt) (r : Receipt)
    → contains k ks ≡ true
    → lookup k t ≡ some r
    → r.effect_id ≡ effect_id
    → r.attempt_number ≤ latest_among effect_id ks t
unfolding latest_among
latest_among-bound effect_id k [] t r c e h = cc
latest_among-bound effect_id k (j ∷ ks) t r c e h =
    ground (arith, c, e, h, latest_among-bound effect_id k ks t r)

-- A new number is above all that are there.
next_attempt-new :
    (effect_id k : ℕ) (t : Table Receipt) (r : Receipt)
    → lookup k t ≡ some r
    → r.effect_id ≡ effect_id
    → ¬ (r.attempt_number ≡ next_attempt effect_id t)
unfolding next_attempt
next_attempt-new effect_id k t r e h same =
    omega (arith, same, latest_among-bound effect_id k (keys t) t r (contains-keys k t e) e h)

put-AttemptsDiffer :
    (id : ℕ) (n : Receipt) (t : Table Receipt)
    → n.attempt_number ≡ next_attempt n.effect_id t
    → AttemptsDiffer t
    → AttemptsDiffer (put id n t)
put-AttemptsDiffer id n t w x = record {
  one_each = λ i j r q ei ej same number. grind (
    arith,
    w,
    lookup-put i id n t,
    lookup-put j id n t,
    x.one_each i j r q,
    next_attempt-new n.effect_id i t r,
    next_attempt-new n.effect_id j t q,
  );
}

pub store_receipt-AttemptsDiffer :
    (id : ℕ) (r : Receipt) (s : Store)
    → AttemptsDiffer s.receipts
    → AttemptsDiffer (store_receipt id r s).1.receipts
unfolding store_receipt stamped
store_receipt-AttemptsDiffer id r s x =
    elim (Option-cases (find_effect r.project_id r.effect_key s.effects)) [
      | inl missing ↦ rw (missing, store_receipt) x
      | inr (row, found) ↦
          rw (found, store_receipt)
            (elim (Bool-cases (is_some (lookup id s.receipts))) [
              | inl taken ↦ rw taken x
              | inr free ↦
                  rw free (put-AttemptsDiffer id (stamped row r s.receipts) s.receipts refl x)
            ])
    ]

pub finalize-AttemptsDiffer :
    (p k : ℕ) (o : Outcome) (id : ℕ) (r : Receipt) (now : ℕ) (s : Store)
    → AttemptsDiffer s.receipts
    → AttemptsDiffer (finalize_with_receipt p k o id r now s).1.receipts
unfolding finalize_with_receipt
finalize-AttemptsDiffer p k o id r now s x = elim (Option-cases (find_effect p k s.effects)) [
  | inl missing ↦ rw (missing, finalize_with_receipt) x
  | inr (row, found) ↦
      rw (found, finalize_with_receipt)
        (elim (Bool-cases (is_finalizable row.state)) [
          | inr other ↦ rw other x
          | inl busy ↦ rw busy (
              store_receipt-AttemptsDiffer id r
                (record s { effects = put_effect p k (finished o now row) s.effects }) x)
        ])
]

receipts-consume :
    (e : Envelope) (now : ℕ) (a : Option ℕ) (row : Effect) (s : Store)
    → (consume_approval e now a row s).1.receipts ≡ s.receipts
unfolding consume_approval consume_grant use_grant
receipts-consume e now a row s = ground arith

receipts-start :
    (e : Envelope) (x now : ℕ) (row : Effect) (s : Store)
    → (start e x now row s).1.receipts ≡ s.receipts
unfolding start
receipts-start e x now row s = ground arith

pub receipts-begin :
    (e : Envelope) (executor_id : ℕ) (fence : Option Fence) (now : ℕ) (s : Store)
    → (begin_execution e executor_id fence now s).1.receipts ≡ s.receipts
unfolding begin_execution
receipts-begin e executor_id fence now s =
    elim (Option-cases (find_effect e.project_id e.effect_key s.effects)) [
      | inl missing ↦ rw (missing, begin_execution) refl
      | inr (row, found) ↦
          rw (found, begin_execution)
            (elim (Result-cases (check_fence fence row)) [
              | inr (_, moved) ↦ rw moved refl
              | inl (_, held) ↦ rw held (
                  let same = receipts-consume e now e.approval_id row s in
                  elim (Result-cases (consume_approval e now e.approval_id row s).0) [
                    | inr (_, refused) ↦ rw refused same
                    | inl (next, paid) ↦ rw paid (
                        receipts-start e executor_id now next
                          (consume_approval e now e.approval_id row s).1
                        ∙ same)
                  ])
            ])
    ]

pub receipts-reserve :
    (id now : ℕ) (e : Envelope) (s : Store) → (reserve id now e s).1.receipts ≡ s.receipts
unfolding reserve
receipts-reserve id now e s = ground arith

pub receipts-attach :
    (p k o : ℕ) (s : Store) → (attach_pre_observation p k o s).1.receipts ≡ s.receipts
unfolding attach_pre_observation
receipts-attach p k o s = ground arith

pub receipts-put_approval :
    (id : ℕ) (g : Grant) (s : Store) → (put_approval id g s).1.receipts ≡ s.receipts
unfolding put_approval
receipts-put_approval id g s = ground arith

pub receipts-revoke_approval :
    (p id now : ℕ) (s : Store) → (revoke_approval p id now s).1.receipts ≡ s.receipts
unfolding revoke_approval
receipts-revoke_approval p id now s = ground arith
