-- ===== src/Effects/System.antt =====
-- The effect store as a transition system: its calls in any order.
use swarmai.Prelude.{ℕ, ◌≡◌, Bool, false, Option, some, arith, ok}
use swarmai.Effects.Rows.{Store, Effect, Envelope, Grant, Receipt, find_effect}
use swarmai.Effects.Store.{
  put_approval, revoke_approval, reserve, Fence, begin_execution, attach_pre_observation,
  store_receipt, Outcome, finalize_with_receipt,
}
use swarmai.Effects.Frames.{
  Evolves, Evolves-refl, Evolves-trans, reserve-Evolves, attach-Evolves, effects-store_receipt,
  finalize-Evolves,
}
use swarmai.Effects.Begin.{begin-Evolves}
use swarmai.Effects.Winner.{reserve-found, reserve-Reserved}
use swarmai.Effects.Approvals.{
  WithinGrants, put_approval-WithinGrants, revoke_approval-WithinGrants, begin-WithinGrants,
  approvals-reserve, approvals-attach, approvals-store_receipt, approvals-finalize,
}
use swarmai.Effects.Attempts.{
  AttemptsDiffer, store_receipt-AttemptsDiffer, finalize-AttemptsDiffer, receipts-begin,
  receipts-reserve, receipts-attach, receipts-put_approval, receipts-revoke_approval,
}

pub data Step (d e : Store) : Type 0 where
  approve : (id : ℕ) (g : Grant) → e ≡ (put_approval id g d).1 → Step d e
  withdraw : (project_id id now : ℕ) → e ≡ (revoke_approval project_id id now d).1 → Step d e
  reserves : (id now : ℕ) (a : Envelope) → e ≡ (reserve id now a d).1 → Step d e
  begins :
      (a : Envelope) (executor_id : ℕ) (fence : Option Fence) (now : ℕ)
      → e ≡ (begin_execution a executor_id fence now d).1
      → Step d e
  observes : (p k o : ℕ) → e ≡ (attach_pre_observation p k o d).1 → Step d e
  finalizes :
      (p k : ℕ) (o : Outcome) (id : ℕ) (r : Receipt) (now : ℕ)
      → e ≡ (finalize_with_receipt p k o id r now d).1
      → Step d e
  records : (id : ℕ) (r : Receipt) → e ≡ (store_receipt id r d).1 → Step d e

pub data Reach (d : Store) : Store → Type 0 where
  here : Reach d d
  next : {e f : Store} → Reach d e → Step e f → Reach d f

effects-put_approval :
    (id : ℕ) (g : Grant) (s : Store) → (put_approval id g s).1.effects ≡ s.effects
unfolding put_approval
effects-put_approval id g s = ground arith

effects-revoke_approval :
    (p id now : ℕ) (s : Store) → (revoke_approval p id now s).1.effects ≡ s.effects
unfolding revoke_approval
effects-revoke_approval p id now s = ground arith

Step-Evolves : {d e : Store} → Step d e → Evolves d.effects e.effects
Step-Evolves {d = d} (approve id g w) = rw (w, effects-put_approval id g d) (Evolves-refl d.effects)
Step-Evolves {d = d} (withdraw p id now w) =
    rw (w, effects-revoke_approval p id now d) (Evolves-refl d.effects)
Step-Evolves {d = d} (reserves id now a w) = rw w (reserve-Evolves id now a d)
Step-Evolves {d = d} (begins a x fence now w) = rw w (begin-Evolves a x fence now d)
Step-Evolves {d = d} (observes p k o w) = rw w (attach-Evolves p k o d)
Step-Evolves {d = d} (finalizes p k o id r now w) = rw w (finalize-Evolves p k o id r now d)
Step-Evolves {d = d} (records id r w) =
    rw (w, effects-store_receipt id r d) (Evolves-refl d.effects)

-- Whatever calls are made, in any order, an effect that is in the store stays there with its
-- identifier and what its key stands for, its attempts are not counted back, an approval that it has
-- used stays used, and once it has succeeded it stays so and no attempt is made again.
pub Reach-Evolves : {d e : Store} → Reach d e → Evolves d.effects e.effects
Reach-Evolves {d = d} here = Evolves-refl d.effects
Reach-Evolves {d = d} (next {e = e} {f = f} r st) =
    Evolves-trans d.effects e.effects f.effects (Reach-Evolves r) (Step-Evolves st)

Step-WithinGrants : {d e : Store} → Step d e → WithinGrants d.approvals → WithinGrants e.approvals
Step-WithinGrants {d = d} (approve id g w) x = rw w (put_approval-WithinGrants id g d x)
Step-WithinGrants {d = d} (withdraw p id now w) x = rw w (revoke_approval-WithinGrants p id now d x)
Step-WithinGrants {d = d} (reserves id now a w) x = rw (w, approvals-reserve id now a d) x
Step-WithinGrants {d = d} (begins a y fence now w) x = rw w (begin-WithinGrants a y fence now d x)
Step-WithinGrants {d = d} (observes p k o w) x = rw (w, approvals-attach p k o d) x
Step-WithinGrants {d = d} (finalizes p k o id r now w) x =
    rw (w, approvals-finalize p k o id r now d) x
Step-WithinGrants {d = d} (records id r w) x = rw (w, approvals-store_receipt id r d) x

-- If no approval is used more often than it allows, then none is after any calls in any order.
pub Reach-WithinGrants :
    {d e : Store} → Reach d e → WithinGrants d.approvals → WithinGrants e.approvals
Reach-WithinGrants here x = x
Reach-WithinGrants (next r st) x = Step-WithinGrants st (Reach-WithinGrants r x)

Step-AttemptsDiffer :
    {d e : Store} → Step d e → AttemptsDiffer d.receipts → AttemptsDiffer e.receipts
Step-AttemptsDiffer {d = d} (approve id g w) x = rw (w, receipts-put_approval id g d) x
Step-AttemptsDiffer {d = d} (withdraw p id now w) x = rw (w, receipts-revoke_approval p id now d) x
Step-AttemptsDiffer {d = d} (reserves id now a w) x = rw (w, receipts-reserve id now a d) x
Step-AttemptsDiffer {d = d} (begins a y fence now w) x = rw (w, receipts-begin a y fence now d) x
Step-AttemptsDiffer {d = d} (observes p k o w) x = rw (w, receipts-attach p k o d) x
Step-AttemptsDiffer {d = d} (finalizes p k o id r now w) x =
    rw w (finalize-AttemptsDiffer p k o id r now d x)
Step-AttemptsDiffer {d = d} (records id r w) x = rw w (store_receipt-AttemptsDiffer id r d x)

-- If the receipts of each effect have different attempt numbers, then they have after any calls in
-- any order.
pub Reach-AttemptsDiffer :
    {d e : Store} → Reach d e → AttemptsDiffer d.receipts → AttemptsDiffer e.receipts
Reach-AttemptsDiffer here x = x
Reach-AttemptsDiffer (next r st) x = Step-AttemptsDiffer st (Reach-AttemptsDiffer r x)

-- To reserve an effect again, after any calls in any order, returns the row that is there then,
-- which still has the identifier of the row that the first call returned, says that it is not new,
-- and writes nothing, whatever identifier and time the second call comes with.
pub reserve_again :
    (id again now later : ℕ) (a : Envelope) (d : Store) {row : Effect} {created : Bool}
    {e f : Store}
    → reserve id now a d ≡ (ok (row, created), e)
    → Reach e f
    → (current : Effect) × (find_effect a.project_id a.effect_key f.effects ≡ some current)
      × (current.effect_id ≡ row.effect_id)
      × (reserve again later a f ≡ (ok (current, false), f))
reserve_again id again now later a d {row = row} {f = f} h r =
    let first = reserve-Reserved id now a d h in
    let evolves = Reach-Evolves r in
    let (current, there, progress) = evolves.goes_on a.project_id a.effect_key row first.found in
    (
      current,
      there,
      progress.same_id,
      reserve-found again later a f current there (rw progress.same_effect first.same),
    )
