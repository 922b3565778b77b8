-- ===== src/Lease/Moves/Exclusive.antt =====
-- What the protocol keeps.
use swarmai.Prelude.{
  ℕ, ◌≤◌, ◌≡◌, true, false, some, arith, lookup, put, any_row, Table, lookup-put, any_row-false,
}
use swarmai.Lease.Rows.{Lease, is_active}
use swarmai.Lease.Authority.{holds_task}
use swarmai.Lease.Moves.{Move, issue, renew, finish, Moves, still, move}

-- No task is held by two active leases.
pub record Exclusive (t : Table Lease) : Type 0 where
  pub one_holder :
      (i j : ℕ) (l m : Lease)
      → lookup i t ≡ some l
      → lookup j t ≡ some m
      → is_active l.state ≡ true
      → is_active m.state ≡ true
      → l.task_id ≡ m.task_id
      → i ≡ j

holder_excluded :
    (t : Table Lease) (task_id i : ℕ) (l : Lease)
    → any_row (holds_task task_id) t ≡ false
    → lookup i t ≡ some l
    → is_active l.state ≡ true
    → ¬ (l.task_id ≡ task_id)
unfolding holds_task
holder_excluded t task_id i l none_held e a same =
    ground (arith, any_row-false (holds_task task_id) i {v = l} t none_held e)

-- Issue: the task had no holder.
issue-Exclusive :
    (id : ℕ) (l : Lease) (t : Table Lease)
    → any_row (holds_task l.task_id) t ≡ false
    → Exclusive t
    → Exclusive (put id l t)
issue-Exclusive id l t free x = record {
  one_holder = λ i j p q ei ej ai aj same. grind (
    arith,
    lookup-put i id l t,
    lookup-put j id l t,
    holder_excluded t l.task_id i p free,
    holder_excluded t l.task_id j q free,
    x.one_holder i j p q,
  );
}

-- A row that was active is written anew, with its task.
rewrite-Exclusive :
    (id : ℕ) (l m : Lease) (t : Table Lease)
    → lookup id t ≡ some l
    → is_active l.state ≡ true
    → m.task_id ≡ l.task_id
    → Exclusive t
    → Exclusive (put id m t)
rewrite-Exclusive id l m t found a same_task x = record {
  one_holder = λ i j p q ei ej ai aj same. grind (
    arith,
    lookup-put i id m t,
    lookup-put j id m t,
    x.one_holder i j p q,
    x.one_holder i j l q,
    x.one_holder i j p l,
  );
}

Move-Exclusive : {t u : Table Lease} → Move t u → Exclusive t → Exclusive u
Move-Exclusive {t = t} (issue id l fresh free fits e) x = rw e (issue-Exclusive id l t free x)
Move-Exclusive {t = t} (renew id l m found a s later e) x =
    rw e (rewrite-Exclusive id l m t found a s.task x)
Move-Exclusive {t = t} (finish id l m found a over s kept e) x =
    rw e (rewrite-Exclusive id l m t found a s.task x)

pub Moves-Exclusive : {t u : Table Lease} → Moves t u → Exclusive t → Exclusive u
Moves-Exclusive still x = x
Moves-Exclusive (move ms m) x = Move-Exclusive m (Moves-Exclusive ms x)

-- No lease runs past its horizon.
pub record WithinHorizon (t : Table Lease) : Type 0 where
  pub capped :
      (i upper : ℕ) (l : Lease)
      → lookup i t ≡ some l
      → l.renewable_until ≡ some upper
      → l.expires_at ≤ upper

put-WithinHorizon :
    (id : ℕ) (m : Lease) (t : Table Lease)
    → ((upper : ℕ) → m.renewable_until ≡ some upper → m.expires_at ≤ upper)
    → WithinHorizon t
    → WithinHorizon (put id m t)
put-WithinHorizon id m t fits x = record {
  capped = λ i upper p e h. ground (arith, lookup-put i id m t, fits upper, x.capped i upper p);
}

Move-WithinHorizon : {t u : Table Lease} → Move t u → WithinHorizon t → WithinHorizon u
Move-WithinHorizon {t = t} (issue id l fresh free fits e) x = rw e (put-WithinHorizon id l t fits x)
Move-WithinHorizon {t = t} (renew id l m found a s later e) x =
    rw e (put-WithinHorizon id m t (λ upper h. (later upper (rw (← s.horizon) h)).1) x)
Move-WithinHorizon {t = t} (finish id l m found a over s kept e) x = rw e (
    put-WithinHorizon id m t (λ upper h. rw kept (x.capped id upper l found (rw (← s.horizon) h)))
      x)

pub Moves-WithinHorizon : {t u : Table Lease} → Moves t u → WithinHorizon t → WithinHorizon u
Moves-WithinHorizon still x = x
Moves-WithinHorizon (move ms m) x = Move-WithinHorizon m (Moves-WithinHorizon ms x)
