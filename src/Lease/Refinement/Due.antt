-- ===== src/Lease/Refinement/Due.antt =====
-- About `expire_leases`: which leases a call picks, and what becomes of each row.
use swarmai.Prelude.{
  ℕ, zero, suc, ◌<◌, ◌≡◌, refl, sym, ap, ◌∙◌, inl, inr, Bool, true, false, not, Option, none, some,
  List, [], ◌∷◌, ◌==◌, if◌then◌else◌, contains, take, keep, length, lookup, lookup-put, select,
  select_complete, arith, Option-cases, Bool-cases,
}
use swarmai.Prelude.Paging.{order_by}
use swarmai.Prelude.Distinct.{contains-keep, contains-order_by}
use swarmai.Lease.Rows.{Db, Lease}
use swarmai.Lease.Expire.{
  expire_all, expire_row, expired_lease, is_due, expires_before, due_leases, expire_leases,
}
use swarmai.Lease.Refinement.Expiry.{leases-expire_row}

-- A list that is shorter than the limit is not cut.
contains-take_short :
    (n k : ℕ) (xs : List ℕ) → length (take n xs) < n → contains k (take n xs) ≡ contains k xs
contains-take_short zero k xs h = absurd (omega (arith, h))
contains-take_short (suc n) k [] h = refl
contains-take_short (suc n) k (x ∷ xs) h = ground (arith, h, contains-take_short n k xs)

pub due_leases_complete :
    (clock : ℕ) (project_id : Option ℕ) (limit : ℕ) (locked : ℕ → Bool) (db : Db) (id : ℕ)
    (l : Lease)
    → length (due_leases clock project_id limit locked db) < limit
    → lookup id db.leases ≡ some l
    → is_due clock project_id l ≡ true
    → locked id ≡ false
    → contains id (due_leases clock project_id limit locked db) ≡ true
unfolding due_leases
due_leases_complete clock project_id limit locked db id l short found due free =
    let xs = keep (λ i. not (locked i)) (select (is_due clock project_id) db.leases) in
    contains-take_short limit id (order_by (expires_before db) xs) short
    ∙ contains-order_by (expires_before db) id xs
    ∙ contains-keep (λ i. not (locked i)) id (select (is_due clock project_id) db.leases)
    ∙ ground (arith, free, select_complete (is_due clock project_id) id {v = l} db.leases found due)

-- What a call does to one row.
abbrev gone : ℕ → Option Lease → Option Lease
gone clock none = none
gone clock (some l) = some (expired_lease clock l)

gone_twice : (clock : ℕ) (o : Option Lease) → gone clock (gone clock o) ≡ gone clock o
gone_twice clock none = refl
gone_twice clock (some l) = refl

expire_row-row :
    (clock i id : ℕ) (db : Db)
    → lookup id (expire_row clock i db).leases
      ≡ (if i == id then gone clock (lookup id db.leases) else lookup id db.leases)
unfolding expire_row
expire_row-row clock i id db = elim (Option-cases (lookup i db.leases)) [
  | inl missing ↦ rw (missing, expire_row) (ground (arith, missing))
  | inr (l, found) ↦
      rw (leases-expire_row clock i l db found)
        (ground (arith, found, lookup-put id i (expired_lease clock l) db.leases))
]

expire_all-row :
    (clock id : ℕ) (ids : List ℕ) (db : Db)
    → lookup id (expire_all clock ids db).leases
      ≡ (if contains id ids then gone clock (lookup id db.leases) else lookup id db.leases)
unfolding expire_all
expire_all-row clock id [] db = refl
expire_all-row clock id (i ∷ ids) db =
    let one = expire_row-row clock i id db in
    let rest = expire_all-row clock id ids (expire_row clock i db) in
    let twice = gone_twice clock (lookup id db.leases) in
    elim (Bool-cases (i == id)) [
      | inl here ↦ ground (arith, here, one, rest, twice)
      | inr away ↦ ground (arith, away, one, rest)
    ]

gone_not_due :
    (clock : ℕ) (project_id : Option ℕ) (o : Option Lease) (m : Lease)
    → gone clock o ≡ some m
    → is_due clock project_id m ≡ false
unfolding is_due
gone_not_due clock project_id none m h = cc
gone_not_due clock project_id (some l) m h =
    let same : m ≡ expired_lease clock l = ground (arith, h) in rw same refl

-- A call of `expire_leases` that returns fewer leases than its limit has expired every lease that
-- was due and not locked by others: behind it no such lease is due.
pub expire_clears :
    (clock : ℕ) (project_id : Option ℕ) (limit : ℕ) (locked : ℕ → Bool) (db : Db) (id : ℕ)
    (m : Lease)
    → length (expire_leases clock project_id limit locked db).0 < limit
    → locked id ≡ false
    → lookup id (expire_leases clock project_id limit locked db).1.leases ≡ some m
    → is_due clock project_id m ≡ false
unfolding expire_leases
expire_clears clock project_id limit locked db id m short free e =
    let due = due_leases clock project_id limit locked db in
    let row = sym (expire_all-row clock id due db) ∙ e in
    elim (Bool-cases (contains id due)) [
      | inl listed ↦ gone_not_due clock project_id (lookup id db.leases) m (
          ap (λ b. if b then gone clock (lookup id db.leases) else lookup id db.leases) (sym listed)
          ∙ row)
      | inr unlisted ↦
          let same =
            ap (λ b. if b then gone clock (lookup id db.leases) else lookup id db.leases)
              (sym unlisted)
            ∙ row in
          elim (Bool-cases (is_due clock project_id m)) [
            | inl due_still ↦ cc (
                due_leases_complete clock project_id limit locked db id m short same due_still free)
            | inr over ↦ over
          ]
    ]
