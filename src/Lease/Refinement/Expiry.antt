-- ===== src/Lease/Refinement/Expiry.antt =====
-- Expiry.
use swarmai.Prelude.{
  ℕ, ◌≡◌, refl, ◌∙◌, inl, inr, Bool, true, false, not, Option, some, List, [], ◌∷◌, arith, lookup,
  put, lookup-put, Option-cases, contains, keep, select, row_satisfies, select_sound, Table,
}
use swarmai.Prelude.Distinct.{
  Nodup, Nodup-select, Nodup-keep, Nodup-order_by, Nodup-take, contains-take, contains-order_by,
  contains-keep,
}
use swarmai.Prelude.Paging.{order_by}
use swarmai.Lease.Rows.{Db, Lease, is_active}
use swarmai.Lease.Expire.{
  expire_attempt, expire_task, expire_lease, expire_row, expire_all, expired_lease, due_leases,
  expire_leases, is_due, expires_before,
}
use swarmai.Lease.Moves.{finish, Moves, still, Moves-one, Moves-trans}

leases-expire_attempt : (clock a : ℕ) (db : Db) → (expire_attempt clock a db).leases ≡ db.leases
unfolding expire_attempt
leases-expire_attempt clock a db = ground arith

leases-expire_task : (l : Lease) (db : Db) → (expire_task l db).leases ≡ db.leases
unfolding expire_task
leases-expire_task l db = ground arith

pub leases-expire_lease :
    (clock id : ℕ) (l : Lease) (db : Db)
    → (expire_lease clock id l db).leases ≡ put id (expired_lease clock l) db.leases
unfolding expire_lease
leases-expire_lease clock id l db =
    leases-expire_task l _ ∙ leases-expire_attempt clock l.attempt_id _

-- The table after one round.
pub leases-expire_row :
    (clock id : ℕ) (l : Lease) (db : Db)
    → lookup id db.leases ≡ some l
    → (expire_row clock id db).leases ≡ put id (expired_lease clock l) db.leases
unfolding expire_row
leases-expire_row clock id l db e = rw (e, expire_row) (leases-expire_lease clock id l db)

abbrev AllActive : List ℕ → Table Lease → Type 0
AllActive ids t =
    (i : ℕ) → contains i ids ≡ true → row_satisfies (λ l. is_active l.state) (lookup i t) ≡ true

-- What is still to be expired is untouched by a round.
others_active :
    (clock id : ℕ) (ids : List ℕ) (l : Lease) (db : Db)
    → contains id ids ≡ false
    → lookup id db.leases ≡ some l
    → AllActive (id ∷ ids) db.leases
    → AllActive ids (expire_row clock id db).leases
others_active clock id ids l db fresh e a i c =
    rw (leases-expire_row clock id l db e)
      (ground (arith, lookup-put i id (expired_lease clock l) db.leases, a i))

expire_row-Moves :
    (clock id : ℕ) (l : Lease) (db : Db)
    → lookup id db.leases ≡ some l
    → is_active l.state ≡ true
    → Moves db.leases (expire_row clock id db).leases
expire_row-Moves clock id l db e busy = Moves-one (
    finish id l (expired_lease clock l) e busy refl (ground arith) refl
      (leases-expire_row clock id l db e))

expire_all-Moves :
    (clock : ℕ) (ids : List ℕ) (db : Db)
    → Nodup ids
    → AllActive ids db.leases
    → Moves db.leases (expire_all clock ids db).leases
unfolding expire_all
expire_all-Moves clock [] db d a = still
expire_all-Moves clock (id ∷ ids) db d a = elim (Option-cases (lookup id db.leases)) [
  | inl missing ↦ absurd (ground (arith, a id))
  | inr (l, e) ↦ Moves-trans (expire_row-Moves clock id l db e (ground (arith, a id))) (
      expire_all-Moves clock ids (expire_row clock id db) d.1
        (others_active clock id ids l db d.0 e a))
]

-- The leases of a call are distinct, and due.
pub due_leases-Nodup :
    (clock : ℕ) (p : Option ℕ) (limit : ℕ) (locked : ℕ → Bool) (db : Db)
    → Nodup (due_leases clock p limit locked db)
unfolding due_leases
due_leases-Nodup clock p limit locked db =
    Nodup-take limit
      (order_by (expires_before db)
        (keep (λ i. not (locked i)) (select (is_due clock p) db.leases)))
      (Nodup-order_by (expires_before db)
        (keep (λ i. not (locked i)) (select (is_due clock p) db.leases))
        (Nodup-keep (λ i. not (locked i)) (select (is_due clock p) db.leases)
          (Nodup-select (is_due clock p) db.leases)))

pub due_leases_sound :
    (clock : ℕ) (p : Option ℕ) (limit : ℕ) (locked : ℕ → Bool) (db : Db) (i : ℕ)
    → contains i (due_leases clock p limit locked db) ≡ true
    → row_satisfies (is_due clock p) (lookup i db.leases) ≡ true
unfolding due_leases
due_leases_sound clock p limit locked db i c =
    let selected = select (is_due clock p) db.leases in
    let free = keep (λ j. not (locked j)) selected in
    ground (
      arith,
      select_sound (is_due clock p) i db.leases,
      contains-keep (λ j. not (locked j)) i selected,
      contains-order_by (expires_before db) i free,
      contains-take limit i (order_by (expires_before db) free),
    )

pub expire-Moves :
    (clock : ℕ) (p : Option ℕ) (limit : ℕ) (locked : ℕ → Bool) (db : Db)
    → Moves db.leases (expire_leases clock p limit locked db).1.leases
unfolding expire_leases is_due
expire-Moves clock p limit locked db =
    expire_all-Moves clock (due_leases clock p limit locked db) db
      (due_leases-Nodup clock p limit locked db)
      (λ i c. ground (arith, due_leases_sound clock p limit locked db i c))
