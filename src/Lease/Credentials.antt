-- ===== src/Lease/Credentials.antt =====
-- What rotation, revocation and voluntary reduction do to a worker's authority.
use swarmai.Prelude.{
  ℕ, ◌+◌, ◌≤◌, ◌≡◌, refl, ap, ◌∙◌, inl, inr, Bool, true, not, ◌&&◌, none, some, ◌==◌, ◌!=◌, subset,
  lookup, put, lookup-put, arith, Result, ok, err, Bool-cases,
}
use mathlib.Core.Path.{subst}
use swarmai.Lease.Rows.{Db, Worker, LeaseError}
use swarmai.Lease.Authority.{Service, token_fails, verify_membership, is_revoked}
use swarmai.Lease.Workers.{write_worker, rotate_membership_token}

-- The row after a rotation.
abbrev Rotated : Service → ℕ → ℕ → Worker → Db → Result LeaseError Worker × Db → Type 0
Rotated s id new w db (ok after, db') =
    (after.token_hash ≡ some (s.digest new))
    × (after.revoked_at ≡ none)
    × (after.lease_generation ≡ w.lease_generation + 1)
    × (db'.workers ≡ put id after db.workers)
Rotated s id new w db (err _, db') = Unit

rotate-Rotated :
    (s : Service) (secret : ℕ → Bool) (id current new token_id clock : ℕ) (w : Worker) (db : Db)
    → lookup id db.workers ≡ some w
    → Rotated s id new w db (rotate_membership_token s secret id current new token_id clock db)
unfolding rotate_membership_token write_worker
rotate-Rotated s secret id current new token_id clock w db found =
    rw (found, rotate_membership_token)
      (elim (Bool-cases (is_revoked w)) [
        | inl gone ↦ rw gone tt
        | inr stays ↦ rw stays (elim (Bool-cases (token_fails s w current)) [
          | inl wrong ↦ rw wrong tt
          | inr right ↦ rw right (elim (Bool-cases (secret new)) [
            | inl marked ↦ rw marked tt
            | inr plain ↦ rw plain (refl, ground (arith, stays), refl, refl)
          ])
        ])
      ])

verify-row :
    (s : Service) (id token : ℕ) (w : Worker) (db : Db)
    → lookup id db.workers ≡ some w
    → w.revoked_at ≡ none
    → verify_membership s id token db ≡ not (token_fails s w token)
unfolding verify_membership token_fails
verify-row s id token w db found free = rw (found, verify_membership) (rw free refl)

hash-fails :
    (s : Service) (new token : ℕ) (w : Worker)
    → w.token_hash ≡ some (s.digest new)
    → not (token_fails s w token) ≡ (s.digest new != 0 && s.digest new == s.digest token)
unfolding token_fails
hash-fails s new token w e = ground (arith, e)

-- After a rotation that succeeds the worker is of the next generation, and its membership is proved
-- by exactly the tokens that have the digest of the new one, if that digest is no empty text.
pub rotate_invalidates :
    (s : Service) (secret : ℕ → Bool) (id current new token_id clock token : ℕ) (w : Worker)
    (db : Db) {after : Worker} {db' : Db}
    → lookup id db.workers ≡ some w
    → rotate_membership_token s secret id current new token_id clock db ≡ (ok after, db')
    → (lookup id db'.workers ≡ some after)
      × (after.lease_generation ≡ w.lease_generation + 1)
      × (verify_membership s id token db' ≡ (s.digest new != 0 && s.digest new == s.digest token))
rotate_invalidates s secret id current new token_id clock token w db {after = after} {db' = db'}
      found h =
    let (hash, free, generation, written) =
      subst (Rotated s id new w db) h
        (rotate-Rotated s secret id current new token_id clock w db found) in
    let row : lookup id db'.workers ≡ some after =
      ap (λ t. lookup id t) written ∙ lookup-put id id after db.workers ∙ ground arith in
    (row, generation, verify-row s id token after db' row free ∙ hash-fails s new token after hash)

-- No more than a worker had.
pub record Reduced (w later : Worker) : Type 0 where
  pub capabilities : subset later.capabilities w.capabilities ≡ true
  pub privacy : subset later.privacy_classes w.privacy_classes ≡ true
  pub units : later.capacity_units ≤ w.capacity_units
  pub generation : later.lease_generation ≡ w.lease_generation
  pub token : later.token_hash ≡ w.token_hash

abbrev RowReduced : ℕ → Worker → Db → Type 0
RowReduced id w db = (later : Worker) × (lookup id db.workers ≡ some later) × Reduced w later
