-- ===== src/Lease/Moves.antt =====
-- The protocol of the lease table: what any operation may do to it. A lease is issued once, on a
-- task that no active lease holds; it may be renewed while it is active, up to its horizon if it
-- has one; and it ends once.
pub mod Exclusive
pub mod Continuity
use swarmai.Prelude.{
  ℕ, ◌≤◌, ◌≡◌, refl, Bool, true, false, Option, none, some, arith, lookup, put, any_row, Table,
  lookup-put,
}
use swarmai.Lease.Rows.{Lease, LeaseState, is_active}
use swarmai.Lease.Authority.{holds_task}

-- The columns that are written when a lease is issued and never again.
pub record SameBinding (l m : Lease) : Type 0 where
  pub task : m.task_id ≡ l.task_id
  pub attempt : m.attempt_id ≡ l.attempt_id
  pub mission : m.mission_id ≡ l.mission_id
  pub project : m.project_id ≡ l.project_id
  pub worker : m.worker_id ≡ l.worker_id
  pub generation : m.worker_generation ≡ l.worker_generation
  pub revision : m.task_revision ≡ l.task_revision
  pub source : m.source_revision ≡ l.source_revision
  pub cancellation : m.cancellation_generation ≡ l.cancellation_generation
  pub horizon : m.renewable_until ≡ l.renewable_until

pub data Move (t u : Table Lease) : Type 0 where
  issue :
      (id : ℕ) (l : Lease)
      → lookup id t ≡ none
      → any_row (holds_task l.task_id) t ≡ false
      → ((upper : ℕ) → l.renewable_until ≡ some upper → l.expires_at ≤ upper)
      → u ≡ put id l t
      → Move t u
  renew :
      (id : ℕ) (l m : Lease)
      → lookup id t ≡ some l
      → is_active l.state ≡ true
      → SameBinding l m
      → ((upper : ℕ)
          → l.renewable_until ≡ some upper
          → (l.expires_at ≤ m.expires_at) × (m.expires_at ≤ upper))
      → u ≡ put id m t
      → Move t u
  finish :
      (id : ℕ) (l m : Lease)
      → lookup id t ≡ some l
      → is_active l.state ≡ true
      → is_active m.state ≡ false
      → SameBinding l m
      → m.expires_at ≡ l.expires_at
      → u ≡ put id m t
      → Move t u

-- Any number of moves.
pub data Moves (t : Table Lease) : Table Lease → Type 0 where
  still : Moves t t
  move : {u v : Table Lease} → Moves t u → Move u v → Moves t v

pub Moves-one : {t u : Table Lease} → Move t u → Moves t u
Moves-one m = move still m

pub Moves-trans : {t u v : Table Lease} → Moves t u → Moves u v → Moves t v
Moves-trans a still = a
Moves-trans a (move b m) = move (Moves-trans a b) m
