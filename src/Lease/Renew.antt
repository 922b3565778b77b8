-- ===== src/Lease/Renew.antt =====
-- `LeaseLifecycleService.renew_lease`.
use swarmai.Prelude.{ℕ, Option, or_default, lookup, put, ok, or_raise, Exec}
use swarmai.Prelude.Act.{lift, reads, ◌>>=◌, ◌>>◌}
use swarmai.Lease.Rows.{Db, Worker, Lease, LeaseState, LeaseError, lease_not_found}
use swarmai.Lease.Authority.{Service, require_claimable_worker}
use swarmai.Lease.RenewalChecks.{renewable_by, require_current_lease_authority, renewal_expires_at}

-- The arguments of the call.
pub record RenewCall : Type 0 where
  pub lease_id : ℕ
  pub worker_id : ℕ
  pub worker_generation : ℕ
  pub membership_token : ℕ
  pub extend_seconds : Option ℕ
  pub clock : ℕ

-- The row that a renewal writes.
abbrev pub renewed_lease : Lease → ℕ → ℕ → Lease
renewed_lease l clock expires_at = record l {
  state = LeaseState.renewed;
  expires_at = expires_at;
  updated_at = clock;
}

unfoldable pub write_renewal : ℕ → Lease → ℕ → ℕ → Exec Db LeaseError Lease
write_renewal lease_id l clock expires_at db =
    let renewed = renewed_lease l clock expires_at in
    (ok renewed, record db { leases = put lease_id renewed db.leases })

-- The part of `renew_lease` behind the look-ups.
unfoldable pub renew_found : Service → RenewCall → Worker → Lease → Exec Db LeaseError Lease
renew_found s c w l = do
  lift (renewable_by w c.worker_id c.worker_generation c.clock l)
  reads (require_current_lease_authority l)
  expires_at ←
      lift (renewal_expires_at l c.clock (or_default c.extend_seconds s.default_lease_seconds))
  write_renewal c.lease_id l c.clock expires_at

unfoldable pub renew_lease : Service → RenewCall → Exec Db LeaseError Lease
renew_lease s c = do
  w ← reads (require_claimable_worker s c.worker_id c.membership_token)
  l ← reads (λ db. or_raise (lookup c.lease_id db.leases) lease_not_found)
  renew_found s c w l
