-- ===== src/Scheduler/Authority.antt =====
-- `SiteAuthorityService`: the epoch of each site, and the work that a stale epoch may not do.
use swarmai.Prelude.{
  ℕ, suc, Bool, true, false, not, Option, none, some, List, [], ◌∷◌, ◌++◌, ◌!=◌, if◌then◌else◌,
  Table, lookup, put, Result, ok, err, Exec,
}
use swarmai.Prelude.Act.{pure, lift, modify, ◌>>=◌, ◌>>◌}

pub data AuthorityState : Type 0 where
  active : AuthorityState
  recovering : AuthorityState
  fenced : AuthorityState
  retired : AuthorityState

abbrev pub is_active : AuthorityState → Bool
is_active AuthorityState.active = true
is_active _ = false

pub record SiteAuthority : Type 0 where
  pub site_id : ℕ
  pub epoch : ℕ
  pub state : AuthorityState
  pub source_site_id : Option ℕ
  pub recovery_id : Option ℕ
  pub activated_at : ℕ
  pub fenced_at : Option ℕ

pub record Transition : Type 0 where
  pub site_id : ℕ
  pub from_epoch : ℕ
  pub to_epoch : ℕ
  pub reason : ℕ

-- The service's rows and its log.
pub record Sites : Type 0 where
  pub by_site : Table SiteAuthority
  pub transitions : List Transition

pub data StaleEpochError : Type 0 where
  site_epoch_required : StaleEpochError
  site_not_active : AuthorityState → StaleEpochError
  stale_epoch : (got want : ℕ) → StaleEpochError

abbrev pub fresh_authority : ℕ → ℕ → ℕ → SiteAuthority
fresh_authority site epoch now = record {
  site_id = site;
  epoch = epoch;
  state = AuthorityState.active;
  source_site_id = none;
  recovery_id = none;
  activated_at = now;
  fenced_at = none;
}

-- `_by_site[site_id] = auth`
abbrev pub write_site : ℕ → SiteAuthority → Sites → Sites
write_site site auth s = record s { by_site = put site auth s.by_site }

abbrev log : Transition → Sites → Sites
log t s = record s { transitions = s.transitions ++ t ∷ [] }

unfoldable pub bootstrap : ℕ → ℕ → ℕ → Exec Sites StaleEpochError SiteAuthority
bootstrap site epoch now s =
    let auth = fresh_authority site epoch now in (ok auth, write_site site auth s)

abbrev found_or :
    Option SiteAuthority
    → Exec Sites StaleEpochError SiteAuthority
    → Exec Sites StaleEpochError SiteAuthority
found_or (some auth) otherwise s = (ok auth, s)
found_or none otherwise s = otherwise s

-- An unknown site starts in epoch 1.
unfoldable pub current : ℕ → ℕ → Exec Sites StaleEpochError SiteAuthority
unfolding bootstrap
current site now s = found_or (lookup site s.by_site) (bootstrap site 1 now) s

abbrev pub check_epoch : ℕ → SiteAuthority → Result StaleEpochError SiteAuthority
check_epoch epoch auth =
    if not (is_active auth.state)
    then err (StaleEpochError.site_not_active auth.state)
    else if epoch != auth.epoch
    then err (StaleEpochError.stale_epoch epoch auth.epoch)
    else ok auth

unfoldable pub require_epoch : ℕ → ℕ → ℕ → Exec Sites StaleEpochError SiteAuthority
unfolding current
require_epoch site epoch now = do auth ← current site now; lift (check_epoch epoch auth)

abbrev pub fenced_row : ℕ → SiteAuthority → SiteAuthority
fenced_row now auth = record auth { state = AuthorityState.fenced; fenced_at = some now }

unfoldable pub fence : ℕ → ℕ → ℕ → Exec Sites StaleEpochError SiteAuthority
unfolding current
fence site reason now = do
  auth ← current site now
  modify (write_site site (fenced_row now auth))
  modify (
      log (record {
        site_id = site;
        from_epoch = auth.epoch;
        to_epoch = auth.epoch;
        reason = reason;
      }))
  pure (fenced_row now auth)

abbrev source_or : Option ℕ → ℕ → ℕ
source_or none site = site
source_or (some source) site = source

abbrev pub next_authority : ℕ → SiteAuthority → Option ℕ → Option ℕ → ℕ → SiteAuthority
next_authority site prev recovery_id source_site_id now = record {
  site_id = site;
  epoch = suc prev.epoch;
  state = AuthorityState.active;
  source_site_id = some (source_or source_site_id site);
  recovery_id = recovery_id;
  activated_at = now;
  fenced_at = none;
}

-- The row of the old epoch is replaced by that of the next one.
unfoldable pub advance_epoch :
    ℕ → ℕ → Option ℕ → Option ℕ → ℕ → Exec Sites StaleEpochError SiteAuthority
unfolding current
advance_epoch site reason recovery_id source_site_id now = do
  prev ← current site now
  modify (write_site site (next_authority site prev recovery_id source_site_id now))
  modify (
      log (record {
        site_id = site;
        from_epoch = prev.epoch;
        to_epoch = suc prev.epoch;
        reason = reason;
      }))
  pure (next_authority site prev recovery_id source_site_id now)
