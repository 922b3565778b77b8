-- ===== src/Scheduler/Epochs.antt =====
-- About the epochs of a site in the course of time.
use swarmai.Prelude.{
  ℕ, suc, ◌≤◌, ◌<◌, ◌≡◌, refl, ◌⊎◌, inl, inr, true, false, Option, none, some, ◌==◌, ◌!=◌, ==_iff,
  lookup, put, lookup-put, arith, Bool-cases, Option-cases, Result, ok, err,
}
use swarmai.Scheduler.Authority.{
  is_active, SiteAuthority, Sites, StaleEpochError, write_site, fresh_authority, current,
  check_epoch, require_epoch, fence, fenced_row, advance_epoch, next_authority,
}

-- The calls that dispatch, fence and recover; `bootstrap`, which starts a site again, is not one.
pub data Step (s t : Sites) : Type 0 where
  requires : (site epoch now : ℕ) → t ≡ (require_epoch site epoch now s).1 → Step s t
  fences : (site reason now : ℕ) → t ≡ (fence site reason now s).1 → Step s t
  advances :
      (site reason : ℕ) (recovery_id source : Option ℕ) (now : ℕ)
      → t ≡ (advance_epoch site reason recovery_id source now s).1
      → Step s t

pub data Later (s : Sites) : Sites → Type 0 where
  here : Later s s
  next : {t u : Sites} → Later s t → Step t u → Later s u

-- The site is known, and its epoch is this one or a later one.
abbrev AtLeast : ℕ → ℕ → Sites → Type 0
AtLeast n site s = (a : SiteAuthority) × (lookup site s.by_site ≡ some a) × (n ≤ a.epoch)

current-cases :
    (site now : ℕ) (s : Sites)
    → ((a : SiteAuthority) × (lookup site s.by_site ≡ some a) × (current site now s ≡ (ok a, s)))
      ⊎ ((lookup site s.by_site ≡ none)
          × (current site now s
              ≡ (ok (fresh_authority site 1 now), write_site site (fresh_authority site 1 now) s)))
unfolding current
current-cases site now s = elim (Option-cases (lookup site s.by_site)) [
  | inl e ↦ inr (e, rw e refl)
  | inr (a, e) ↦ inl (a, e, rw e refl)
]

AtLeast-write :
    (n k site : ℕ) (a : SiteAuthority) (s : Sites)
    → AtLeast n k s
    → ((old : SiteAuthority) → lookup site s.by_site ≡ some old → old.epoch ≤ a.epoch)
    → AtLeast n k (write_site site a s)
AtLeast-write n k site a s (old, e, h) grows = elim (Bool-cases (site == k)) [
  | inl same ↦
      let there : site ≡ k = (==_iff site k).0 same in
      (
        a,
        ground (arith, same, lookup-put k site a s.by_site),
        omega (arith, h, grows old (rw there e)),
      )
  | inr other ↦ (old, ground (arith, other, e, lookup-put k site a s.by_site), h)
]

-- After a question for a site's row the row is there, and no epoch has gone back.
record Answered (site now : ℕ) (s : Sites) : Type 0 where
  row : SiteAuthority
  after : Sites
  answer : current site now s ≡ (ok row, after)
  present : lookup site after.by_site ≡ some row
  keeps : (n k : ℕ) → AtLeast n k s → AtLeast n k after

current-Answered : (site now : ℕ) (s : Sites) → Answered site now s
current-Answered site now s = elim (current-cases site now s) [
  | inl (a, e, c) ↦ record { row = a; after = s; answer = c; present = e; keeps = λ n k h. h }
  | inr (e, c) ↦ record {
    row = fresh_authority site 1 now;
    after = write_site site (fresh_authority site 1 now) s;
    answer = c;
    present = ground (arith, lookup-put site site (fresh_authority site 1 now) s.by_site);
    keeps = λ n k h. AtLeast-write n k site (fresh_authority site 1 now) s h (λ old o. cc);
  }
]

require_epoch-AtLeast :
    (n k site epoch now : ℕ) (s : Sites)
    → AtLeast n k s
    → AtLeast n k (require_epoch site epoch now s).1
unfolding require_epoch
require_epoch-AtLeast n k site epoch now s h =
    let found = current-Answered site now s in rw found.answer (found.keeps n k h)

fence-AtLeast :
    (n k site reason now : ℕ) (s : Sites) → AtLeast n k s → AtLeast n k (fence site reason now s).1
unfolding fence
fence-AtLeast n k site reason now s h =
    let found = current-Answered site now s in
    rw found.answer (
      AtLeast-write n k site (fenced_row now found.row) found.after (found.keeps n k h)
        (λ old o. ground (arith, o, found.present)))

advance_epoch-AtLeast :
    (n k site reason : ℕ) (recovery_id source : Option ℕ) (now : ℕ) (s : Sites)
    → AtLeast n k s
    → AtLeast n k (advance_epoch site reason recovery_id source now s).1
unfolding advance_epoch
advance_epoch-AtLeast n k site reason recovery_id source now s h =
    let found = current-Answered site now s in
    rw found.answer (
      AtLeast-write n k site (next_authority site found.row recovery_id source now) found.after
        (found.keeps n k h) (λ old o. ground (arith, o, found.present)))

Step-AtLeast : (n k : ℕ) {s t : Sites} → Step s t → AtLeast n k s → AtLeast n k t
Step-AtLeast n k {s = s} (requires site epoch now w) h =
    rw w (require_epoch-AtLeast n k site epoch now s h)
Step-AtLeast n k {s = s} (fences site reason now w) h = rw w (fence-AtLeast n k site reason now s h)
Step-AtLeast n k {s = s} (advances site reason recovery_id source now w) h =
    rw w (advance_epoch-AtLeast n k site reason recovery_id source now s h)

Later-AtLeast : (n k : ℕ) {s t : Sites} → Later s t → AtLeast n k s → AtLeast n k t
Later-AtLeast n k here h = h
Later-AtLeast n k (next l st) h = Step-AtLeast n k st (Later-AtLeast n k l h)

abbrev pub Raises : Result StaleEpochError SiteAuthority → Type 0
Raises r = (why : StaleEpochError) × (r ≡ err why)

check_epoch-Raises :
    (epoch : ℕ) (a : SiteAuthority) → epoch < a.epoch → Raises (check_epoch epoch a)
check_epoch-Raises epoch a h = elim (Bool-cases (is_active a.state)) [
  | inr off ↦ (StaleEpochError.site_not_active a.state, rw off refl)
  | inl on ↦ (
    StaleEpochError.stale_epoch epoch a.epoch,
    let differ : (epoch != a.epoch) ≡ true = ground (arith, h) in rw (on, differ) refl,
  )
]

require_epoch-stale :
    (site epoch now n : ℕ) (s : Sites)
    → AtLeast n site s
    → epoch < n
    → Raises (require_epoch site epoch now s).0
unfolding require_epoch current
require_epoch-stale site epoch now n s (a, e, h) below =
    rw e (check_epoch-Raises epoch a (omega (arith, h, below)))

advance_epoch-raises_epoch :
    (site reason : ℕ) (recovery_id source : Option ℕ) (start : ℕ) (s : Sites) (old : SiteAuthority)
    → lookup site s.by_site ≡ some old
    → AtLeast (suc old.epoch) site (advance_epoch site reason recovery_id source start s).1
unfolding advance_epoch current
advance_epoch-raises_epoch site reason recovery_id source start s old e = rw e (
  next_authority site old recovery_id source start,
  ground (arith, lookup-put site site (next_authority site old recovery_id source start) s.by_site),
  omega arith,
)

require_epoch-advance_epoch :
    (site reason : ℕ) (recovery_id source : Option ℕ) (start now : ℕ) (s : Sites)
    (old : SiteAuthority)
    → lookup site s.by_site ≡ some old
    → (require_epoch site
        (suc old.epoch)
        now
        (advance_epoch site reason recovery_id source start s).1).0
      ≡ ok (next_authority site old recovery_id source start)
unfolding advance_epoch require_epoch current
require_epoch-advance_epoch site reason recovery_id source start now s old e =
    let row = next_authority site old recovery_id source start in
    let same : (suc old.epoch != suc old.epoch) ≡ false = ground arith in
    let there : lookup site (put site row s.by_site) ≡ some row =
      ground (arith, lookup-put site site row s.by_site) in
    rw e (rw there (rw same refl))

-- Once the epoch of a site has been advanced, work of the next epoch is accepted, and work of the
-- epoch before it, or of an older one, is refused from then on, whatever is dispatched, fenced and
-- advanced afterwards, at this site and at others.
pub advance_epoch-retires :
    (site reason : ℕ) (recovery_id source : Option ℕ) (start now epoch : ℕ) (s t : Sites)
    (old : SiteAuthority)
    → lookup site s.by_site ≡ some old
    → Later (advance_epoch site reason recovery_id source start s).1 t
    → epoch ≤ old.epoch
    → ((require_epoch site
          (suc old.epoch)
          now
          (advance_epoch site reason recovery_id source start s).1).0
        ≡ ok (next_authority site old recovery_id source start))
      × Raises (require_epoch site epoch now t).0
advance_epoch-retires site reason recovery_id source start now epoch s t old e later h = (
  require_epoch-advance_epoch site reason recovery_id source start now s old e,
  require_epoch-stale site epoch now (suc old.epoch) t
      (Later-AtLeast (suc old.epoch) site later
        (advance_epoch-raises_epoch site reason recovery_id source start s old e))
      (omega (arith, h)),
)
