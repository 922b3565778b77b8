-- ===== src/Quota/System.antt =====
-- The ledger as a transition system: its calls in any order.
use swarmai.Prelude.{
  ℕ, ◌≤◌, ◌≡◌, inl, inr, Option, none, List, [], ◌∷◌, lookup, put, lookup-put, arith, Option-cases,
  true, contains, ok, err,
}
use swarmai.Quota.Buckets.{
  Buckets, Bucket, Amount, Config, register, maybe_reset, effective_remaining, duplicate_settlement,
}
use swarmai.Quota.Reserve.{ReserveCall, reserve, release}
use swarmai.Quota.Settled.{settle-seen, settle-remembers, settle-keeps}
use swarmai.Quota.Settle.{Ledger, Usage, settle, bottleneck, bottleneck_from, weigh, Tightness}
use swarmai.Quota.Covered.{
  Covered, budget, reserve-Covered, release-Covered, settle-Covered, maybe_reset-Covered,
}

pub data Step (c : Config) (d e : Ledger) : Type 0 where
  registers :
      (id : ℕ) (b : Bucket) → e ≡ record d { buckets = register id b d.buckets } → Step c d e
  reserves :
      (call : ReserveCall) (amounts : List Amount)
      → e ≡ record d { buckets = (reserve c call amounts d.buckets).1 }
      → Step c d e
  releases :
      (amounts : List Amount)
      → e ≡ record d { buckets = (release amounts d.buckets).1 }
      → Step c d e
  settles :
      (usage : Usage) (clock key : ℕ) (amounts : List Amount)
      → e ≡ (settle usage clock key amounts d).1
      → Step c d e
  asks :
      (now : ℕ) (amounts : List Amount)
      → e ≡ record d { buckets = (bottleneck now amounts d.buckets).1 }
      → Step c d e

pub data Reach (c : Config) (d : Ledger) : Ledger → Type 0 where
  here : Reach c d d
  next : {e f : Ledger} → Reach c d e → Step c e f → Reach c d f

put-Covered :
    (k : ℕ) (b : Bucket) (t : Buckets) → b.reserved ≤ budget b → Covered t → Covered (put k b t)
put-Covered k b t h x = record {
  within = λ j p e. ground (arith, e, lookup-put j k b t, x.within j p, h);
}

bottleneck_from-Covered :
    (now : ℕ) (so_far : Option Tightness) (xs : List Amount) (t : Buckets)
    → Covered t
    → Covered (bottleneck_from now so_far xs t).1
unfolding bottleneck_from
bottleneck_from-Covered now so_far [] t x = x
bottleneck_from-Covered now so_far (a ∷ xs) t x = elim (Option-cases (lookup a.bucket_id t)) [
  | inl e ↦ rw (e, bottleneck_from) x
  | inr (b, e) ↦
      let current = maybe_reset now b in
      let y =
        put-Covered a.bucket_id current t (maybe_reset-Covered now b (x.within a.bucket_id b e))
          x in
      rw (e, bottleneck_from)
        (elim (Option-cases (effective_remaining current)) [
          | inl u ↦ rw (u, bottleneck_from) y
          | inr (n, u) ↦
              rw (u, bottleneck_from)
                (bottleneck_from-Covered now (weigh a n so_far) xs (put a.bucket_id current t) y)
        ])
]

Step-Covered : {c : Config} {d e : Ledger} → Step c d e → Covered d.buckets → Covered e.buckets
Step-Covered {d = d} (registers id b w) x =
    rw w (put-Covered id (record b { reserved = 0; settled = 0 }) d.buckets (omega arith) x)
Step-Covered {c = c} {d = d} (reserves call amounts w) x =
    rw w (reserve-Covered c call amounts d.buckets x)
Step-Covered {d = d} (releases amounts w) x = rw w (release-Covered amounts d.buckets x)
Step-Covered {d = d} (settles usage clock key amounts w) x =
    rw w (settle-Covered usage clock key amounts d x)
Step-Covered {d = d} (asks now amounts w) x =
    rw w (unfold bottleneck in bottleneck_from-Covered now none amounts d.buckets x)

-- If no bucket has more held of it than remains of it, then neither has any after registrations,
-- reservations, releases, settlements and questions for the bottleneck in any order; of a bucket
-- whose quota is not known nothing is held.
pub Reach-Covered :
    {c : Config} {d e : Ledger} → Reach c d e → Covered d.buckets → Covered e.buckets
Reach-Covered here x = x
Reach-Covered (next r st) x = Step-Covered st (Reach-Covered r x)

Step-remembers :
    (c : Config) (j : ℕ) {d e : Ledger}
    → Step c d e
    → contains j d.settled_keys ≡ true
    → contains j e.settled_keys ≡ true
Step-remembers c j (registers id b w) h = rw w h
Step-remembers c j (reserves call amounts w) h = rw w h
Step-remembers c j (releases amounts w) h = rw w h
Step-remembers c j {d = d} (settles usage clock key amounts w) h =
    rw w (settle-keeps j usage clock key amounts d h)
Step-remembers c j (asks now amounts w) h = rw w h

Reach-remembers :
    (c : Config) (j : ℕ) {d e : Ledger}
    → Reach c d e
    → contains j d.settled_keys ≡ true
    → contains j e.settled_keys ≡ true
Reach-remembers c j here h = h
Reach-remembers c j (next r st) h = Step-remembers c j st (Reach-remembers c j r h)

-- A key settles once: after a settlement that succeeded, and after any further calls in any order,
-- every settlement under its key raises and changes nothing, whatever its amounts and usage are.
pub settle_once :
    (c : Config) (usage again : Usage) (clock later key : ℕ) (amounts others : List Amount)
    (s : Ledger) {after e : Ledger} {u : Unit {0}}
    → settle usage clock key amounts s ≡ (ok u, after)
    → Reach c after e
    → settle again later key others e ≡ (err (duplicate_settlement key), e)
settle_once c usage again clock later key amounts others s {e = e} h r =
    settle-seen again later key others e
      (Reach-remembers c key r (settle-remembers usage clock key amounts s h))
