-- ===== src/Lease/Moves/Continuity.antt =====
-- How a lease that is in the table goes on under the protocol.
use swarmai.Prelude.{
  ℕ, ◌≤◌, ◌≡◌, refl, ◌∙◌, inl, inr, true, false, some, arith, lookup, put, Table, lookup-put, ◌==◌,
  Bool-cases, ==_iff,
}
use swarmai.Lease.Rows.{Lease, is_active}
use swarmai.Lease.Moves.{Move, issue, renew, finish, Moves, still, move, SameBinding}

-- Its binding stays, an end is final, and while it is active its expiry is not moved
-- back, if it has a horizon.
pub record Continues (l m : Lease) : Type 0 where
  pub binding : SameBinding l m
  pub ended : is_active l.state ≡ false → m ≡ l
  pub later :
      is_active m.state ≡ true
      → (upper : ℕ) → l.renewable_until ≡ some upper
      → l.expires_at ≤ m.expires_at

pub Continues-refl : (l : Lease) → Continues l l
Continues-refl l = record {
  binding = ground arith;
  ended = λ _. refl;
  later = λ _ _ _. omega arith;
}

later_trans :
    (l m n : Lease)
    → Continues l m
    → Continues m n
    → is_active n.state ≡ true
    → (upper : ℕ) → l.renewable_until ≡ some upper
    → l.expires_at ≤ n.expires_at
later_trans l m n a b h upper u = elim (Bool-cases (is_active m.state)) [
  | inl busy ↦ omega (arith, a.later busy upper u, b.later h upper (a.binding.horizon ∙ u))
  | inr over ↦ cc (b.ended over)
]

Continues-trans : (l m n : Lease) → Continues l m → Continues m n → Continues l n
Continues-trans l m n a b = record {
  binding = ground arith;
  ended = λ h. let e = a.ended h in b.ended (rw e h) ∙ e;
  later = later_trans l m n a b;
}

-- What a move does to one lease.
abbrev pub Persists : ℕ → Lease → Table Lease → Type 0
Persists id l u = (m : Lease) × (lookup id u ≡ some m) × Continues l m

rewritten :
    (k id : ℕ) (l0 l m : Lease) (t : Table Lease)
    → lookup k t ≡ some l0
    → lookup id t ≡ some l
    → Continues l0 m
    → Persists id l (put k m t)
rewritten k id l0 l m t found e c = elim (Bool-cases (k == id)) [
  | inl here ↦ (
    m,
    lookup-put id k m t ∙ rw here,
    let same_key : k ≡ id = (==_iff k id).0 here in let same_row : l0 ≡ l = cc in rw (← same_row) c,
  )
  | inr away ↦ (l, lookup-put id k m t ∙ rw away e, Continues-refl l)
]

Move-Persists :
    {t u : Table Lease} (id : ℕ) (l : Lease) → Move t u → lookup id t ≡ some l → Persists id l u
Move-Persists {t = t} id l (issue k n fresh free fits w) e =
    (l, ground (arith, lookup-put id k n t), Continues-refl l)
Move-Persists {t = t} id l (renew k l0 m found a s later w) e = rw w (
    rewritten k id l0 l m t found e
      (record { binding = s; ended = λ h. cc; later = λ _ upper h. (later upper h).0 }))
Move-Persists {t = t} id l (finish k l0 m found a over s kept w) e =
    rw w (
      rewritten k id l0 l m t found e
        (record { binding = s; ended = λ h. cc; later = λ h _ _. cc }))

-- Under any moves.
pub Moves-Persists :
    {t u : Table Lease} (id : ℕ) (l : Lease) → Moves t u → lookup id t ≡ some l → Persists id l u
Moves-Persists id l still e = (l, e, Continues-refl l)
Moves-Persists id l (move ms mv) e =
    let (m, em, cm) = Moves-Persists id l ms e in
    let (n, en, cn) = Move-Persists id m mv em in (n, en, Continues-trans l m n cm cn)
