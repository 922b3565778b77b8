-- ===== src/Effects/Frames.antt =====
-- How the effects of `InMemoryEffectStore` go on under its operations.
use swarmai.Prelude.{
  ℕ, ◌≤◌, ◌≡◌, refl, ◌∙◌, inl, inr, true, ◌&&◌, none, some, ◌==◌, arith, Option-cases, Bool-cases,
}
use swarmai.Effects.Rows.{
  Store, Effects, Effect, EffectState, Envelope, Receipt, find_effect, put_effect,
  find_effect-put_effect, same_binding,
}
use swarmai.Effects.Store.{
  reserve, new_effect, attach_pre_observation, store_receipt, Outcome, is_finalizable, finished,
  finalize_with_receipt,
}

pub record Progress (row later : Effect) : Type 0 where
  pub same_id : later.effect_id ≡ row.effect_id
  pub same_effect : later.binding ≡ row.binding
  pub attempts : row.attempt_count ≤ later.attempt_count
  pub closed :
      row.state ≡ EffectState.succeeded
      → (later.state ≡ EffectState.succeeded) × (later.attempt_count ≡ row.attempt_count)
  pub paid : (t : ℕ) → row.approval_consumed_at ≡ some t → later.approval_consumed_at ≡ some t

pub Progress-refl : (row : Effect) → Progress row row
Progress-refl row = record {
  same_id = refl;
  same_effect = refl;
  attempts = omega arith;
  closed = λ h. (h, refl);
  paid = λ t h. h;
}

pub Progress-trans : (a b c : Effect) → Progress a b → Progress b c → Progress a c
Progress-trans a b c x y = record {
  same_id = y.same_id ∙ x.same_id;
  same_effect = y.same_effect ∙ x.same_effect;
  attempts = omega (arith, x.attempts, y.attempts);
  closed = λ h. let p = x.closed h in let q = y.closed p.0 in (q.0, q.1 ∙ p.1);
  paid = λ t h. y.paid t (x.paid t h);
}

pub record Evolves (t u : Effects) : Type 0 where
  pub goes_on :
      (p k : ℕ) (row : Effect)
      → find_effect p k t ≡ some row
      → (later : Effect) × (find_effect p k u ≡ some later) × Progress row later

pub Evolves-refl : (t : Effects) → Evolves t t
Evolves-refl t = record { goes_on = λ p k row e. (row, e, Progress-refl row) }

pub Evolves-trans : (t u v : Effects) → Evolves t u → Evolves u v → Evolves t v
Evolves-trans t u v x y = record {
  goes_on = λ p k row e.
      let (b, eb, pb) = x.goes_on p k row e in
      let (c, ec, pc) = y.goes_on p k b eb in (c, ec, Progress-trans row b c pb pc);
}

same_place : (p q k j : ℕ) → (p == q && k == j) ≡ true → (p ≡ q) × (k ≡ j)
same_place p q k j h = ground arith

one_row :
    (p q k j : ℕ) (t : Effects) (row old : Effect)
    → (p ≡ q) × (k ≡ j)
    → find_effect p k t ≡ some row
    → find_effect q j t ≡ some old
    → old ≡ row
one_row p q k j t row old (a, b) found e = cc

no_row :
    (p q k j : ℕ) (t : Effects) (old : Effect)
    → (p ≡ q) × (k ≡ j)
    → find_effect p k t ≡ none
    → ¬ (find_effect q j t ≡ some old)
no_row p q k j t old (a, b) missing e = cc

-- A row is written over, or a new one is added.
pub Evolves-write :
    (p k : ℕ) (row later : Effect) (t : Effects)
    → find_effect p k t ≡ some row
    → Progress row later
    → Evolves t (put_effect p k later t)
Evolves-write p k row later t found x = record {
  goes_on = λ q j old e. elim (Bool-cases (p == q && k == j)) [
    | inl same ↦ (
      later,
      find_effect-put_effect q j p k later t ∙ rw same,
      let one : old ≡ row = one_row p q k j t row old (same_place p q k j same) found e in rw one x,
    )
    | inr away ↦ (old, find_effect-put_effect q j p k later t ∙ rw away e, Progress-refl old)
  ];
}

Evolves-add :
    (p k : ℕ) (new : Effect) (t : Effects)
    → find_effect p k t ≡ none
    → Evolves t (put_effect p k new t)
Evolves-add p k new t missing = record {
  goes_on = λ q j old e. elim (Bool-cases (p == q && k == j)) [
    | inl same ↦ absurd (no_row p q k j t old (same_place p q k j same) missing e)
    | inr away ↦ (old, find_effect-put_effect q j p k new t ∙ rw away e, Progress-refl old)
  ];
}

-- The operations, one by one.
pub reserve-Evolves :
    (id now : ℕ) (e : Envelope) (s : Store) → Evolves s.effects (reserve id now e s).1.effects
unfolding reserve
reserve-Evolves id now e s = elim (Option-cases (find_effect e.project_id e.effect_key s.effects)) [
  | inl missing ↦
      rw (missing, reserve)
        (Evolves-add e.project_id e.effect_key (new_effect id now e) s.effects missing)
  | inr (row, found) ↦
      rw (found, reserve)
        (elim (Bool-cases (same_binding row.binding e.binding)) [
          | inl same ↦ rw same (Evolves-refl s.effects)
          | inr other ↦ rw other (Evolves-refl s.effects)
        ])
]

pub attach-Evolves :
    (p k o : ℕ) (s : Store) → Evolves s.effects (attach_pre_observation p k o s).1.effects
unfolding attach_pre_observation
attach-Evolves p k o s = elim (Option-cases (find_effect p k s.effects)) [
  | inl missing ↦ rw (missing, attach_pre_observation) (Evolves-refl s.effects)
  | inr (row, found) ↦
      rw (found, attach_pre_observation)
        (Evolves-write p k row _ s.effects found (record {
          same_id = refl;
          same_effect = refl;
          attempts = omega arith;
          closed = λ h. (h, refl);
          paid = λ t h. h;
        }))
]

pub effects-store_receipt :
    (id : ℕ) (r : Receipt) (s : Store) → (store_receipt id r s).1.effects ≡ s.effects
unfolding store_receipt
effects-store_receipt id r s = ground arith

finished-Progress :
    (o : Outcome) (now : ℕ) (row : Effect)
    → is_finalizable row.state ≡ true
    → Progress row (finished o now row)
unfolding finished
finished-Progress o now row h = record {
  same_id = refl;
  same_effect = refl;
  attempts = omega arith;
  closed = λ e. ground (arith, h, e);
  paid = λ t e. e;
}

pub finalize-Evolves :
    (p k : ℕ) (o : Outcome) (id : ℕ) (r : Receipt) (now : ℕ) (s : Store)
    → Evolves s.effects (finalize_with_receipt p k o id r now s).1.effects
unfolding finalize_with_receipt
finalize-Evolves p k o id r now s = elim (Option-cases (find_effect p k s.effects)) [
  | inl missing ↦ rw (missing, finalize_with_receipt) (Evolves-refl s.effects)
  | inr (row, found) ↦
      rw (found, finalize_with_receipt)
        (elim (Bool-cases (is_finalizable row.state)) [
          | inr other ↦ rw other (Evolves-refl s.effects)
          | inl busy ↦ rw busy (
              rw
                (effects-store_receipt id r
                  (record s { effects = put_effect p k (finished o now row) s.effects }))
                (Evolves-write p k row (finished o now row) s.effects found
                  (finished-Progress o now row busy)))
        ])
]
