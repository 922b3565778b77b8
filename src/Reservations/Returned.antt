-- ===== src/Reservations/Returned.antt =====
-- About capacity that is taken and given back, whatever the arithmetic is: floating point sums need not
-- come back to where they were.
use swarmai.Prelude.{
  ℕ, ◌≡◌, refl, ◌∙◌, ap, inl, inr, true, false, some, List, [], ◌∷◌, ◌==◌, ◌!=◌, is_some,
  if◌then◌else◌, Table, All, lookup, lookup-put, arith, Bool-cases, Option-cases, Result-cases,
  Result, Exec, raise_if, ok, err,
}
use swarmai.Prelude.Act.{continue}
use swarmai.Reservations.Service.{
  Arithmetic, ReservationComponent, ReservationIntent, Reservations, ReservationError, ReserveCall,
  check_available, check_all, take_one, take_all, new_intent, book, reserve, capacity_or_zero,
  give_one, give_all, is_released, released_intent, give_back, release,
}

module _ {U : Type 0} (f : Arithmetic U) where
  -- What is left of a capacity when the units of a resource among the components are taken one after
  -- the other, and what it is when they are given back in the same order.
  unfoldable pub taken : ℕ → List (ReservationComponent U) → U → U
  taken k [] x = x
  taken k (c ∷ cs) x = taken k cs (if c.resource == k then f.sub x c.units else x)

  unfoldable pub given : ℕ → List (ReservationComponent U) → U → U
  given k [] x = x
  given k (c ∷ cs) x = given k cs (if c.resource == k then f.add x c.units else x)

  lookup-take_one :
      (k : ℕ) (c : ReservationComponent U) (t : Table U) (x : U)
      → lookup k t ≡ some x
      → lookup k (take_one f c (lookup c.resource t) t)
        ≡ some (if c.resource == k then f.sub x c.units else x)
  lookup-take_one k c t x e = elim (Bool-cases (c.resource == k)) [
    | inl same ↦
        let there : c.resource ≡ k = ground (arith, same) in
        let found : lookup c.resource t ≡ some x = ap (λ i. lookup i t) there ∙ e in
        rw (found, lookup-put k c.resource (f.sub x c.units) t, same) refl
    | inr other ↦ elim (Option-cases (lookup c.resource t)) [
      | inl absent ↦ rw (absent, other) e
      | inr (y, found) ↦ rw (found, lookup-put k c.resource (f.sub y c.units) t, other) e
    ]
  ]

  lookup-take_all :
      (k : ℕ) (cs : List (ReservationComponent U)) (t : Table U) (x : U)
      → lookup k t ≡ some x
      → lookup k (take_all f cs t) ≡ some (taken k cs x)
  unfolding take_all taken
  lookup-take_all k [] t x e = e
  lookup-take_all k (c ∷ cs) t x e =
      lookup-take_all k cs (take_one f c (lookup c.resource t) t) _ (lookup-take_one k c t x e)

  lookup-give_one :
      (k : ℕ) (c : ReservationComponent U) (t : Table U) (x : U)
      → lookup k t ≡ some x
      → lookup k (give_one f c (lookup c.resource t) t)
        ≡ some (if c.resource == k then f.add x c.units else x)
  lookup-give_one k c t x e = elim (Bool-cases (c.resource == k)) [
    | inl same ↦
        let there : c.resource ≡ k = ground (arith, same) in
        let found : lookup c.resource t ≡ some x = ap (λ i. lookup i t) there ∙ e in
        rw (found, lookup-put k c.resource (f.add x c.units) t, same) refl
    | inr other ↦
        rw
          (
            lookup-put k c.resource (f.add (capacity_or_zero f (lookup c.resource t)) c.units) t,
            other,
          )
          e
  ]

  lookup-give_all :
      (k : ℕ) (cs : List (ReservationComponent U)) (t : Table U) (x : U)
      → lookup k t ≡ some x
      → lookup k (give_all f cs t) ≡ some (given k cs x)
  unfolding give_all given
  lookup-give_all k [] t x e = e
  lookup-give_all k (c ∷ cs) t x e =
      lookup-give_all k cs (give_one f c (lookup c.resource t) t) _ (lookup-give_one k c t x e)

  -- A component that fits by itself: its resource is known, and neither the units nor the floor are
  -- too much for what there is.
  pub record Fits (floor : U) (t : Table U) (c : ReservationComponent U) : Type 0 where
    pub available : U
    pub found : lookup c.resource t ≡ some available
    pub enough : f.is_below available c.units ≡ false
    pub above : f.is_below (f.sub available c.units) floor ≡ false

  Fits-check_all :
      (floor : U) (t : Table U) (cs : List (ReservationComponent U))
      → All (Fits floor t) cs
      → check_all f floor t cs ≡ ok tt
  unfolding check_all
  Fits-check_all floor t [] a = refl
  Fits-check_all floor t (c ∷ cs) a =
      rw (a.0.found, a.0.enough, a.0.above, Fits-check_all floor t cs a.1) refl

  check_available-Fits :
      (floor : U) (t : Table U) (c : ReservationComponent U)
      → check_available f floor c (lookup c.resource t) ≡ ok tt
      → Fits floor t c
  check_available-Fits floor t c h = elim (Option-cases (lookup c.resource t)) [
    | inl absent ↦ let h' = rw absent at h in cc
    | inr (x, found) ↦ elim (Bool-cases (f.is_below x c.units)) [
      | inl short ↦ let h' = rw (found, short) at h in cc
      | inr enough ↦ elim (Bool-cases (f.is_below (f.sub x c.units) floor)) [
        | inl low ↦ let h' = rw (found, enough, low) at h in cc
        | inr above ↦ record { available = x; found = found; enough = enough; above = above }
      ]
    ]
  ]

  check_all-Fits :
      (floor : U) (t : Table U) (cs : List (ReservationComponent U))
      → check_all f floor t cs ≡ ok tt
      → All (Fits floor t) cs
  unfolding check_all
  check_all-Fits floor t [] h = tt
  check_all-Fits floor t (c ∷ cs) h =
      elim (Result-cases (check_available f floor c (lookup c.resource t))) [
        | inl (u, fits) ↦ (
          check_available-Fits floor t c (fits),
          check_all-Fits floor t cs (let h' = rw fits at h in h'),
        )
        | inr (e, short) ↦ let h' = rw short at h in cc
      ]

  release-found :
      (attempt_id : ℕ) (i : ReservationIntent U) (s : Reservations U)
      → lookup attempt_id s.by_attempt ≡ some i
      → is_released i.state ≡ false
      → release f attempt_id s ≡ (ok (released_intent i), give_back f attempt_id i s)
  unfolding release
  release-found attempt_id i s e g = rw (e, g) refl

  release-again :
      (attempt_id : ℕ) (i : ReservationIntent U) (s : Reservations U)
      → lookup attempt_id s.by_attempt ≡ some i
      → is_released i.state ≡ true
      → release f attempt_id s ≡ (ok i, s)
  unfolding release
  release-again attempt_id i s e g = rw (e, g) refl

  -- A reservation that may be granted: it is of the current epoch, nothing is drained, the attempt has
  -- none yet, and each component fits by itself.
  pub record Grantable (call : ReserveCall U) (s : Reservations U) : Type 0 where
    pub epoch : call.site_epoch ≡ s.current_epoch
    pub not_draining : s.draining ≡ false
    pub first : is_some (lookup call.attempt_id s.by_attempt) ≡ false
    pub fits : All (Fits s.backpressure_floor s.capacity) call.components

  -- The capacities after the reservation, and after its release.
  pub record Undone (call : ReserveCall U) (i : ReservationIntent U) (s t : Reservations U)
      : Type 0 where
    pub took :
        (k : ℕ) (x : U)
        → lookup k s.capacity ≡ some x
        → lookup k t.capacity ≡ some (taken k call.components x)
    pub releases : (release f call.attempt_id t).0 ≡ ok (released_intent i)
    pub gave :
        (k : ℕ) (x : U)
        → lookup k s.capacity ≡ some x
        → lookup k (release f call.attempt_id t).1.capacity
          ≡ some (given k call.components (taken k call.components x))
    pub once :
        release f call.attempt_id (release f call.attempt_id t).1
        ≡ (ok (released_intent i), (release f call.attempt_id t).1)

  abbrev pub GrantedOrRefused :
      ReserveCall U
      → Reservations U
      → Result ReservationError (ReservationIntent U) × Reservations U
      → Type 0
  GrantedOrRefused call s (err e, t) = (t ≡ s) × (Grantable call s → ⊥)
  GrantedOrRefused call s (ok i, t) = Grantable call s × Undone call i s t

  book-Undone :
      (intent_id : ℕ) (call : ReserveCall U) (s : Reservations U)
      → Undone call (new_intent intent_id call) s (book f call (new_intent intent_id call) s)
  book-Undone intent_id call s =
      let i = new_intent intent_id call in
      let t = book f call i s in
      let there : lookup call.attempt_id t.by_attempt ≡ some i =
        ground (arith, lookup-put call.attempt_id call.attempt_id i s.by_attempt) in
      let first = release-found call.attempt_id i t there refl in
      let after = give_back f call.attempt_id i t in
      let gone : lookup call.attempt_id after.by_attempt ≡ some (released_intent i) =
        ground
          (arith, lookup-put call.attempt_id call.attempt_id (released_intent i) t.by_attempt) in
      record {
        took = λ k x e. lookup-take_all k call.components s.capacity x e;
        releases = rw first refl;
        gave = λ k x e. rw first (
            lookup-give_all k call.components t.capacity (taken k call.components x)
              (lookup-take_all k call.components s.capacity x e));
        once = rw first (release-again call.attempt_id (released_intent i) after gone refl);
      }

  -- A test that fails ends the call and changes nothing.
  guarded :
      (call : ReserveCall U) (s : Reservations U) (test : Result ReservationError (Unit {0}))
      (rest : Exec (Reservations U) ReservationError (ReservationIntent U))
      → (Grantable call s → test ≡ ok tt)
      → (test ≡ ok tt → GrantedOrRefused call s (rest s))
      → GrantedOrRefused call s (continue test (λ _. rest) s)
  guarded call s (ok _) rest must h = h refl
  guarded call s (err e) rest must h = (refl, λ g. cc (must g))

  -- A reservation is granted exactly when it is of the current epoch, nothing is drained, the attempt
  -- has none yet, and each component fits by itself in the capacity before the call and leaves the
  -- floor; refused, it changes nothing. Granted, it takes from each resource that is known the units
  -- of the components that name it, in their order, and from the others nothing; its release adds the
  -- same units in the same order, and a second release changes nothing.
  pub reserve-Undone :
      (intent_id : ℕ) (call : ReserveCall U) (s : Reservations U)
      → GrantedOrRefused call s (reserve f intent_id call s)
  unfolding reserve
  reserve-Undone intent_id call s =
      guarded call s
        (raise_if (call.site_epoch != s.current_epoch)
          (ReservationError.stale_epoch call.site_epoch))
        _ (λ g. rw g.epoch (ground arith))
        (λ e.
          guarded call s (raise_if s.draining ReservationError.drain_active) _
            (λ g. rw g.not_draining refl)
            (λ d.
              guarded call s
                (raise_if (is_some (lookup call.attempt_id s.by_attempt))
                  (ReservationError.duplicate_attempt call.attempt_id))
                _ (λ g. rw g.first refl)
                (λ a.
                  guarded call s (check_all f s.backpressure_floor s.capacity call.components) _
                    (λ g. Fits-check_all s.backpressure_floor s.capacity call.components g.fits)
                    (λ h. (
                      record {
                        epoch = ground (arith, e);
                        not_draining = ground (arith, d);
                        first = ground (arith, a);
                        fits = check_all-Fits s.backpressure_floor s.capacity call.components h;
                      },
                      book-Undone intent_id call s,
                    )))))
