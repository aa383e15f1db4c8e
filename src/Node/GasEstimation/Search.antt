-- ===== src/Node/GasEstimation/Search.antt =====
-- The binary search in `estimate_gas_inner` of crates/core/src/node/inner/in_memory_inner.rs.
use anvil_zksync.Base.{
  ℕ, zero, suc, ◌+◌, ◌*◌, ◌/◌, ◌^◌, ◌≤◌, ◌<◌, ◌≡◌, refl, sym, ◌⊎◌, inl, inr, Bool, true, false,
  Option, none, some, ltb, Outcome, panic, done, ◌>>=◌, IfDone, IfDone-imp, arith, Bool-cases,
  subst,
}
use anvil_zksync.Base.Words.{u64_mod}
use anvil_zksync.Node.GasEstimation.{
  StepResult, estimate_gas_acceptable_overestimation, is_failed, narrow, bisect,
}

module _ {A : Type 0} (try : A → ℕ → Outcome (A × StepResult)) (additional : ℕ) where
  -- The body's gas limit was tried, with the given outcome.
  pub record Tried (failed : Bool) (gas_limit : ℕ) : Type 0 where
    pub before : A
    pub after : A × StepResult
    pub ran : try before (additional + gas_limit) ≡ done after
    pub outcome : is_failed after.1.result ≡ failed

  -- The bounds that the search ends with, from the bounds that it started with.
  pub record Found (l u lower_bound upper_bound : ℕ) : Type 0 where
    pub close : upper_bound ≤ lower_bound + estimate_gas_acceptable_overestimation
    pub inside : (l ≤ lower_bound) × (lower_bound ≤ upper_bound) × (upper_bound ≤ u)
    pub upper : (upper_bound ≡ u) ⊎ Tried false upper_bound
    pub lower : (lower_bound ≡ l) ⊎ ((n : ℕ) × (lower_bound ≡ n + 1) × Tried true n)

  abbrev pub FoundOpt : ℕ → ℕ → Option (ℕ × ℕ) → Type 0
  FoundOpt l u none = ⊥
  FoundOpt l u (some bounds) = Found l u bounds.0 bounds.1

  Found-failed :
      (l u mid : ℕ) (o : Option (ℕ × ℕ))
      → l ≤ mid
      → Tried true mid
      → FoundOpt (mid + 1) u o
      → FoundOpt l u o
  Found-failed l u mid none h tried f = f
  Found-failed l u mid (some bounds) h tried f = record {
    close = f.close;
    inside = (omega (arith, h, f.inside.0), f.inside.1, f.inside.2);
    upper = f.upper;
    lower = elim f.lower [ inl e ↦ inr (mid, e, tried) | inr e ↦ inr e ];
  }

  Found-succeeded :
      (l u mid : ℕ) (o : Option (ℕ × ℕ))
      → mid ≤ u
      → Tried false mid
      → FoundOpt l mid o
      → FoundOpt l u o
  Found-succeeded l u mid none h tried f = f
  Found-succeeded l u mid (some bounds) h tried f = record {
    close = f.close;
    inside = (f.inside.0, f.inside.1, omega (arith, h, f.inside.2));
    upper = elim f.upper [ inl e ↦ inr (subst (Tried false) (sym e) tried) | inr e ↦ inr e ];
    lower = f.lower;
  }

  start-Found : (l u : ℕ) → l ≤ u → u ≤ l + estimate_gas_acceptable_overestimation → Found l u l u
  start-Found l u h b = record {
    close = b;
    inside = (omega arith, h, omega arith);
    upper = inl refl;
    lower = inl refl;
  }

  -- What is known of the search on one attempt fewer.
  abbrev Shorter : ℕ → Type 0
  Shorter fuel =
      (storage : A) (l u : ℕ)
      → l ≤ u
      → u ≤ l + estimate_gas_acceptable_overestimation * 2 ^ fuel
      → IfDone (λ r. FoundOpt l u r.1) (bisect try additional fuel storage l u)

  after_attempt :
      (fuel l u mid : ℕ) (storage : A) (attempt : A × StepResult) (failed : Bool)
      → Shorter fuel
      → l + estimate_gas_acceptable_overestimation < u
      → mid ≡ (l + u) / 2
      → u ≤ l + estimate_gas_acceptable_overestimation * 2 ^ suc fuel
      → try storage (additional + mid) ≡ done attempt
      → is_failed attempt.1.result ≡ failed
      → let bounds = narrow failed l mid u in
        IfDone (λ r. FoundOpt l u r.1) (bisect try additional fuel attempt.0 bounds.0 bounds.1)
  after_attempt fuel l u mid storage attempt true ih h m b e f =
      IfDone-imp
        (λ r.
          Found-failed l u mid r.1 (omega (arith, h, m))
            (record { before = storage; after = attempt; ran = e; outcome = f }))
        (bisect try additional fuel attempt.0 (mid + 1) u)
        (ih attempt.0 (mid + 1) u (omega (arith, h, m)) (omega (arith, b, m)))
  after_attempt fuel l u mid storage attempt false ih h m b e f =
      IfDone-imp
        (λ r.
          Found-succeeded l u mid r.1 (omega (arith, h, m))
            (record { before = storage; after = attempt; ran = e; outcome = f }))
        (bisect try additional fuel attempt.0 l mid)
        (ih attempt.0 l mid (omega (arith, h, m)) (omega (arith, b, m)))

  attempt_of :
      (fuel l u mid : ℕ) (storage : A) (o : Outcome (A × StepResult))
      → Shorter fuel
      → l + estimate_gas_acceptable_overestimation < u
      → mid ≡ (l + u) / 2
      → u ≤ l + estimate_gas_acceptable_overestimation * 2 ^ suc fuel
      → try storage (additional + mid) ≡ o
      → IfDone
          (λ r. FoundOpt l u r.1)
          (o >>= λ attempt.
            let bounds = narrow (is_failed attempt.1.result) l mid u in
            bisect try additional fuel attempt.0 bounds.0 bounds.1)
  attempt_of fuel l u mid storage panic ih h m b e = tt
  attempt_of fuel l u mid storage (done attempt) ih h m b e =
      after_attempt fuel l u mid storage attempt (is_failed attempt.1.result) ih h m b e refl

  -- With attempts for every halving of the first gap down to the accepted overestimation, and unless
  -- an attempt or a sum panics, the search ends with bounds inside the first ones and within the
  -- accepted overestimation of each other. The upper one is the first upper bound or a gas limit
  -- that was tried and succeeded, the lower one the first lower bound or the successor of a gas limit
  -- that was tried and failed. No law of the attempts is assumed.
  pub bisect-Found :
      (fuel : ℕ) (storage : A) (l u : ℕ)
      → l ≤ u
      → u ≤ l + estimate_gas_acceptable_overestimation * 2 ^ fuel
      → IfDone (λ r. FoundOpt l u r.1) (bisect try additional fuel storage l u)
  unfolding bisect
  bisect-Found zero storage l u h b =
      elim (Bool-cases (ltb (l + estimate_gas_acceptable_overestimation) u)) [
        | inl e ↦ absurd (ground (arith, b, e))
        | inr e ↦ rw e (start-Found l u h (ground (arith, b)))
      ]
  bisect-Found (suc fuel) storage l u h b =
      let mid = (l + u) / 2 in
      elim (Bool-cases (ltb (l + estimate_gas_acceptable_overestimation) u)) [
        | inl e ↦ elim (Bool-cases (ltb (additional + mid) u64_mod)) [
          | inl f ↦
              rw (e, f)
                (attempt_of fuel l u mid storage (try storage (additional + mid))
                  (λ s l' u'. bisect-Found fuel s l' u') (ground (arith, e)) refl b refl)
          | inr f ↦ rw (e, f) tt
        ]
        | inr e ↦ rw e (start-Found l u h (ground (arith, e)))
      ]
