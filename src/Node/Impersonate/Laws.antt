-- ===== src/Node/Impersonate/Laws.antt =====
-- What the calls of crates/core/src/node/impersonate.rs change: which addresses are impersonated.
use anvil_zksync.Base.{
  ℕ, ◌≡◌, refl, true, false, not, List, [], ◌∷◌, contains, if◌then◌else◌, ◌==◌, keep_if, arith,
  Bool-cases, inl, inr,
}
use anvil_zksync.Node.Impersonate.{
  ImpersonationState, is_impersonating, impersonate, stop_impersonating,
}

contains-keep_if :
    (addr b : ℕ) (xs : List ℕ)
    → contains b (keep_if (λ a. not (a == addr)) xs) ≡ (if addr == b then false else contains b xs)
contains-keep_if addr b [] = ground arith
contains-keep_if addr b (x ∷ xs) = ground (arith, contains-keep_if addr b xs)

-- After `impersonate` the address is impersonated, each other address is as before, the automatic
-- mode is unchanged, and the result is true exactly if the address was not listed.
pub impersonate_lem :
    (s : ImpersonationState) (addr b : ℕ)
    → (is_impersonating (impersonate s addr).0 b
        ≡ (if addr == b then true else is_impersonating s b))
      × ((impersonate s addr).0.auto ≡ s.auto)
      × ((impersonate s addr).1 ≡ not (contains addr s.accounts))
unfolding is_impersonating impersonate
impersonate_lem s addr b = elim (Bool-cases (contains addr s.accounts)) [
  | inl e ↦ (ground arith, ground arith, ground arith)
  | inr e ↦ (ground arith, ground arith, ground arith)
]

-- After `stop_impersonating` the address is impersonated only by the automatic mode, each other
-- address is as before, and the result says whether the address was listed.
pub stop_impersonating_lem :
    (s : ImpersonationState) (addr b : ℕ)
    → (is_impersonating (stop_impersonating s addr).0 b
        ≡ (if addr == b then s.auto else is_impersonating s b))
      × ((stop_impersonating s addr).0.auto ≡ s.auto)
      × ((stop_impersonating s addr).1 ≡ contains addr s.accounts)
unfolding is_impersonating stop_impersonating
stop_impersonating_lem s addr b = (ground (arith, contains-keep_if addr b s.accounts), refl, refl)
