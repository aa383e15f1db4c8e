-- ===== src/Node/Impersonate.antt =====
-- crates/core/src/node/impersonate.rs: the accounts that may be acted for without their keys.
-- The manager is a lock around the state; a call is a function from the state. An address is a
-- number, and the hash set of addresses a list in which an address stands at most once.
pub mod Laws
use anvil_zksync.Base.{
  ℕ, Bool, true, false, not, ◌||◌, List, [], ◌∷◌, contains, if◌then◌else◌, ◌==◌, keep_if,
}

pub record ImpersonationState : Type 0 where
  pub auto : Bool
  pub accounts : List ℕ

unfoldable pub default_state : ImpersonationState
default_state = record { auto = false; accounts = [] }

-- `ImpersonationState::is_impersonating`.
unfoldable pub is_impersonating : ImpersonationState → ℕ → Bool
is_impersonating s addr = s.auto || contains addr s.accounts

unfoldable pub set_auto_impersonation : ImpersonationState → Bool → ImpersonationState
set_auto_impersonation s enabled = record s { auto = enabled }

-- The result says whether the address was new.
unfoldable pub impersonate : ImpersonationState → ℕ → ImpersonationState × Bool
impersonate s addr =
    if contains addr s.accounts
    then (s, false)
    else (record s { accounts = addr ∷ s.accounts }, true)

-- The result says whether the address was there.
unfoldable pub stop_impersonating : ImpersonationState → ℕ → ImpersonationState × Bool
stop_impersonating s addr =
    (record s { accounts = keep_if (λ a. not (a == addr)) s.accounts }, contains addr s.accounts)

unfoldable pub set_state : ImpersonationState → ImpersonationState → ImpersonationState
set_state s new_state = new_state
