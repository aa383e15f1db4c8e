-- ===== src/Filters/Ids.antt =====
-- The identifiers that crates/core/src/filters.rs hands out.
use anvil_zksync.Base.{
  ℕ, ◌+◌, ◌<◌, ◌≡◌, refl, true, List, [], Option, none, some, if◌then◌else◌, ◌==◌, lookup, nat_key,
  lookup-insert, lookup-remove, arith, ◌≢◌, ◌↔◌,
}
use anvil_zksync.Base.Words.{u256_mod, checked_add_256}
use anvil_zksync.Utils.{BlockNumber}
use anvil_zksync.Filters.{
  EthFilters, FilterType, block, log, pending_transaction, new_log_filter, Result, ok, err,
  overflow, add_with, found, add_block_filter, add_log_filter, add_pending_transaction_filter,
  get_filter, remove_filter,
}

module _ {L : Type 0} where
  -- Every installed filter has an identifier of at most the counter, which is a U256.
  pub record IsValid (fs : EthFilters L) : Type 0 where
    pub counted : (id : ℕ) → fs.id_counter < id → get_filter fs id ≡ none
    pub in_range : fs.id_counter < u256_mod

  -- What installing `f` must do: a new identifier, under which the filter is found, and nothing
  -- else changed; or, at the last U256, an error and the same state.
  abbrev pub Installs : EthFilters L → FilterType L → EthFilters L × Result ℕ → Type 0
  Installs fs f (fs', r) =
      (fs.id_counter + 1 < u256_mod
        → (r ≡ ok (fs.id_counter + 1))
          × (get_filter fs (fs.id_counter + 1) ≡ none)
          × ((id : ℕ)
              → get_filter fs' id ≡ (if fs.id_counter + 1 == id then some f else get_filter fs id))
          × IsValid fs')
      × (fs.id_counter + 1 ≡ u256_mod → (r ≡ err overflow) × (fs' ≡ fs))

  add_with-Installs :
      (fs : EthFilters L) (f : FilterType L)
      → IsValid fs
      → Installs fs f (add_with fs f (checked_add_256 fs.id_counter 1))
  unfolding get_filter
  add_with-Installs fs f v = (
    λ h. rw (fits h) (
      refl,
      v.counted (fs.id_counter + 1) (omega arith),
      λ id. lookup-insert (fs.id_counter + 1) id f fs.filters,
      record {
        counted =
            λ id g. ground (arith, lookup-insert (fs.id_counter + 1) id f fs.filters, v.counted id);
        in_range = h;
      },
    ),
    λ h. rw (full h) (refl, refl),
  )
    where
      fits :
          fs.id_counter + 1 < u256_mod → checked_add_256 fs.id_counter 1 ≡ some (fs.id_counter + 1)
      fits h = ground arith

      full : fs.id_counter + 1 ≡ u256_mod → checked_add_256 fs.id_counter 1 ≡ none
      full h = ground arith

  -- Each of the three `add_` functions gives its filter a new identifier, with no updates, and
  -- leaves every other filter as it was; when the counter is the last U256, it fails with an
  -- overflow and changes nothing.
  pub add-Installs :
      (fs : EthFilters L) (from_block to_block : BlockNumber) (addresses : List ℕ)
      (topics : List (Option (List ℕ)))
      → IsValid fs
      → Installs fs (block []) (add_block_filter fs)
        × Installs fs (pending_transaction []) (add_pending_transaction_filter fs)
        × Installs fs
            (log (new_log_filter from_block to_block addresses topics))
            (add_log_filter fs from_block to_block addresses topics)
  add-Installs fs from_block to_block addresses topics v = (
    unfold add_block_filter in add_with-Installs fs (block []) v,
    unfold add_pending_transaction_filter in add_with-Installs fs (pending_transaction []) v,
    unfold add_log_filter in
        add_with-Installs fs (log (new_log_filter from_block to_block addresses topics)) v,
  )

  found_iff : (o : Option (FilterType L)) → (found o ≡ true) ↔ (o ≢ none)
  found_iff none = (λ h. ground arith, λ h. absurd (h refl))
  found_iff (some f) = (λ h. ground arith, λ h. refl)

  -- Removing a filter says whether it was there; afterwards it is not, every other filter is as it
  -- was, and the identifiers stay valid, so that none is handed out twice.
  pub remove_filter_lem :
      (fs : EthFilters L) (id : ℕ)
      → IsValid fs
      → (((remove_filter fs id).1 ≡ true) ↔ (get_filter fs id ≢ none))
        × ((j : ℕ)
            → get_filter (remove_filter fs id).0 j ≡ (if id == j then none else get_filter fs j))
        × IsValid (remove_filter fs id).0
  unfolding remove_filter get_filter
  remove_filter_lem fs id v = (
    found_iff (lookup id fs.filters),
    λ j. lookup-remove id j fs.filters,
    record {
      counted = λ j h. ground (arith, lookup-remove id j fs.filters, v.counted j h);
      in_range = v.in_range;
    },
  )
