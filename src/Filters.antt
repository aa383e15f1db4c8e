-- ===== src/Filters.antt =====
-- crates/core/src/filters.rs: the filters that a client installs, and their pending updates.
-- `Log` is a type of another crate: the model takes it as a parameter with the fields that the
-- filters read. `none` of `matches` and `notify_new_log` is the panic on a log with no block number.
pub mod Matches
pub mod Ids
pub mod Updates
pub mod Tests
use anvil_zksync.Base.{
  ℕ, ◌+◌, ◌^◌, Bool, true, false, not, ◌&&◌, ◌||◌, List, [], ◌∷◌, ◌++◌, Option, none, some,
  if◌then◌else◌, ltb, ◌==◌, all, is_empty, contains, lookup, insert, remove, nat_key, take,
}
use anvil_zksync.Base.Words.{checked_add_256}
use anvil_zksync.Utils.{BlockNumber, to_real_block_number}

-- What the filters read of a `zksync_types::api::Log`.
pub record Log (L : Type 0) : Type 0 where
  pub block_number : L → Option ℕ
  pub address : L → ℕ
  pub topics : L → List ℕ

-- `topics` stands for the array of four optional sets.
pub record LogFilter (L : Type 0) : Type 0 where
  pub from_block : BlockNumber
  pub to_block : BlockNumber
  pub addresses : List ℕ
  pub topics : List (Option (List ℕ))
  pub updates : List L

pub data FilterType (L : Type 0) : Type 0 where
  block : List ℕ → FilterType L
  log : LogFilter L → FilterType L
  pending_transaction : List ℕ → FilterType L

pub data Error : Type 0 where
  overflow invalid_filter : Error

pub data Result (A : Type 0) : Type 0 where
  ok : A → Result A
  err : Error → Result A

-- `FilterChanges` of the zksync_web3_decl crate.
pub data FilterChanges (L : Type 0) : Type 0 where
  empty : FilterChanges L
  hashes : List ℕ → FilterChanges L
  logs : List L → FilterChanges L

pub record EthFilters (L : Type 0) : Type 0 where
  pub id_counter : ℕ
  pub filters : List (ℕ × FilterType L)

abbrev found : {A : Type 0} → Option A → Bool
found none = false
found (some a) = true

-- One topic of the log against the set that stands at its place.
unfoldable pub topic_matches : Option (List ℕ) → ℕ → Bool
topic_matches none topic = true
topic_matches (some topic_set) topic =
    not (not (is_empty topic_set) && not (contains topic topic_set))

-- `matched_topic` at the end of the loop: a place that the log does not reach keeps its `true`.
unfoldable pub matched_topics : List (Option (List ℕ)) → List ℕ → List Bool
matched_topics [] ts = []
matched_topics (s ∷ ss) [] = true ∷ matched_topics ss []
matched_topics (s ∷ ss) (t ∷ ts) = topic_matches s t ∷ matched_topics ss ts

module _ {L : Type 0} where
  unfoldable pub new_log_filter :
      BlockNumber → BlockNumber → List ℕ → List (Option (List ℕ)) → LogFilter L
  new_log_filter from_block to_block addresses topics = record {
    from_block = from_block;
    to_block = to_block;
    addresses = addresses;
    topics = topics;
    updates = [];
  }

  unfoldable pub default_filters : EthFilters L
  default_filters = record { id_counter = 0; filters = [] }

  -- The common steps of the three `add_` functions: the counter and the new entry.
  abbrev add_with : EthFilters L → FilterType L → Option ℕ → EthFilters L × Result ℕ
  add_with fs f none = (fs, err overflow)
  add_with fs f (some id) = (record { id_counter = id; filters = insert id f fs.filters }, ok id)

  unfoldable pub add_block_filter : EthFilters L → EthFilters L × Result ℕ
  add_block_filter fs = add_with fs (block []) (checked_add_256 fs.id_counter 1)

  unfoldable pub add_log_filter :
      EthFilters L
      → BlockNumber
      → BlockNumber
      → List ℕ
      → List (Option (List ℕ))
      → EthFilters L × Result ℕ
  unfolding new_log_filter
  add_log_filter fs from_block to_block addresses topics =
      add_with fs (log (new_log_filter from_block to_block addresses topics))
        (checked_add_256 fs.id_counter 1)

  unfoldable pub add_pending_transaction_filter : EthFilters L → EthFilters L × Result ℕ
  add_pending_transaction_filter fs =
      add_with fs (pending_transaction []) (checked_add_256 fs.id_counter 1)

  unfoldable pub get_filter : EthFilters L → ℕ → Option (FilterType L)
  get_filter fs id = lookup id fs.filters

  unfoldable pub remove_filter : EthFilters L → ℕ → EthFilters L × Bool
  remove_filter fs id = (record fs { filters = remove id fs.filters }, found (lookup id fs.filters))

  -- What a filter reports, and the filter with its updates cleared.
  unfoldable pub changes_of : FilterType L → FilterChanges L × FilterType L
  changes_of (block updates) = (if is_empty updates then empty else hashes updates, block [])
  changes_of (log f) =
      (if is_empty f.updates then empty else logs f.updates, log (record f { updates = [] }))
  changes_of (pending_transaction updates) =
      (if is_empty updates then empty else hashes updates, pending_transaction [])

  unfoldable pub get_with :
      EthFilters L → ℕ → Option (FilterType L) → EthFilters L × Result (FilterChanges L)
  unfolding changes_of
  get_with fs id none = (fs, err invalid_filter)
  get_with fs id (some f) =
      let (changes, f') = changes_of f in
      (record fs { filters = insert id f' fs.filters }, ok changes)

  unfoldable pub get_new_changes : EthFilters L → ℕ → EthFilters L × Result (FilterChanges L)
  unfolding get_with
  get_new_changes fs id = get_with fs id (lookup id fs.filters)

  -- `for_each` over the filters.
  abbrev update_each :
      (FilterType L → FilterType L) → List (ℕ × FilterType L) → List (ℕ × FilterType L)
  update_each g [] = []
  update_each g ((id, f) ∷ fs) = (id, g f) ∷ update_each g fs

  unfoldable pub push_block : ℕ → FilterType L → FilterType L
  push_block hash (block updates) = block (updates ++ hash ∷ [])
  push_block hash (log f) = log f
  push_block hash (pending_transaction updates) = pending_transaction updates

  unfoldable pub push_pending : ℕ → FilterType L → FilterType L
  push_pending hash (block updates) = block updates
  push_pending hash (log f) = log f
  push_pending hash (pending_transaction updates) = pending_transaction (updates ++ hash ∷ [])

  unfoldable pub notify_new_block : EthFilters L → ℕ → EthFilters L
  notify_new_block fs hash = record fs { filters = update_each (push_block hash) fs.filters }

  unfoldable pub notify_new_pending_transaction : EthFilters L → ℕ → EthFilters L
  notify_new_pending_transaction fs hash = record fs {
    filters = update_each (push_pending hash) fs.filters;
  }

module _ {L : Type 0} ⦃l : Log L⦄ where
  unfoldable pub matches_at : LogFilter L → L → ℕ → ℕ → Bool
  matches_at f entry latest_block_number n =
      let from = to_real_block_number f.from_block latest_block_number in
      let to = to_real_block_number f.to_block latest_block_number in
      if ltb n from || ltb to n
      then false
      else if not (is_empty f.addresses) && all (λ a. not (a == l.address entry)) f.addresses
      then false
      else all (λ m. m) (matched_topics f.topics (take 4 (l.topics entry)))

  unfoldable pub matches : LogFilter L → L → ℕ → Option Bool
  matches f entry latest_block_number = elim (l.block_number entry) [
    | none ↦ none
    | some n ↦ some (matches_at f entry latest_block_number n)
  ]

  abbrev push_if : LogFilter L → L → Option Bool → Option (FilterType L)
  push_if f entry none = none
  push_if f entry (some true) = some (log (record f { updates = f.updates ++ entry ∷ [] }))
  push_if f entry (some false) = some (log f)

  unfoldable pub push_log : L → ℕ → FilterType L → Option (FilterType L)
  push_log entry latest_block_number (block updates) = some (block updates)
  push_log entry latest_block_number (log f) = push_if f entry (matches f entry latest_block_number)
  push_log entry latest_block_number (pending_transaction updates) =
      some (pending_transaction updates)

  abbrev cons_if :
      ℕ
      → Option (FilterType L)
      → Option (List (ℕ × FilterType L))
      → Option (List (ℕ × FilterType L))
  cons_if id none fs = none
  cons_if id (some f) none = none
  cons_if id (some f) (some fs) = some ((id, f) ∷ fs)

  unfoldable pub push_log_each : L → ℕ → List (ℕ × FilterType L) → Option (List (ℕ × FilterType L))
  push_log_each entry latest_block_number [] = some []
  push_log_each entry latest_block_number ((id, f) ∷ fs) =
      cons_if id (push_log entry latest_block_number f) (push_log_each entry latest_block_number fs)

  unfoldable pub notify_new_log : EthFilters L → L → ℕ → Option (EthFilters L)
  notify_new_log fs entry latest_block_number =
      elim (push_log_each entry latest_block_number fs.filters) [
        | none ↦ none
        | some filters ↦ some (record fs { filters = filters })
      ]
