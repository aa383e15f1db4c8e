-- ===== src/Filters/Updates.antt =====
-- What a filter of crates/core/src/filters.rs has heard between two polls.
use anvil_zksync.Base.{
  ℕ, ◌≡◌, refl, sym, ◌∙◌, ap, Bool, true, false, List, [], ◌∷◌, ◌++◌, Option, none, some,
  if◌then◌else◌, ◌==◌, lookup, nat_key, lookup-insert, arith, is_empty, append_assoc, append-nil,
  inl, inr, ◌≢◌, Option-cases,
}
use anvil_zksync.Filters.{
  Log, EthFilters, FilterType, block, log, pending_transaction, LogFilter, ok, err, invalid_filter,
  FilterChanges, empty, hashes, logs, get_filter, get_with, get_new_changes, changes_of,
  notify_new_block, notify_new_pending_transaction, notify_new_log, update_each, push_block,
  push_pending, push_log, push_log_each, matches, matches_at,
}

-- What the node tells its filters.
pub data Event (L : Type 0) : Type 0 where
  new_block : ℕ → Event L
  new_pending : ℕ → Event L
  new_log : (entry : L) (latest_block_number : ℕ) → Event L

module _ {L : Type 0} where
  abbrev pub block_hashes : List (Event L) → List ℕ
  block_hashes [] = []
  block_hashes (new_block hash ∷ es) = hash ∷ block_hashes es
  block_hashes (new_pending hash ∷ es) = block_hashes es
  block_hashes (new_log entry n ∷ es) = block_hashes es

  abbrev pub pending_hashes : List (Event L) → List ℕ
  pending_hashes [] = []
  pending_hashes (new_block hash ∷ es) = pending_hashes es
  pending_hashes (new_pending hash ∷ es) = hash ∷ pending_hashes es
  pending_hashes (new_log entry n ∷ es) = pending_hashes es

module _ {L : Type 0} ⦃l : Log L⦄ where
  -- A run of notifications; `none` is the panic on a log with no block number.
  unfoldable pub notify_all : EthFilters L → List (Event L) → Option (EthFilters L)
  notify_all fs [] = some fs
  notify_all fs (new_block hash ∷ es) = notify_all (notify_new_block fs hash) es
  notify_all fs (new_pending hash ∷ es) = notify_all (notify_new_pending_transaction fs hash) es
  notify_all fs (new_log entry n ∷ es) = elim (notify_new_log fs entry n) [
    | none ↦ none
    | some fs' ↦ notify_all fs' es
  ]

  abbrev matched : Option Bool → L → List L → List L
  matched none entry rest = rest
  matched (some true) entry rest = entry ∷ rest
  matched (some false) entry rest = rest

  -- The logs that the filter matches, in order.
  pub matching : LogFilter L → List (Event L) → List L
  matching f [] = []
  matching f (new_block hash ∷ es) = matching f es
  matching f (new_pending hash ∷ es) = matching f es
  matching f (new_log entry n ∷ es) = matched (matches f entry n) entry (matching f es)

  -- A filter after the events: its old updates, and behind them what it listens to.
  abbrev pub heard : FilterType L → List (Event L) → FilterType L
  heard (block updates) es = block (updates ++ block_hashes es)
  heard (log f) es = log (record f { updates = f.updates ++ matching f es })
  heard (pending_transaction updates) es = pending_transaction (updates ++ pending_hashes es)

  -- Every log of the events lies in a block.
  abbrev pub HasBlocks : List (Event L) → Type 0
  HasBlocks [] = Unit {0}
  HasBlocks (new_block hash ∷ es) = HasBlocks es
  HasBlocks (new_pending hash ∷ es) = HasBlocks es
  HasBlocks (new_log entry n ∷ es) = (l.block_number entry ≢ none) × HasBlocks es

  lookup-update_each :
      (g : FilterType L → FilterType L) (id : ℕ) (f : FilterType L) (m : List (ℕ × FilterType L))
      → lookup id m ≡ some f
      → lookup id (update_each g m) ≡ some (g f)
  lookup-update_each g id f [] h = cc
  lookup-update_each g id f ((j, x) ∷ m) h = ground (arith, lookup-update_each g id f m)

  matches-some :
      (f : LogFilter L) (entry : L) (n : ℕ)
      → l.block_number entry ≢ none
      → (b : Bool) × (matches f entry n ≡ some b)
  unfolding matches
  matches-some f entry n h = elim (Option-cases (l.block_number entry)) [
    | inl e ↦ absurd (h e)
    | inr (k, e) ↦ (matches_at f entry n k, rw (e, matches) refl)
  ]

  matching-updates :
      (f : LogFilter L) (us : List L) (es : List (Event L))
      → matching (record f { updates = us }) es ≡ matching f es
  unfolding matching matches matches_at
  matching-updates f us [] = refl
  matching-updates f us (new_block hash ∷ es) = matching-updates f us es
  matching-updates f us (new_pending hash ∷ es) = matching-updates f us es
  matching-updates f us (new_log entry n ∷ es) =
      ap (matched (matches f entry n) entry) (matching-updates f us es)

  -- One notification, at one filter.
  abbrev hears_log : L → ℕ → FilterType L → FilterType L
  hears_log entry n f = heard f (new_log entry n ∷ [])

  push_log-some :
      (entry : L) (n : ℕ) (f : FilterType L)
      → l.block_number entry ≢ none
      → push_log entry n f ≡ some (hears_log entry n f)
  unfolding push_log matching
  push_log-some entry n (block updates) h = ap (λ x. some (block x)) (sym (append-nil updates))
  push_log-some entry n (pending_transaction updates) h =
      ap (λ x. some (pending_transaction x)) (sym (append-nil updates))
  push_log-some entry n (log f) h = let (b, e) = matches-some f entry n h in go b e
    where
      go :
          (b : Bool)
          → matches f entry n ≡ some b
          → push_log entry n (log f) ≡ some (hears_log entry n (log f))
      go true e = rw e
      go false e =
          rw e (ap (λ x. some (log (record f { updates = x }))) (sym (append-nil f.updates)))

  push_log_each-some :
      (entry : L) (n : ℕ) (m : List (ℕ × FilterType L))
      → l.block_number entry ≢ none
      → push_log_each entry n m ≡ some (update_each (hears_log entry n) m)
  unfolding push_log_each
  push_log_each-some entry n [] h = refl
  push_log_each-some entry n ((id, f) ∷ m) h =
      rw (push_log-some entry n f h, push_log_each-some entry n m h)

  heard-new_block :
      (f : FilterType L) (hash : ℕ) (es : List (Event L))
      → heard (push_block hash f) es ≡ heard f (new_block hash ∷ es)
  unfolding push_block matching
  heard-new_block (block us) hash es = ap block (append_assoc us (hash ∷ []) (block_hashes es))
  heard-new_block (log f) hash es = refl
  heard-new_block (pending_transaction us) hash es = refl

  heard-new_pending :
      (f : FilterType L) (hash : ℕ) (es : List (Event L))
      → heard (push_pending hash f) es ≡ heard f (new_pending hash ∷ es)
  unfolding push_pending matching
  heard-new_pending (block us) hash es = refl
  heard-new_pending (log f) hash es = refl
  heard-new_pending (pending_transaction us) hash es =
      ap pending_transaction (append_assoc us (hash ∷ []) (pending_hashes es))

  matching-cons :
      (f : LogFilter L) (e : Event L) (es : List (Event L))
      → matching f (e ∷ []) ++ matching f es ≡ matching f (e ∷ es)
  unfolding matching
  matching-cons f (new_block hash) es = refl
  matching-cons f (new_pending hash) es = refl
  matching-cons f (new_log entry n) es = go (matches f entry n) refl
    where
      go :
          (o : Option Bool)
          → matches f entry n ≡ o
          → matching f (new_log entry n ∷ []) ++ matching f es ≡ matching f (new_log entry n ∷ es)
      go none e = rw (e, matching)
      go (some true) e = rw (e, matching)
      go (some false) e = rw (e, matching)

  heard-new_log :
      (f : FilterType L) (entry : L) (n : ℕ) (es : List (Event L))
      → heard (hears_log entry n f) es ≡ heard f (new_log entry n ∷ es)
  heard-new_log (block us) entry n es = ap (λ x. block (x ++ block_hashes es)) (append-nil us)
  heard-new_log (pending_transaction us) entry n es =
      ap (λ x. pending_transaction (x ++ pending_hashes es)) (append-nil us)
  heard-new_log (log f) entry n es =
      ap (λ x. log (record f { updates = x }))
        (ap (λ x. (f.updates ++ matching f (new_log entry n ∷ [])) ++ x) (matching-updates f _ es)
          ∙ append_assoc f.updates (matching f (new_log entry n ∷ [])) (matching f es)
          ∙ ap (λ x. f.updates ++ x) (matching-cons f (new_log entry n) es))

  heard-nil : (f : FilterType L) → heard f [] ≡ f
  unfolding matching
  heard-nil (block us) = ap block (append-nil us)
  heard-nil (log f) = ap (λ x. log (record f { updates = x })) (append-nil f.updates)
  heard-nil (pending_transaction us) = ap pending_transaction (append-nil us)

  -- While every log lies in a block, the notifications go through, and each installed filter then
  -- holds its old updates, followed by exactly what it listens to, in order: the hashes of all new
  -- blocks, the hashes of all new transactions, or the logs that it matches.
  pub notify_all-heard :
      (fs : EthFilters L) (es : List (Event L))
      → HasBlocks es
      → (fs' : EthFilters L) × (notify_all fs es ≡ some fs')
        × ((id : ℕ) (f : FilterType L)
            → get_filter fs id ≡ some f
            → get_filter fs' id ≡ some (heard f es))
  unfolding notify_all get_filter
  notify_all-heard fs [] h = (fs, refl, λ id f e. e ∙ ap some (sym (heard-nil f)))
  notify_all-heard fs (new_block hash ∷ es) h =
      let (fs', e, k) = notify_all-heard (notify_new_block fs hash) es h in
      (
        fs',
        e,
        λ id f g.
            k id (push_block hash f)
              (unfold notify_new_block in lookup-update_each (push_block hash) id f fs.filters g)
            ∙ ap some (heard-new_block f hash es),
      )
  notify_all-heard fs (new_pending hash ∷ es) h =
      let (fs', e, k) = notify_all-heard (notify_new_pending_transaction fs hash) es h in
      (
        fs',
        e,
        λ id f g.
            k id (push_pending hash f) (
              unfold notify_new_pending_transaction in
              lookup-update_each (push_pending hash) id f fs.filters g)
            ∙ ap some (heard-new_pending f hash es),
      )
  notify_all-heard fs (new_log entry n ∷ es) h =
      let fs1 : EthFilters L = record fs { filters = update_each (hears_log entry n) fs.filters } in
      let (fs', e, k) = notify_all-heard fs1 es h.1 in
      let step : notify_new_log fs entry n ≡ some fs1 =
        unfold notify_new_log in
        rw (push_log_each-some entry n fs.filters h.0, notify_new_log) refl in
      (
        fs',
        rw (step, notify_all) e,
        λ id f g.
            k id (hears_log entry n f) (lookup-update_each (hears_log entry n) id f fs.filters g)
            ∙ ap some (heard-new_log f entry n es),
      )

module _ {L : Type 0} where
  abbrev reported_logs : List L → FilterChanges L
  reported_logs [] = empty
  reported_logs (u ∷ us) = logs (u ∷ us)

  abbrev pub reported : FilterType L → FilterChanges L
  reported (block []) = empty
  reported (block (u ∷ us)) = hashes (u ∷ us)
  reported (log f) = reported_logs f.updates
  reported (pending_transaction []) = empty
  reported (pending_transaction (u ∷ us)) = hashes (u ∷ us)

  abbrev pub cleared : FilterType L → FilterType L
  cleared (block us) = block []
  cleared (log f) = log (record f { updates = [] })
  cleared (pending_transaction us) = pending_transaction []

  reported_logs_lem : (us : List L) → (if is_empty us then empty else logs us) ≡ reported_logs us
  reported_logs_lem [] = refl
  reported_logs_lem (u ∷ us) = refl

  changes_of_lem : (f : FilterType L) → changes_of f ≡ (reported f, cleared f)
  unfolding changes_of
  changes_of_lem (block []) = refl
  changes_of_lem (block (u ∷ us)) = refl
  changes_of_lem (log f) = ap (λ c. (c, cleared (log f))) (reported_logs_lem f.updates)
  changes_of_lem (pending_transaction []) = refl
  changes_of_lem (pending_transaction (u ∷ us)) = refl

  -- A poll of an installed filter returns its updates and clears them, for that filter alone; a
  -- poll of an identifier that is not installed is an error that changes nothing.
  pub get_new_changes_lem :
      (fs : EthFilters L) (id : ℕ)
      → ((f : FilterType L)
          → get_filter fs id ≡ some f
          → ((get_new_changes fs id).1 ≡ ok (reported f))
            × ((j : ℕ)
                → get_filter (get_new_changes fs id).0 j
                  ≡ (if id == j then some (cleared f) else get_filter fs j)))
        × (get_filter fs id ≡ none → get_new_changes fs id ≡ (fs, err invalid_filter))
  unfolding get_new_changes get_filter
  get_new_changes_lem fs id = (
    λ f e.
        rw (e, get_with)
          (rw (changes_of_lem f) (refl, λ j. lookup-insert id j (cleared f) fs.filters)),
    λ e. rw (e, get_with),
  )
