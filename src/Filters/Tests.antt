-- ===== src/Filters/Tests.antt =====
-- The filters of crates/core/src/filters.rs at concrete logs: a log is its block, its address and
-- its topics.
use anvil_zksync.Base.{
  ℕ, ◌≡◌, refl, ◌↔◌, true, false, List, [], ◌∷◌, Option, none, some, arith, if◌then◌else◌, ◌==◌,
  nat_key,
}
use anvil_zksync.Utils.{latest, number, earliest, to_real_block_number}
use anvil_zksync.Filters.{
  Log, LogFilter, EthFilters, FilterType, block, log, pending_transaction, ok, err, invalid_filter,
  matches, matches_at, matched_topics, topic_matches, default_filters, add_block_filter,
  add_log_filter, add_pending_transaction_filter, get_filter, get_new_changes, new_log_filter,
}
use anvil_zksync.Filters.Matches.{Wants, matches_iff}
use anvil_zksync.Filters.Ids.{IsValid, Installs, add-Installs}
use anvil_zksync.Filters.Updates.{
  Event, new_block, new_pending, new_log, notify_all, heard, notify_all-heard, get_new_changes_lem,
  reported, cleared,
}

abbrev Entry : Type 0
Entry = Option ℕ × ℕ × List ℕ

instance abbrev entry_fields : Log Entry
entry_fields = record { block_number = λ e. e.0; address = λ e. e.1; topics = λ e. e.2 }

abbrev transfer : Entry
transfer = (some 5, 77, 1 ∷ 2 ∷ 3 ∷ [])

abbrev filter : LogFilter Entry
filter = record {
  from_block = number 3;
  to_block = latest;
  addresses = 70 ∷ 77 ∷ [];
  topics = some (1 ∷ 4 ∷ []) ∷ none ∷ some [] ∷ some (9 ∷ []) ∷ [];
  updates = [];
}

abbrev installed : EthFilters Entry
installed = record {
  id_counter = 3;
  filters = (1, block []) ∷ (2, log filter) ∷ (3, pending_transaction (8 ∷ [])) ∷ [];
}

transfer-matches : matches filter transfer 6 ≡ some true
unfolding matches matches_at matched_topics topic_matches to_real_block_number
transfer-matches = refl

transfer_late : matches filter transfer 4 ≡ some false
unfolding matches matches_at matched_topics topic_matches to_real_block_number
transfer_late = refl

-- The empty set of filters is valid.
default-IsValid : IsValid {L = Entry} default_filters
unfolding default_filters get_filter
default-IsValid = record { counted = λ id h. refl; in_range = omega arith }

installed-IsValid : IsValid installed
unfolding get_filter
installed-IsValid = record { counted = λ id h. ground arith; in_range = omega arith }

matches_iff_example : (matches filter transfer 6 ≡ some true) ↔ Wants filter transfer 6 5
matches_iff_example = matches_iff filter transfer 6 5 refl

add-Installs_example :
    Installs installed (block []) (add_block_filter installed)
    × Installs installed (pending_transaction []) (add_pending_transaction_filter installed)
    × Installs installed
        (log (new_log_filter earliest latest (7 ∷ []) []))
        (add_log_filter installed earliest latest (7 ∷ []) [])
add-Installs_example = add-Installs installed earliest latest (7 ∷ []) [] installed-IsValid

abbrev events : List (Event Entry)
events = new_block 100 ∷ new_pending 200 ∷ new_log transfer 6 ∷ new_block 101 ∷ []

notify_all-heard_example :
    (fs' : EthFilters Entry) × (notify_all installed events ≡ some fs')
    × ((id : ℕ) (f : FilterType Entry)
        → get_filter installed id ≡ some f
        → get_filter fs' id ≡ some (heard f events))
notify_all-heard_example = notify_all-heard installed events ((λ e. cc), tt)

get_new_changes_lem_example :
    ((f : FilterType Entry)
      → get_filter installed 3 ≡ some f
      → ((get_new_changes installed 3).1 ≡ ok (reported f))
        × ((j : ℕ)
            → get_filter (get_new_changes installed 3).0 j
              ≡ (if 3 == j then some (cleared f) else get_filter installed j)))
    × (get_filter installed 3 ≡ none
        → get_new_changes installed 3 ≡ (installed, err invalid_filter))
get_new_changes_lem_example = get_new_changes_lem installed 3
