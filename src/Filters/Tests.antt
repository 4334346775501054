-- ===== src/Filters/Tests.antt =====
-- transactionFilters.ts: runs at concrete inputs.
use stellar_dex_chat.Common.{false, ◌≡◌, refl, some, none, List, [], ◌∷◌}
use stellar_dex_chat.Filters.{
  TransactionHistoryEntry, FilterState, FilterStats, deposit, payout, pending, failed,
  filter_transactions, matches, compute_filter_stats, split_words, join_words,
}

abbrev paid : TransactionHistoryEntry
paid = record { id = "1"; kind = payout; status = pending; asset = some "XLM"; network = none }

abbrev refused : TransactionHistoryEntry
refused = record {
  id = "2";
  kind = deposit;
  status = failed;
  asset = none;
  network = some "stellar-testnet";
}

abbrev history : List TransactionHistoryEntry
history = paid ∷ refused ∷ []

abbrev only_xlm : FilterState
only_xlm = record { status = []; asset = "XLM" ∷ []; network = [] }

filter_transactions_run : filter_transactions history only_xlm ≡ paid ∷ []
unfolding filter_transactions matches
filter_transactions_run = refl

split_words_run : join_words (split_words "a-b_c") ≡ "a b c"
unfolding split_words join_words
split_words_run = refl

-- No label comes before another, and none is changed.
abbrev stats_of_history : FilterStats
stats_of_history = compute_filter_stats (λ a b. false) (λ s. s) history only_xlm
