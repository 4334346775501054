-- ===== src/Filters/Counting.antt =====
-- transactionFilters.ts: the counts beside the values of a filter.
use stellar_dex_chat.Common.{
  ℕ, ◌+◌, ◌≤◌, String, Bool, false, not, ◌&&◌, ◌≡◌, refl, ◌∙◌, Option, none, some, List, [], ◌∷◌,
  arith, if◌then◌else◌, map, get, put, length-filter, count_if, str_eq, eq_iff, inl, inr,
  Bool-cases,
}
use stellar_dex_chat.Filters.{
  TransactionHistoryEntry, FilterState, FilterOption, status_text, or_zero, count_value,
  count_status, count_asset_of, count_asset, count_network_of, count_network, counts_from,
  insert_option, sort_options, options_of, filter_transactions, matches, compute_filter_stats,
}

abbrev pub one_if : Bool → ℕ
one_if b = if b then 1 else 0

-- The number that the options show for a value.
abbrev pub shown : String → List FilterOption → ℕ
shown v [] = 0
shown v (o ∷ os) = if str_eq o.value v then o.count + shown v os else shown v os

abbrev pub counted : String → List (String × ℕ) → ℕ
counted v [] = 0
counted v ((j, n) ∷ m) = if str_eq j v then n + counted v m else counted v m

-- Whether the transaction has the value.
abbrev pub has_text : String → Option String → Bool
has_text v none = false
has_text v (some t) = str_eq t v

counted_here :
    (v j : String) (n x : ℕ) (m : List (String × ℕ))
    → n ≡ x
    → counted v ((j, x + 1) ∷ m) ≡ counted v ((j, n) ∷ m) + one_if (str_eq j v)
counted_here v j n x m h = ground arith

counted-put :
    (v k : String) (x : ℕ) (m : List (String × ℕ))
    → or_zero (get k m) ≡ x
    → counted v (put k (x + 1) m) ≡ counted v m + one_if (str_eq k v)
unfolding get put
counted-put v k x [] h = ground arith
counted-put v k x ((j, n) ∷ m) h = elim (Bool-cases (str_eq j k)) [
  | inl same ↦ rw same (rw (← (eq_iff j k).0 same) (counted_here v j n x m (rw same at h)))
  | inr other ↦ rw other (ground (arith, counted-put v k x m (rw other at h)))
]

counted-count_value :
    (v k : String) (m : List (String × ℕ))
    → counted v (count_value k m) ≡ counted v m + one_if (str_eq k v)
unfolding count_value
counted-count_value v k m = counted-put v k (or_zero (get k m)) m refl

-- A way of counting that adds one to the value that the transaction has, and nothing to others.
abbrev Counts :
    (TransactionHistoryEntry → List (String × ℕ) → List (String × ℕ))
    → (String → TransactionHistoryEntry → Bool)
    → Type 0
Counts count has =
    (v : String) (tx : TransactionHistoryEntry) (m : List (String × ℕ))
    → counted v (count tx m) ≡ counted v m + one_if (has v tx)

count_status-Counts : Counts count_status (λ v tx. str_eq (status_text tx.status) v)
unfolding count_status
count_status-Counts v tx m = counted-count_value v (status_text tx.status) m

-- Assets that are empty texts are not counted.
abbrev pub has_asset : String → TransactionHistoryEntry → Bool
has_asset v tx = has_text v tx.asset && not (str_eq v "")

count_asset_of-counted :
    (v : String) (asset : Option String) (m : List (String × ℕ))
    → counted v (count_asset_of asset m)
      ≡ counted v m + one_if (has_text v asset && not (str_eq v ""))
count_asset_of-counted v none m = omega arith
count_asset_of-counted v (some k) m =
    ground (arith, counted-count_value v k m, eq_iff k v, eq_iff k "", eq_iff v "")

count_asset-Counts : Counts count_asset has_asset
unfolding count_asset
count_asset-Counts v tx m = count_asset_of-counted v tx.asset m

abbrev pub has_network : String → TransactionHistoryEntry → Bool
has_network v tx = has_text v tx.network

count_network_of-counted :
    (v : String) (network : Option String) (m : List (String × ℕ))
    → counted v (count_network_of network m) ≡ counted v m + one_if (has_text v network)
count_network_of-counted v none m = omega arith
count_network_of-counted v (some k) m = counted-count_value v k m

count_network-Counts : Counts count_network has_network
unfolding count_network
count_network-Counts v tx m = count_network_of-counted v tx.network m

counts_from-counted :
    (count : TransactionHistoryEntry → List (String × ℕ) → List (String × ℕ))
    (has : String → TransactionHistoryEntry → Bool)
    → Counts count has
    → (v : String) (txs : List TransactionHistoryEntry) (m : List (String × ℕ))
    → counted v (counts_from count txs m) ≡ counted v m + count_if (has v) txs
unfolding counts_from
counts_from-counted count has h v [] m = omega arith
counts_from-counted count has h v (tx ∷ txs) m =
    ground (arith, counts_from-counted count has h v txs (count tx m), h v tx m)

module _ (comes_before : String → String → Bool) (capitalize : String → String) where
  shown-insert_option :
      (v : String) (o : FilterOption) (os : List FilterOption)
      → shown v (insert_option comes_before capitalize o os) ≡ shown v (o ∷ os)
  unfolding insert_option
  shown-insert_option v o [] = refl
  shown-insert_option v o (p ∷ ps) = ground (arith, shown-insert_option v o ps)

  shown-sort_options :
      (v : String) (os : List FilterOption)
      → shown v (sort_options comes_before capitalize os) ≡ shown v os
  unfolding sort_options
  shown-sort_options v [] = refl
  shown-sort_options v (o ∷ os) = ground (
    arith,
    shown-insert_option v o (sort_options comes_before capitalize os),
    shown-sort_options v os,
  )

  shown-map :
      (v : String) (label : String → String) (m : List (String × ℕ))
      → shown v (map (λ p. record { value = p.0; label = label p.0; count = p.1 }) m) ≡ counted v m
  shown-map v label [] = refl
  shown-map v label ((j, n) ∷ m) = ground (arith, shown-map v label m)

  shown-options_of :
      (v : String) (label : String → String) (m : List (String × ℕ))
      → shown v (options_of comes_before capitalize label m) ≡ counted v m
  unfolding options_of
  shown-options_of v label m = shown-sort_options v _ ∙ shown-map v label m

  shown-counts_from :
      (v : String) (label : String → String)
      (count : TransactionHistoryEntry → List (String × ℕ) → List (String × ℕ))
      (has : String → TransactionHistoryEntry → Bool)
      → Counts count has
      → (txs : List TransactionHistoryEntry)
      → shown v (options_of comes_before capitalize label (counts_from count txs []))
        ≡ count_if (has v) txs
  shown-counts_from v label count has h txs =
      shown-options_of v label _ ∙ counts_from-counted count has h v txs [] ∙ omega arith

  -- For every value the options show the number of transactions that have it as their status, their
  -- asset (an empty one is not shown) or their network, whatever the filter; as many are left after
  -- filtering as the filter keeps, at most all of them.
  pub compute_filter_stats_lem :
      (transactions : List TransactionHistoryEntry) (f : FilterState) (v : String)
      → let stats = compute_filter_stats comes_before capitalize transactions f in
        (shown v stats.status_options
          ≡ count_if (λ tx. str_eq (status_text tx.status) v) transactions)
        × (shown v stats.asset_options ≡ count_if (has_asset v) transactions)
        × (shown v stats.network_options ≡ count_if (has_network v) transactions)
        × (stats.filtered_count ≤ stats.total_count)
  unfolding compute_filter_stats
  compute_filter_stats_lem transactions f v = (
    shown-counts_from v _ count_status _ count_status-Counts transactions,
    shown-counts_from v _ count_asset has_asset count_asset-Counts transactions,
    shown-counts_from v _ count_network has_network count_network-Counts transactions,
    unfold filter_transactions in ground (arith, length-filter (matches f) transactions),
  )
