-- ===== src/Filters.antt =====
-- Dechat/dex_with_fiat_frontend/src/lib/transactionFilters.ts: which transactions are shown, and how
-- many there are for each value of a filter.
pub mod Selection
pub mod Counting
mod Tests
use stellar_dex_chat.Common.{
  ℕ, ◌+◌, String, Bool, true, false, ◌&&◌, ◌||◌, Option, none, some, List, [], ◌∷◌, map,
  if◌then◌else◌, length, filter, any, get, put, str_eq, ◌==◌,
}
use Prim.Native.Char.{code}
use Prim.Native.String

pub data TransactionKind : Type 0 where
  deposit payout risk_warning : TransactionKind

pub data TransactionStatus : Type 0 where
  pending completed warning failed cancelled : TransactionStatus

-- The fields that the filters read, with the id and the kind. `network` is no field of the source's
-- type, but is read where an entry has it as a text.
pub record TransactionHistoryEntry : Type 0 where
  pub id : String
  pub kind : TransactionKind
  pub status : TransactionStatus
  pub asset : Option String
  pub network : Option String

pub record FilterState : Type 0 where
  pub status : List TransactionStatus
  pub asset : List String
  pub network : List String

pub record FilterOption : Type 0 where
  pub value : String
  pub label : String
  pub count : ℕ

pub record FilterStats : Type 0 where
  pub status_options : List FilterOption
  pub asset_options : List FilterOption
  pub network_options : List FilterOption
  pub total_count : ℕ
  pub filtered_count : ℕ

abbrev pub same_status : TransactionStatus → TransactionStatus → Bool
same_status pending pending = true
same_status completed completed = true
same_status warning warning = true
same_status failed failed = true
same_status cancelled cancelled = true
same_status _ _ = false

-- `chosen.length === 0`
abbrev pub is_empty {ℓ} : {A : Type ℓ} → List A → Bool
is_empty [] = true
is_empty (x ∷ xs) = false

abbrev pub includes_text : List String → Option String → Bool
includes_text chosen none = false
includes_text chosen (some t) = any (λ c. str_eq c t) chosen

unfoldable pub matches : FilterState → TransactionHistoryEntry → Bool
matches f tx =
    let status_match = is_empty f.status || any (λ s. same_status s tx.status) f.status in
    let asset_match = is_empty f.asset || includes_text f.asset tx.asset in
    let network_match = is_empty f.network || includes_text f.network tx.network in
    status_match && asset_match && network_match

unfoldable pub filter_transactions :
    List TransactionHistoryEntry → FilterState → List TransactionHistoryEntry
unfolding matches
filter_transactions transactions f =
    if is_empty f.status && is_empty f.asset && is_empty f.network
    then transactions
    else filter (matches f) transactions

abbrev pub status_text : TransactionStatus → String
status_text pending = "pending"
status_text completed = "completed"
status_text warning = "warning"
status_text failed = "failed"
status_text cancelled = "cancelled"

-- `counts.get(value) || 0`
abbrev pub or_zero : Option ℕ → ℕ
or_zero none = 0
or_zero (some n) = n

unfoldable pub count_value : String → List (String × ℕ) → List (String × ℕ)
count_value value counts = put value (or_zero (get value counts) + 1) counts

unfoldable pub count_status : TransactionHistoryEntry → List (String × ℕ) → List (String × ℕ)
unfolding count_value
count_status tx counts = count_value (status_text tx.status) counts

-- An asset that is an empty text is not counted.
abbrev pub count_asset_of : Option String → List (String × ℕ) → List (String × ℕ)
count_asset_of none counts = counts
count_asset_of (some value) counts = if str_eq value "" then counts else count_value value counts

unfoldable pub count_asset : TransactionHistoryEntry → List (String × ℕ) → List (String × ℕ)
count_asset tx counts = count_asset_of tx.asset counts

abbrev pub count_network_of : Option String → List (String × ℕ) → List (String × ℕ)
count_network_of none counts = counts
count_network_of (some value) counts = count_value value counts

unfoldable pub count_network : TransactionHistoryEntry → List (String × ℕ) → List (String × ℕ)
count_network tx counts = count_network_of tx.network counts

-- The counts after the transactions, each counted by its turn.
unfoldable pub counts_from :
    (TransactionHistoryEntry → List (String × ℕ) → List (String × ℕ))
    → List TransactionHistoryEntry
    → List (String × ℕ)
    → List (String × ℕ)
counts_from count [] counts = counts
counts_from count (tx ∷ txs) counts = counts_from count txs (count tx counts)

abbrev pub to_first : String → List String → List String
to_first s [] = s ∷ []
to_first s (w ∷ ws) = String.◌++◌ s w ∷ ws

-- `network.split(/[-_]/)`
unfoldable pub split_words : String → List String
split_words String.[] = "" ∷ []
split_words (String.◌∷◌ c s) =
    let rest = split_words s in
    if (code c == b'-') || (code c == b'_') then "" ∷ rest else to_first (String.◌∷◌ c "") rest

unfoldable pub join_words : List String → String
join_words [] = ""
join_words (w ∷ []) = w
join_words (w ∷ v ∷ ws) = String.◌++◌ w (String.◌++◌ " " (join_words (v ∷ ws)))

-- `localeCompare` and the upper case of a first letter are the language's: `comes_before a b` is
-- `a.localeCompare(b) < 0`, and `capitalize value` is `value.charAt(0).toUpperCase() + value.slice(1)`.
module _ (comes_before : String → String → Bool) (capitalize : String → String) where
  unfoldable pub format_network_label : String → String
  unfolding split_words join_words
  format_network_label network = join_words (map capitalize (split_words network))

  unfoldable pub insert_option : FilterOption → List FilterOption → List FilterOption
  insert_option o [] = o ∷ []
  insert_option o (p ∷ ps) =
      if comes_before p.label o.label then p ∷ insert_option o ps else o ∷ p ∷ ps

  -- A stable sort by label.
  unfoldable pub sort_options : List FilterOption → List FilterOption
  unfolding insert_option
  sort_options [] = []
  sort_options (o ∷ os) = insert_option o (sort_options os)

  unfoldable pub options_of : (String → String) → List (String × ℕ) → List FilterOption
  unfolding sort_options
  options_of label counts =
      sort_options (map (λ p. record { value = p.0; label = label p.0; count = p.1 }) counts)

  unfoldable pub compute_filter_stats : List TransactionHistoryEntry → FilterState → FilterStats
  unfolding options_of format_network_label filter_transactions counts_from
  compute_filter_stats transactions f = record {
    status_options = options_of capitalize (counts_from count_status transactions []);
    asset_options = options_of (λ value. value) (counts_from count_asset transactions []);
    network_options = options_of format_network_label (counts_from count_network transactions []);
    total_count = length transactions;
    filtered_count = length (filter_transactions transactions f);
  }
