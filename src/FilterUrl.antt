-- ===== src/FilterUrl.antt =====
-- Dechat/dex_with_fiat_frontend/src/lib/filterUrlSerializer.ts: the filters as parameters of the URL. The
-- parameters are a map from their names; a value is the list of its UTF-16 code units.
pub mod RoundTrip
mod Tests
use stellar_dex_chat.Common.{
  ℕ, ◌+◌, String, Bool, true, false, not, Option, none, some, List, [], ◌∷◌, ◌++◌, map,
  if◌then◌else◌, ◌==◌, filter, get, put, delete, ◌>>=◌,
}
use stellar_dex_chat.Common.Text.{codes, same}
use stellar_dex_chat.Stroops.{Text, is_empty, cons_first, trim}
use stellar_dex_chat.Filters.{
  TransactionStatus, pending, completed, warning, failed, cancelled, status_text,
}

pub record UrlFilterState : Type 0 where
  pub status : List TransactionStatus
  pub asset : List Text
  pub network : List Text

abbrev pub Params : Type 0
Params = List (String × Text)

-- `values.join(',')`
unfoldable pub join_commas : List Text → Text
join_commas [] = []
join_commas (v ∷ []) = v
join_commas (v ∷ w ∷ vs) = v ++ b',' ∷ join_commas (w ∷ vs)

-- `param.split(',')`
unfoldable pub split_commas : Text → List Text
split_commas [] = [] ∷ []
split_commas (c ∷ cs) =
    let rest = split_commas cs in if c == b',' then [] ∷ rest else cons_first c rest

abbrev pub status_code : TransactionStatus → Text
status_code s = codes (status_text s)

abbrev pub set_values : String → List Text → Params → Params
set_values name [] params = params
set_values name (v ∷ vs) params = put name (join_commas (v ∷ vs)) params

-- The parameters of the filters are set one after the other.
unfoldable pub set_filters : UrlFilterState → Params → Params
unfolding join_commas
set_filters f params =
    set_values "network" f.network
      (set_values "asset" f.asset (set_values "status" (map status_code f.status) params))

unfoldable pub serialize_filters : UrlFilterState → Params
unfolding set_filters
serialize_filters f = set_filters f []

-- `filterParams.forEach(...)` sets each parameter.
unfoldable pub set_all : Params → Params → Params
set_all [] params = params
set_all ((name, value) ∷ rest) params = set_all rest (put name value params)

unfoldable pub merge_filter_params : Params → UrlFilterState → Params
unfolding serialize_filters set_all
merge_filter_params current f =
    set_all (serialize_filters f) (delete "network" (delete "asset" (delete "status" current)))

-- `VALID_STATUSES`, with what each text stands for.
abbrev pub status_of : Text → Option TransactionStatus
status_of t =
    if same t (status_code pending)
    then some pending
    else if same t (status_code completed)
    then some completed
    else if same t (status_code warning)
    then some warning
    else if same t (status_code failed)
    then some failed
    else if same t (status_code cancelled)
    then some cancelled
    else none

abbrev pub keep_some : Option TransactionStatus → List TransactionStatus → List TransactionStatus
keep_some none ss = ss
keep_some (some s) ss = s ∷ ss

-- The valid ones among the values.
abbrev pub valid_statuses : List Text → List TransactionStatus
valid_statuses [] = []
valid_statuses (t ∷ ts) = keep_some (status_of t) (valid_statuses ts)

-- `decodeURIComponent` is the language's, and throws at a `%` that begins no escape: then it is none, and
-- so is what calls it.
module _ (decode_uri_component : Text → Option Text) where
  unfoldable pub decode_all : List Text → Option (List Text)
  unfolding trim
  decode_all [] = some []
  decode_all (v ∷ vs) = do d ← decode_uri_component (trim v); ds ← decode_all vs; some (d ∷ ds)

  unfoldable pub parse_values : Text → Option (List Text)
  unfolding decode_all split_commas
  parse_values param = do
    values ← decode_all (split_commas param)
    some (filter (λ v. not (is_empty v)) values)

  abbrev pub parse_filter_param : Option Text → Option (List Text)
  parse_filter_param none = some []
  parse_filter_param (some []) = some []
  parse_filter_param (some (c ∷ cs)) = parse_values (c ∷ cs)

  unfoldable pub deserialize_filters : Params → Option UrlFilterState
  unfolding parse_values
  deserialize_filters params = do
    status ← parse_filter_param (get "status" params)
    asset ← parse_filter_param (get "asset" params)
    network ← parse_filter_param (get "network" params)
    some (record { status = valid_statuses status; asset = asset; network = network })
