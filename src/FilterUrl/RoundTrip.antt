-- ===== src/FilterUrl/RoundTrip.antt =====
-- filterUrlSerializer.ts: that filters written to the URL are read back.
use stellar_dex_chat.Common.{
  ℕ, String, Bool, false, not, ◌≡◌, refl, ◌∙◌, ap, inl, inr, Option, none, some, List, [], ◌∷◌,
  ◌++◌, map, ◌==◌, filter, any, get, get-put, get-put_self, All, str_eq, Bool-cases,
}
use stellar_dex_chat.Common.Text.{is_space}
use stellar_dex_chat.Stroops.{Text, is_empty, trim, trim_start, trim_end}
use stellar_dex_chat.Filters.{TransactionStatus, pending, completed, warning, failed, cancelled}
use stellar_dex_chat.FilterUrl.{
  UrlFilterState, Params, join_commas, split_commas, status_code, set_values, set_filters,
  serialize_filters, status_of, valid_statuses, decode_all, parse_values, parse_filter_param,
  deserialize_filters,
}

abbrev pub has_code : ℕ → Text → Bool
has_code k t = any (λ c. c == k) t

-- A value that is not empty, has no comma, no percent sign and no white space around it.
pub record IsPlain (v : Text) : Type 0 where
  pub filled : is_empty v ≡ false
  pub whole : has_code b',' v ≡ false
  pub unescaped : has_code b'%' v ≡ false
  pub trimmed : trim v ≡ v

split_commas_one : (v : Text) → has_code b',' v ≡ false → split_commas v ≡ v ∷ []
unfolding split_commas
split_commas_one [] h = refl
split_commas_one (c ∷ cs) h = elim (Bool-cases (c == b',')) [
  | inl comma ↦ absurd (cc (rw comma at h))
  | inr other ↦ rw other (rw (split_commas_one cs (rw other at h)) refl)
]

split_commas_next :
    (v rest : Text)
    → has_code b',' v ≡ false
    → split_commas (v ++ b',' ∷ rest) ≡ v ∷ split_commas rest
unfolding split_commas
split_commas_next [] rest h = refl
split_commas_next (c ∷ cs) rest h = elim (Bool-cases (c == b',')) [
  | inl comma ↦ absurd (cc (rw comma at h))
  | inr other ↦ rw other (rw (split_commas_next cs rest (rw other at h)) refl)
]

split_commas-join_commas :
    (v : Text) (vs : List Text)
    → All IsPlain (v ∷ vs)
    → split_commas (join_commas (v ∷ vs)) ≡ v ∷ vs
unfolding join_commas
split_commas-join_commas v [] (p, h) = split_commas_one v p.whole
split_commas-join_commas v (w ∷ vs) (p, h) =
    split_commas_next v (join_commas (w ∷ vs)) p.whole
    ∙ ap (λ ws. v ∷ ws) (split_commas-join_commas w vs h)

filled-append : (v ws : Text) → is_empty v ≡ false → is_empty (v ++ ws) ≡ false
filled-append [] ws h = absurd (cc h)
filled-append (c ∷ cs) ws h = refl

join_commas_filled :
    (v : Text) (vs : List Text) → IsPlain v → is_empty (join_commas (v ∷ vs)) ≡ false
unfolding join_commas
join_commas_filled v [] p = p.filled
join_commas_filled v (w ∷ vs) p = filled-append v _ p.filled

filter_filled : (vs : List Text) → All IsPlain vs → filter (λ v. not (is_empty v)) vs ≡ vs
filter_filled [] h = refl
filter_filled (v ∷ vs) (p, h) = rw p.filled (ap (λ ws. v ∷ ws) (filter_filled vs h))

status_code-IsPlain : (s : TransactionStatus) → IsPlain (status_code s)
unfolding trim trim_start trim_end is_space
status_code-IsPlain pending = record {
  filled = refl;
  whole = refl;
  unescaped = refl;
  trimmed = refl;
}
status_code-IsPlain completed = record {
  filled = refl;
  whole = refl;
  unescaped = refl;
  trimmed = refl;
}
status_code-IsPlain warning = record {
  filled = refl;
  whole = refl;
  unescaped = refl;
  trimmed = refl;
}
status_code-IsPlain failed = record {
  filled = refl;
  whole = refl;
  unescaped = refl;
  trimmed = refl;
}
status_code-IsPlain cancelled = record {
  filled = refl;
  whole = refl;
  unescaped = refl;
  trimmed = refl;
}

status_codes-IsPlain : (ss : List TransactionStatus) → All IsPlain (map status_code ss)
status_codes-IsPlain [] = tt
status_codes-IsPlain (s ∷ ss) = (status_code-IsPlain s, status_codes-IsPlain ss)

status_of-status_code : (s : TransactionStatus) → status_of (status_code s) ≡ some s
status_of-status_code pending = refl
status_of-status_code completed = refl
status_of-status_code warning = refl
status_of-status_code failed = refl
status_of-status_code cancelled = refl

valid_statuses-map : (ss : List TransactionStatus) → valid_statuses (map status_code ss) ≡ ss
valid_statuses-map [] = refl
valid_statuses-map (s ∷ ss) =
    rw (status_of-status_code s) (ap (λ ts. s ∷ ts) (valid_statuses-map ss))

get-set_values_ne :
    (name j : String) (vs : List Text) (params : Params)
    → str_eq name j ≡ false
    → get j (set_values name vs params) ≡ get j params
get-set_values_ne name j [] params h = refl
get-set_values_ne name j (v ∷ vs) params h =
    get-put name j (join_commas (v ∷ vs)) params ∙ rw h refl

module _ (decode : Text → Option Text)
    (decode_plain : (t : Text) → has_code b'%' t ≡ false → decode t ≡ some t) where
  decode_all-IsPlain : (vs : List Text) → All IsPlain vs → decode_all decode vs ≡ some vs
  unfolding decode_all
  decode_all-IsPlain [] h = refl
  decode_all-IsPlain (v ∷ vs) (p, h) =
      rw p.trimmed (rw (decode_plain v p.unescaped) (rw (decode_all-IsPlain vs h) refl))

  parse_filter_param_filled :
      (t : Text) → is_empty t ≡ false → parse_filter_param decode (some t) ≡ parse_values decode t
  parse_filter_param_filled [] h = absurd (cc h)
  parse_filter_param_filled (c ∷ cs) h = refl

  parse_values-join_commas :
      (v : Text) (vs : List Text)
      → All IsPlain (v ∷ vs)
      → parse_values decode (join_commas (v ∷ vs)) ≡ some (v ∷ vs)
  unfolding parse_values
  parse_values-join_commas v vs h =
      rw (split_commas-join_commas v vs h)
        (rw (decode_all-IsPlain (v ∷ vs) h) (ap some (filter_filled (v ∷ vs) h)))

  parse-set_values :
      (name : String) (vs : List Text) (params : Params)
      → All IsPlain vs
      → get name params ≡ none
      → parse_filter_param decode (get name (set_values name vs params)) ≡ some vs
  parse-set_values name [] params h absent = rw absent refl
  parse-set_values name (v ∷ vs) params (p, h) absent =
      rw (get-put_self name (join_commas (v ∷ vs)) params) (
        parse_filter_param_filled (join_commas (v ∷ vs)) (join_commas_filled v vs p)
        ∙ parse_values-join_commas v vs (p, h))

  module _ (f : UrlFilterState) where
    abbrev status_set : Params
    status_set = set_values "status" (map status_code f.status) []

    abbrev asset_set : Params
    asset_set = set_values "asset" f.asset status_set

    abbrev network_set : Params
    network_set = set_values "network" f.network asset_set

    read_status :
        parse_filter_param decode (get "status" network_set) ≡ some (map status_code f.status)
    unfolding get
    read_status =
        ap (parse_filter_param decode) (
          get-set_values_ne "network" "status" f.network asset_set refl
          ∙ get-set_values_ne "asset" "status" f.asset status_set refl)
        ∙ parse-set_values "status" (map status_code f.status) [] (status_codes-IsPlain f.status)
            refl

    read_asset :
        All IsPlain f.asset → parse_filter_param decode (get "asset" network_set) ≡ some f.asset
    unfolding get
    read_asset assets =
        ap (parse_filter_param decode)
          (get-set_values_ne "network" "asset" f.network asset_set refl)
        ∙ parse-set_values "asset" f.asset status_set assets
            (get-set_values_ne "status" "asset" (map status_code f.status) [] refl)

    read_network :
        All IsPlain f.network
        → parse_filter_param decode (get "network" network_set) ≡ some f.network
    unfolding get
    read_network networks = parse-set_values "network" f.network asset_set networks (
        get-set_values_ne "asset" "network" f.asset status_set refl
        ∙ get-set_values_ne "status" "network" (map status_code f.status) [] refl)

    -- Filters written to the parameters are read back, if decoding leaves texts without a percent sign
    -- alone and each asset and network is plain.
    pub deserialize_filters-serialize_filters :
        All IsPlain f.asset
        → All IsPlain f.network
        → deserialize_filters decode (serialize_filters f) ≡ some f
    unfolding deserialize_filters serialize_filters set_filters
    deserialize_filters-serialize_filters assets networks = rw read_status (
        rw (read_asset assets) (rw (read_network networks) (rw (valid_statuses-map f.status) refl)))
