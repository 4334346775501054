-- ===== src/FilterUrl/Tests.antt =====
-- filterUrlSerializer.ts: runs at concrete inputs.
use stellar_dex_chat.Common.{◌≡◌, refl, some, none, Option, [], ◌∷◌, if◌then◌else◌, false}
use stellar_dex_chat.Common.Text.{codes, is_space}
use stellar_dex_chat.Stroops.{Text, trim, trim_start, trim_end}
use stellar_dex_chat.Filters.{pending, failed}
use stellar_dex_chat.FilterUrl.{UrlFilterState, serialize_filters, deserialize_filters}
use stellar_dex_chat.FilterUrl.RoundTrip.{has_code, IsPlain, deserialize_filters-serialize_filters}

-- A decoder that knows no escape.
abbrev decode : Text → Option Text
decode t = if has_code b'%' t then none else some t

decode_plain : (t : Text) → has_code b'%' t ≡ false → decode t ≡ some t
decode_plain t h = rw h refl

abbrev chosen : UrlFilterState
chosen = record { status = pending ∷ failed ∷ []; asset = codes "XLM" ∷ []; network = [] }

xlm-IsPlain : IsPlain (codes "XLM")
unfolding trim trim_start trim_end is_space
xlm-IsPlain = record { filled = refl; whole = refl; unescaped = refl; trimmed = refl }

deserialize_filters-serialize_filters_example :
    deserialize_filters decode (serialize_filters chosen) ≡ some chosen
deserialize_filters-serialize_filters_example =
    deserialize_filters-serialize_filters decode decode_plain chosen (xlm-IsPlain, tt) tt
