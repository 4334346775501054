-- ===== src/Stroops/Tests.antt =====
-- Amounts at concrete inputs.
use stellar_dex_chat.Common.{◌≡◌, refl, none, some, [], ◌∷◌}
use stellar_dex_chat.Stroops.{pos, xlm_to_stroops, stroops_to_xlm, value_from}
use stellar_dex_chat.Stroops.RoundTrip.{xlm_to_stroops-stroops_to_xlm}

-- "100.5"
hundred_and_a_half : xlm_to_stroops (b'1' ∷ b'0' ∷ b'0' ∷ b'.' ∷ b'5' ∷ []) ≡ some 1005000000
unfolding xlm_to_stroops value_from
hundred_and_a_half = refl

-- "-5"
negative_refused : xlm_to_stroops (b'-' ∷ b'5' ∷ []) ≡ none
unfolding xlm_to_stroops
negative_refused = refl

prints_a_stroop :
    stroops_to_xlm (pos 1) ≡ b'0' ∷ b'.' ∷ b'0' ∷ b'0' ∷ b'0' ∷ b'0' ∷ b'0' ∷ b'0' ∷ b'1' ∷ []
unfolding stroops_to_xlm
prints_a_stroop = refl

xlm_to_stroops-stroops_to_xlm_example :
    xlm_to_stroops (stroops_to_xlm (pos 1005000000)) ≡ some 1005000000
xlm_to_stroops-stroops_to_xlm_example = xlm_to_stroops-stroops_to_xlm 1005000000
