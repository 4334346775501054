-- ===== src/Transfers/Tests.antt =====
-- The replay cache at concrete inputs.
use stellar_dex_chat.Common.{[], ◌∷◌}
use stellar_dex_chat.Transfers.{ReplayCache}

abbrev old_cache : ReplayCache
old_cache = ("a", 5) ∷ []
