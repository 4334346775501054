-- ===== src/ChatSearch/Matching.antt =====
-- chatSearch.ts: which messages a search returns.
use mathlib.Core.List.Memᴰ
use stellar_dex_chat.Common.{
  ℕ, true, false, not, ◌&&◌, ◌≡◌, ◌≢◌, refl, ◌↔◌, inl, inr, Option, List, [], ◌∷◌, Memᴰ, arith,
  Bool-cases,
}
use stellar_dex_chat.Common.Text.{includes}
use stellar_dex_chat.Stroops.{Text, trim}
use stellar_dex_chat.ChatSearch.{
  ChatMessage, ChatSession, SearchFilters, MessageMatch, is_system, or_empty, or_untitled,
  has_keyword, has_wallet, has_date, highlights_of, none_found, find_highlights, matches_date_range,
  is_match, matches_in, has_session_wallet, matches_of, search_chat_history,
}

module _ (to_lower_case : Text → Text) (time_of : Text → Option ℕ) where
  -- The match that a message of a session gives.
  abbrev pub match_of : SearchFilters → ChatSession → ChatMessage → MessageMatch
  match_of f s m = record {
    session_id = s.id;
    session_title = or_untitled s.title;
    message = m;
    highlights = highlights_of to_lower_case time_of f m;
  }

  -- A message of the session passes the filters, each of which that is empty passes all: the keyword occurs in
  -- it, it lies between the dates, and the session's wallet contains the address.
  pub record IsHit (f : SearchFilters) (s : ChatSession) (m : ChatMessage) : Type 0 where
    pub spoken : is_system m.role ≡ false
    pub wallet :
        has_wallet to_lower_case time_of f ≡ true
        → includes
            (to_lower_case (or_empty s.wallet_address))
            (to_lower_case (trim f.wallet_address))
          ≡ true
    pub date :
        has_date to_lower_case time_of f ≡ true
        → matches_date_range to_lower_case time_of m f.date_from f.date_to ≡ true
    pub keyword :
        has_keyword to_lower_case time_of f ≡ true
        → find_highlights to_lower_case time_of m.content (trim f.keyword) ≢ []

  is_match_iff :
      (f : SearchFilters) (m : ChatMessage)
      → (is_match to_lower_case time_of f m ≡ true) ↔ (
          (is_system m.role ≡ false)
          × (has_date to_lower_case time_of f ≡ true
              → matches_date_range to_lower_case time_of m f.date_from f.date_to ≡ true)
          × (has_keyword to_lower_case time_of f ≡ true
              → none_found to_lower_case time_of (highlights_of to_lower_case time_of f m) ≡ false))
  unfolding is_match
  is_match_iff f m = ground arith

  some_found : (hs : List (ℕ × ℕ)) → (none_found to_lower_case time_of hs ≡ false) ↔ (hs ≢ [])
  some_found [] = (λ h e. cc h, λ h. absurd (h refl))
  some_found (h ∷ hs) = (λ e k. cc k, λ k. refl)

  found-keyword :
      (f : SearchFilters) (m : ChatMessage)
      → has_keyword to_lower_case time_of f ≡ true
      → highlights_of to_lower_case time_of f m
        ≡ find_highlights to_lower_case time_of m.content (trim f.keyword)
  found-keyword f m h = rw h refl

  has_session_wallet_iff :
      (f : SearchFilters) (s : ChatSession)
      → (has_session_wallet to_lower_case time_of f s ≡ true) ↔ (
          has_wallet to_lower_case time_of f ≡ true
          → includes
              (to_lower_case (or_empty s.wallet_address))
              (to_lower_case (trim f.wallet_address))
            ≡ true)
  unfolding has_session_wallet
  has_session_wallet_iff f s = ground arith

  is_match-IsHit :
      (f : SearchFilters) (s : ChatSession) (m : ChatMessage)
      → has_session_wallet to_lower_case time_of f s ≡ true
      → is_match to_lower_case time_of f m ≡ true
      → IsHit f s m
  is_match-IsHit f s m wallet match =
      let (spoken, date, keyword) = (is_match_iff f m).0 match in
      record {
        spoken = spoken;
        wallet = (has_session_wallet_iff f s).0 wallet;
        date = date;
        keyword = λ asked. (some_found _).0 (rw (found-keyword f m asked) at (keyword asked));
      }

  IsHit-is_match :
      (f : SearchFilters) (s : ChatSession) (m : ChatMessage)
      → IsHit f s m
      → is_match to_lower_case time_of f m ≡ true
  IsHit-is_match f s m h =
      (is_match_iff f m).1 (
        h.spoken,
        h.date,
        λ asked. rw (found-keyword f m asked) ((some_found _).1 (h.keyword asked)),
      )

  module _ (f : SearchFilters) (x : MessageMatch) where
    Memᴰ-matches_in :
        (s : ChatSession) (ms : List ChatMessage)
        → Memᴰ x (matches_in to_lower_case time_of f s ms)
        → (m : ChatMessage) × Memᴰ m ms
          × (is_match to_lower_case time_of f m ≡ true)
          × (x ≡ match_of f s m)
    unfolding matches_in
    Memᴰ-matches_in s [] h = absurd (Memᴰ.not-nil h)
    Memᴰ-matches_in s (m ∷ ms) h = elim (Bool-cases (is_match to_lower_case time_of f m)) [
      | inl hit ↦ elim (Memᴰ.cases_cons (rw hit at h)) [
        | inl e ↦ (m, Memᴰ.head refl, hit, e)
        | inr later ↦
            let (n, there, found, e) = Memᴰ-matches_in s ms later in (n, Memᴰ.tail there, found, e)
      ]
      | inr miss ↦
          let (n, there, found, e) = Memᴰ-matches_in s ms (rw miss at h) in
          (n, Memᴰ.tail there, found, e)
    ]

    Memᴰ-matches_of :
        (ss : List ChatSession)
        → Memᴰ x (matches_of to_lower_case time_of f ss)
        → (s : ChatSession) × (m : ChatMessage) × Memᴰ s ss
          × Memᴰ m s.messages
          × IsHit f s m
          × (x ≡ match_of f s m)
    unfolding matches_of
    Memᴰ-matches_of [] h = absurd (Memᴰ.not-nil h)
    Memᴰ-matches_of (s ∷ ss) h = elim (Bool-cases (has_session_wallet to_lower_case time_of f s)) [
      | inl wallet ↦
          elim (Memᴰ.append_cases (matches_in to_lower_case time_of f s s.messages)
            (rw wallet at h)) [
              | inl here ↦
                  let (m, there, hit, e) = Memᴰ-matches_in s s.messages here in
                  (s, m, Memᴰ.head refl, there, is_match-IsHit f s m wallet hit, e)
              | inr later ↦
                  let (t, m, place, there, hit, e) = Memᴰ-matches_of ss later in
                  (t, m, Memᴰ.tail place, there, hit, e)
            ]
      | inr other ↦
          let (t, m, place, there, hit, e) = Memᴰ-matches_of ss (rw other at h) in
          (t, m, Memᴰ.tail place, there, hit, e)
    ]

  module _ (f : SearchFilters) (m : ChatMessage) where
    matches_in-Memᴰ :
        (s : ChatSession) (ms : List ChatMessage)
        → Memᴰ m ms
        → is_match to_lower_case time_of f m ≡ true
        → Memᴰ (match_of f s m) (matches_in to_lower_case time_of f s ms)
    unfolding matches_in
    matches_in-Memᴰ s [] h hit = absurd (Memᴰ.not-nil h)
    matches_in-Memᴰ s (n ∷ ms) (Memᴰ.head e) hit = rw (← e) (rw hit (Memᴰ.head refl))
    matches_in-Memᴰ s (n ∷ ms) (Memᴰ.tail h) hit =
        elim (Bool-cases (is_match to_lower_case time_of f n)) [
          | inl also ↦ rw also (Memᴰ.tail (matches_in-Memᴰ s ms h hit))
          | inr miss ↦ rw miss (matches_in-Memᴰ s ms h hit)
        ]

    matches_of-Memᴰ :
        (s : ChatSession) (ss : List ChatSession)
        → Memᴰ s ss
        → Memᴰ m s.messages
        → IsHit f s m
        → Memᴰ (match_of f s m) (matches_of to_lower_case time_of f ss)
    unfolding matches_of
    matches_of-Memᴰ s [] h there hit = absurd (Memᴰ.not-nil h)
    matches_of-Memᴰ s (t ∷ ss) (Memᴰ.head e) there hit = rw (← e) (
        rw ((has_session_wallet_iff f s).1 hit.wallet)
          (Memᴰ.append_left _ (matches_in-Memᴰ s s.messages there (IsHit-is_match f s m hit))))
    matches_of-Memᴰ s (t ∷ ss) (Memᴰ.tail place) there hit =
        elim (Bool-cases (has_session_wallet to_lower_case time_of f t)) [
          | inl also ↦ rw also (Memᴰ.append_right _ (matches_of-Memᴰ s ss place there hit))
          | inr other ↦ rw other (matches_of-Memᴰ s ss place there hit)
        ]

  -- Some filter is not empty.
  abbrev pub HasFilter : SearchFilters → Type 0
  HasFilter f =
      not (has_keyword to_lower_case time_of f)
        && not (has_wallet to_lower_case time_of f)
        && not (has_date to_lower_case time_of f)
      ≡ false

  -- If some filter is not empty, a search returns exactly the matches of the messages that pass all
  -- filters, each with its session and the highlights of the keyword.
  pub search_chat_history_iff :
      (sessions : List ChatSession) (f : SearchFilters) (x : MessageMatch)
      → HasFilter f
      → Memᴰ x (search_chat_history to_lower_case time_of sessions f).matches ↔ (
          (s : ChatSession) × (m : ChatMessage) × Memᴰ s sessions
          × Memᴰ m s.messages
          × IsHit f s m
          × (x ≡ match_of f s m))
  unfolding search_chat_history
  search_chat_history_iff sessions f x some_filter = rw some_filter (
    λ h. Memᴰ-matches_of f x sessions h,
    λ (s, m, place, there, hit, e). rw e (matches_of-Memᴰ f m s sessions place there hit),
  )
