-- ===== src/ChatHistory/Limit.antt =====
-- chatHistory.ts: which sessions remain where there are more than fifty.
use stellar_dex_chat.Common.{
  ℕ, zero, suc, ◌≤◌, ◌≡◌, ◌∙◌, refl, sym, ap, subst, List, [], ◌∷◌, ◌⊎◌, arith, inl, inr, leb, min,
  length, length-take, take, All, All-Memᴰ, Bool-cases, Memᴰ,
}
use mathlib.Core.List.Memᴰ
use stellar_dex_chat.ChatHistory.{
  ChatSession, max_sessions, insert_session, sort_sessions, cleanup_old_sessions,
}

-- The newest come first.
abbrev Descending : List ChatSession → Type 0
Descending [] = Unit
Descending (s ∷ ss) = All (λ t. t.last_updated ≤ s.last_updated) ss × Descending ss

All-insert_session :
    (P : ChatSession → Type 0) (s : ChatSession) (ss : List ChatSession)
    → P s
    → All P ss
    → All P (insert_session s ss)
unfolding insert_session
All-insert_session P s [] h hs = (h, tt)
All-insert_session P s (t ∷ ts) h (k, ks) = elim (Bool-cases (leb t.last_updated s.last_updated)) [
  | inl first ↦ rw first (h, (k, ks))
  | inr later ↦ rw later (k, All-insert_session P s ts h ks)
]

All-trans :
    (s t : ChatSession) (ss : List ChatSession)
    → t.last_updated ≤ s.last_updated
    → All (λ u. u.last_updated ≤ t.last_updated) ss
    → All (λ u. u.last_updated ≤ s.last_updated) ss
All-trans s t [] h hs = tt
All-trans s t (u ∷ us) h (k, ks) = (omega (arith, h, k), All-trans s t us h ks)

insert_session-Descending :
    (s : ChatSession) (ss : List ChatSession) → Descending ss → Descending (insert_session s ss)
unfolding insert_session
insert_session-Descending s [] h = (tt, tt)
insert_session-Descending s (t ∷ ts) (h, hs) =
    elim (Bool-cases (leb t.last_updated s.last_updated)) [
      | inl first ↦
          let newer : t.last_updated ≤ s.last_updated = ground (arith, first) in
          rw first ((newer, All-trans s t ts newer h), (h, hs))
      | inr later ↦ rw later (
        All-insert_session (λ u. u.last_updated ≤ t.last_updated) s ts (ground (arith, later)) h,
        insert_session-Descending s ts hs,
      )
    ]

sort_sessions-Descending : (ss : List ChatSession) → Descending (sort_sessions ss)
unfolding sort_sessions
sort_sessions-Descending [] = tt
sort_sessions-Descending (s ∷ ss) =
    insert_session-Descending s (sort_sessions ss) (sort_sessions-Descending ss)

Memᴰ-insert_session_self : (s : ChatSession) (ss : List ChatSession) → Memᴰ s (insert_session s ss)
unfolding insert_session
Memᴰ-insert_session_self s [] = Memᴰ.head refl
Memᴰ-insert_session_self s (t ∷ ts) = elim (Bool-cases (leb t.last_updated s.last_updated)) [
  | inl first ↦ rw first (Memᴰ.head refl)
  | inr later ↦ rw later (Memᴰ.tail (Memᴰ-insert_session_self s ts))
]

Memᴰ-insert_session :
    (s : ChatSession) {t : ChatSession} {ss : List ChatSession}
    → Memᴰ t ss
    → Memᴰ t (insert_session s ss)
unfolding insert_session
Memᴰ-insert_session s (Memᴰ.head {x = u} {xs = us} e) =
    elim (Bool-cases (leb u.last_updated s.last_updated)) [
      | inl first ↦ rw first (Memᴰ.tail (Memᴰ.head e))
      | inr later ↦ rw later (Memᴰ.head e)
    ]
Memᴰ-insert_session s (Memᴰ.tail {x = u} m) =
    elim (Bool-cases (leb u.last_updated s.last_updated)) [
      | inl first ↦ rw first (Memᴰ.tail (Memᴰ.tail m))
      | inr later ↦ rw later (Memᴰ.tail (Memᴰ-insert_session s m))
    ]

Memᴰ-sort_sessions :
    {s : ChatSession} {ss : List ChatSession} → Memᴰ s ss → Memᴰ s (sort_sessions ss)
unfolding sort_sessions
Memᴰ-sort_sessions (Memᴰ.head {x = u} {xs = us} e) =
    subst (λ x. Memᴰ x (insert_session u (sort_sessions us))) (sym e)
      (Memᴰ-insert_session_self u (sort_sessions us))
Memᴰ-sort_sessions (Memᴰ.tail {x = u} m) = Memᴰ-insert_session u (Memᴰ-sort_sessions m)

-- Whoever is cut off is older than whoever stays.
take_or_older :
    (n : ℕ) (s t : ChatSession) (ss : List ChatSession)
    → Descending ss
    → Memᴰ s ss
    → Memᴰ t (take n ss)
    → Memᴰ s (take n ss) ⊎ (s.last_updated ≤ t.last_updated)
take_or_older zero s t ss desc there kept = absurd (Memᴰ.not-nil kept)
take_or_older (suc n) s t [] desc there kept = absurd (Memᴰ.not-nil there)
take_or_older (suc n) s t (u ∷ us) (newest, desc) there kept = elim (Memᴰ.cases_cons there) [
  | inl e ↦ inl (Memᴰ.head e)
  | inr later ↦ elim (Memᴰ.cases_cons kept) [
    | inl e ↦
        let older = All-Memᴰ (λ x. x.last_updated ≤ u.last_updated) later newest in
        inr (subst (λ x. s.last_updated ≤ x.last_updated) (sym e) older)
    | inr kept_later ↦ elim (take_or_older n s t us desc later kept_later) [
      | inl stays ↦ inl (Memᴰ.tail stays)
      | inr older ↦ inr older
    ]
  ]
]

length-insert_session :
    (s : ChatSession) (ss : List ChatSession) → length (insert_session s ss) ≡ suc (length ss)
unfolding insert_session
length-insert_session s [] = refl
length-insert_session s (t ∷ ts) = ground (arith, length-insert_session s ts)

length-sort_sessions : (ss : List ChatSession) → length (sort_sessions ss) ≡ length ss
unfolding sort_sessions
length-sort_sessions [] = refl
length-sort_sessions (s ∷ ss) =
    length-insert_session s (sort_sessions ss) ∙ ap suc (length-sort_sessions ss)

-- Cleaning up leaves fifty sessions, or all if there are fewer, and every session that goes was last
-- updated no later than each that stays.
pub cleanup_old_sessions_lem :
    (s t : ChatSession) (ss : List ChatSession)
    → Memᴰ s ss
    → Memᴰ t (cleanup_old_sessions ss)
    → (length (cleanup_old_sessions ss) ≡ min max_sessions (length ss))
      × (Memᴰ s (cleanup_old_sessions ss) ⊎ (s.last_updated ≤ t.last_updated))
unfolding cleanup_old_sessions
cleanup_old_sessions_lem s t ss there kept = elim (Bool-cases (leb (length ss) max_sessions)) [
  | inl few ↦ rw few (ground (arith, few), inl there)
  | inr many ↦ rw many (
    length-take max_sessions (sort_sessions ss) ∙ ap (min max_sessions) (length-sort_sessions ss),
    take_or_older max_sessions s t (sort_sessions ss) (sort_sessions-Descending ss)
        (Memᴰ-sort_sessions there) (rw many at kept),
  )
]
