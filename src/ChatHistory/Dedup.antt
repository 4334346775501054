-- ===== src/ChatHistory/Dedup.antt =====
-- chatHistory.ts: which of the sessions with one id is kept.
use stellar_dex_chat.Common.{
  ℕ, ◌≤◌, ◌≡◌, ◌∙◌, refl, sym, ap, subst, String, Bool, false, none, some, List, [], ◌∷◌, map,
  arith, inl, inr, ltb, if◌then◌else◌, str_eq, eq_iff, Bool-cases, Option-cases, some_injective,
  Memᴰ, get, put, get-put, get-put_self, IsMap, put-IsMap, count_if, All,
}
use mathlib.Core.List.Memᴰ
use stellar_dex_chat.ChatHistory.{ChatSession, is_newer, merge_sessions, deduplicate_sessions}

-- The map holds a session with the id that is at least as recent.
abbrev Holds : String → ℕ → List (String × ChatSession) → Type 0
Holds k t m = (s : ChatSession) × (get k m ≡ some s) × (t ≤ s.last_updated)

abbrev step : ChatSession → List (String × ChatSession) → List (String × ChatSession)
step s m = if is_newer s (get s.id m) then put s.id s m else m

step-Holds :
    (k : String) (t : ℕ) (s : ChatSession) (m : List (String × ChatSession))
    → Holds k t m
    → Holds k t (step s m)
step-Holds k t s m (old, there, late) = elim (Bool-cases (is_newer s (get s.id m))) [
  | inl newer ↦ rw newer (elim (Bool-cases (str_eq s.id k)) [
    | inl same ↦
        let here : get s.id m ≡ some old = ap (λ j. get j m) ((eq_iff s.id k).0 same) ∙ there in
        let later = rw here at newer in
        (s, get-put s.id k s m ∙ rw same refl, ground (arith, later, late))
    | inr other ↦ (old, get-put s.id k s m ∙ rw other there, late)
  ])
  | inr older ↦ rw older (old, there, late)
]

step-Holds_self :
    (s : ChatSession) (m : List (String × ChatSession)) → Holds s.id s.last_updated (step s m)
step-Holds_self s m = elim (Option-cases (get s.id m)) [
  | inl absent ↦ rw absent (s, get-put_self s.id s m, omega arith)
  | inr (old, there) ↦ rw there (elim (Bool-cases (ltb old.last_updated s.last_updated)) [
    | inl newer ↦ rw newer (s, get-put_self s.id s m, omega arith)
    | inr older ↦ rw older (old, there, ground (arith, older))
  ])
]

merge_sessions-Holds :
    (k : String) (t : ℕ) (ss : List ChatSession) (m : List (String × ChatSession))
    → Holds k t m
    → Holds k t (merge_sessions ss m)
unfolding merge_sessions
merge_sessions-Holds k t [] m h = h
merge_sessions-Holds k t (s ∷ ss) m h =
    merge_sessions-Holds k t ss (step s m) (step-Holds k t s m h)

merge_sessions-Holds_each :
    (s : ChatSession) (ss : List ChatSession) (m : List (String × ChatSession))
    → Memᴰ s ss
    → Holds s.id s.last_updated (merge_sessions ss m)
unfolding merge_sessions
merge_sessions-Holds_each s [] m there = absurd (Memᴰ.not-nil there)
merge_sessions-Holds_each s (u ∷ ss) m (Memᴰ.head e) =
    merge_sessions-Holds s.id s.last_updated ss (step u m)
      (subst (λ x. Holds s.id s.last_updated (step x m)) e (step-Holds_self s m))
merge_sessions-Holds_each s (u ∷ ss) m (Memᴰ.tail there) =
    merge_sessions-Holds_each s ss (step u m) there

-- Each session stands under its own id, and the ids are distinct.
abbrev IsKeyed : List (String × ChatSession) → Type 0
IsKeyed m = All (λ p. p.1.id ≡ p.0) m

put-IsKeyed :
    (s : ChatSession) (m : List (String × ChatSession)) → IsKeyed m → IsKeyed (put s.id s m)
unfolding put
put-IsKeyed s [] h = (refl, tt)
put-IsKeyed s ((j, t) ∷ m) (h, hs) = elim (Bool-cases (str_eq j s.id)) [
  | inl same ↦ rw same (sym ((eq_iff j s.id).0 same), hs)
  | inr other ↦ rw other (h, put-IsKeyed s m hs)
]

merge_sessions-IsKeyed :
    (ss : List ChatSession) (m : List (String × ChatSession))
    → IsMap m × IsKeyed m
    → IsMap (merge_sessions ss m) × IsKeyed (merge_sessions ss m)
unfolding merge_sessions
merge_sessions-IsKeyed [] m h = h
merge_sessions-IsKeyed (s ∷ ss) m (distinct, keyed) =
    merge_sessions-IsKeyed ss (step s m) (elim (Bool-cases (is_newer s (get s.id m))) [
      | inl newer ↦ rw newer (put-IsMap s.id s m distinct, put-IsKeyed s m keyed)
      | inr older ↦ rw older (distinct, keyed)
    ])

abbrev values : List (String × ChatSession) → List ChatSession
values m = map (λ p. p.1) m

abbrev pub is_id : String → ChatSession → Bool
is_id k s = str_eq s.id k

values-found :
    (k : String) (s : ChatSession) (m : List (String × ChatSession))
    → get k m ≡ some s
    → IsKeyed m
    → Memᴰ s (values m) × (s.id ≡ k)
unfolding get
values-found k s [] h keyed = ground arith
values-found k s ((j, t) ∷ m) h (id, keyed) = elim (Bool-cases (str_eq j k)) [
  | inl same ↦
      let e : t ≡ s = some_injective (rw same at h) in
      (Memᴰ.head (sym e), ap (λ x. x.id) (sym e) ∙ id ∙ (eq_iff j k).0 same)
  | inr other ↦
      let (there, named) = values-found k s m (rw other at h) keyed in (Memᴰ.tail there, named)
]

values-none :
    (k : String) (m : List (String × ChatSession))
    → get k m ≡ none
    → IsKeyed m
    → count_if (is_id k) (values m) ≡ 0
unfolding get
values-none k [] h keyed = refl
values-none k ((j, t) ∷ m) h (id, keyed) = elim (Bool-cases (str_eq j k)) [
  | inl same ↦ let e : some t ≡ none = rw same at h in ground arith
  | inr other ↦
      let differs : is_id k t ≡ false = ap (λ i. str_eq i k) id ∙ other in
      rw differs (values-none k m (rw other at h) keyed)
]

values-count :
    (k : String) (m : List (String × ChatSession))
    → IsMap m
    → IsKeyed m
    → count_if (is_id k) (values m) ≤ 1
values-count k [] distinct keyed = omega arith
values-count k ((j, t) ∷ m) (new, distinct) (id, keyed) = elim (Bool-cases (is_id k t)) [
  | inl same ↦
      let e : j ≡ k = sym id ∙ (eq_iff t.id k).0 same in
      rw same (omega (arith, values-none k m (ap (λ i. get i m) (sym e) ∙ new) keyed))
  | inr other ↦ rw other (values-count k m distinct keyed)
]

-- For every session of a list, deduplication keeps one with the same id that was updated at the same
-- time or later, and no second one with that id.
pub deduplicate_sessions_lem :
    (s : ChatSession) (ss : List ChatSession)
    → Memᴰ s ss
    → ((t : ChatSession) × Memᴰ t (deduplicate_sessions ss)
        × (t.id ≡ s.id)
        × (s.last_updated ≤ t.last_updated))
      × (count_if (is_id s.id) (deduplicate_sessions ss) ≤ 1)
unfolding deduplicate_sessions
deduplicate_sessions_lem s ss there =
    let (distinct, keyed) = merge_sessions-IsKeyed ss [] (tt, tt) in
    let (t, found, later) = merge_sessions-Holds_each s ss [] there in
    let (kept, same) = values-found s.id t (merge_sessions ss []) found keyed in
    ((t, kept, same, later), values-count s.id (merge_sessions ss []) distinct keyed)
