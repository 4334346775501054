-- ===== src/Drafts/Expiry.antt =====
-- draftUtils.ts: what clearing the expired drafts leaves in the storage.
use stellar_dex_chat.Common.{
  ℕ, ◌≡◌, ◌∙◌, refl, sym, ap, String, Option, none, some, [], ◌∷◌, inl, inr, if◌then◌else◌, str_eq,
  eq_iff, Bool-cases, Option-cases, get, IsMap,
}
use text.Mathlib.TextPositions.{starts_with-append}
use stellar_dex_chat.Drafts.{
  Draft, Storage, draft_key, draft_prefix, read_item, is_expired, is_dropped, clear_expired_drafts,
}
use stellar_dex_chat.Drafts.Board.{fresh_at}

module _ (stringify : Draft → String) (parse : String → Option Draft) where
  abbrev pub kept_at : ℕ → ℕ → String → Option String → Option String
  kept_at now ttl k none = none
  kept_at now ttl k (some text) =
      if is_dropped stringify parse now ttl (k, text) then none else some text

  pub get-clear_expired_drafts :
      (now ttl : ℕ) (k : String) (st : Storage)
      → IsMap st
      → get k (clear_expired_drafts stringify parse now ttl st) ≡ kept_at now ttl k (get k st)
  unfolding clear_expired_drafts get
  get-clear_expired_drafts now ttl k [] h = refl
  get-clear_expired_drafts now ttl k ((j, text) ∷ st) (new, h) =
      let rest = get-clear_expired_drafts now ttl k st h in
      elim (Bool-cases (str_eq j k)) [
        | inl same ↦
            let e : j ≡ k = (eq_iff j k).0 same in
            let absent : get k st ≡ none = ap (λ i. get i st) (sym e) ∙ new in
            let moved = ap (λ i. is_dropped stringify parse now ttl (i, text)) e in
            elim (Bool-cases (is_dropped stringify parse now ttl (k, text))) [
              | inl gone ↦
                  rw (moved ∙ gone) (rw same (rw gone (rest ∙ ap (kept_at now ttl k) absent)))
              | inr stays ↦ rw (moved ∙ stays) (rw same (rw stays refl))
            ]
        | inr other ↦ elim (Bool-cases (is_dropped stringify parse now ttl (j, text))) [
          | inl gone ↦ rw gone (rw other rest)
          | inr stays ↦ rw stays (rw other rest)
        ]
      ]

  pub clear_expired_drafts-IsMap :
      (now ttl : ℕ) (st : Storage)
      → IsMap st
      → IsMap (clear_expired_drafts stringify parse now ttl st)
  unfolding clear_expired_drafts
  clear_expired_drafts-IsMap now ttl [] h = tt
  clear_expired_drafts-IsMap now ttl ((j, text) ∷ st) (new, h) =
      let rest = clear_expired_drafts-IsMap now ttl st h in
      elim (Bool-cases (is_dropped stringify parse now ttl (j, text))) [
        | inl gone ↦ rw gone rest
        | inr stays ↦
            rw stays (get-clear_expired_drafts now ttl j st h ∙ ap (kept_at now ttl j) new, rest)
      ]

  pub read-kept_at :
      (now ttl : ℕ) (s : String) (x : Option String)
      → read_item stringify parse (kept_at now ttl (draft_key s) x)
        ≡ fresh_at now ttl (read_item stringify parse x)
  read-kept_at now ttl s none = refl
  read-kept_at now ttl s (some text) =
      rw (starts_with-append draft_prefix s) (elim (Bool-cases (str_eq text "")) [
        | inl blank ↦ rw blank (rw blank refl)
        | inr there ↦ rw there (elim (Option-cases (parse text)) [
          | inl bad ↦ rw bad refl
          | inr (d, good) ↦ rw good (elim (Bool-cases (is_expired now ttl d)) [
            | inl old ↦ rw old refl
            | inr young ↦ rw young (rw there good)
          ])
        ])
      ])
