-- ===== src/Filters/Selection.antt =====
-- transactionFilters.ts: which transactions a filter keeps.
use stellar_dex_chat.Common.{
  some_injective, String, Bool, true, ◌&&◌, ◌||◌, ◌≡◌, refl, sym, ◌↔◌, ◌⊎◌, inl, inr, Option, none,
  some, List, [], ◌∷◌, Memᴰ, Memᴰ-filter, filter-Memᴰ, arith, any, str_eq, eq_iff, Bool-cases,
}
use stellar_dex_chat.Filters.{
  TransactionStatus, TransactionHistoryEntry, FilterState, same_status, is_empty, includes_text,
  matches, filter_transactions,
}

-- Nothing is chosen, or a value that the transaction has.
abbrev pub IsChosen {ℓ} : {A : Type ℓ} → List A → Option A → Type ℓ
IsChosen chosen value = (chosen ≡ []) ⊎ ((v : _) × Memᴰ v chosen × (value ≡ some v))

pub record IsSelected (f : FilterState) (tx : TransactionHistoryEntry) : Type 0 where
  pub status : IsChosen f.status (some tx.status)
  pub asset : IsChosen f.asset tx.asset
  pub network : IsChosen f.network tx.network

same_status_iff : (a b : TransactionStatus) → (same_status a b ≡ true) ↔ (a ≡ b)
same_status_iff a b = ground arith

module _ {ℓ} {A : Type ℓ} (same : A → A → Bool)
    (same_iff : (a b : A) → (same a b ≡ true) ↔ (a ≡ b)) where
  any-Memᴰ : (x : A) (chosen : List A) → any (λ c. same c x) chosen ≡ true → Memᴰ x chosen
  any-Memᴰ x [] h = cc
  any-Memᴰ x (c ∷ cs) h = elim (Bool-cases (same c x)) [
    | inl found ↦ Memᴰ.head (sym ((same_iff c x).0 found))
    | inr other ↦ Memᴰ.tail (any-Memᴰ x cs (rw other at h))
  ]

  Memᴰ-any : {x : A} {chosen : List A} → Memᴰ x chosen → any (λ c. same c x) chosen ≡ true
  Memᴰ-any (Memᴰ.head e) = rw ((same_iff _ _).1 (sym e)) refl
  Memᴰ-any (Memᴰ.tail m) = ground (arith, Memᴰ-any m)

  -- The source's test of one part of the filter.
  any-IsChosen :
      (chosen : List A) (x : A)
      → (is_empty chosen || any (λ c. same c x) chosen ≡ true) ↔ IsChosen chosen (some x)
  any-IsChosen [] x = (λ h. inl refl, λ h. refl)
  any-IsChosen (c ∷ cs) x = (
    λ h. inr (x, any-Memᴰ x (c ∷ cs) h, refl),
    λ h. elim h [
      | inl e ↦ absurd (cc e)
      | inr (v, m, e) ↦ Memᴰ-any {x = x} {chosen = c ∷ cs} (rw (some_injective e) m)
    ],
  )

includes_text-IsChosen :
    (chosen : List String) (value : Option String)
    → (is_empty chosen || includes_text chosen value ≡ true) ↔ IsChosen chosen value
includes_text-IsChosen chosen (some x) = any-IsChosen str_eq eq_iff chosen x
includes_text-IsChosen [] none = (λ h. inl refl, λ h. refl)
includes_text-IsChosen (c ∷ cs) none =
    (λ h. absurd (cc h), λ h. elim h [ inl e ↦ absurd (cc e) | inr (v, m, e) ↦ absurd (cc e) ])

matches_parts :
    (f : FilterState) (tx : TransactionHistoryEntry)
    → (matches f tx ≡ true) ↔ (
        (is_empty f.status || any (λ s. same_status s tx.status) f.status ≡ true)
        × (is_empty f.asset || includes_text f.asset tx.asset ≡ true)
        × (is_empty f.network || includes_text f.network tx.network ≡ true))
unfolding matches
matches_parts f tx = ground arith

matches_iff :
    (f : FilterState) (tx : TransactionHistoryEntry) → (matches f tx ≡ true) ↔ IsSelected f tx
matches_iff f tx = (
  λ h.
      let (s, a, n) = (matches_parts f tx).0 h in
      record {
        status = (any-IsChosen same_status same_status_iff f.status tx.status).0 s;
        asset = (includes_text-IsChosen f.asset tx.asset).0 a;
        network = (includes_text-IsChosen f.network tx.network).0 n;
      },
  λ h. (matches_parts f tx).1 (
    (any-IsChosen same_status same_status_iff f.status tx.status).1 h.status,
    (includes_text-IsChosen f.asset tx.asset).1 h.asset,
    (includes_text-IsChosen f.network tx.network).1 h.network,
  ),
)

matches_nothing_chosen :
    (f : FilterState) (tx : TransactionHistoryEntry)
    → is_empty f.status && is_empty f.asset && is_empty f.network ≡ true
    → matches f tx ≡ true
unfolding matches
matches_nothing_chosen f tx h = ground arith

-- The transactions shown are those that have, for each of status, asset and network, one of the values
-- chosen there, or any value if none is chosen.
pub filter_transactions_iff :
    (transactions : List TransactionHistoryEntry) (f : FilterState) (tx : TransactionHistoryEntry)
    → Memᴰ tx (filter_transactions transactions f) ↔ (Memᴰ tx transactions × IsSelected f tx)
unfolding filter_transactions
filter_transactions_iff transactions f tx =
    elim (Bool-cases (is_empty f.status && is_empty f.asset && is_empty f.network)) [
      | inl nothing ↦
          rw nothing
            (λ m. (m, (matches_iff f tx).0 (matches_nothing_chosen f tx nothing)), λ (m, h). m)
      | inr something ↦ rw something (
        λ m.
            let (there, kept) = Memᴰ-filter (matches f) transactions m in
            (there, (matches_iff f tx).0 kept),
        λ (there, selected). filter-Memᴰ (matches f) there ((matches_iff f tx).1 selected),
      )
    ]
