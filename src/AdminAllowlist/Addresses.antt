-- ===== src/AdminAllowlist/Addresses.antt =====
-- security.ts: what the parsed allowlist holds, entry by entry.
use stellar_dex_chat.Common.{
  ◌+◌, ◌≤◌, ◌≡◌, ◌∙◌, refl, ap, Bool, not, ◌&&◌, ◌||◌, Option, List, [], ◌∷◌, any, any-append_one,
  arith, inl, inr, leb, if◌then◌else◌, length, length-append, count_if, Bool-cases,
}
use stellar_dex_chat.Common.Text.{same, same_iff}
use stellar_dex_chat.Stroops.{Text, is_empty, trim}
use stellar_dex_chat.FilterUrl.{split_commas}
use stellar_dex_chat.AdminAllowlist.{
  Parsed, is_listed, add_ip, add_entry, normalize_candidate_ip, parse_entries, parse_ip_allowlist,
  or_nothing,
}

-- The entries of a configured list.
abbrev pub entries_of : Option Text → List Text
entries_of raw = if is_empty (trim (or_nothing raw)) then [] else split_commas (or_nothing raw)

module _ (is_ip : Text → Bool) where
  abbrev right : Text → Bool
  right normalized = not (is_empty normalized) && is_ip normalized

  abbrev wrong : Text → Bool
  wrong normalized = not (is_empty normalized) && not (is_ip normalized)

  abbrev pub is_right : Text → Bool
  is_right entry = right (normalize_candidate_ip entry)

  abbrev pub is_wrong : Text → Bool
  is_wrong entry = wrong (normalize_candidate_ip entry)

  -- An entry names an address.
  abbrev pub names : Text → Text → Bool
  names ip entry = is_right entry && same (normalize_candidate_ip entry) ip

  is_listed-add_ip :
      (ip a : Text) (ips : List Text) → is_listed ip (add_ip a ips) ≡ is_listed ip ips || same a ip
  is_listed-add_ip ip a ips = elim (Bool-cases (is_listed a ips)) [
    | inl there ↦ rw there (elim (Bool-cases (same a ip)) [
      | inl e ↦ rw e (rw ((same_iff a ip).0 e) at there ∙ ground arith)
      | inr e ↦ rw e (ground arith)
    ])
    | inr new ↦ rw new (any-append_one (λ x. same x ip) ips a)
  ]

  length-add_ip : (a : Text) (ips : List Text) → 1 ≤ length (add_ip a ips)
  length-add_ip a [] = ground arith
  length-add_ip a (x ∷ xs) = ground (arith, length-append xs (a ∷ []))

  is_listed-add_entry :
      (ip entry n : Text) (p : Parsed)
      → is_listed ip (add_entry is_ip entry n p).allowlist
        ≡ is_listed ip p.allowlist || right n && same n ip
  is_listed-add_entry ip entry n p = elim (Bool-cases (is_empty n)) [
    | inl e ↦ rw e (ground arith)
    | inr e ↦ rw e (elim (Bool-cases (is_ip n)) [
      | inl valid ↦ rw valid (is_listed-add_ip ip n p.allowlist)
      | inr invalid ↦ rw invalid (ground arith)
    ])
  ]

  invalid-add_entry :
      (entry n : Text) (p : Parsed)
      → length (add_entry is_ip entry n p).invalid_entries
        ≡ length p.invalid_entries + (if wrong n then 1 else 0)
  invalid-add_entry entry n p = ground (arith, length-append p.invalid_entries (trim entry ∷ []))

  listed-add_entry :
      (entry n : Text) (p : Parsed)
      → leb (length (add_entry is_ip entry n p).allowlist) 0
        ≡ leb (length p.allowlist) 0 && not (right n)
  listed-add_entry entry n p = ground (arith, length-add_ip n p.allowlist)

  -- Reading the entries one after the other, in terms of the entries.
  abbrev Reads : List Text → Parsed → Parsed → Type 0
  Reads es p q =
      ((ip : Text) → is_listed ip q.allowlist ≡ is_listed ip p.allowlist || any (names ip) es)
      × (length q.invalid_entries ≡ length p.invalid_entries + count_if is_wrong es)
      × (leb (length q.allowlist) 0 ≡ leb (length p.allowlist) 0 && not (any is_right es))

  or_assoc : (a b c : Bool) → (a || b) || c ≡ a || (b || c)
  or_assoc a b c = ground arith

  and_not_or : (a b c : Bool) → (a && not b) && not c ≡ a && not (b || c)
  and_not_or a b c = ground arith

  parse_entries-Reads : (es : List Text) (p : Parsed) → Reads es p (parse_entries is_ip es p)
  unfolding parse_entries
  parse_entries-Reads [] p = (λ ip. ground arith, omega arith, ground arith)
  parse_entries-Reads (e ∷ es) p =
      let n = normalize_candidate_ip e in
      let (listed, invalid, empty) = parse_entries-Reads es (add_entry is_ip e n p) in
      (
        λ ip.
            listed ip
            ∙ ap (λ b. b || any (names ip) es) (is_listed-add_entry ip e n p)
            ∙ or_assoc (is_listed ip p.allowlist) (names ip e) (any (names ip) es),
        ground (arith, invalid, invalid-add_entry e n p),
        empty
            ∙ ap (λ b. b && not (any is_right es)) (listed-add_entry e n p)
            ∙ and_not_or (leb (length p.allowlist) 0) (is_right e) (any is_right es),
      )

  abbrev empty_parse : Parsed
  empty_parse = record { allowlist = []; invalid_entries = [] }

  -- An address is on the list exactly if an entry names it; the entries that are neither empty nor
  -- addresses are kept apart, each once; and the list is empty exactly if no entry is an address.
  pub parse_ip_allowlist_lem :
      (raw : Option Text) → Reads (entries_of raw) empty_parse (parse_ip_allowlist is_ip raw)
  unfolding parse_ip_allowlist parse_entries
  parse_ip_allowlist_lem raw = elim (Bool-cases (is_empty (trim (or_nothing raw)))) [
    | inl blank ↦ rw blank (λ ip. refl, refl, refl)
    | inr there ↦ rw there (parse_entries-Reads (split_commas (or_nothing raw)) empty_parse)
  ]
