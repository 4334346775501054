-- ===== src/AdminAllowlist/Decision.antt =====
-- security.ts: who is let through to the admin routes.
use stellar_dex_chat.Common.{
  ◌≡◌, ◌∙◌, refl, sym, ap, Bool, true, false, not, ◌&&◌, ◌||◌, Option, none, some, List, [], ◌∷◌,
  any, arith, inl, inr, leb, if◌then◌else◌, length, count_if, Bool-cases,
}
use stellar_dex_chat.Common.Text.{same, same_iff}
use stellar_dex_chat.Stroops.{Text, is_empty, trim, trim_start, trim_end, split_dot, all_digits}
use stellar_dex_chat.AdminAllowlist.{
  RequestWithIp, ConfigInput, Parsed, is_listed, is_bypassed, evaluate, evaluate_listed,
  resolve_client_ip, parse_ip_allowlist, evaluate_admin_ip_allowlist, enforce_admin_ip_allowlist,
  or_forbidden, before, normalize_candidate_ip, valid_or, strip_mapped, strip_port, has_port,
  strip_brackets, strip_quotes, strip_parameters, strip_for,
}
use stellar_dex_chat.AdminAllowlist.Addresses.{
  entries_of, is_right, is_wrong, names, parse_ip_allowlist_lem,
}

normalize_blank : normalize_candidate_ip [] ≡ []
unfolding normalize_candidate_ip strip_mapped strip_port has_port strip_brackets strip_quotes
    strip_parameters strip_for trim trim_start trim_end split_dot all_digits
normalize_blank = refl

module _ (is_ip : Text → Bool) where
  -- The address of the request is named by an entry.
  abbrev pub is_named : Option Text → List Text → Bool
  is_named none es = false
  is_named (some ip) es = any (names is_ip ip) es

  -- What lets a request through, in terms of the entries that are configured.
  abbrev pub may_pass : ConfigInput → Option Text → List Text → Bool
  may_pass config ip es =
      not (any (is_wrong is_ip) es)
      && (not (any (is_right is_ip) es) || is_bypassed config ip || is_named ip es)

  count_if_zero :
      (es : List Text) → leb (count_if (is_wrong is_ip) es) 0 ≡ not (any (is_wrong is_ip) es)
  count_if_zero [] = ground arith
  count_if_zero (e ∷ es) = ground (arith, count_if_zero es)

  nothing_named : (n : Text) → not (is_empty n) && is_ip n && same n [] ≡ false
  nothing_named [] = refl
  nothing_named (c ∷ cs) = ground arith

  names_nothing : (es : List Text) → any (names is_ip []) es ≡ false
  names_nothing [] = refl
  names_nothing (e ∷ es) = rw (nothing_named (normalize_candidate_ip e)) (names_nothing es)

  evaluate_listed_lem :
      (ip : Option Text) (es ips : List Text)
      → ((a : Text) → is_listed a ips ≡ any (names is_ip a) es)
      → ((evaluate_listed ip ips).allowed ≡ is_named ip es)
        × (or_forbidden (evaluate_listed ip ips).status ≡ 403)
  evaluate_listed_lem none es ips listed = (refl, refl)
  evaluate_listed_lem (some []) es ips listed = (sym (names_nothing es), refl)
  evaluate_listed_lem (some (c ∷ cs)) es ips listed =
      let here = listed (c ∷ cs) in (ground (arith, here), ground arith)

  evaluate_lem :
      (config : ConfigInput) (ip : Option Text) (es : List Text) (p : Parsed)
      → length p.invalid_entries ≡ count_if (is_wrong is_ip) es
      → leb (length p.allowlist) 0 ≡ not (any (is_right is_ip) es)
      → ((a : Text) → is_listed a p.allowlist ≡ any (names is_ip a) es)
      → ((evaluate config ip p).allowed ≡ may_pass config ip es)
        × (or_forbidden (evaluate config ip p).status
            ≡ (if any (is_wrong is_ip) es then 500 else 403))
  evaluate_lem config ip es p invalid empty listed =
      let (passed, code) = evaluate_listed_lem ip es p.allowlist listed in
      let none_wrong = count_if_zero es in
      (
        ground (arith, invalid, none_wrong, empty, passed),
        ground (arith, invalid, none_wrong, empty, code),
      )

  -- A request may go on exactly if every entry of the configured list that is not empty is an address,
  -- and there is no entry, or the bypass for a local address is in effect, or an entry names the
  -- address of the request. Otherwise it is stopped, with 500 if an entry is wrong, or else with 403.
  pub enforce_admin_ip_allowlist_lem :
      (request : RequestWithIp) (config : ConfigInput)
      → enforce_admin_ip_allowlist is_ip request config ≡ (
          if may_pass config (resolve_client_ip is_ip request) (entries_of config.allowlist_raw)
          then none
          else some (if any (is_wrong is_ip) (entries_of config.allowlist_raw) then 500 else 403))
  unfolding enforce_admin_ip_allowlist evaluate_admin_ip_allowlist
  enforce_admin_ip_allowlist_lem request config =
      let (listed, invalid, empty) = parse_ip_allowlist_lem is_ip config.allowlist_raw in
      let (allowed, code) =
        evaluate_lem config (resolve_client_ip is_ip request) (entries_of config.allowlist_raw)
          (parse_ip_allowlist is_ip config.allowlist_raw) (omega (arith, invalid)) empty listed in
      rw (allowed, code) refl

  and_elim : (a b c : Bool) → a && b && c ≡ true → (a ≡ true) × (b ≡ true) × (c ≡ true)
  and_elim true true true h = (refl, refl, refl)
  and_elim true true false h = ground arith
  and_elim true false c h = ground arith
  and_elim false b c h = ground arith

  -- What an entry names is an address.
  named_address :
      (ip : Text) (es : List Text)
      → any (names is_ip ip) es ≡ true
      → (is_ip ip ≡ true) × (is_empty ip ≡ false)
  named_address ip [] h = ground arith
  named_address ip (e ∷ es) h = elim (Bool-cases (names is_ip ip e)) [
    | inl here ↦
        let n = normalize_candidate_ip e in
        let (there, valid, same_text) = and_elim (not (is_empty n)) (is_ip n) (same n ip) here in
        let agree = (same_iff n ip).0 same_text in
        (rw agree at valid, ground (arith, rw agree at there))
    | inr other ↦ named_address ip es (rw other at h)
  ]

  first_resolved :
      (first : Text) (next : Option Text)
      → is_ip (normalize_candidate_ip first) ≡ true
      → is_empty (normalize_candidate_ip first) ≡ false
      → (if is_empty first then next else valid_or is_ip (normalize_candidate_ip first) next)
        ≡ some (normalize_candidate_ip first)
  first_resolved [] next valid there =
      let h : is_empty (normalize_candidate_ip []) ≡ true = ap is_empty normalize_blank in
      ground (arith, h, there)
  first_resolved (c ∷ cs) next valid there = ground (arith, valid)

  -- A request is stopped or let through by what it writes into its own header: if the first entry of
  -- `x-forwarded-for` is named by an entry of a list without wrong entries, the request may go on,
  -- wherever it comes from.
  pub forwarded_allowed :
      (request : RequestWithIp) (config : ConfigInput) (header : Text)
      → request.x_forwarded_for ≡ some header
      → any (is_wrong is_ip) (entries_of config.allowlist_raw) ≡ false
      → any
          (names is_ip (normalize_candidate_ip (trim (before b',' header))))
          (entries_of config.allowlist_raw)
        ≡ true
      → enforce_admin_ip_allowlist is_ip request config ≡ none
  forwarded_allowed request config header sent valid named =
      let first = trim (before b',' header) in
      let (address, there) =
        named_address (normalize_candidate_ip first) (entries_of config.allowlist_raw) named in
      let resolved : resolve_client_ip is_ip request ≡ some (normalize_candidate_ip first) =
        unfold resolve_client_ip in rw sent (first_resolved first _ address there) in
      enforce_admin_ip_allowlist_lem request config ∙ rw (resolved, valid, named) (ground arith)
