-- ===== src/AdminAllowlist.antt =====
-- Dechat/dex_with_fiat_frontend/src/lib/security.ts: which addresses may call the admin routes. A text
-- is the list of its UTF-16 code units; `net.isIP` is a parameter; the configuration and the headers
-- are arguments.
pub mod Addresses
pub mod Decision
mod Tests
use stellar_dex_chat.Common.{
  ℕ, String, Bool, true, false, not, ◌&&◌, ◌||◌, Option, none, some, List, [], ◌∷◌, ◌++◌, map, any,
  drop, leb, ◌==◌, if◌then◌else◌, length, str_eq,
}
use stellar_dex_chat.Common.Text.{to_lower, same, starts_with, includes, codes}
use stellar_dex_chat.Stroops.{Text, is_empty, is_digit, all_digits, trim, split_dot}
use stellar_dex_chat.FilterUrl.{split_commas}

-- `text.split(separator)[0]`
abbrev pub before : ℕ → Text → Text
before sep [] = []
before sep (c ∷ cs) = let rest = before sep cs in if c == sep then [] else c ∷ rest

-- What stands after the first separator.
abbrev pub after : ℕ → Text → Text
after sep [] = []
after sep (c ∷ cs) = let rest = after sep cs in if c == sep then cs else rest

-- `text.slice(0, -1)`
abbrev pub drop_last : Text → Text
drop_last [] = []
drop_last (c ∷ []) = []
drop_last (c ∷ d ∷ cs) = c ∷ drop_last (d ∷ cs)

abbrev pub ends_with : ℕ → Text → Bool
ends_with k [] = false
ends_with k (c ∷ []) = c == k
ends_with k (c ∷ d ∷ cs) = ends_with k (d ∷ cs)

unfoldable pub strip_for : Text → Text
unfolding to_lower
strip_for cs = if starts_with (map to_lower cs) (codes "for=") then trim (drop 4 cs) else cs

unfoldable pub strip_parameters : Text → Text
strip_parameters cs = if includes cs (b';' ∷ []) then trim (before b';' cs) else cs

unfoldable pub strip_quotes : Text → Text
strip_quotes cs =
    let opened = if starts_with cs (codes "\"") then drop 1 cs else cs in
    if ends_with b'"' opened then drop_last opened else opened

-- `candidate.slice(1, candidate.indexOf(']'))`; the bracket that closes is not the first character.
unfoldable pub strip_brackets : Text → Text
strip_brackets cs =
    if starts_with cs (codes "[") && includes cs (codes "]") then drop 1 (before b']' cs) else cs

-- The expression `/^(\d{1,3}(?:\.\d{1,3}){3}):\d+$/`.
abbrev pub is_short_number : Text → Bool
is_short_number cs = not (is_empty cs) && leb (length cs) 3 && all_digits cs

abbrev pub are_four : List Text → Bool
are_four (p ∷ q ∷ r ∷ s ∷ []) =
    is_short_number p && is_short_number q && is_short_number r && is_short_number s
are_four _ = false

unfoldable pub has_port : Text → Bool
unfolding split_dot all_digits
has_port cs =
    are_four (split_dot (before b':' cs))
    && not (is_empty (after b':' cs))
    && all_digits (after b':' cs)

unfoldable pub strip_port : Text → Text
unfolding has_port
strip_port cs = if has_port cs then before b':' cs else cs

unfoldable pub strip_mapped : Text → Text
strip_mapped cs = if starts_with cs (codes "::ffff:") then drop 7 cs else cs

unfoldable pub normalize_candidate_ip : Text → Text
normalize_candidate_ip raw =
    strip_mapped
      (strip_port (strip_brackets (strip_quotes (strip_parameters (strip_for (trim raw))))))

abbrev pub is_loopback_ip : Text → Bool
is_loopback_ip ip = same ip (codes "::1") || starts_with ip (codes "127.")

-- The headers that the address is read from, and `request.ip`.
pub record RequestWithIp : Type 0 where
  pub x_forwarded_for : Option Text
  pub forwarded : Option Text
  pub x_real_ip : Option Text
  pub cf_connecting_ip : Option Text
  pub x_vercel_forwarded_for : Option Text
  pub ip : Option Text

pub record Parsed : Type 0 where
  pub allowlist : List Text
  pub invalid_entries : List Text

pub record ConfigInput : Type 0 where
  pub allowlist_raw : Option Text
  pub bypass_local : Bool
  pub node_env : String

pub data Reason : Type 0 where
  allowlist_disabled allowlist_bypass_local allowlist_allowed : Reason
  allowlist_denied allowlist_ip_unresolved allowlist_misconfigured : Reason

pub record Evaluation : Type 0 where
  pub allowed : Bool
  pub status : Option ℕ
  pub reason : Reason
  pub request_ip : Option Text

abbrev pub is_listed : Text → List Text → Bool
is_listed ip ips = any (λ a. same a ip) ips

-- `set.add(ip)`
abbrev pub add_ip : Text → List Text → List Text
add_ip ip ips = if is_listed ip ips then ips else ips ++ ip ∷ []

abbrev pub or_nothing : Option Text → Text
or_nothing none = []
or_nothing (some t) = t

abbrev pub is_bypassed : ConfigInput → Option Text → Bool
is_bypassed config none = false
is_bypassed config (some ip) =
    config.bypass_local && not (str_eq config.node_env "production") && is_loopback_ip ip

abbrev pub evaluation : Bool → Option ℕ → Reason → Option Text → Evaluation
evaluation allowed status reason ip = record {
  allowed = allowed;
  status = status;
  reason = reason;
  request_ip = ip;
}

abbrev pub evaluate_listed : Option Text → List Text → Evaluation
evaluate_listed none ips = evaluation false (some 403) allowlist_ip_unresolved none
evaluate_listed (some ip) ips =
    if is_empty ip
    then evaluation false (some 403) allowlist_ip_unresolved none
    else if is_listed ip ips
    then evaluation true none allowlist_allowed (some ip)
    else evaluation false (some 403) allowlist_denied (some ip)

abbrev pub evaluate : ConfigInput → Option Text → Parsed → Evaluation
evaluate config ip parsed =
    if not (leb (length parsed.invalid_entries) 0)
    then evaluation false (some 500) allowlist_misconfigured ip
    else if leb (length parsed.allowlist) 0
    then evaluation true none allowlist_disabled ip
    else if is_bypassed config ip
    then evaluation true none allowlist_bypass_local ip
    else evaluate_listed ip parsed.allowlist

abbrev pub or_forbidden : Option ℕ → ℕ
or_forbidden none = 403
or_forbidden (some status) = status

module _ (is_ip : Text → Bool) where
  abbrev pub add_entry : Text → Text → Parsed → Parsed
  add_entry entry normalized parsed =
      if is_empty normalized
      then parsed
      else if is_ip normalized
      then record parsed { allowlist = add_ip normalized parsed.allowlist }
      else record parsed { invalid_entries = parsed.invalid_entries ++ trim entry ∷ [] }

  unfoldable pub parse_entries : List Text → Parsed → Parsed
  parse_entries [] parsed = parsed
  parse_entries (entry ∷ entries) parsed =
      parse_entries entries (add_entry entry (normalize_candidate_ip entry) parsed)

  unfoldable pub parse_ip_allowlist : Option Text → Parsed
  parse_ip_allowlist raw =
      if is_empty (trim (or_nothing raw))
      then record { allowlist = []; invalid_entries = [] }
      else parse_entries (split_commas (or_nothing raw))
          (record { allowlist = []; invalid_entries = [] })

  -- The candidate if it is an address, or else what the next source gives.
  abbrev pub valid_or : Text → Option Text → Option Text
  valid_or candidate next = if is_ip candidate then some candidate else next

  -- The first entry of a list of forwarders.
  abbrev pub first_of : Option Text → Option Text → Option Text
  first_of none next = next
  first_of (some header) next =
      let first = trim (before b',' header) in
      if is_empty first then next else valid_or (normalize_candidate_ip first) next

  -- A header that names one address; an empty one counts as missing.
  abbrev pub direct_of : Option Text → Option Text → Option Text
  direct_of none next = next
  direct_of (some value) next =
      if is_empty value then next else valid_or (normalize_candidate_ip value) next

  -- An address that is empty once it is normalized counts as none.
  abbrev pub fallback_of : Option Text → Option Text
  fallback_of none = none
  fallback_of (some value) =
      if is_empty value || is_empty (normalize_candidate_ip value)
      then none
      else valid_or (normalize_candidate_ip value) none

  unfoldable pub resolve_client_ip : RequestWithIp → Option Text
  resolve_client_ip r = first_of r.x_forwarded_for (
      first_of r.forwarded (
        direct_of r.x_real_ip
          (direct_of r.cf_connecting_ip (direct_of r.x_vercel_forwarded_for (fallback_of r.ip)))))

  unfoldable pub evaluate_admin_ip_allowlist : RequestWithIp → ConfigInput → Evaluation
  evaluate_admin_ip_allowlist request config =
      evaluate config (resolve_client_ip request) (parse_ip_allowlist config.allowlist_raw)

  -- The status of the response that stops a request, or nothing where it may go on.
  unfoldable pub enforce_admin_ip_allowlist : RequestWithIp → ConfigInput → Option ℕ
  enforce_admin_ip_allowlist request config =
      let e = evaluate_admin_ip_allowlist request config in
      if e.allowed then none else some (or_forbidden e.status)
