-- ===== src/AdminAllowlist/Tests.antt =====
-- The allowlist at concrete lists and requests; the addresses are the texts of digits and dots.
use stellar_dex_chat.Common.{
  Bool, true, false, not, ◌&&◌, ◌||◌, ◌≡◌, refl, none, some, [], ◌∷◌, any, ◌==◌, if◌then◌else◌,
}
use stellar_dex_chat.Common.Text.{codes, to_lower}
use stellar_dex_chat.Stroops.{
  Text, is_empty, is_digit, trim, trim_start, trim_end, split_dot, all_digits,
}
use stellar_dex_chat.FilterUrl.{split_commas}
use stellar_dex_chat.AdminAllowlist.{
  RequestWithIp, ConfigInput, resolve_client_ip, enforce_admin_ip_allowlist, normalize_candidate_ip,
  strip_mapped, strip_port, has_port, strip_brackets, strip_quotes, strip_parameters, strip_for,
}
use stellar_dex_chat.AdminAllowlist.Addresses.{entries_of, is_wrong}
use stellar_dex_chat.AdminAllowlist.Decision.{
  may_pass, enforce_admin_ip_allowlist_lem, forwarded_allowed,
}

abbrev dotted : Text → Bool
dotted [] = true
dotted (c ∷ cs) = (is_digit c || c == b'.') && dotted cs

abbrev is_ip : Text → Bool
is_ip cs = not (is_empty cs) && dotted cs

abbrev config : ConfigInput
config = record {
  allowlist_raw = some (codes "10.0.0.1, 10.0.0.2");
  bypass_local = false;
  node_env = "production";
}

abbrev request : RequestWithIp
request = record {
  x_forwarded_for = some (codes "10.0.0.2:8080, 1.1.1.1");
  forwarded = none;
  x_real_ip = none;
  cf_connecting_ip = none;
  x_vercel_forwarded_for = none;
  ip = some (codes "9.9.9.9");
}

reads_port : normalize_candidate_ip (codes " for=\"10.0.0.2:8080\";proto=https") ≡ codes "10.0.0.2"
unfolding normalize_candidate_ip strip_mapped strip_port has_port strip_brackets strip_quotes
    strip_parameters strip_for trim trim_start trim_end split_dot all_digits to_lower
reads_port = refl

enforce_admin_ip_allowlist_lem_example : enforce_admin_ip_allowlist is_ip request config ≡ (
    if may_pass is_ip config (resolve_client_ip is_ip request) (entries_of config.allowlist_raw)
    then none
    else some (if any (is_wrong is_ip) (entries_of config.allowlist_raw) then 500 else 403))
enforce_admin_ip_allowlist_lem_example = enforce_admin_ip_allowlist_lem is_ip request config

forwarded_allowed_example : enforce_admin_ip_allowlist is_ip request config ≡ none
unfolding normalize_candidate_ip strip_mapped strip_port has_port strip_brackets strip_quotes
    strip_parameters strip_for trim trim_start trim_end split_dot all_digits to_lower split_commas
forwarded_allowed_example =
    forwarded_allowed is_ip request config (codes "10.0.0.2:8080, 1.1.1.1") refl refl refl
