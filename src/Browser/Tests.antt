-- ===== src/Browser/Tests.antt =====
-- Addresses and navigations at concrete values, and each theorem at a concrete input.
use jaa.Prelude.{
  true, false, Option, none, some, List, [], ◌∷◌, ◌++◌, ◌≡◌, refl, arith, All, if◌then◌else◌,
  is_space,
}
use mathlib.Core.List.{Memᴰ}
use jaa.Prelude.Units.{Units, units, starts_with, has_unit, digit_value, radix_digits}
use jaa.Browser.Addresses.{
  unspecified, private_use, loopback, link_local, reserved, classify_octets, classify_ipv4,
  classify_ipv6, classify_words, parse_ipv4, is_dotted_quad, replace_ipv4_tail, words_of_halves,
  parse_ipv6_words, dotted, strip_ipv6_brackets, classify_blocked_ip_literal,
}
use jaa.Browser.Policy.{
  Url, Platform, AllowedHost, BrowserNavigationDenialReason, allowed, denied, https_required,
  host_not_allowlisted, normalize_browser_hostname, matches_allowed_host, make_policy,
  evaluate_host, evaluate_url, evaluate, evaluate_resolved, decide_addresses, first_blocked,
}
use jaa.Browser.Safety.{
  IsPermitted, has_blocked, evaluate_resolved-IsPermitted, evaluate_resolved-denied,
}
use jaa.Browser.Mapped.{classify_ipv6-mapped}

-- A parser that knows one path, for a host name given in lower case.
abbrev url_of : Units → Units → Url
url_of protocol hostname = record {
  protocol = protocol;
  username = [];
  password = [];
  hostname = hostname;
  port = [];
  pathname = units "/";
  search = [];
  hash = [];
}

abbrev toy : Platform
toy = record {
  parse_url = λ text.
      if starts_with (units "https://") text
      then some (url_of (units "https:") (units "a.jobs.io"))
      else (if starts_with (units "http://") text
          then some (url_of (units "http:") (units "a.jobs.io"))
          else none);
  set_host = λ url host. url;
  href = λ url. units "https://a.jobs.io/";
  is_ip = λ text. if has_unit 58 text then 6 else (if starts_with (units "1") text then 4 else 0);
}

abbrev hosts : List AllowedHost
hosts = record { hostname = units "jobs.io"; wildcard = true } ∷ []

ipv4_tests :
    (classify_ipv4 (units "10.1.2.3") ≡ some private_use)
    × (classify_ipv4 (units "172.32.0.1") ≡ none)
    × (classify_ipv4 (units "169.254.169.254") ≡ some link_local)
    × (classify_ipv4 (units "8.8.8.8") ≡ none)
    × (classify_ipv4 (units "203.0.113.9") ≡ some reserved)
unfolding classify_ipv4 classify_octets parse_ipv4 digit_value
ipv4_tests = (refl, refl, refl, refl, refl)

ipv6_tests :
    (classify_ipv6 (units "::1") ≡ some loopback)
    × (classify_ipv6 (units "::") ≡ some unspecified)
    × (classify_ipv6 (units "FE80::1%eth0") ≡ some link_local)
    × (classify_ipv6 (units "fd00:1::") ≡ some private_use)
    × (classify_ipv6 (units "::ffff:127.0.0.1") ≡ some loopback)
    × (classify_ipv6 (units "2606:4700::1111") ≡ none)
    × (classify_ipv6 (units "1:2:3:4:5:6:7:8:9") ≡ some reserved)
unfolding classify_ipv6 classify_words classify_ipv4 classify_octets parse_ipv4 is_dotted_quad
    replace_ipv4_tail words_of_halves parse_ipv6_words radix_digits digit_value
ipv6_tests = (refl, refl, refl, refl, refl, refl, refl)

policy_tests :
    (make_policy toy false [] ≡ none)
    × (evaluate toy hosts (units "http://a.jobs.io/") ≡ some (denied none https_required))
    × (evaluate toy [] (units "https://a.jobs.io/")
        ≡ some (denied (some (units "a.jobs.io")) host_not_allowlisted))
    × (matches_allowed_host
          (units "evil-jobs.io")
          (record { hostname = units "jobs.io"; wildcard = true })
        ≡ false)
unfolding make_policy evaluate evaluate_url evaluate_host normalize_browser_hostname
    strip_ipv6_brackets matches_allowed_host classify_blocked_ip_literal is_space
policy_tests = (refl, refl, refl, refl)

abbrev public : Units → Option (List Units)
public hostname = some (units "8.8.8.8" ∷ [])

abbrev rebinding : Units → Option (List Units)
rebinding hostname = some (units "8.8.8.8" ∷ units "127.0.0.1" ∷ [])

allowed_target :
    evaluate toy hosts (units "https://a.jobs.io/")
    ≡ some (allowed (units "a.jobs.io") (units "https://a.jobs.io/"))
unfolding evaluate evaluate_url evaluate_host normalize_browser_hostname strip_ipv6_brackets
    matches_allowed_host classify_blocked_ip_literal is_space
allowed_target = refl

public_target :
    evaluate_resolved toy public hosts (units "https://a.jobs.io/")
    ≡ some (allowed (units "a.jobs.io") (units "https://a.jobs.io/"))
unfolding evaluate_resolved evaluate evaluate_url evaluate_host normalize_browser_hostname
    strip_ipv6_brackets matches_allowed_host classify_blocked_ip_literal is_space decide_addresses
    first_blocked classify_ipv4 classify_octets parse_ipv4 digit_value
public_target = refl

loopback_blocked : classify_blocked_ip_literal toy.is_ip (units "127.0.0.1") ≡ some loopback
unfolding classify_blocked_ip_literal strip_ipv6_brackets classify_ipv4 classify_octets parse_ipv4
    digit_value
loopback_blocked = refl

evaluate_resolved-IsPermitted_example :
    IsPermitted toy hosts (units "https://a.jobs.io/") (units "a.jobs.io")
    × ((address : Units) × (addresses : List Units) × (public (units "a.jobs.io")
          ≡ some (address ∷ addresses))
        × All (λ x. classify_blocked_ip_literal toy.is_ip x ≡ none) (address ∷ addresses))
evaluate_resolved-IsPermitted_example =
    evaluate_resolved-IsPermitted toy hosts public (units "https://a.jobs.io/") (units "a.jobs.io")
      (units "https://a.jobs.io/") public_target

evaluate_resolved-denied_example :
    (reason : BrowserNavigationDenialReason) × (evaluate_resolved toy rebinding hosts
        (units "https://a.jobs.io/")
      ≡ some (denied (some (units "a.jobs.io")) reason))
evaluate_resolved-denied_example =
    evaluate_resolved-denied toy hosts rebinding (units "https://a.jobs.io/") (units "a.jobs.io")
      (units "https://a.jobs.io/") allowed_target
      (has_blocked (units "8.8.8.8" ∷ units "127.0.0.1" ∷ []) (units "127.0.0.1") loopback
        (Memᴰ.tail (Memᴰ.head refl)) loopback_blocked)

classify_ipv6-mapped_example :
    (classify_ipv6 (units "::ffff:" ++ dotted 192 168 0 7) ≡ classify_ipv4 (dotted 192 168 0 7))
    × (classify_ipv4 (dotted 192 168 0 7) ≡ classify_octets (some 192) (some 168) (some 0))
classify_ipv6-mapped_example =
    classify_ipv6-mapped 192 168 0 7 (omega arith) (omega arith) (omega arith) (omega arith)
