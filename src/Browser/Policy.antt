-- ===== src/Browser/Policy.antt =====
-- `BrowserNavigationPolicy`. A `Platform` stands for the URL parser, the setter of `host`, `href` and
-- `isIP`; `none` is a thrown error where a result is an option of a text or of a decision.
use jaa.Prelude.{
  ℕ, Bool, ◌&&◌, ◌||◌, not, Option, none, some, List, [], ◌∷◌, ◌++◌, if◌then◌else◌, any,
}
use jaa.Prelude.Units.{
  Units, units, same_units, is_empty, has_unit, starts_with, ends_with, slice_from, slice_last,
  trim, lower,
}
use jaa.Browser.Addresses.{BlockedIpCategory, strip_ipv6_brackets, classify_blocked_ip_literal}

pub record Url : Type 0 where
  pub protocol : Units
  pub username : Units
  pub password : Units
  pub hostname : Units
  pub port : Units
  pub pathname : Units
  pub search : Units
  pub hash : Units

pub record Platform : Type 0 where
  pub parse_url : Units → Option Url
  pub set_host : Url → Units → Url
  pub href : Url → Units
  pub is_ip : Units → ℕ

pub data BrowserNavigationDenialReason : Type 0 where
  invalid_url https_required https_port_not_allowed credentials_not_allowed :
      BrowserNavigationDenialReason
  host_not_allowlisted dns_resolution_failed : BrowserNavigationDenialReason
  blocked_ip_literal blocked_resolved_ip : BlockedIpCategory → BrowserNavigationDenialReason

-- A decision: denied, with the host name where it is known, or allowed.
pub data BrowserNavigationDecision : Type 0 where
  denied : Option Units → BrowserNavigationDenialReason → BrowserNavigationDecision
  allowed : (hostname normalized_url : Units) → BrowserNavigationDecision

-- `if (!value) throw`, `if (test) throw`.
abbrev pub unless_empty : Units → Option Units
unless_empty s = if is_empty s then none else some s

abbrev pub has_no_more_than_host : Url → Bool
has_no_more_than_host url =
    is_empty url.username
    && is_empty url.password
    && is_empty url.port
    && same_units url.pathname (units "/")
    && is_empty url.search
    && is_empty url.hash

-- `.replace(/\.$/, '')`.
abbrev pub drop_final_dot : Units → Units
drop_final_dot s = if ends_with (units ".") s then slice_last s else s

unfoldable pub normalize_browser_hostname : Platform → Units → Option Units
normalize_browser_hostname platform hostname =
    let candidate = trim hostname in
    let authority =
      if has_unit 58 candidate && not (starts_with (units "[") candidate)
      then 91 ∷ candidate ++ (93 ∷ [])
      else candidate in
    if is_empty candidate then none else elim (platform.parse_url (units "https://" ++ authority)) [
      | none ↦ none
      | some parsed ↦
          if has_no_more_than_host parsed
          then unless_empty (drop_final_dot (lower (strip_ipv6_brackets parsed.hostname)))
          else none
    ]

pub record AllowedHost : Type 0 where
  pub hostname : Units
  pub wildcard : Bool

abbrev pub allowed_host : Bool → Option Units → Option AllowedHost
allowed_host wildcard none = none
allowed_host wildcard (some hostname) = some (record { hostname = hostname; wildcard = wildcard })

unfoldable pub parse_allowed_host : Platform → Bool → Units → Option AllowedHost
parse_allowed_host platform allow_subdomains value =
    let trimmed = trim value in
    let wildcard = starts_with (units "*.") trimmed in
    allowed_host (wildcard || allow_subdomains)
      (normalize_browser_hostname platform (if wildcard then slice_from 2 trimmed else trimmed))

unfoldable pub matches_allowed_host : Units → AllowedHost → Bool
matches_allowed_host hostname host =
    same_units hostname host.hostname || (host.wildcard && ends_with (46 ∷ host.hostname) hostname)

-- The constructor: `map(parseAllowedHost)` on a list that is not empty.
abbrev pub parse_all : Platform → Bool → List Units → Option (List AllowedHost)
parse_all platform allow_subdomains [] = some []
parse_all platform allow_subdomains (value ∷ values) =
    elim (parse_allowed_host platform allow_subdomains value) [
      | none ↦ none
      | some host ↦ elim (parse_all platform allow_subdomains values) [
        | none ↦ none
        | some hosts ↦ some (host ∷ hosts)
      ]
    ]

unfoldable pub make_policy : Platform → Bool → List Units → Option (List AllowedHost)
make_policy platform allow_subdomains [] = none
make_policy platform allow_subdomains (value ∷ values) =
    parse_all platform allow_subdomains (value ∷ values)

-- `evaluate` after `normalizeBrowserHostname`.
unfoldable pub evaluate_host : Platform → List AllowedHost → Url → Units → BrowserNavigationDecision
evaluate_host platform allowed_hosts url hostname =
    let host = if is_empty url.port then hostname else hostname ++ (58 ∷ url.port) in
    elim (classify_blocked_ip_literal platform.is_ip hostname) [
      | some category ↦ denied (some hostname) (blocked_ip_literal category)
      | none ↦
          if any (matches_allowed_host hostname) allowed_hosts
          then allowed hostname (platform.href (platform.set_host url host))
          else denied (some hostname) host_not_allowlisted
    ]

unfoldable pub evaluate_url : Platform → List AllowedHost → Url → Option BrowserNavigationDecision
evaluate_url platform allowed_hosts url =
    if not (same_units url.protocol (units "https:"))
    then some (denied none https_required)
    else (if not (is_empty url.port) && not (same_units url.port (units "443"))
        then some (denied none https_port_not_allowed)
        else (if not (is_empty url.username) || not (is_empty url.password)
            then some (denied none credentials_not_allowed)
            else elim (normalize_browser_hostname platform url.hostname) [
              | none ↦ none
              | some hostname ↦ some (evaluate_host platform allowed_hosts url hostname)
            ]))

unfoldable pub evaluate : Platform → List AllowedHost → Units → Option BrowserNavigationDecision
evaluate platform allowed_hosts target = elim (platform.parse_url target) [
  | none ↦ some (denied none invalid_url)
  | some url ↦ evaluate_url platform allowed_hosts url
]

unfoldable pub evaluate_redirect :
    Platform → List AllowedHost → Units → Units → Option BrowserNavigationDecision
evaluate_redirect platform allowed_hosts previous redirect_target =
    evaluate platform allowed_hosts redirect_target

-- The first blocked address.
unfoldable pub first_blocked : (Units → ℕ) → List Units → Option BlockedIpCategory
first_blocked is_ip [] = none
first_blocked is_ip (address ∷ addresses) = elim (classify_blocked_ip_literal is_ip address) [
  | some category ↦ some category
  | none ↦ first_blocked is_ip addresses
]

-- What the addresses of an allowed host name make of the decision; `none` where resolving failed.
unfoldable pub decide_addresses :
    (Units → ℕ)
    → (hostname normalized_url : Units) → Option (List Units)
    → BrowserNavigationDecision
decide_addresses is_ip hostname url none = denied (some hostname) dns_resolution_failed
decide_addresses is_ip hostname url (some []) = denied (some hostname) dns_resolution_failed
decide_addresses is_ip hostname url (some (address ∷ addresses)) =
    elim (first_blocked is_ip (address ∷ addresses)) [
      | some category ↦ denied (some hostname) (blocked_resolved_ip category)
      | none ↦ allowed hostname url
    ]

-- `resolve_hostname` is the resolver of the options; `none` where it rejects.
unfoldable pub evaluate_resolved :
    Platform
    → (Units → Option (List Units))
    → List AllowedHost
    → Units
    → Option BrowserNavigationDecision
evaluate_resolved platform resolve_hostname allowed_hosts target =
    elim (evaluate platform allowed_hosts target) [
      | none ↦ none
      | some (denied hostname reason) ↦ some (denied hostname reason)
      | some (allowed hostname url) ↦
          some (decide_addresses platform.is_ip hostname url (resolve_hostname hostname))
    ]

-- `assertResolvedAllowed`: the URL to open, or the denial that is thrown.
unfoldable pub assert_resolved_allowed :
    Platform → (Units → Option (List Units)) → List AllowedHost → Units → Option Url
assert_resolved_allowed platform resolve_hostname allowed_hosts target =
    elim (evaluate_resolved platform resolve_hostname allowed_hosts target) [
      | some (allowed hostname url) ↦ platform.parse_url url
      | _ ↦ none
    ]
