-- ===== src/Browser/Safety.antt =====
-- What an allowed navigation has passed.
use jaa.Prelude.{
  Bool, true, false, Option, none, some, List, [], ◌∷◌, ◌≡◌, refl, ap, ◌⊎◌, inl, inr, arith, any,
  All, not, ◌&&◌, ◌||◌, if◌then◌else◌, Option-cases,
}
use mathlib.Core.List.{Memᴰ}
use jaa.Prelude.Members.{mem-cons_cases}
use jaa.Prelude.Units.{Units, units, same_units, is_empty}
use jaa.Browser.Addresses.{BlockedIpCategory, classify_blocked_ip_literal}
use jaa.Browser.Policy.{
  BrowserNavigationDenialReason, Url, Platform, AllowedHost, BrowserNavigationDecision, allowed,
  denied, blocked_resolved_ip, dns_resolution_failed, normalize_browser_hostname,
  matches_allowed_host, evaluate_host, evaluate_url, evaluate, evaluate_resolved, decide_addresses,
  first_blocked,
}

module _ (platform : Platform) (hosts : List AllowedHost) where
  -- The URL that a target stands for was checked, part by part.
  pub record IsPermitted (target hostname : Units) : Type 0 where
    pub url : Url
    pub parsed : platform.parse_url target ≡ some url
    pub is_https : same_units url.protocol (units "https:") ≡ true
    pub default_port : (url.port ≡ []) ⊎ (same_units url.port (units "443") ≡ true)
    pub no_username : url.username ≡ []
    pub no_password : url.password ≡ []
    pub normalized : normalize_browser_hostname platform url.hostname ≡ some hostname
    pub no_blocked_literal : classify_blocked_ip_literal platform.is_ip hostname ≡ none
    pub allowlisted : any (matches_allowed_host hostname) hosts ≡ true

  is_empty_lem : (s : Units) → is_empty s ≡ true → s ≡ []
  is_empty_lem [] h = refl
  is_empty_lem (x ∷ xs) h = cc

  evaluate_host-allowed :
      (url : Url) (name hostname out : Units)
      → evaluate_host platform hosts url name ≡ allowed hostname out
      → (name ≡ hostname)
        × (classify_blocked_ip_literal platform.is_ip name ≡ none)
        × (any (matches_allowed_host name) hosts ≡ true)
  unfolding evaluate_host
  evaluate_host-allowed url name hostname out h = ground arith

  unless_bad_port :
      (s : Units)
      → not (is_empty s) && not (same_units s (units "443")) ≡ false
      → (s ≡ []) ⊎ (same_units s (units "443") ≡ true)
  unless_bad_port [] h = inl refl
  unless_bad_port (x ∷ xs) h = inr (ground arith)

  not_denied :
      (b : Bool) (reason : BrowserNavigationDenialReason) (y : Option BrowserNavigationDecision)
      (hostname out : Units)
      → (if b then some (denied none reason) else y) ≡ some (allowed hostname out)
      → (b ≡ false) × (y ≡ some (allowed hostname out))
  not_denied true reason y hostname out h = absurd (ground (arith, h))
  not_denied false reason y hostname out h = (refl, h)

  then_host :
      (url : Url) (o : Option Units) (hostname out : Units)
      → elim o as (λ _. Option BrowserNavigationDecision) [
        | none ↦ none
        | some name ↦ some (evaluate_host platform hosts url name)
      ]
        ≡ some (allowed hostname out)
      → (name : Units) × (o ≡ some name)
        × (evaluate_host platform hosts url name ≡ allowed hostname out)
  then_host url none hostname out h = cc
  then_host url (some name) hostname out h = (name, refl, ground (arith, h))

  not-eq-false : (b : Bool) → not b ≡ false → b ≡ true
  not-eq-false true h = refl
  not-eq-false false h = cc

  ||-eq-false : (a b : Bool) → not a || not b ≡ false → (a ≡ true) × (b ≡ true)
  ||-eq-false true true h = (refl, refl)
  ||-eq-false true false h = cc
  ||-eq-false false b h = cc

  evaluate_url-IsPermitted :
      (target : Units) (url : Url) (hostname out : Units)
      → platform.parse_url target ≡ some url
      → evaluate_url platform hosts url ≡ some (allowed hostname out)
      → IsPermitted target hostname
  unfolding evaluate_url
  evaluate_url-IsPermitted target url hostname out parsed h =
      let (https, h1) =
        not_denied (not (same_units url.protocol (units "https:"))) _ _ hostname out h in
      let (port, h2) =
        not_denied (not (is_empty url.port) && not (same_units url.port (units "443"))) _ _ hostname
          out h1 in
      let (credentials, h3) =
        not_denied (not (is_empty url.username) || not (is_empty url.password)) _ _ hostname out
          h2 in
      let (user, pass) = ||-eq-false (is_empty url.username) (is_empty url.password) credentials in
      let (name, normal, found) = then_host url _ hostname out h3 in
      let (same, unblocked, listed) = evaluate_host-allowed url name hostname out found in
      record {
        url = url;
        parsed = parsed;
        is_https = not-eq-false (same_units url.protocol (units "https:")) https;
        default_port = unless_bad_port url.port port;
        no_username = is_empty_lem url.username user;
        no_password = is_empty_lem url.password pass;
        normalized = rw same at normal;
        no_blocked_literal = rw same at unblocked;
        allowlisted = rw same at listed;
      }

  evaluate-IsPermitted :
      (target hostname out : Units)
      → evaluate platform hosts target ≡ some (allowed hostname out)
      → IsPermitted target hostname
  unfolding evaluate
  evaluate-IsPermitted target hostname out h = elim (Option-cases (platform.parse_url target)) [
    | inl e ↦ absurd (ground (arith, e))
    | inr (url, e) ↦ evaluate_url-IsPermitted target url hostname out e (rw (e, evaluate) at h)
  ]

  decide_addresses-allowed :
      (name url : Units) (answer : Option (List Units)) (hostname out : Units)
      → decide_addresses platform.is_ip name url answer ≡ allowed hostname out
      → (name ≡ hostname)
        × (url ≡ out)
        × ((address : Units) × (addresses : List Units) × (answer ≡ some (address ∷ addresses))
            × (first_blocked platform.is_ip (address ∷ addresses) ≡ none))
  unfolding decide_addresses
  decide_addresses-allowed name url none hostname out h = absurd (ground (arith, h))
  decide_addresses-allowed name url (some []) hostname out h = absurd (ground (arith, h))
  decide_addresses-allowed name url (some (address ∷ addresses)) hostname out h =
      elim (Option-cases (first_blocked platform.is_ip (address ∷ addresses))) [
        | inl e ↦
            let k = rw (e, decide_addresses) at h in
            (ground (arith, k), ground (arith, k), (address, addresses, refl, e))
        | inr (category, e) ↦ absurd (ground (arith, rw (e, decide_addresses) at h))
      ]

  first_blocked-none :
      (addresses : List Units)
      → first_blocked platform.is_ip addresses ≡ none
      → All (λ address. classify_blocked_ip_literal platform.is_ip address ≡ none) addresses
  unfolding first_blocked
  first_blocked-none [] h = tt
  first_blocked-none (address ∷ addresses) h =
      elim (Option-cases (classify_blocked_ip_literal platform.is_ip address)) [
        | inl e ↦ (e, first_blocked-none addresses (rw (e, first_blocked) at h))
        | inr (category, e) ↦ cc (rw (e, first_blocked) at h)
      ]

  -- If the policy allows a target after resolving it, the target is a URL that was permitted part by
  -- part (https, no port or 443, no credentials, an allowlisted host name that is no blocked address),
  -- and its host name resolved to one address at least, none of them blocked.
  pub evaluate_resolved-IsPermitted :
      (resolve_hostname : Units → Option (List Units)) (target hostname out : Units)
      → evaluate_resolved platform resolve_hostname hosts target ≡ some (allowed hostname out)
      → IsPermitted target hostname
        × ((address : Units) × (addresses : List Units) × (resolve_hostname hostname
              ≡ some (address ∷ addresses))
            × All
                (λ address. classify_blocked_ip_literal platform.is_ip address ≡ none)
                (address ∷ addresses))
  unfolding evaluate_resolved
  evaluate_resolved-IsPermitted resolve_hostname target hostname out h =
      elim (Option-cases (evaluate platform hosts target)) [
        | inl e ↦ absurd (ground (arith, rw (e, evaluate_resolved) at h))
        | inr (denied name reason, e) ↦ absurd (ground (arith, rw (e, evaluate_resolved) at h))
        | inr (allowed name url, e) ↦
            let decided : decide_addresses platform.is_ip name url (resolve_hostname name)
                ≡ allowed hostname out =
              ground (arith, rw (e, evaluate_resolved) at h) in
            let (same, same_url, (address, addresses, answer, unblocked)) =
              decide_addresses-allowed name url (resolve_hostname name) hostname out decided in
            (
              evaluate-IsPermitted target hostname out (rw (same, same_url) at e),
              (
                address,
                addresses,
                rw same at answer,
                first_blocked-none (address ∷ addresses) unblocked,
              ),
            )
      ]

  first_blocked_of_mem :
      (addresses : List Units) (address : Units) (category : BlockedIpCategory)
      → Memᴰ address addresses
      → classify_blocked_ip_literal platform.is_ip address ≡ some category
      → (first : BlockedIpCategory) × (first_blocked platform.is_ip addresses ≡ some first)
  unfolding first_blocked
  first_blocked_of_mem [] address category m h = elim m [ ]
  first_blocked_of_mem (x ∷ xs) address category m h =
      elim (Option-cases (classify_blocked_ip_literal platform.is_ip x)) [
        | inr (first, e) ↦ (first, rw (e, first_blocked) refl)
        | inl e ↦ elim (mem-cons_cases address x xs m) [
          | inl same ↦ cc (rw same at h, e)
          | inr k ↦
              let (first, found) = first_blocked_of_mem xs address category k h in
              (first, rw (e, first_blocked) found)
        ]
      ]

  -- An answer of the resolver that no target may be opened with: none, an empty one, or one with a
  -- blocked address at any place.
  pub data IsUnusable : Option (List Units) → Type 0 where
    failed : IsUnusable none
    empty : IsUnusable (some [])
    has_blocked :
        (addresses : List Units) (address : Units) (category : BlockedIpCategory)
        → Memᴰ address addresses
        → classify_blocked_ip_literal platform.is_ip address ≡ some category
        → IsUnusable (some addresses)

  decide_addresses-denied :
      (hostname url : Units) (answer : Option (List Units))
      → IsUnusable answer
      → (reason : BrowserNavigationDenialReason) × (decide_addresses platform.is_ip hostname url
            answer
          ≡ denied (some hostname) reason)
  unfolding decide_addresses
  decide_addresses-denied hostname url none bad = (dns_resolution_failed, refl)
  decide_addresses-denied hostname url (some []) bad = (dns_resolution_failed, refl)
  decide_addresses-denied hostname url (some (x ∷ xs))
        (has_blocked addresses address category m h) =
      let (first, found) = first_blocked_of_mem (x ∷ xs) address category m h in
      (blocked_resolved_ip first, rw (found, decide_addresses) refl)

  -- A target that `evaluate` allows is still denied, with its host name, where resolving the name fails,
  -- gives no address, or gives a blocked address at any place.
  pub evaluate_resolved-denied :
      (resolve_hostname : Units → Option (List Units)) (target hostname out : Units)
      → evaluate platform hosts target ≡ some (allowed hostname out)
      → IsUnusable (resolve_hostname hostname)
      → (reason : BrowserNavigationDenialReason) × (evaluate_resolved platform resolve_hostname
            hosts target
          ≡ some (denied (some hostname) reason))
  unfolding evaluate_resolved
  evaluate_resolved-denied resolve_hostname target hostname out e bad =
      let (reason, found) = decide_addresses-denied hostname out (resolve_hostname hostname) bad in
      (reason, rw (e, evaluate_resolved) (ap some found))
