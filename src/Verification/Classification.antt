-- ===== src/Verification/Classification.antt =====
-- The kinds of human verification, of packages/security/src/browser-policy.ts.
use jaa.Prelude.{String, Bool, Option, none, some, List, [], ◌∷◌, includes, if◌then◌else◌}

pub data HumanVerificationKind : Type 0 where
  captcha mfa anti_bot auth : HumanVerificationKind

abbrev pub human_verification_kinds : List String
human_verification_kinds = "CAPTCHA" ∷ "MFA" ∷ "ANTI_BOT" ∷ "AUTH" ∷ []

-- On a text; every other value fails the test.
unfoldable pub is_human_verification_kind : String → Bool
is_human_verification_kind value = includes human_verification_kinds value

pub record HumanVerificationSignals : Type 0 where
  pub captcha_seen : Bool
  pub mfa_seen : Bool
  pub anti_bot_seen : Bool
  pub authentication_seen : Bool

unfoldable pub classify_human_verification : HumanVerificationSignals → Option HumanVerificationKind
classify_human_verification signals =
    if signals.captcha_seen
    then some captcha
    else (if signals.mfa_seen
        then some mfa
        else (if signals.anti_bot_seen
            then some anti_bot
            else (if signals.authentication_seen then some auth else none)))
