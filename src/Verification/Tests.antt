-- ===== src/Verification/Tests.antt =====
-- Human verifications at concrete values, and each theorem at a concrete input.
use jaa.Prelude.{
  ℕ, true, false, String, none, some, List, [], ◌∷◌, ◌≡◌, refl, arith, at, ok, err, positive,
  is_blank, utf16_length, is_space, map,
}
use jaa.Json.Value.{Json, null, str, obj, field, end}
use jaa.Json.Canonical.{same_json, before}
use jaa.Application.Status.{
  ApplicationStatus, form_filled, waiting_for_user, withdrawn, can_transition, transitions,
  status_eq,
}
use jaa.Application.Store.{Application}
use jaa.Application.Machine.{
  transition_application_in_tenant, is_same_request, validate_input, find_replay, fresh_transition,
  write_transition, apply_status, new_transition, new_audit, new_event,
}
use jaa.Verification.Classification.{mfa, is_human_verification_kind, classify_human_verification}
use jaa.Verification.Store.{
  VerificationStatus, pending, resolved, acknowledged_at, HumanVerification, ResumeJob, Tables,
  conflict, tenant_required, RequestHumanVerificationInput, ResolveHumanVerificationInput,
}
use jaa.Verification.Machine.{
  Surroundings, move, require_text, valid_expiry, same_request, record_event, wait_transition,
  wait_for_user, expire_overdue, announce_request, insert_verification, create_request,
  request_human_verification,
}
use jaa.Verification.Resolution.{resolve_pending, replay_resolution, resolve_human_verification}
use jaa.Verification.Handoff.{
  withdrawal, withdraw, cancel_pending, cancel_human_verification, resumption, resume_waiting,
  resume_human_verification,
}
use jaa.Verification.Single.{IsSingle}
use jaa.Verification.Ending.{
  requesting, resolving, cancelling, resuming, perform_all, perform_all-IsSingle,
}
use jaa.Verification.Replays.{resolve_again}

machine : Unit {0}
unfolding transition_application_in_tenant validate_input find_replay fresh_transition
    write_transition apply_status new_transition new_audit new_event can_transition transitions
    status_eq is_same_request positive is_blank is_space utf16_length same_json before move
    require_text valid_expiry same_request record_event wait_transition wait_for_user expire_overdue
    announce_request insert_verification create_request request_human_verification resolve_pending
    replay_resolution resolve_human_verification withdrawal withdraw cancel_pending
    cancel_human_verification resumption resume_waiting resume_human_verification
    is_human_verification_kind classify_human_verification
machine = tt

abbrev filled : Application
filled = record {
  id = "a1";
  user_id = "u1";
  status = form_filled;
  version = 9;
  applied_at = none;
  confirmed_at = none;
  failed_at = none;
  failure_reason = none;
}

abbrev start : Tables
start = record {
  core = record {
    applications = filled ∷ [];
    transitions = [];
    audit_logs = [];
    outbox_events = [];
  };
  verifications = [];
  resume_jobs = [];
}

abbrev around : String → ℕ → Surroundings
around id now = record {
  others = λ db. db;
  stringify = λ json. "";
  stored = λ json. json;
  iso = λ t. "t";
  new_id = id;
  now = now;
}

abbrev wanted : RequestHumanVerificationInput
wanted = record {
  user_id = "u1";
  application_id = "a1";
  type = "CAPTCHA";
  prompt = "Solve it";
  context = none;
  expires_at = at 1000;
  correlation_id = "c1";
  idempotency_key = "k1";
}

abbrev acknowledge : ResolveHumanVerificationInput
acknowledge = record { user_id = "u1"; verification_id = "v1"; correlation_id = "c2" }

abbrev asked : Tables
asked = perform_all (requesting (around "v1" 10) wanted ∷ []) start

abbrev done : Tables
done = perform_all (resolving (around "j1" 20) acknowledge ∷ []) asked

abbrev statuses : Tables → List VerificationStatus
statuses s = map (λ v. v.status) s.verifications

abbrev status_of : Application → ApplicationStatus
status_of a = a.status

runs :
    (statuses asked ≡ pending ∷ [])
    × (statuses done ≡ resolved ∷ [])
    × (map status_of done.core.applications ≡ waiting_for_user ∷ [])
    × (map status_of
          (perform_all (resuming (around "x" 30) "u1" "v1" "c3" ∷ []) done).core.applications
        ≡ form_filled ∷ [])
    × (map status_of
          (perform_all (cancelling (around "x" 20) acknowledge ∷ []) asked).core.applications
        ≡ withdrawn ∷ [])
    × (statuses (
          perform_all
            (requesting (around "v2" 11) (record wanted { idempotency_key = "k2" }) ∷ [])
            asked)
        ≡ pending ∷ [])
    × (statuses (perform_all (resolving (around "j1" 1000) acknowledge ∷ []) asked) ≡ pending ∷ [])
unfolding machine
runs = (refl, refl, refl, refl, refl, refl, refl)

-- A jsonb column turns the two keys of this context round, and the text of an object starts with its first
-- key: the request, sent again, is refused.
abbrev turned : Json → Json
turned (obj (field a v (field b w end))) = obj (field b w (field a v end))
turned json = json

abbrev first_key : Json → String
first_key (obj (field a v rest)) = a
first_key json = ""

abbrev in_columns : String → Surroundings
in_columns id = record (around id 10) { stored = turned; stringify = first_key }

abbrev with_context : RequestHumanVerificationInput
with_context = record wanted {
  context = some (obj (field "provider" (str "lever") (field "step" null end)));
}

request_again :
    request_human_verification
      (in_columns "v2")
      with_context
      (perform_all (requesting (in_columns "v1") with_context ∷ []) start)
    ≡ err conflict
unfolding machine
request_again = refl

resume_for_nobody :
    resume_human_verification (around "x" 30) " " "v1" "c3" done ≡ err tenant_required
unfolding machine
resume_for_nobody = refl

kinds :
    (is_human_verification_kind "CAPTCHA" ≡ true)
    × (is_human_verification_kind "captcha" ≡ false)
    × (classify_human_verification (record {
      captcha_seen = false;
      mfa_seen = true;
      anti_bot_seen = true;
      authentication_seen = true;
    })
        ≡ some mfa)
unfolding machine
kinds = (refl, refl, refl)

start-IsSingle : IsSingle start
start-IsSingle user_id application_id = omega arith

perform_all-IsSingle_example : IsSingle (
    perform_all
      (requesting (around "v1" 10) wanted ∷ resolving (around "j1" 20) acknowledge ∷ [])
      start)
perform_all-IsSingle_example =
    perform_all-IsSingle
      (requesting (around "v1" 10) wanted ∷ resolving (around "j1" 20) acknowledge ∷ []) start
      start-IsSingle

abbrev row : HumanVerification
row = record {
  id = "v1";
  user_id = "u1";
  application_id = "a1";
  type = "CAPTCHA";
  status = resolved;
  prompt = "Solve it";
  context = null;
  expires_at = 1000;
  resume_to_status = form_filled;
  idempotency_key = "k1";
  correlation_id = "c1";
  resolved_at = some 20;
  resolution = some (acknowledged_at 20);
}

abbrev command : ResumeJob
command = record {
  id = "j1";
  user_id = "u1";
  application_id = "a1";
  verification_id = "v1";
  correlation_id = "c2";
  idempotency_key = "resume-after-human-verification:u1:v1";
}

resolved_once :
    resolve_human_verification (around "j1" 20) acknowledge asked ≡ ok ((row, command, false), done)
unfolding machine
resolved_once = refl

resolve_again_example :
    resolve_human_verification (around "j2" 5000) acknowledge done ≡ ok ((row, command, true), done)
resolve_again_example =
    resolve_again (around "j1" 20) (around "j2" 5000) acknowledge asked done row command false
      resolved_once
