-- ===== src/Queue/Names.antt =====
-- The queue names and the routing of job types of packages/queue/src/names.ts, and the job types that
-- apps/api/src/services/automation-job-handlers.ts handles. `normalize` is `trim().toUpperCase()`.
use jaa.Prelude.{
  ℕ, ◌+◌, ◌-◌, min, String, Option, none, some, List, [], ◌∷◌, ℤ, pos, negsuc, ◌===◌, find,
}

pub data QueueName : Type 0 where
  discovery analysis documents applications notifications maintenance : QueueName

abbrev pub job_type_queue_routes : List (String × QueueName)
job_type_queue_routes =
    ("DISCOVER_JOBS", discovery)
    ∷ ("ANALYZE_JOB", analysis)
    ∷ ("MATCH_JOB", analysis)
    ∷ ("TAILOR_RESUME", analysis)
    ∷ ("EVALUATE_ATS", analysis)
    ∷ ("EVALUATE_APPLICATION_QUALITY", analysis)
    ∷ ("COMPLETE_GREENHOUSE_APPLICATION", applications)
    ∷ ("COMPLETE_LEVER_APPLICATION", applications)
    ∷ ("EXECUTE_AUTHORIZED_SUBMISSION", applications)
    ∷ ("VERIFY_SUBMISSION_CONFIRMATION", applications)
    ∷ ("RESUME_APPLICATION_AFTER_VERIFICATION", applications)
    ∷ ("EMAIL_OUTCOME", notifications)
    ∷ ("SYNC_EMAIL_CONNECTION", notifications)
    ∷ []

abbrev pub queue_or_maintenance : Option (String × QueueName) → QueueName
queue_or_maintenance none = maintenance
queue_or_maintenance (some route) = route.1

unfoldable pub queue_for_job_type : (String → String) → String → QueueName
queue_for_job_type normalize type =
    queue_or_maintenance (find (λ route. route.0 === normalize type) job_type_queue_routes)

-- The keys of the map that `createProductionAutomationJobHandlers` gives.
abbrev pub handled_job_types : List String
handled_job_types =
    "ANALYZE_JOB" ∷ "MATCH_JOB" ∷ "TAILOR_RESUME" ∷ "EVALUATE_ATS" ∷ "EVALUATE_APPLICATION_QUALITY"
    ∷ "COMPLETE_GREENHOUSE_APPLICATION" ∷ "COMPLETE_LEVER_APPLICATION"
    ∷ "EXECUTE_AUTHORIZED_SUBMISSION" ∷ "EMAIL_OUTCOME" ∷ "SYNC_EMAIL_CONNECTION"
    ∷ "VERIFY_SUBMISSION_CONFIRMATION" ∷ "RESUME_APPLICATION_AFTER_VERIFICATION" ∷ "DISCOVER_JOBS"
    ∷ []

-- `1_000_001 - bounded`, where `bounded` is the priority within a million of 0; BullMQ takes the lowest
-- number first.
unfoldable pub bull_priority : ℤ → ℕ
bull_priority (pos n) = 1000001 - min 1000000 n
bull_priority (negsuc n) = 1000001 + min 1000000 (n + 1)
