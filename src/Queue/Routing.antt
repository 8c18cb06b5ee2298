-- ===== src/Queue/Routing.antt =====
-- Which job types go to the maintenance queue.
use jaa.Prelude.{
  Bool, true, false, ◌≡◌, refl, String, List, [], ◌∷◌, arith, ◌↔◌, ◌===◌, eq_iff, includes, all,
  find, Bool-cases, inl, inr, ◌≢◌,
}
use jaa.Queue.Names.{
  QueueName, maintenance, job_type_queue_routes, queue_or_maintenance, queue_for_job_type,
  handled_job_types,
}

abbrev types_of : List (String × QueueName) → List String
types_of [] = []
types_of (route ∷ routes) = route.0 ∷ types_of routes

abbrev is_maintenance : QueueName → Bool
is_maintenance maintenance = true
is_maintenance _ = false

abbrev all_candidate : List (String × QueueName) → Bool
all_candidate [] = true
all_candidate (route ∷ routes) =
    let rest = all_candidate routes in elim (is_maintenance route.1) [ true ↦ false | false ↦ rest ]

includes_transfer :
    (xs ys : List String) (s : String)
    → all (includes ys) xs ≡ true
    → includes xs s ≡ true
    → includes ys s ≡ true
includes_transfer [] ys s h k = cc
includes_transfer (x ∷ xs) ys s h k = elim (Bool-cases (x === s)) [
  | inl e ↦
      let one : x ≡ s = (eq_iff x s).0 e in
      let there : includes ys x ≡ true = ground arith in rw one at there
  | inr e ↦ includes_transfer xs ys s (ground arith) (ground arith)
]

lookup_none :
    (routes : List (String × QueueName)) (s : String)
    → includes (types_of routes) s ≡ false
    → queue_or_maintenance (find (λ route. route.0 === s) routes) ≡ maintenance
lookup_none [] s h = refl
lookup_none (route ∷ routes) s h = ground (arith, lookup_none routes s)

lookup_some :
    (routes : List (String × QueueName)) (s : String)
    → all_candidate routes ≡ true
    → includes (types_of routes) s ≡ true
    → queue_or_maintenance (find (λ route. route.0 === s) routes) ≢ maintenance
lookup_some [] s c h e = cc
lookup_some (route ∷ routes) s c h e = ground (arith, lookup_some routes s)

-- A job type goes to the maintenance queue exactly if no handler is registered for it: every type
-- that the production handlers name has a queue of its own, and no other type reaches one.
pub maintenance_iff :
    (normalize : String → String) (type : String)
    → (queue_for_job_type normalize type ≡ maintenance)
      ↔ (includes handled_job_types (normalize type) ≡ false)
unfolding queue_for_job_type
maintenance_iff normalize type = (
  λ e. elim (Bool-cases (includes handled_job_types (normalize type))) [
    | inr out ↦ out
    | inl handled ↦ absurd (
        lookup_some job_type_queue_routes (normalize type) refl
          (includes_transfer handled_job_types (types_of job_type_queue_routes) (normalize type)
            refl handled)
          e)
  ],
  λ out. elim (Bool-cases (includes (types_of job_type_queue_routes) (normalize type))) [
    | inr absent ↦ lookup_none job_type_queue_routes (normalize type) absent
    | inl routed ↦
        let handled =
          includes_transfer (types_of job_type_queue_routes) handled_job_types (normalize type) refl
            routed in
        cc (handled, out)
  ],
)
