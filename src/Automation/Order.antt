-- ===== src/Automation/Order.antt =====
-- The order in which a claim takes jobs.
use mathlib.Core.List.{Memᴰ}
use jaa.Prelude.{Bool, String, List, [], ◌∷◌, Bool-cases, inl, inr}
use jaa.Automation.Jobs.{AutomationJob}
use jaa.Automation.Leasing.{precedes, insert_ordered, ordered}

swap_front :
    (j job : AutomationJob) (js : List AutomationJob) (x : AutomationJob) (ks : List AutomationJob)
    → (Memᴰ x ks → Memᴰ x (job ∷ js))
    → Memᴰ x (j ∷ ks)
    → Memᴰ x (job ∷ j ∷ js)
swap_front j job js x ks later (Memᴰ.head e) = Memᴰ.tail (Memᴰ.head e)
swap_front j job js x ks later (Memᴰ.tail m) = behind (later m)
  where
    behind : Memᴰ x (job ∷ js) → Memᴰ x (job ∷ j ∷ js)
    behind (Memᴰ.head e) = Memᴰ.head e
    behind (Memᴰ.tail k) = Memᴰ.tail (Memᴰ.tail k)

under_front :
    (j x : AutomationJob) (ks js : List AutomationJob)
    → (Memᴰ x ks → Memᴰ x js)
    → Memᴰ x (j ∷ ks)
    → Memᴰ x (j ∷ js)
under_front j x ks js later (Memᴰ.head e) = Memᴰ.head e
under_front j x ks js later (Memᴰ.tail m) = Memᴰ.tail (later m)

insert_ordered_mem :
    (text_le : String → String → Bool) (job : AutomationJob) (js : List AutomationJob)
    (x : AutomationJob)
    → Memᴰ x (insert_ordered text_le job js)
    → Memᴰ x (job ∷ js)
unfolding insert_ordered
insert_ordered_mem text_le job [] x m = m
insert_ordered_mem text_le job (j ∷ js) x m = elim (Bool-cases (precedes text_le job j)) [
  | inl e ↦ rw (e, insert_ordered) at m
  | inr e ↦
      swap_front j job js x (insert_ordered text_le job js) (insert_ordered_mem text_le job js x)
        (rw (e, insert_ordered) at m)
]

pub ordered_mem :
    (text_le : String → String → Bool) (js : List AutomationJob) (x : AutomationJob)
    → Memᴰ x (ordered text_le js)
    → Memᴰ x js
unfolding ordered
ordered_mem text_le [] x m = m
ordered_mem text_le (j ∷ js) x m =
    under_front j x (ordered text_le js) js (ordered_mem text_le js x)
      (insert_ordered_mem text_le j (ordered text_le js) x m)
