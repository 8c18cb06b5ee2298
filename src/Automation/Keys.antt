-- ===== src/Automation/Keys.antt =====
-- The primary key of the job table, and soundness of the table as a whole.
use mathlib.Core.List.{Memᴰ}
use jaa.Prelude.{
  Bool, true, false, ◌≡◌, refl, sym, String, List, [], ◌∷◌, ◌++◌, arith, ◌===◌, eq_iff, any, update,
  All, All-append, All-update, Bool-cases, inl, inr, ◌∙◌,
}
use jaa.Prelude.Members.{any_of_mem}
use jaa.Automation.Jobs.{AutomationJob, Db, has_id}
use jaa.Automation.Rows.{IsWellFormed}

abbrev pub HasDistinctIds : List AutomationJob → Type 0
HasDistinctIds [] = Unit
HasDistinctIds (j ∷ js) = (any (has_id j.id) js ≡ false) × HasDistinctIds js

-- Every row is well formed, and no two share an id.
abbrev pub IsSound : Db → Type 0
IsSound db = All IsWellFormed db.jobs × HasDistinctIds db.jobs

any-update :
    (id : String) (p : AutomationJob → Bool) (f : AutomationJob → AutomationJob)
    (js : List AutomationJob)
    → ((j : AutomationJob) → (f j).id ≡ j.id)
    → any (has_id id) (update p f js) ≡ any (has_id id) js
any-update id p f [] same = refl
any-update id p f (j ∷ js) same = elim (Bool-cases (p j)) [
  | inl e ↦ rw (e, update) (rw (same j, any-update id p f js same) refl)
  | inr e ↦ rw (e, update) (rw (any-update id p f js same) refl)
]

pub HasDistinctIds-update :
    (p : AutomationJob → Bool) (f : AutomationJob → AutomationJob) (js : List AutomationJob)
    → ((j : AutomationJob) → (f j).id ≡ j.id)
    → HasDistinctIds js
    → HasDistinctIds (update p f js)
HasDistinctIds-update p f [] same h = tt
HasDistinctIds-update p f (j ∷ js) same (fresh, h) = elim (Bool-cases (p j)) [
  | inl e ↦
      rw (e, update)
        (rw (same j) (any-update j.id p f js same ∙ fresh), HasDistinctIds-update p f js same h)
  | inr e ↦
      rw (e, update) (any-update j.id p f js same ∙ fresh, HasDistinctIds-update p f js same h)
]

any-snoc :
    (id : String) (js : List AutomationJob) (k : AutomationJob)
    → any (has_id id) js ≡ false
    → (k.id === id) ≡ false
    → any (has_id id) (js ++ k ∷ []) ≡ false
any-snoc id [] k h e = rw e refl
any-snoc id (j ∷ js) k h e = ground (arith, any-snoc id js k)

HasDistinctIds-snoc :
    (js : List AutomationJob) (k : AutomationJob)
    → HasDistinctIds js
    → any (has_id k.id) js ≡ false
    → HasDistinctIds (js ++ k ∷ [])
HasDistinctIds-snoc [] k h new = (refl, tt)
HasDistinctIds-snoc (j ∷ js) k (fresh, h) new = (
  any-snoc j.id js k fresh (ground (arith, eq_iff j.id k.id, eq_iff k.id j.id)),
  HasDistinctIds-snoc js k h (ground arith),
)

pub HasDistinctIds-unique :
    (js : List AutomationJob) (a b : AutomationJob)
    → HasDistinctIds js
    → Memᴰ a js
    → Memᴰ b js
    → a.id ≡ b.id
    → a ≡ b
HasDistinctIds-unique [] a b h m n e = elim m [ ]
HasDistinctIds-unique (j ∷ js) a b (fresh, h) (Memᴰ.head p) (Memᴰ.head q) e = p ∙ sym q
HasDistinctIds-unique (j ∷ js) a b (fresh, h) (Memᴰ.head p) (Memᴰ.tail n) e =
    let same : b.id === j.id ≡ true = (eq_iff b.id j.id).1 (sym e ∙ rw p refl) in
    let hit = any_of_mem (has_id j.id) js b n same in cc (hit, fresh)
HasDistinctIds-unique (j ∷ js) a b (fresh, h) (Memᴰ.tail m) (Memᴰ.head q) e =
    let same : a.id === j.id ≡ true = (eq_iff a.id j.id).1 (e ∙ rw q refl) in
    let hit = any_of_mem (has_id j.id) js a m same in cc (hit, fresh)
HasDistinctIds-unique (j ∷ js) a b (fresh, h) (Memᴰ.tail m) (Memᴰ.tail n) e =
    HasDistinctIds-unique js a b h m n e

-- A new row with a new id, and an update that keeps ids and rows well formed, keep the table sound.
pub IsSound-snoc :
    (db db' : Db) (k : AutomationJob)
    → IsSound db
    → IsWellFormed k
    → any (has_id k.id) db.jobs ≡ false
    → db'.jobs ≡ db.jobs ++ k ∷ []
    → IsSound db'
IsSound-snoc db db' k (w, d) h new grown =
    rw grown
      (All-append IsWellFormed db.jobs (k ∷ []) w (h, tt), HasDistinctIds-snoc db.jobs k d new)

pub IsSound-update :
    (p : AutomationJob → Bool) (f : AutomationJob → AutomationJob) (js : List AutomationJob)
    → ((j : AutomationJob) → (f j).id ≡ j.id)
    → ((j : AutomationJob) → p j ≡ true → IsWellFormed j → IsWellFormed (f j))
    → All IsWellFormed js × HasDistinctIds js
    → All IsWellFormed (update p f js) × HasDistinctIds (update p f js)
IsSound-update p f js same keeps (w, d) =
    (All-update IsWellFormed p f js keeps w, HasDistinctIds-update p f js same d)
