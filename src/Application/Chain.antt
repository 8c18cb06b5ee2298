-- ===== src/Application/Chain.antt =====
-- The log of an application as a chain of moves, and when the store and its logs agree.
use mathlib.Core.Bool.{false≢true}
use mathlib.Core.List.{Memᴰ}
use jaa.Prelude.{
  ℕ, ◌+◌, ◌≤◌, Bool, true, String, some, List, [], ◌∷◌, ◌++◌, ◌≡◌, ◌≢◌, refl, sym, arith, ◌===◌,
  ◌&&◌, find, count, keep, length, All, Bool-cases, inl, inr, ◌∙◌,
}
use jaa.Application.Status.{
  ApplicationStatus, discovered, confirmed, can_transition, status_eq_sound, status_eq,
  status_eq_refl,
}
use jaa.Application.Graph.{Reach, next}
use jaa.Application.Store.{Application, Transition, Db}
use jaa.Application.Machine.{owns, is_verifier}

-- The rows of a log lead from one status and version to another, each by an allowed move that adds
-- one to the version.
abbrev pub Chain : ApplicationStatus → ℕ → List Transition → ApplicationStatus → ℕ → Type 0
Chain s v [] s' v' = (s ≡ s') × (v ≡ v')
Chain s v (t ∷ ts) s' v' =
    (t.from_status ≡ s)
    × (can_transition t.from_status t.to_status ≡ true)
    × (t.version ≡ v + 1)
    × Chain t.to_status t.version ts s' v'

pub Chain-snoc :
    (s : ApplicationStatus) (v : ℕ) (ts : List Transition) (s' : ApplicationStatus) (v' : ℕ)
    (t : Transition)
    → Chain s v ts s' v'
    → t.from_status ≡ s'
    → can_transition t.from_status t.to_status ≡ true
    → t.version ≡ v' + 1
    → Chain s v (ts ++ t ∷ []) t.to_status (v' + 1)
Chain-snoc s v [] s' v' t c from allowed version =
    (from ∙ sym c.0, allowed, omega (arith, c.1), (refl, version))
Chain-snoc s v (u ∷ ts) s' v' t (a, b, d, c) from allowed version =
    (a, b, d, Chain-snoc u.to_status u.version ts s' v' t c from allowed version)

pub Chain-length :
    (s : ApplicationStatus) (v : ℕ) (ts : List Transition) (s' : ApplicationStatus) (v' : ℕ)
    → Chain s v ts s' v'
    → v' ≡ v + length ts
Chain-length s v [] s' v' c = omega (arith, c.1)
Chain-length s v (t ∷ ts) s' v' (_, _, d, c) =
    omega (arith, d, Chain-length t.to_status t.version ts s' v' c)

pub Chain-Reach :
    (o s : ApplicationStatus) (v : ℕ) (ts : List Transition) (s' : ApplicationStatus) (v' : ℕ)
    → Reach o s
    → Chain s v ts s' v'
    → Reach o s'
Chain-Reach o s v [] s' v' r c = rw (← c.0) r
Chain-Reach o s v (t ∷ ts) s' v' r (a, b, _, c) =
    Chain-Reach o t.to_status t.version ts s' v' (next r (rw a at b)) c

abbrev pub belongs : String → String → Transition → Bool
belongs id user_id t = t.application_id === id && t.user_id === user_id

abbrev pub history : String → String → Db → List Transition
history id user_id db = keep (belongs id user_id) db.transitions

-- Each owner has one row at most for an application's id; the log of that application leads from
-- DISCOVERED at version 1 to the row's status and version; and only the verifier has confirmed.
pub record IsConsistent (db : Db) : Type 0 where
  pub unique : (id user_id : String) → count (owns id user_id) db.applications ≤ 1
  pub recorded :
      (id user_id : String) (a : Application)
      → find (owns id user_id) db.applications ≡ some a
      → Chain discovered 1 (history id user_id db) a.status a.version
  pub verified : All (λ t. t.to_status ≡ confirmed → is_verifier t.actor_type ≡ true) db.transitions

-- The last row of a chain names its status; a chain from another status has a row.
pub Chain-last :
    (s : ApplicationStatus) (v : ℕ) (ts : List Transition) (s' : ApplicationStatus) (v' : ℕ)
    → Chain s v ts s' v'
    → s ≢ s'
    → (t : Transition) × Memᴰ t ts × (t.to_status ≡ s')
Chain-last s v [] s' v' c ne = absurd (ne c.0)
Chain-last s v (t ∷ ts) s' v' (a, b, d, c) ne = elim (Bool-cases (status_eq t.to_status s')) [
  | inl e ↦ (t, Memᴰ.head refl, status_eq_sound t.to_status s' e)
  | inr e ↦
      let (u, m, h) =
        Chain-last t.to_status t.version ts s' v' c
          (λ same. false≢true (sym e ∙ rw same (status_eq_refl s'))) in
      (u, Memᴰ.tail m, h)
]

pub All-Memᴰ :
    (P : Transition → Type 0) (ts : List Transition) (t : Transition) → All P ts → Memᴰ t ts → P t
All-Memᴰ P [] t h m = elim m [ ]
All-Memᴰ P (u ∷ ts) t (p, h) (Memᴰ.head e) = rw e p
All-Memᴰ P (u ∷ ts) t (p, h) (Memᴰ.tail m) = All-Memᴰ P ts t h m
