-- ===== src/Application/Commits.antt =====
-- The write of a transition, and the agreement of the store with its logs.
use mathlib.Core.Bool.{and-eq-true_iff}
use mathlib.Core.Option
use mathlib.Core.List.{append-nil}
use jaa.Prelude.{
  ℕ, true, false, String, some, [], ◌∷◌, ◌++◌, ◌≡◌, refl, sym, arith, ◌===◌, ◌&&◌, eq_iff, eq_refl,
  find, count, keep-append, All-append, find_holds, find-update_keeps, count-update_keeps,
  find_is_the_one, Bool-cases, inl, inr, if◌then◌else◌, ◌∙◌,
}
use jaa.Application.Status.{discovered, confirmed, can_transition, status_eq_sound}
use jaa.Application.Store.{Application, Db, TransitionInput}
use jaa.Application.Machine.{owns, is_verifier, apply_status, is_current, new_transition}
use jaa.Application.Steps.{committed}
use jaa.Application.Chain.{Chain, Chain-snoc, belongs, history, IsConsistent}

module _ (current : Application) (version : ℕ) (input : TransitionInput) (now : ℕ) where
  apply_keeps_owner :
      (id user_id : String) (a : Application)
      → owns id user_id (if is_current current version input a then apply_status input now a else a)
        ≡ owns id user_id a
  unfolding apply_status
  apply_keeps_owner id user_id a = ground arith

  is_current-owns :
      (a : Application)
      → is_current current version input a ≡ true
      → owns current.id input.user_id a ≡ true
  is_current-owns a h = ground arith

  -- A row that is not the one moved keeps its chain: the new log row is another application's.
  history-committed_other :
      (id user_id : String) (db : Db)
      → (current.id === id && input.user_id === user_id) ≡ false
      → history id user_id (committed current version input now db) ≡ history id user_id db
  unfolding new_transition
  history-committed_other id user_id db h =
      rw (keep-append (belongs id user_id) db.transitions) (rw (h, append-nil) refl)

  history-committed_same :
      (db : Db)
      → history current.id input.user_id (committed current version input now db)
        ≡ history current.id input.user_id db ++ new_transition current version input ∷ []
  unfolding new_transition
  history-committed_same db =
      rw (keep-append (belongs current.id input.user_id) db.transitions) (simp eq_refl)

  module _ (db : Db) (consistent : IsConsistent db)
      (one : count (is_current current version input) db.applications ≡ 1)
      (allowed : can_transition current.status input.to_status ≡ true) where
    -- The row that the update moves.
    moved_row :
        (a : Application)
        → find (owns current.id input.user_id) db.applications ≡ some a
        → is_current current version input a ≡ true
    moved_row a found =
        find_is_the_one (is_current current version input) (owns current.id input.user_id)
          db.applications a is_current-owns (consistent.unique current.id input.user_id)
          (omega arith) found

    recorded_same :
        (a : Application)
        → find (owns current.id input.user_id) db.applications ≡ some a
        → Chain discovered 1
            (history current.id input.user_id (committed current version input now db))
            (apply_status input now a).status
            (apply_status input now a).version
    unfolding apply_status new_transition
    recorded_same a found =
        let hit = moved_row a found in
        let status : a.status ≡ current.status =
          status_eq_sound a.status current.status (ground arith) in
        let at_version : a.version ≡ version = ground arith in
        rw (history-committed_same db) (
          Chain-snoc discovered 1 (history current.id input.user_id db) a.status a.version
            (new_transition current version input)
            (consistent.recorded current.id input.user_id a found) (sym status) allowed
            (omega arith))

    not_moved :
        (id user_id : String) (a : Application)
        → (current.id === id && input.user_id === user_id) ≡ false
        → owns id user_id a ≡ true
        → is_current current version input a ≡ false
    not_moved id user_id a h k = ground (
      arith,
      eq_iff a.id current.id,
      eq_iff a.user_id input.user_id,
      eq_iff current.id id,
      eq_iff input.user_id user_id,
      eq_iff a.id id,
      eq_iff a.user_id user_id,
    )

    found_before :
        (id user_id : String) (a' : Application)
        → find (owns id user_id) (committed current version input now db).applications ≡ some a'
        → (a : Application) × (find (owns id user_id) db.applications ≡ some a)
          × (a' ≡ (if is_current current version input a then apply_status input now a else a))
    found_before id user_id a' found =
        let (a, before, same) = (Option.map-eq-some_iff _ _).0 (
          sym (
            find-update_keeps (is_current current version input) (owns id user_id)
              (apply_status input now) db.applications (apply_keeps_owner id user_id))
          ∙ found) in
        (a, before, sym same)

    recorded-committed :
        (id user_id : String) (a' : Application)
        → find (owns id user_id) (committed current version input now db).applications ≡ some a'
        → Chain discovered 1
            (history id user_id (committed current version input now db))
            a'.status
            a'.version
    recorded-committed id user_id a' found =
        let (a, before, same) = found_before id user_id a' found in
        elim (Bool-cases (current.id === id && input.user_id === user_id)) [
          | inl mine ↦
              let same_id : current.id ≡ id = (eq_iff _ _).0 ((and-eq-true_iff _ _).0 mine).0 in
              let same_owner : input.user_id ≡ user_id =
                (eq_iff _ _).0 ((and-eq-true_iff _ _).0 mine).1 in
              let before' : find (owns current.id input.user_id) db.applications ≡ some a =
                rw (same_id, same_owner) before in
              let moved : a' ≡ apply_status input now a = same ∙ rw (moved_row a before') refl in
              rw (moved, ← same_id, ← same_owner) (recorded_same a before')
          | inr others ↦
              let kept : is_current current version input a ≡ false =
                not_moved id user_id a others (find_holds _ db.applications before) in
              let unmoved : a' ≡ a = same ∙ rw kept refl in
              rw (unmoved, history-committed_other id user_id db others)
                (consistent.recorded id user_id a before)
        ]

    pub committed-IsConsistent :
        ((input.to_status ≡ confirmed) → is_verifier input.actor_type ≡ true)
        → IsConsistent (committed current version input now db)
    unfolding new_transition
    committed-IsConsistent by_verifier = record {
      unique = λ id user_id.
          rw
            (count-update_keeps (is_current current version input) (owns id user_id)
              (apply_status input now) db.applications (apply_keeps_owner id user_id))
            (consistent.unique id user_id);
      recorded = recorded-committed;
      verified = All-append _ db.transitions _ consistent.verified (by_verifier, tt);
    }
