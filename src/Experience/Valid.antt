-- ===== src/Experience/Valid.antt =====
-- The table's invariant: ids are unique, columns agree, and each record's history explains its state.
use ai_system_canonical.Prelude.{
  ◌≡◌, refl, sym, subst, ◌∙◌, String, Bool, true, false, some, List, [], ◌∷◌, ◌++◌, ◌||◌, map,
  arith, All, str_eq, eq_iff, if◌then◌else◌,
}
use ai_system_canonical.Prelude.Floats.{Floats}
use ai_system_canonical.Experience.{
  ExperienceRecord, ExperienceState, observed, Move, Why, can_transition,
}
use ai_system_canonical.Experience.Store.{Table, Row, find, has_id, row_of, updated, move_to}
use ai_system_canonical.Experience.Operations.{Capture, captured, admitted}
use ai_system_canonical.Experience.Invariant.{Stable}
use ai_system_canonical.Experience.Sequence.{Operation, perform_all, perform_all_keeps}

-- The moves lead from the first state to the last, each from where the one before it ended and where
-- the table of transitions allows it.
abbrev pub Leads : ExperienceState → List Move → ExperienceState → Type 0
Leads s [] t = s ≡ t
Leads s (m ∷ ms) t = (m.source ≡ s) × (can_transition s m.target ≡ true) × Leads m.target ms t

pub record IsConsistent {F : Type 0} (r : Row F) : Type 0 where
  pub same_id : r.payload.id ≡ r.id
  pub same_state : r.state ≡ r.payload.validation_state
  pub explained : Leads observed r.payload.promotion_history r.payload.validation_state

abbrev pub IsUnique : {F : Type 0} → Table F → Type 0
IsUnique [] = Unit
IsUnique (r ∷ rows) = (has_id r.id rows ≡ false) × IsUnique rows

pub record IsValid {F : Type 0} (s : Table F) : Type 0 where
  pub consistent : All IsConsistent s
  pub unique : IsUnique s

Leads-snoc :
    (s : ExperienceState) (ms : List Move) (t u : ExperienceState) (why : Why)
    → Leads s ms t
    → can_transition t u ≡ true
    → Leads s (ms ++ record { source = t; target = u; why = why } ∷ []) u
Leads-snoc s [] t u why h k = (sym h, subst (λ x. can_transition x u ≡ true) (sym h) k, refl)
Leads-snoc s (m ∷ ms) t u why h k = (h.0, h.1, Leads-snoc m.target ms t u why h.2 k)

module _ {F : Type 0} where
  -- a consistent record with the id takes the place of the row's
  updated-IsConsistent :
      (new : ExperienceRecord F) (r : Row F)
      → Leads observed new.promotion_history new.validation_state
      → IsConsistent r
      → IsConsistent (updated new r)
  updated-IsConsistent new r e c = replaced (str_eq r.id new.id) (eq_iff r.id new.id).0
    where
      replaced :
          (b : Bool)
          → (b ≡ true → r.id ≡ new.id)
          → IsConsistent (if b then record r { state = new.validation_state; payload = new } else r)
      replaced false h = c
      replaced true h = record { same_id = sym (h refl); same_state = refl; explained = e }

  update-All :
      (new : ExperienceRecord F) (s : Table F)
      → Leads observed new.promotion_history new.validation_state
      → All IsConsistent s
      → All IsConsistent (map (updated new) s)
  update-All new [] e c = tt
  update-All new (r ∷ rows) e c = (updated-IsConsistent new r e c.0, update-All new rows e c.1)

  updated_id : (new : ExperienceRecord F) (r : Row F) → (updated new r).id ≡ r.id
  updated_id new r = ground arith

  has_id-update :
      (j : String) (new : ExperienceRecord F) (s : Table F)
      → has_id j (map (updated new) s) ≡ has_id j s
  unfolding has_id
  has_id-update j new [] = refl
  has_id-update j new (r ∷ rows) = ground (arith, updated_id new r, has_id-update j new rows)

  update-IsUnique :
      (new : ExperienceRecord F) (s : Table F) → IsUnique s → IsUnique (map (updated new) s)
  update-IsUnique new [] u = tt
  update-IsUnique new (r ∷ rows) u =
      (rw (updated_id new r) (has_id-update r.id new rows ∙ u.0), update-IsUnique new rows u.1)

  -- what is found is consistent, and carries the id that was asked for
  pub find-consistent :
      (j : String) (s : Table F) (exp : ExperienceRecord F)
      → All IsConsistent s
      → find j s ≡ some exp
      → (exp.id ≡ j) × Leads observed exp.promotion_history exp.validation_state
  unfolding find
  find-consistent j [] exp c e = cc
  find-consistent j (r ∷ rows) exp c e =
      here (str_eq r.id j) (eq_iff r.id j).0 (find-consistent j rows exp c.1) e
    where
      here :
          (b : Bool)
          → (b ≡ true → r.id ≡ j)
          → (find j rows ≡ some exp
              → (exp.id ≡ j) × Leads observed exp.promotion_history exp.validation_state)
          → (if b then some r.payload else find j rows) ≡ some exp
          → (exp.id ≡ j) × Leads observed exp.promotion_history exp.validation_state
      here true h rest k =
          let found : r.payload ≡ exp = cc in
          subst
            (λ (x : ExperienceRecord F).
              (x.id ≡ j) × Leads observed x.promotion_history x.validation_state)
            found (c.0.same_id ∙ h refl, c.0.explained)
      here false h rest k = rest k

  has_id-append : (j : String) (s t : Table F) → has_id j (s ++ t) ≡ (has_id j s || has_id j t)
  unfolding has_id
  has_id-append j [] t = refl
  has_id-append j (r ∷ rows) t = ground (arith, has_id-append j rows t)

  append-IsUnique :
      (s : Table F) (r : Row F) → has_id r.id s ≡ false → IsUnique s → IsUnique (s ++ r ∷ [])
  unfolding has_id
  append-IsUnique [] r h u = (refl, tt)
  append-IsUnique (q ∷ s) r h u = (
    ground (arith, has_id-append q.id s (r ∷ []), eq_iff q.id r.id, eq_iff r.id q.id),
    append-IsUnique s r (ground arith) u.1,
  )

  append-All :
      (s : Table F) (r : Row F)
      → IsConsistent r
      → All IsConsistent s
      → All IsConsistent (s ++ r ∷ [])
  append-All [] r h c = (h, tt)
  append-All (q ∷ s) r h c = (c.0, append-All s r h c.1)

  admitted-IsConsistent :
      (c : Capture F) (g : Bool × Why) → IsConsistent (row_of (admitted g (captured c)))
  unfolding can_transition
  admitted-IsConsistent c (false, why) = record {
    same_id = refl;
    same_state = refl;
    explained = refl;
  }
  admitted-IsConsistent c (true, why) = record {
    same_id = refl;
    same_state = refl;
    explained = (refl, refl, refl);
  }

  admitted-id : (c : Capture F) (g : Bool × Why) → (admitted g (captured c)).id ≡ c.id
  admitted-id c (false, why) = refl
  admitted-id c (true, why) = refl

  update-IsValid :
      (new : ExperienceRecord F) (s : Table F)
      → Leads observed new.promotion_history new.validation_state
      → IsValid s
      → IsValid (map (updated new) s)
  update-IsValid new s e v = record {
    consistent = update-All new s e v.consistent;
    unique = update-IsUnique new s v.unique;
  }

  pub IsValid-Stable : Stable (IsValid {F = F})
  IsValid-Stable = record {
    measured = λ s j old new v e same.
        update-IsValid new s
          (rw (same.same_state, same.same_history) (find-consistent j s old v.consistent e).1) v;
    moved = λ s j old target why v e k.
        update-IsValid (move_to target why old) s
          (Leads-snoc observed old.promotion_history old.validation_state target why
            (find-consistent j s old v.consistent e).1 k)
          v;
    added = λ s c g v h. record {
      consistent = append-All s _ (admitted-IsConsistent c g) v.consistent;
      unique = append-IsUnique s _ (rw (admitted-id c g) h) v.unique;
    };
  }

-- Whatever methods of the store are called, in whatever order and also where they raise, from an empty
-- table on: no id occurs twice, the columns of a row agree with its payload, and the recorded moves of
-- each experience lead from OBSERVED to its state by allowed transitions.
pub perform_all-IsValid :
    (N : Floats) (os : List (Operation N.Float)) → IsValid (perform_all N os [])
perform_all-IsValid N os =
    perform_all_keeps N IsValid-Stable os [] (record { consistent = tt; unique = tt })
