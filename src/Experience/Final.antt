-- ===== src/Experience/Final.antt =====
-- A record that is STALE or QUARANTINED stays as it is. The documents let a manual review take a
-- quarantined record back to CANDIDATE; the code has no such move.
use ai_system_canonical.Prelude.{
  ◌≡◌, refl, sym, ap, ◌∙◌, String, false, Option, none, some, List, [], ◌∷◌, ◌++◌, map, arith,
  str_eq, eq_iff, if◌then◌else◌, Bool-cases, inl, inr,
}
use ai_system_canonical.Prelude.Floats.{Floats}
use ai_system_canonical.Experience.{
  ExperienceRecord, ExperienceState, stale, quarantined, Move, can_transition,
}
use ai_system_canonical.Experience.Store.{Table, find, updated, move_to}
use ai_system_canonical.Experience.Invariant.{Stable}
use ai_system_canonical.Experience.Sequence.{Operation, perform_all, perform_all_keeps}
use ai_system_canonical.Experience.Valid.{IsValid, IsValid-Stable, find-consistent}

-- no transition leads on
abbrev pub IsFinal : ExperienceState → Type 0
IsFinal s = (t : ExperienceState) → can_transition s t ≡ false

pub stale-IsFinal : IsFinal stale
unfolding can_transition
stale-IsFinal t = refl

pub quarantined-IsFinal : IsFinal quarantined
unfolding can_transition
quarantined-IsFinal t = refl

-- The record under the id has this state and this history.
abbrev pub Holds : {F : Type 0} → String → ExperienceState → List Move → Table F → Type 0
Holds {F} j st ms s =
    (exp : ExperienceRecord F) × (find j s ≡ some exp)
    × (exp.validation_state ≡ st)
    × (exp.promotion_history ≡ ms)

module _ {F : Type 0} where
  abbrev pub replaced :
      ExperienceRecord F → Option (ExperienceRecord F) → Option (ExperienceRecord F)
  replaced new none = none
  replaced new (some _) = some new

  pub find-update :
      (j : String) (new : ExperienceRecord F) (s : Table F)
      → find j (map (updated new) s)
        ≡ (if str_eq j new.id then replaced new (find j s) else find j s)
  unfolding find
  find-update j new [] = ground arith
  find-update j new (r ∷ rows) =
      ground (arith, eq_iff r.id j, eq_iff r.id new.id, eq_iff j new.id, find-update j new rows)

  find-append :
      (j : String) (s t : Table F) (exp : ExperienceRecord F)
      → find j s ≡ some exp
      → find j (s ++ t) ≡ some exp
  unfolding find
  find-append j [] t exp h = cc
  find-append j (r ∷ rows) t exp h = ground (arith, find-append j rows t exp)

  kept :
      (j : String) (st : ExperienceState) (ms : List Move) (s : Table F) (new : ExperienceRecord F)
      → Holds j st ms s
      → (j ≡ new.id → (new.validation_state ≡ st) × (new.promotion_history ≡ ms))
      → Holds j st ms (map (updated new) s)
  kept j st ms s new (exp, e, a, b) h = elim (Bool-cases (str_eq j new.id)) [
    | inl same ↦
        let (p, q) = h ((eq_iff j new.id).0 same) in
        (new, find-update j new s ∙ rw (same, e) refl, p, q)
    | inr other ↦ (exp, find-update j new s ∙ rw other e, a, b)
  ]

  -- the record that an operation found is the one that is held, if they share the id
  same_record :
      (j i : String) (st : ExperienceState) (ms : List Move) (s : Table F)
      (old : ExperienceRecord F)
      → IsValid s
      → Holds j st ms s
      → find i s ≡ some old
      → j ≡ old.id
      → (old.validation_state ≡ st) × (old.promotion_history ≡ ms)
  same_record j i st ms s old v (exp, e, a, b) f q =
      let i_is_j : i ≡ j = sym (q ∙ (find-consistent i s old v.consistent f).0) in
      let one : some old ≡ some exp = sym f ∙ ap (λ k. find k s) i_is_j ∙ e in
      let it : old ≡ exp = cc in
      (
        ap (λ (x : ExperienceRecord F). x.validation_state) it ∙ a,
        ap (λ (x : ExperienceRecord F). x.promotion_history) it ∙ b,
      )

  Final-Stable :
      (j : String) (st : ExperienceState) (ms : List Move)
      → IsFinal st
      → Stable (λ (s : Table F). IsValid s × Holds j st ms s)
  Final-Stable j st ms final = record {
    measured = λ s i old new p e same. (
      IsValid-Stable.measured s i old new p.0 e same,
      kept j st ms s new p.1 (λ q.
          let held = same_record j i st ms s old p.0 p.1 e (q ∙ same.same_id) in
          (same.same_state ∙ held.0, same.same_history ∙ held.1)),
    );
    moved = λ s i old target why p e k. (
      IsValid-Stable.moved s i old target why p.0 e k,
      kept j st ms s (move_to target why old) p.1 (λ q.
          let held = same_record j i st ms s old p.0 p.1 e q in
          let refused : can_transition old.validation_state target ≡ false =
            rw held.0 (final target) in
          cc),
    );
    added = λ s c g p h.
        (IsValid-Stable.added s c g p.0 h, (p.1.0, find-append j s _ p.1.0 p.1.1, p.1.2, p.1.3));
  }

-- Where a record of a valid table is in a state that no transition leaves, STALE or QUARANTINED, every
-- sequence of calls, raising or not, leaves the table valid and that record with its state and history.
pub perform_all-final :
    (N : Floats) (os : List (Operation N.Float)) (s : Table N.Float) (j : String)
    (st : ExperienceState) (ms : List Move)
    → IsValid s
    → IsFinal st
    → Holds j st ms s
    → IsValid (perform_all N os s) × Holds j st ms (perform_all N os s)
perform_all-final N os s j st ms v final h =
    perform_all_keeps N (Final-Stable j st ms final) os s (v, h)
