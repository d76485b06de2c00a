-- ===== src/Experience/Found.antt =====
-- What reads and moves do to a record that the table has.
use ai_system_canonical.Prelude.{◌≡◌, refl, sym, ◌∙◌, String, true, false, some, map, eq_iff}
use ai_system_canonical.Prelude.Act.{returns, throws, pure, throw, on_option, modify, gets, ◌>>=◌}
use ai_system_canonical.Experience.{ExperienceRecord, ExperienceState, Why, can_transition}
use ai_system_canonical.Experience.Store.{
  Act, Table, not_allowed, find, update, updated, get, move_to, advance,
}
use ai_system_canonical.Experience.Final.{find-update}

module _ {F : Type 0} where
  pub get_found :
      {A : Type 0} (j : String) (s : Table F) (exp : ExperienceRecord F)
      (next : ExperienceRecord F → Act F A)
      → find j s ≡ some exp
      → (get j >>= next) s ≡ next exp s
  unfolding get gets ◌>>=◌ on_option pure
  get_found j s exp next e = rw e

  pub find-updated :
      (j : String) (s : Table F) (old new : ExperienceRecord F)
      → find j s ≡ some old
      → new.id ≡ j
      → find j (map (updated new) s) ≡ some new
  find-updated j s old new e h = find-update j new s ∙ rw ((eq_iff j new.id).1 (sym h), e) refl

  pub advance_allowed :
      (j : String) (s : Table F) (exp : ExperienceRecord F) (target : ExperienceState) (why : Why)
      → find j s ≡ some exp
      → can_transition exp.validation_state target ≡ true
      → advance j target why s
        ≡ (returns (move_to target why exp), map (updated (move_to target why exp)) s)
  unfolding advance update modify ◌>>=◌ pure
  advance_allowed j s exp target why e h = get_found j s exp _ e ∙ rw h refl

  pub advance_refused :
      (j : String) (s : Table F) (exp : ExperienceRecord F) (target : ExperienceState) (why : Why)
      → find j s ≡ some exp
      → can_transition exp.validation_state target ≡ false
      → advance j target why s ≡ (throws (not_allowed exp.validation_state target), s)
  unfolding advance throw
  advance_refused j s exp target why e h = get_found j s exp _ e ∙ rw h refl
