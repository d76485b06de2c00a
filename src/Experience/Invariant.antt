-- ===== src/Experience/Invariant.antt =====
-- What a property of the table has to satisfy so that every operation keeps it.
use ai_system_canonical.Prelude.{
  ◌≡◌, refl, String, Bool, true, false, Option, none, some, List, [], ◌∷◌, ◌++◌, map, if◌then◌else◌,
}
use ai_system_canonical.Prelude.Act.{pure, throw, on_option, modify, gets, ◌>>=◌, ◌>>◌}
use ai_system_canonical.Prelude.Keeps.{Keeps, Keeps-bind, Keeps-pure, Keeps-gets, keeps_rules}
use ai_system_canonical.Prelude.Floats.{Floats}
use ai_system_canonical.Experience.{
  ExperienceRecord, ExperienceState, ShadowRun, Why, can_transition,
}
use ai_system_canonical.Experience.Evaluate.{promote_decision}
use ai_system_canonical.Experience.Store.{
  Act, Table, StoreError, find, has_id, row_of, insert, updated, update, get, move_to, advance,
}
use ai_system_canonical.Experience.Operations.{
  Capture, Report, captured, admitted, capture, add_shadow_result, with_report, with_guardrail,
  promote, promote_on, settle_use, record_use, validating, try_validate, try_promote, swept, sweep,
  sweep_stale,
}

-- `new` is `old` with other measurements.
pub record SameLife {F : Type 0} (old new : ExperienceRecord F) : Type 0 where
  pub same_id : new.id ≡ old.id
  pub same_state : new.validation_state ≡ old.validation_state
  pub same_history : new.promotion_history ≡ old.promotion_history

-- A found record is measured again, or moved where the table of transitions allows it, and a new one
-- is appended under an id that is not in use.
pub record Stable {F : Type 0} (P : Table F → Type 0) : Type 0 where
  pub measured :
      (s : Table F) (j : String) (old new : ExperienceRecord F)
      → P s
      → find j s ≡ some old
      → SameLife old new
      → P (map (updated new) s)
  pub moved :
      (s : Table F) (j : String) (old : ExperienceRecord F) (target : ExperienceState) (why : Why)
      → P s
      → find j s ≡ some old
      → can_transition old.validation_state target ≡ true
      → P (map (updated (move_to target why old)) s)
  pub added :
      (s : Table F) (c : Capture F) (g : Bool × Why)
      → P s
      → has_id c.id s ≡ false
      → P (s ++ row_of (admitted g (captured c)) ∷ [])

module _ {F : Type 0} (P : Table F → Type 0) where
  looked_up :
      {A : Type 0} (o : Option (ExperienceRecord F)) (j : String)
      (next : ExperienceRecord F → Act F A) (s : Table F)
      → P s
      → ((exp : ExperienceRecord F) → o ≡ some exp → P (next exp s).1)
      → P ((on_option o (throw (StoreError.key_error j)) pure >>= next) s).1
  unfolding on_option throw pure ◌>>=◌
  looked_up none j next s p k = p
  looked_up (some exp) j next s p k = k exp refl

  Keeps-get :
      {A : Type 0} (j : String) (next : ExperienceRecord F → Act F A)
      → ((s : Table F) (exp : ExperienceRecord F) → P s → find j s ≡ some exp → P (next exp s).1)
      → Keeps P (get j >>= next)
  unfolding get gets ◌>>=◌
  Keeps-get j next k = record {
    holds = λ s p. looked_up (find j s) j next s p (λ exp e. k s exp p e);
  }

  -- after a change, what follows keeps `P`
  then_keeps :
      {A : Type 0} (new : ExperienceRecord F) (rest : Act F A) (s : Table F)
      → P (map (updated new) s)
      → Keeps P rest
      → P ((update new >> rest) s).1
  unfolding update modify ◌>>=◌
  then_keeps new rest s p k = k.holds (map (updated new) s) p

module _ {F : Type 0} {P : Table F → Type 0} (inv : Stable P) where
  may_move :
      (b : Bool) (s : Table F) (j : String) (old : ExperienceRecord F) (target : ExperienceState)
      (why : Why)
      → P s
      → find j s ≡ some old
      → can_transition old.validation_state target ≡ b
      → P
          ((if b
              then update (move_to target why old) >> pure (move_to target why old)
              else throw (StoreError.not_allowed old.validation_state target))
            s).1
  unfolding throw
  may_move true s j old target why p e h =
      then_keeps P _ _ s (inv.moved s j old target why p e h) (Keeps-pure _)
  may_move false s j old target why p e h = p

  pub advance-Keeps :
      (j : String) (target : ExperienceState) (why : Why) → Keeps P (advance j target why)
  unfolding advance
  advance-Keeps j target why = Keeps-get P j _ (λ s exp p e. may_move _ s j exp target why p e refl)

  -- a found record is measured, and the rest keeps `P`
  measure :
      {A : Type 0} (j : String) (new : ExperienceRecord F → ExperienceRecord F)
      (rest : ExperienceRecord F → Act F A)
      → ((exp : ExperienceRecord F) → SameLife exp (new exp))
      → ((exp : ExperienceRecord F) → Keeps P (rest exp))
      → Keeps P (get j >>= λ exp. update (new exp) >> rest exp)
  measure j new rest same k = Keeps-get P j _ (λ s exp p e.
      then_keeps P (new exp) (rest exp) s (inv.measured s j exp _ p e (same exp)) (k exp))

  pub add_shadow_result-Keeps : (j : String) (run : ShadowRun F) → Keeps P (add_shadow_result j run)
  unfolding add_shadow_result
  add_shadow_result-Keeps j run =
      measure j _ _ (λ exp. record { same_id = refl; same_state = refl; same_history = refl })
        (λ exp. Keeps-pure _)

  promote-Keeps :
      (j : String) (b : Bool) (why : Why) (exp : ExperienceRecord F) → Keeps P (promote j b why exp)
  unfolding promote
  promote-Keeps j b why exp = search (keeps_rules, advance-Keeps)

  with_report-SameLife :
      (r : Report F) (exp : ExperienceRecord F) → SameLife exp (with_report r exp)
  with_report-SameLife r exp = graded r.guardrail_drop
    where
      graded :
          (o : Option F)
          → SameLife exp (record (with_guardrail o exp) {
            monitoring_metrics = record exp.monitoring_metrics { heldout_n = some r.heldout_n };
          })
      graded none = record { same_id = refl; same_state = refl; same_history = refl }
      graded (some drop) = record { same_id = refl; same_state = refl; same_history = refl }

  pub promote_on-Keeps : (j : String) (r : Report F) → Keeps P (promote_on j r)
  unfolding promote_on
  promote_on-Keeps j r = measure j _ _ (with_report-SameLife r) (λ exp. search (promote-Keeps))

  may_insert :
      (b : Bool) (s : Table F) (c : Capture F) (g : Bool × Why)
      → P s
      → has_id c.id s ≡ b
      → P
          (if b
            then throw {A = Unit {0}} (StoreError.integrity_error c.id) s
            else modify (λ (rs : Table F). rs ++ row_of (admitted g (captured c)) ∷ []) s).1
  unfolding throw modify
  may_insert true s c g p h = p
  may_insert false s c g p h = inv.added s c g p h

  insert-Keeps : (c : Capture F) (g : Bool × Why) → Keeps P (insert (admitted g (captured c)))
  unfolding insert
  insert-Keeps c (false, why) = record { holds = λ s p. may_insert _ s c (false, why) p refl }
  insert-Keeps c (true, why) = record { holds = λ s p. may_insert _ s c (true, why) p refl }

  pub capture-Keeps : (c : Capture F) → Keeps P (capture c)
  unfolding capture
  capture-Keeps c = search (keeps_rules, insert-Keeps)

module _ (N : Floats) {P : Table N.Float → Type 0} (inv : Stable P) where
  open N use {Float}

  settle_use-Keeps :
      (j : String) (exp : ExperienceRecord Float) (q s : Bool × Why)
      → Keeps P (settle_use N j exp q s)
  unfolding settle_use
  settle_use-Keeps j exp (q, why) (s, swhy) = search (keeps_rules, advance-Keeps inv)

  pub record_use-Keeps : (j : String) (verified cat : Bool) → Keeps P (record_use N j verified cat)
  unfolding record_use
  record_use-Keeps j verified cat =
      measure inv j _ _ (λ exp. record { same_id = refl; same_state = refl; same_history = refl })
        (λ exp. search (settle_use-Keeps))

  validating-Keeps :
      (j : String) (gate : Bool × Why) (exp : ExperienceRecord Float)
      → Keeps P (validating N j gate exp)
  validating-Keeps j (passed, why) exp = search (keeps_rules, advance-Keeps inv)

  pub try_validate-Keeps : (j : String) → Keeps P (try_validate N j)
  unfolding try_validate
  try_validate-Keeps j = Keeps-get P j _ (λ s exp p e. (validating-Keeps j _ exp).holds s p)

  pub try_promote-Keeps : (j : String) (b : Bool) → Keeps P (try_promote N j b)
  unfolding try_promote promote_decision
  try_promote-Keeps j b =
      measure inv j _ _ (λ exp. record { same_id = refl; same_state = refl; same_history = refl })
        (λ exp. search (keeps_rules, promote-Keeps))

  swept-Keeps :
      (exp : ExperienceRecord Float) (gate : Bool × Why)
      (rest : Act Float (List (ExperienceRecord Float)))
      → Keeps P rest
      → Keeps P (swept N exp gate rest)
  swept-Keeps exp (false, why) rest k = k
  swept-Keeps exp (true, why) rest k = search (keeps_rules, advance-Keeps inv)

  sweep-Keeps : (exps : List (ExperienceRecord Float)) → Keeps P (sweep N exps)
  unfolding sweep
  sweep-Keeps [] = Keeps-pure _
  sweep-Keeps (exp ∷ exps) = swept-Keeps exp _ _ (sweep-Keeps exps)

  pub sweep_stale-Keeps : Keeps P (sweep_stale N)
  unfolding sweep_stale
  sweep_stale-Keeps = Keeps-bind _ _ (Keeps-gets _) (λ exps. sweep-Keeps exps)
