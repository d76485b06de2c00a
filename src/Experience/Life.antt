-- ===== src/Experience/Life.antt =====
-- What a promotion takes.
use ai_system_canonical.Prelude.{
  ◌≡◌, ◌≤◌, refl, sym, ap, ◌∙◌, ℕ, String, Bool, true, false, some, ◌&&◌, map, arith, length,
  if◌then◌else◌,
}
use ai_system_canonical.Prelude.Act.{Outcome, returns, pure, modify, ◌>>=◌, ◌>>◌}
use ai_system_canonical.Prelude.Floats.{Floats}
use ai_system_canonical.Experience.{
  ExperienceRecord, ExperienceState, validated, promoted, monitored, Why, after_promoted,
  can_transition, state_eq,
}
use ai_system_canonical.Experience.Gates.{gate_validated_to_promoted, min_heldout}
use ai_system_canonical.Experience.Evaluate.{
  PromoteDecision, promote_decision, decided, run_offline_eval, folded, touches_security,
}
use ai_system_canonical.Experience.Store.{
  Table, StoreError, find, update, updated, move_to, advance, is_live,
}
use ai_system_canonical.Experience.Operations.{promote, try_promote}
use ai_system_canonical.Experience.Valid.{IsValid, find-consistent}
use ai_system_canonical.Experience.Found.{get_found, find-updated, advance_allowed}

some-inj : {A : Type 0} (a b : A) → some a ≡ some b → a ≡ b
some-inj a b h = cc

state_eq-validated : (st : ExperienceState) → state_eq st validated ≡ true → st ≡ validated
state_eq-validated st h = ground arith

module _ {F : Type 0} where
  -- a validated record that is accepted is moved twice
  abbrev pub doubly : Why → ExperienceRecord F → ExperienceRecord F
  doubly why exp = move_to monitored after_promoted (move_to promoted why exp)

  promotes_twice :
      (j : String) (s : Table F) (why : Why) (exp : ExperienceRecord F)
      → find j s ≡ some exp
      → exp.id ≡ j
      → exp.validation_state ≡ validated
      → ((advance j promoted why >> advance j monitored after_promoted) s).0
          ≡ returns (doubly why exp)
        × (find j ((advance j promoted why >> advance j monitored after_promoted) s).1
            ≡ some (doubly why exp))
  unfolding ◌>>=◌ can_transition
  promotes_twice j s why exp e h v =
      let once = move_to promoted why exp in
      let s1 = map (updated once) s in
      let found = find-updated j s exp once e h in
      let one = advance_allowed j s exp promoted why e (rw v refl) in
      let two = advance_allowed j s1 once monitored after_promoted found refl in
      rw (one, two) (refl, find-updated j s1 once (doubly why exp) found h)

  promotes_if :
      (t : Bool) (j : String) (s : Table F) (why : Why) (exp : ExperienceRecord F)
      → find j s ≡ some exp
      → exp.id ≡ j
      → (t ≡ true → exp.validation_state ≡ validated)
      → ((if t then advance j promoted why >> advance j monitored after_promoted else pure exp) s).0
          ≡ returns (if t then doubly why exp else exp)
        × (find j
              ((if t
                  then advance j promoted why >> advance j monitored after_promoted
                  else pure exp)
                s).1
            ≡ some (if t then doubly why exp else exp))
  unfolding pure
  promotes_if true j s why exp e h v = promotes_twice j s why exp e h (v refl)
  promotes_if false j s why exp e h v = (refl, e)

  -- The record that `promote` returns is the one that it stores.
  promote_lem :
      (j : String) (s : Table F) (b : Bool) (why : Why) (exp : ExperienceRecord F)
      → find j s ≡ some exp
      → exp.id ≡ j
      → ((promote j b why exp s).0
          ≡ returns (if b && state_eq exp.validation_state validated then doubly why exp else exp))
        × (find j (promote j b why exp s).1
            ≡ some (if b && state_eq exp.validation_state validated then doubly why exp else exp))
  unfolding promote
  promote_lem j s b why exp e h =
      promotes_if (b && state_eq exp.validation_state validated) j s why exp e h
        (λ k. state_eq-validated exp.validation_state (ground arith))

-- What accepting a promotion without a report takes.
pub record IsEarned (N : Floats) (exp : ExperienceRecord N.Float) (approved : Bool) : Type 0 where
  pub was_validated : exp.validation_state ≡ validated
  pub enough_tasks : min_heldout ≤ length exp.shadow_replay_log
  pub drop_held : N.lt (N.decimal 20 1) (run_offline_eval N exp).guardrail_drop_pp ≡ false
  pub human : touches_security exp ≡ true → approved ≡ true

module _ (N : Floats) where
  open N use {Float, decimal, lt}

  accepted-gate :
      (exp : ExperienceRecord Float) (approved : Bool) (gate : Bool × Why)
      → (decided N exp approved gate).accepted ≡ true
      → (gate.0 ≡ true) × (touches_security exp ≡ true → approved ≡ true)
  accepted-gate exp approved (false, why) h = cc
  accepted-gate exp approved (true, why) h = (refl, λ k. ground arith)

  promoted_gate :
      (exp : ExperienceRecord Float) (drop : Float) (n : ℕ)
      → exp.guardrail_result ≡ some drop
      → exp.monitoring_metrics.heldout_n ≡ some n
      → (gate_validated_to_promoted N exp).0 ≡ true
      → (min_heldout ≤ n) × (lt (decimal 20 1) drop ≡ false)
  unfolding gate_validated_to_promoted
  promoted_gate exp drop n e k h = (ground arith, ground arith)

  try_promote_lem :
      (s : Table Float) (j : String) (approved : Bool) (exp : ExperienceRecord Float)
      → find j s ≡ some exp
      → exp.id ≡ j
      → let d = (promote_decision N exp approved).1 in
        let exp' =
          if d.accepted && state_eq exp.validation_state validated
          then doubly d.why (folded N exp)
          else folded N exp in
        ((try_promote N j approved s).0 ≡ returns (exp', d))
        × (find j (try_promote N j approved s).1 ≡ some exp')
  unfolding try_promote promote_decision update modify ◌>>=◌ pure
  try_promote_lem s j approved exp e h =
      let new = folded N exp in
      let d = decided N new approved (gate_validated_to_promoted N new) in
      let p =
        promote_lem j (map (updated new) s) d.accepted d.why new (find-updated j s exp new e h) h in
      (
        ap
              (λ (r : Outcome StoreError (ExperienceRecord Float × PromoteDecision) × Table Float).
                r.0)
              (get_found j s exp _ e)
            ∙ rw p.0 refl,
        ap
              (λ (r : Outcome StoreError (ExperienceRecord Float × PromoteDecision) × Table Float).
                find j r.1)
              (get_found j s exp _ e)
            ∙ rw p.0 p.1,
      )

  IsEarned-if :
      (t : Bool) (why : Why) (exp new e' : ExperienceRecord Float) (approved : Bool)
      → (t ≡ true → IsEarned N exp approved)
      → new.validation_state ≡ exp.validation_state
      → is_live exp.validation_state ≡ false
      → (if t then doubly why new else new) ≡ e'
      → is_live e'.validation_state ≡ true
      → IsEarned N exp approved
  IsEarned-if true why exp new e' approved k q n g l = k refl
  IsEarned-if false why exp new e' approved k q n g l =
      let same : e'.validation_state ≡ exp.validation_state =
        sym (ap (λ (x : ExperienceRecord Float). x.validation_state) g) ∙ q in
      let live : is_live exp.validation_state ≡ true = ap is_live (sym same) ∙ l in cc

  accepted-IsEarned :
      (exp : ExperienceRecord Float) (approved : Bool)
      → ((promote_decision N exp approved).1.accepted && state_eq exp.validation_state validated)
        ≡ true
      → IsEarned N exp approved
  unfolding promote_decision run_offline_eval touches_security
  accepted-IsEarned exp approved h =
      let new = folded N exp in
      let taken = accepted-gate new approved (gate_validated_to_promoted N new) (ground arith) in
      let gate = promoted_gate new _ _ refl refl taken.0 in
      record {
        was_validated = state_eq-validated exp.validation_state (ground arith);
        enough_tasks = gate.0;
        drop_held = gate.1;
        human = taken.1;
      }

  -- Where `try_promote` without a report leaves the record under an id PROMOTED or MONITORED that was
  -- neither before, the record was VALIDATED, its shadow log has at least 10 runs, its guardrail drop is
  -- not above 2.0 points, and if its text touches security a human had approved.
  pub try_promote-IsEarned :
      (s : Table Float) (j : String) (approved : Bool) (exp e' : ExperienceRecord Float)
      → IsValid s
      → find j s ≡ some exp
      → is_live exp.validation_state ≡ false
      → find j (try_promote N j approved s).1 ≡ some e'
      → is_live e'.validation_state ≡ true
      → IsEarned N exp approved
  try_promote-IsEarned s j approved exp e' v e n g l =
      let id_j = (find-consistent j s exp v.consistent e).0 in
      let stored = (try_promote_lem s j approved exp e id_j).1 in
      let both = sym stored ∙ g in
      IsEarned-if _ (promote_decision N exp approved).1.why exp (folded N exp) e' approved
        (accepted-IsEarned exp approved) refl n (some-inj _ _ both) l
