-- ===== src/Experience/Use.antt =====
-- What a use with a catastrophic outcome does.
use ai_system_canonical.Prelude.{
  ◌≡◌, refl, ap, String, Bool, true, false, some, not, map, arith, if◌then◌else◌,
}
use ai_system_canonical.Prelude.Act.{Outcome, returns, throws, pure, modify, ◌>>=◌}
use ai_system_canonical.Prelude.Floats.{Floats}
use ai_system_canonical.Experience.{
  ExperienceRecord, ExperienceState, stale, quarantined, Why, catastrophic_outcome, can_transition,
  state_eq,
}
use ai_system_canonical.Experience.Gates.{should_go_stale, should_quarantine}
use ai_system_canonical.Experience.Store.{
  Table, StoreError, not_allowed, find, update, updated, move_to, advance, is_live,
}
use ai_system_canonical.Experience.Operations.{after_use, settle_use, record_use}
use ai_system_canonical.Experience.Valid.{IsValid, find-consistent}
use ai_system_canonical.Experience.Final.{stale-IsFinal}
use ai_system_canonical.Experience.Found.{get_found, find-updated, advance_allowed, advance_refused}

not_quarantined :
    (st : ExperienceState) → can_transition st quarantined ≡ true → state_eq st quarantined ≡ false
unfolding can_transition
not_quarantined st h = ground arith

module _ (N : Floats) where
  open N use {Float}

  -- the record with one more use counted
  abbrev pub used : ExperienceRecord Float → Bool → ExperienceRecord Float
  used exp verified = record exp {
    monitoring_metrics = after_use N exp.monitoring_metrics verified;
  }

  -- The call ends in this way, and leaves this record under the id.
  abbrev pub Leaves :
      Outcome StoreError (ExperienceRecord Float)
      → String
      → ExperienceRecord Float
      → Outcome StoreError (ExperienceRecord Float) × Table Float
      → Type 0
  Leaves o j exp out = (out.0 ≡ o) × (find j out.1 ≡ some exp)

  settled :
      (j : String) (s : Table Float) (exp : ExperienceRecord Float) (verified : Bool)
      → find j s ≡ some exp
      → record_use N j verified true s
        ≡ settle_use N j
            (used exp verified)
            (true, catastrophic_outcome)
            (should_go_stale N (used exp verified))
            (map (updated (used exp verified)) s)
  unfolding record_use update modify ◌>>=◌ should_quarantine
  settled j s exp verified e = get_found j s exp _ e

  -- a quarantined record is neither quarantined again nor made stale
  stays :
      (j : String) (s : Table Float) (exp : ExperienceRecord Float) (gate : Bool × Why)
      → exp.validation_state ≡ quarantined
      → settle_use N j exp (true, catastrophic_outcome) gate s ≡ (returns exp, s)
  unfolding settle_use pure
  stays j s exp (true, why) k =
      ap
        (λ st.
          (if not (state_eq st quarantined)
              then advance j quarantined catastrophic_outcome
              else if is_live st
              then advance j stale why
              else pure exp)
            s)
        k
  stays j s exp (false, why) k =
      ap
        (λ st.
          (if not (state_eq st quarantined)
              then advance j quarantined catastrophic_outcome
              else pure exp)
            s)
        k

  -- A use with a catastrophic outcome is counted in each case. A record that may still be quarantined
  -- is, and is returned; a QUARANTINED one is returned as it is; for a STALE one the call raises
  -- ValueError, and the record stays STALE.
  pub record_use-catastrophic :
      (s : Table Float) (j : String) (exp : ExperienceRecord Float) (verified : Bool)
      → IsValid s
      → find j s ≡ some exp
      → let out = record_use N j verified true s in
        let exp' = used exp verified in
        let moved = move_to quarantined catastrophic_outcome exp' in
        (can_transition exp.validation_state quarantined ≡ true
          → Leaves (returns moved) j moved out)
        × (exp.validation_state ≡ quarantined → Leaves (returns exp') j exp' out)
        × (exp.validation_state ≡ stale
            → Leaves (throws (not_allowed stale quarantined)) j exp' out)
  unfolding settle_use pure
  record_use-catastrophic s j exp verified v e =
      let id_j = (find-consistent j s exp v.consistent e).0 in
      let new = used exp verified in
      let s1 = map (updated new) s in
      let found = find-updated j s exp new e id_j in
      (
        (λ k.
            rw
              (
                settled j s exp verified e,
                not_quarantined exp.validation_state k,
                advance_allowed j s1 new quarantined catastrophic_outcome found k,
              )
              (refl, find-updated j s1 new _ found id_j)),
        (λ k. rw (settled j s exp verified e, stays j s1 new _ k) (refl, found)),
        (λ k.
            let refused =
              advance_refused j s1 new quarantined catastrophic_outcome found
                (rw k (stale-IsFinal quarantined)) in
            rw (settled j s exp verified e, ap (λ st. state_eq st quarantined) k, refused)
              (rw k refl, found)),
      )
