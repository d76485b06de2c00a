-- ===== src/Memory/Restart.antt =====
-- What a process records of a role is what the next process over the same memory starts from.
use ai_system_canonical.Prelude.{
  ◌≡◌, refl, String, false, Option, some, [], ◌∷◌, ◌++◌, last-append, eq_iff, arith,
}
use ai_system_canonical.Prelude.Act.{returns, pure, throw, modify, gets, on_option, ◌>>=◌}
use ai_system_canonical.Prelude.Keeps.{Keeps, keeps_rules}
use ai_system_canonical.Prelude.Floats.{Floats}
use ai_system_canonical.Memory.{
  Table, has_id, all, scope_of, role_perf, record_role_perf, of_role, system, latest_role_perf,
}
use ai_system_canonical.Memory.Laws.{all-append, put-new}
use ai_system_canonical.Memory.Performance.{
  PerformanceError, RolePerformance, RolePerformanceStore, Run, get, set, folded, hydrated,
  get_or_new, keep_at, persist, counted, record_run,
}

module _ (N : Floats) where
  open N use {Float}

  of_role-append :
      (role task_class : String) (xs ys : Table N)
      → of_role N role task_class (xs ++ ys)
        ≡ of_role N role task_class xs ++ of_role N role task_class ys
  unfolding of_role
  of_role-append role task_class [] ys = refl
  of_role-append role task_class (x ∷ xs) ys = ground (arith, of_role-append role task_class xs ys)

  only_one :
      (role task_class payload new_id : String) (now : Float)
      → of_role N role task_class
          (all N (some system) false (role_perf N role task_class payload new_id now ∷ []))
        ≡ role_perf N role task_class payload new_id now ∷ []
  unfolding of_role all
  only_one role task_class payload new_id now =
      rw ((eq_iff (scope_of N role task_class) (scope_of N role task_class)).1 refl) refl

  latest-record :
      (role task_class payload new_id : String) (now : Float) (rows : Table N)
      → latest_role_perf N role task_class
          (rows ++ role_perf N role task_class payload new_id now ∷ [])
        ≡ some payload
  unfolding latest_role_perf
  latest-record role task_class payload new_id now rows =
      let m = role_perf N role task_class payload new_id now in
      rw
        (
          all-append N (some system) false rows (m ∷ []),
          of_role-append role task_class (all N (some system) false rows)
              (all N (some system) false (m ∷ [])),
          only_one role task_class payload new_id now,
          last-append (of_role N role task_class (all N (some system) false rows)) m,
        )
        refl

  -- a new process, over the memory of another
  abbrev pub restarted : RolePerformanceStore N → RolePerformanceStore N
  restarted s = record { by_key = []; memory = s.memory }

  module _ (dumps : RolePerformance Float → String)
      (loads : String → Option (RolePerformance Float)) where
    -- the memory is these rows
    abbrev Over : Table N → RolePerformanceStore N → Type 0
    Over rows s = s.memory ≡ some rows

    module _ (rows : Table N) (role task_class : String) where
      kept_at :
          (rp : RolePerformance Float)
          → Keeps {X = PerformanceError}
              (Over rows)
              (modify (keep_at N dumps loads role task_class rp))
      unfolding modify
      kept_at rp = record { holds = λ s h. h }

      get_or_new-Keeps : Keeps (Over rows) (get_or_new N dumps loads role task_class)
      unfolding get_or_new hydrated
      get_or_new-Keeps = search (keeps_rules, kept_at) depth 12

    persist-runs :
        (rp : RolePerformance Float) (new_id : String) (now : Float) (rows : Table N)
        (s : RolePerformanceStore N)
        → s.memory ≡ some rows
        → has_id N new_id rows ≡ false
        → persist N dumps loads rp new_id now s ≡ (
          returns tt,
          record s {
            memory = some (rows ++ role_perf N rp.role rp.task_class (dumps rp) new_id now ∷ []);
          },
        )
    unfolding persist record_role_perf
    persist-runs rp new_id now rows s h fresh =
        rw (h, put-new N (role_perf N rp.role rp.task_class (dumps rp) new_id now) rows fresh) refl

    hydrated_from :
        (role task_class text : String) (rp : RolePerformance Float) (s : RolePerformanceStore N)
        (rows : Table N)
        → s.memory ≡ some rows
        → latest_role_perf N role task_class rows ≡ some text
        → loads text ≡ some rp
        → (get_or_new N dumps loads role task_class (restarted s)).0 ≡ returns rp
    unfolding get_or_new get hydrated pure throw modify gets on_option ◌>>=◌
    hydrated_from role task_class text rp s rows h l d = rw (h, l, d) refl

    -- the rows after `record` of a value that `_get` returns
    abbrev recorded : RolePerformance Float → String → Float → Table N → Table N
    recorded rp new_id now rows =
        rows ++ role_perf N rp.role rp.task_class (dumps rp) new_id now ∷ []

    counted-runs :
        (rp : RolePerformance Float) (role task_class : String) (run : Run Float) (new_id : String)
        (now : Float) (rows : Table N) (s : RolePerformanceStore N)
        → s.memory ≡ some rows
        → has_id N new_id rows ≡ false
        → ((counted N dumps loads role task_class run new_id now rp s).0
            ≡ returns (folded N rp run))
          × ((counted N dumps loads role task_class run new_id now rp s).1.memory
              ≡ some (recorded (folded N rp run) new_id now rows))
    unfolding counted pure modify ◌>>=◌
    counted-runs rp role task_class run new_id now rows s h fresh =
        rw
          (persist-runs (folded N rp run) new_id now rows
            (record s { by_key = set N role task_class (folded N rp run) s.by_key }) h fresh)
          (refl, refl)

    -- With a memory, and an id that is new to it, where `_get` returns a value, `record` returns it with
    -- the run counted in; and the `_get` of a new process over the memory that `record` leaves, for the
    -- role and the task class that the value names, returns just this, if `loads` reads it from what
    -- `dumps` writes of it.
    pub record_run-get_or_new :
        (role task_class : String) (run : Run Float) (new_id : String) (now : Float)
        (s : RolePerformanceStore N) (rows : Table N) (rp : RolePerformance Float)
        → loads (dumps (folded N rp run)) ≡ some (folded N rp run)
        → s.memory ≡ some rows
        → has_id N new_id rows ≡ false
        → (get_or_new N dumps loads role task_class s).0 ≡ returns rp
        → ((record_run N dumps loads role task_class run new_id now s).0
            ≡ returns (folded N rp run))
          × ((get_or_new N dumps loads rp.role rp.task_class
                (restarted (record_run N dumps loads role task_class run new_id now s).1)).0
              ≡ returns (folded N rp run))
    unfolding record_run folded ◌>>=◌
    record_run-get_or_new role task_class run new_id now s rows rp reads h fresh e =
        let after = (get_or_new N dumps loads role task_class s).1 in
        let value = folded N rp run in
        let (done, kept) =
          counted-runs rp role task_class run new_id now rows after
            ((get_or_new-Keeps rows role task_class).holds s h) fresh in
        rw e (
          done,
          hydrated_from rp.role rp.task_class (dumps value) value
              (counted N dumps loads role task_class run new_id now rp after).1
              (recorded value new_id now rows) kept
              (latest-record rp.role rp.task_class (dumps value) new_id now rows) reads,
        )
