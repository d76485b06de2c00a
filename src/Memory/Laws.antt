-- ===== src/Memory/Laws.antt =====
-- Superseding replaces one row of the live view by a new one, and deletes nothing.
use ai_system_canonical.Prelude.{
  ◌≡◌, refl, ap, ◌∙◌, String, Bool, true, false, Option, none, List, [], ◌∷◌, ◌++◌, ◌+◌, ◌&&◌, map,
  str_eq, if◌then◌else◌, arith, Bool-cases, inl, inr,
}
use ai_system_canonical.Prelude.Act.{returns, pure, throw, modify, gets, ◌>>=◌}
use ai_system_canonical.Prelude.Floats.{Floats}
use ai_system_canonical.Memory.{
  MemoryTier, MemoryRecord, Table, has_id, put, version_of, marked, supersede, in_tier, is_selected,
  all,
}

module _ (N : Floats) where
  -- the records with another id
  unfoldable pub others : String → List (MemoryRecord N) → List (MemoryRecord N)
  others id [] = []
  others id (m ∷ ms) = let rest = others id ms in if str_eq m.id id then rest else m ∷ rest

  pub put-new :
      (m : MemoryRecord N) (rows : Table N)
      → has_id N m.id rows ≡ false
      → put N m rows ≡ (returns m, rows ++ m ∷ [])
  unfolding put pure throw modify ◌>>=◌
  put-new m rows h = rw h refl

  -- the new row, as it is written
  abbrev pub versioned : String → MemoryRecord N → Table N → MemoryRecord N
  versioned old_id new rows = record new { version = version_of N old_id rows + 1 }

  pub all-append :
      (tier : Option MemoryTier) (b : Bool) (xs ys : Table N)
      → all N tier b (xs ++ ys) ≡ all N tier b xs ++ all N tier b ys
  unfolding all
  all-append tier b [] ys = refl
  all-append tier b (x ∷ xs) ys = ground (arith, all-append tier b xs ys)

  and_false : (b : Bool) → (b && false) ≡ false
  and_false true = refl
  and_false false = refl

  marked_row :
      (tier : Option MemoryTier) (old_id new_id : String) (m : MemoryRecord N) (rows : Table N)
      → all N tier false (map (marked N old_id new_id) rows) ≡ others old_id (all N tier false rows)
      → all N tier false (map (marked N old_id new_id) (m ∷ rows))
        ≡ others old_id (all N tier false (m ∷ rows))
  unfolding all others
  marked_row tier old_id new_id m rows ih = elim (Bool-cases (str_eq m.id old_id)) [
    | inl same ↦ elim (Bool-cases (is_selected N tier false m)) [
      | inl sel ↦ rw (same, and_false (in_tier tier m.tier), sel, same) ih
      | inr sel ↦ rw (same, and_false (in_tier tier m.tier), sel) ih
    ]
    | inr other ↦ elim (Bool-cases (is_selected N tier false m)) [
      | inl sel ↦ rw (other, sel, other) (ap (λ (t : Table N). m ∷ t) ih)
      | inr sel ↦ rw (other, sel) ih
    ]
  ]

  all-marked :
      (tier : Option MemoryTier) (old_id new_id : String) (rows : Table N)
      → all N tier false (map (marked N old_id new_id) rows) ≡ others old_id (all N tier false rows)
  unfolding all others
  all-marked tier old_id new_id [] = refl
  all-marked tier old_id new_id (m ∷ rows) =
      marked_row tier old_id new_id m rows (all-marked tier old_id new_id rows)

  others-append :
      (id : String) (xs ys : Table N) → others id (xs ++ ys) ≡ others id xs ++ others id ys
  unfolding others
  others-append id [] ys = refl
  others-append id (x ∷ xs) ys = ground (arith, others-append id xs ys)

  id_of_marked :
      (old_id new_id : String) (m : MemoryRecord N) → (marked N old_id new_id m).id ≡ m.id
  id_of_marked old_id new_id m = elim (Bool-cases (str_eq m.id old_id)) [
    | inl same ↦ rw same refl
    | inr other ↦ rw other refl
  ]

  abbrev pub ids : Table N → List String
  ids rows = map (λ (m : MemoryRecord N). m.id) rows

  pub ids-marked :
      (old_id new_id : String) (rows : Table N) → ids (map (marked N old_id new_id) rows) ≡ ids rows
  ids-marked old_id new_id [] = refl
  ids-marked old_id new_id (m ∷ rows) =
      rw (id_of_marked old_id new_id m, ids-marked old_id new_id rows) refl

  pub ids-append : (xs ys : Table N) → ids (xs ++ ys) ≡ ids xs ++ ids ys
  ids-append [] ys = refl
  ids-append (x ∷ xs) ys = ap (λ (t : List String). x.id ∷ t) (ids-append xs ys)

  -- what a row adds to the live view
  abbrev pub shown : Option MemoryTier → MemoryRecord N → List (MemoryRecord N)
  shown tier m = if in_tier tier m.tier then m ∷ [] else []

  all-one :
      (tier : Option MemoryTier) (m : MemoryRecord N)
      → m.superseded_by ≡ none
      → all N tier false (m ∷ []) ≡ shown tier m
  unfolding all
  all-one tier m h = elim (Bool-cases (in_tier tier m.tier)) [
    | inl sel ↦ rw (h, sel) refl
    | inr sel ↦ rw (h, sel) refl
  ]

  others-shown :
      (id : String) (tier : Option MemoryTier) (m : MemoryRecord N)
      → str_eq m.id id ≡ false
      → others id (shown tier m) ≡ shown tier m
  unfolding others
  others-shown id tier m h = elim (Bool-cases (in_tier tier m.tier)) [
    | inl sel ↦ rw (sel, h) refl
    | inr sel ↦ rw sel refl
  ]

  abbrev pub after_supersede : String → MemoryRecord N → Table N → Table N
  after_supersede old_id new rows =
      map (marked N old_id new.id) (rows ++ versioned old_id new rows ∷ [])

  pub supersede-runs :
      (old_id : String) (new : MemoryRecord N) (rows : Table N)
      → has_id N new.id rows ≡ false
      → supersede N old_id new rows
        ≡ (returns (versioned old_id new rows), after_supersede old_id new rows)
  unfolding supersede put pure throw modify gets ◌>>=◌
  supersede-runs old_id new rows h = rw h refl

  live_after :
      (tier : Option MemoryTier) (old_id : String) (v : MemoryRecord N) (rows : Table N)
      → str_eq v.id old_id ≡ false
      → v.superseded_by ≡ none
      → all N tier false (map (marked N old_id v.id) (rows ++ v ∷ []))
        ≡ others old_id (all N tier false rows) ++ shown tier v
  live_after tier old_id v rows h e =
      rw
        (
          all-marked tier old_id v.id (rows ++ v ∷ []),
          all-append tier false rows (v ∷ []),
          others-append old_id (all N tier false rows) (all N tier false (v ∷ [])),
          all-one tier v e,
          others-shown old_id tier v h,
        )
        refl

  -- Superseding by a live record with an id that is new to the table, and that is not the old one,
  -- returns it with the version after the old row's; of the live rows of each tier the old one goes and
  -- the new one comes last; and no row is deleted: the ids of the table are those before and the new one.
  pub supersede-live :
      (tier : Option MemoryTier) (old_id : String) (new : MemoryRecord N) (rows : Table N)
      → has_id N new.id rows ≡ false
      → str_eq new.id old_id ≡ false
      → new.superseded_by ≡ none
      → ((supersede N old_id new rows).0 ≡ returns (versioned old_id new rows))
        × (all N tier false (supersede N old_id new rows).1
            ≡ others old_id (all N tier false rows) ++ shown tier (versioned old_id new rows))
        × (ids (supersede N old_id new rows).1 ≡ ids rows ++ new.id ∷ [])
  supersede-live tier old_id new rows h d e = rw (supersede-runs old_id new rows h) (
    refl,
    live_after tier old_id (versioned old_id new rows) rows d e,
    ids-marked old_id new.id (rows ++ versioned old_id new rows ∷ [])
        ∙ ids-append rows (versioned old_id new rows ∷ []),
  )
