-- ===== src/Memory/Kept.antt =====
-- What a sequence of calls leaves of the live view.
use mathlib.Core.List.{Memᴰ}
use mathlib.Core.List.Memᴰ.{head, tail}
use ai_system_canonical.Prelude.{
  ◌≡◌, refl, sym, subst, String, Bool, true, false, Option, none, some, List, [], ◌∷◌, ◌++◌, ◌&&◌,
  not, any, map, str_eq, is_some, if◌then◌else◌, arith, Bool-cases, inl, inr,
}
use ai_system_canonical.Prelude.Act.{pure, throw, modify, gets, ◌>>=◌}
use ai_system_canonical.Prelude.Floats.{Floats}
use ai_system_canonical.Memory.{
  MemoryTier, MemoryRecord, in_tier, is_selected, all, Table, has_id, put, marked, supersede,
  is_stale, without_stale, drop_stale_experience_pointers,
}

module _ (N : Floats) where
  -- The store's methods that write.
  pub data Operation : Type 0 where
    puts : MemoryRecord N → Operation
    supersedes : String → MemoryRecord N → Operation
    drops : N.Float → Operation

  -- the table after a call
  unfoldable pub perform : Operation → Table N → Table N
  perform (puts m) rows = (put N m rows).1
  perform (supersedes old_id new) rows = (supersede N old_id new rows).1
  perform (drops now) rows = (drop_stale_experience_pointers N now rows).1

  unfoldable pub perform_all : List Operation → Table N → Table N
  perform_all [] rows = rows
  perform_all (o ∷ os) rows = perform_all os (perform o rows)

  abbrev pub replaces : String → Operation → Bool
  replaces id (puts _) = false
  replaces id (supersedes old_id _) = str_eq id old_id
  replaces id (drops _) = false

  -- a row of the table that nothing supersedes
  abbrev pub Stands : MemoryRecord N → Table N → Type 0
  Stands m rows = Memᴰ m rows × (m.superseded_by ≡ none)

  Memᴰ-append : (m v : MemoryRecord N) (rows : Table N) → Memᴰ m rows → Memᴰ m (rows ++ v ∷ [])
  Memᴰ-append m v [] h = elim h [ ]
  Memᴰ-append m v (x ∷ rows) (head e) = head e
  Memᴰ-append m v (x ∷ rows) (tail h) = tail (Memᴰ-append m v rows h)

  unmarked :
      (old_id new_id : String) (m : MemoryRecord N)
      → str_eq m.id old_id ≡ false
      → marked N old_id new_id m ≡ m
  unmarked old_id new_id m h = rw h refl

  Memᴰ-marked :
      (old_id new_id : String) (m : MemoryRecord N) (rows : Table N)
      → str_eq m.id old_id ≡ false
      → Memᴰ m rows
      → Memᴰ m (map (marked N old_id new_id) rows)
  Memᴰ-marked old_id new_id m [] h t = elim t [ ]
  Memᴰ-marked old_id new_id m (x ∷ rows) h (head e) = head (
      subst (λ (y : MemoryRecord N). m ≡ marked N old_id new_id y) e
        (sym (unmarked old_id new_id m h)))
  Memᴰ-marked old_id new_id m (x ∷ rows) h (tail t) = tail (Memᴰ-marked old_id new_id m rows h t)

  fresh :
      (now : N.Float) (m x : MemoryRecord N)
      → m ≡ x
      → m.superseded_by ≡ none
      → is_stale N now x ≡ false
  fresh now m x e h = subst (λ (y : MemoryRecord N). is_stale N now y ≡ false) e (rw h refl)

  Memᴰ-without_stale :
      (now : N.Float) (m : MemoryRecord N) (rows : Table N)
      → m.superseded_by ≡ none
      → Memᴰ m rows
      → Memᴰ m (without_stale N now rows)
  unfolding without_stale
  Memᴰ-without_stale now m [] h t = elim t [ ]
  Memᴰ-without_stale now m (x ∷ rows) h (head e) = rw (fresh now m x e h) (head e)
  Memᴰ-without_stale now m (x ∷ rows) h (tail t) =
      let ih = Memᴰ-without_stale now m rows h t in
      elim (Bool-cases (is_stale N now x)) [ inl old ↦ rw old ih | inr new ↦ rw new (tail ih) ]

  put_keeps : (m v : MemoryRecord N) (rows : Table N) → Memᴰ m rows → Memᴰ m (put N v rows).1
  unfolding put pure throw modify ◌>>=◌
  put_keeps m v rows h = elim (Bool-cases (has_id N v.id rows)) [
    | inl taken ↦ rw taken h
    | inr new ↦ rw new (Memᴰ-append m v rows h)
  ]

  supersede_keeps :
      (old_id : String) (m v : MemoryRecord N) (rows : Table N)
      → str_eq m.id old_id ≡ false
      → Memᴰ m rows
      → Memᴰ m (supersede N old_id v rows).1
  unfolding supersede put pure throw modify gets ◌>>=◌
  supersede_keeps old_id m v rows d h = elim (Bool-cases (has_id N v.id rows)) [
    | inl taken ↦ rw taken h
    | inr new ↦ rw new (Memᴰ-marked old_id v.id m _ d (Memᴰ-append m _ rows h))
  ]

  perform_keeps :
      (o : Operation) (m : MemoryRecord N) (rows : Table N)
      → replaces m.id o ≡ false
      → Stands m rows
      → Stands m (perform o rows)
  unfolding perform drop_stale_experience_pointers pure modify gets ◌>>=◌
  perform_keeps (puts v) m rows d (h, e) = (put_keeps m v rows h, e)
  perform_keeps (supersedes old_id v) m rows d (h, e) = (supersede_keeps old_id m v rows d h, e)
  perform_keeps (drops now) m rows d (h, e) = (Memᴰ-without_stale now m rows e h, e)

  perform_all-Stands :
      (os : List Operation) (m : MemoryRecord N) (rows : Table N)
      → any (replaces m.id) os ≡ false
      → Stands m rows
      → Stands m (perform_all os rows)
  unfolding perform_all
  perform_all-Stands [] m rows d s = s
  perform_all-Stands (o ∷ os) m rows d s =
      perform_all-Stands os m (perform o rows) (ground arith)
        (perform_keeps o m rows (ground arith) s)

  selected_first :
      (tier : Option MemoryTier) (m x : MemoryRecord N) (rows : Table N) (b : Bool)
      → is_selected N tier false x ≡ b
      → (Memᴰ m (all N tier false rows) → Memᴰ m rows × (is_selected N tier false m ≡ true))
      → Memᴰ m (if b then x ∷ all N tier false rows else all N tier false rows)
      → Memᴰ m (x ∷ rows) × (is_selected N tier false m ≡ true)
  selected_first tier m x rows true sel rest (head e) =
      (head e, subst (λ (y : MemoryRecord N). is_selected N tier false y ≡ true) (sym e) sel)
  selected_first tier m x rows true sel rest (tail t) = let (u, e) = rest t in (tail u, e)
  selected_first tier m x rows false sel rest t = let (u, e) = rest t in (tail u, e)

  live_row :
      (tier : Option MemoryTier) (m : MemoryRecord N)
      → is_selected N tier false m ≡ true
      → m.superseded_by ≡ none
  live_row tier m sel = no_name m.superseded_by (in_tier tier m.tier) sel
    where
      no_name : (o : Option String) (b : Bool) → (b && not (is_some o)) ≡ true → o ≡ none
      no_name none b e = refl
      no_name (some x) true e = absurd (ground arith)
      no_name (some x) false e = absurd (ground arith)

  selected_row :
      (tier : Option MemoryTier) (m : MemoryRecord N) (rows : Table N)
      → Memᴰ m (all N tier false rows)
      → Memᴰ m rows × (is_selected N tier false m ≡ true)
  unfolding all
  selected_row tier m [] h = elim h [ ]
  selected_row tier m (x ∷ rows) h =
      selected_first tier m x rows (is_selected N tier false x) refl (selected_row tier m rows) h

  row_selected :
      (tier : Option MemoryTier) (m : MemoryRecord N) (rows : Table N)
      → is_selected N tier false m ≡ true
      → Memᴰ m rows
      → Memᴰ m (all N tier false rows)
  unfolding all
  row_selected tier m [] e h = elim h [ ]
  row_selected tier m (x ∷ rows) e (head p) =
      rw (subst (λ (y : MemoryRecord N). is_selected N tier false y ≡ true) p e) (head p)
  row_selected tier m (x ∷ rows) e (tail t) =
      let ih = row_selected tier m rows e t in
      elim (Bool-cases (is_selected N tier false x)) [
        | inl sel ↦ rw sel (tail ih)
        | inr omitted ↦ rw omitted ih
      ]

  -- A record of the live view of a tier, or of all, stays in it, unchanged, under every sequence of puts,
  -- supersessions and drops of stale rows, raising or not, that supersedes no record of its id.
  pub perform_all-live :
      (tier : Option MemoryTier) (os : List Operation) (m : MemoryRecord N) (rows : Table N)
      → any (replaces m.id) os ≡ false
      → Memᴰ m (all N tier false rows)
      → Memᴰ m (all N tier false (perform_all os rows))
  perform_all-live tier os m rows d h =
      let (t, sel) = selected_row tier m rows h in
      row_selected tier m (perform_all os rows) sel
        (perform_all-Stands os m rows d (t, live_row tier m sel)).0
