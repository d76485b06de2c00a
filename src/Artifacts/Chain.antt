-- ===== src/Artifacts/Chain.antt =====
-- nexus/app/services/artifacts/store.py: the chain of parents, and that it ends.
use mathlib.Core.Option.{some_inj}
use ai_system_canonical.Prelude.{
  ℕ, zero, suc, ◌+◌, ◌≤◌, ◌<◌, ◌≡◌, ◌⊎◌, refl, sym, ap, subst, String, true, false, map, last?,
  Option, none, some, List, [], ◌∷◌, length, arith, str_eq, eq_iff, if◌then◌else◌, Bool-cases,
  Option-cases, inl, inr,
}
use ai_system_canonical.Prelude.Text.{mem_str}
use ai_system_canonical.Artifacts.{Version, find_version}

-- self.get(cur.parent_id) if cur.parent_id else None, where an empty text is no parent
unfoldable pub parent : List Version → Version → Option Version
parent vs v = elim v.parent_id [
  | none ↦ none
  | some p ↦ if str_eq p "" then none else find_version p vs
]

-- the loop of `chain`; the last case is that of no fuel left
pub data Walk : Type 0 where
  walked : List Version → Walk
  out_of_fuel : Walk

abbrev pub onto : Version → Walk → Walk
onto v (walked out) = walked (v ∷ out)
onto v out_of_fuel = out_of_fuel

unfoldable pub walk : ℕ → List Version → List String → Option Version → Walk
walk fuel vs seen none = walked []
walk zero vs seen (some v) = out_of_fuel
walk (suc fuel) vs seen (some v) =
    let rest = onto v (walk fuel vs (v.id ∷ seen) (parent vs v)) in
    if mem_str v.id seen then walked [] else rest

-- `chain`, with fuel for each version and one more round
unfoldable pub chain : String → List Version → Walk
unfolding walk
chain id vs = walk (suc (length vs)) vs [] (find_version id vs)

-- the versions that are not seen yet
unseen : List String → List Version → ℕ
unseen seen [] = 0
unseen seen (v ∷ vs) = (if mem_str v.id seen then 0 else 1) + unseen seen vs

unseen-le :
    (x : String) (seen : List String) (vs : List Version) → unseen (x ∷ seen) vs ≤ unseen seen vs
unfolding unseen mem_str
unseen-le x seen [] = omega arith
unseen-le x seen (v ∷ vs) = ground (arith, unseen-le x seen vs)

unseen-lt :
    (j : String) (seen : List String) (vs : List Version) (v : Version)
    → find_version j vs ≡ some v
    → mem_str v.id seen ≡ false
    → unseen (v.id ∷ seen) vs < unseen seen vs
unfolding unseen find_version mem_str
unseen-lt j seen [] v e h = cc
unseen-lt j seen (w ∷ vs) v e h =
    ground
      (arith, unseen-le v.id seen vs, unseen-lt j seen vs v, eq_iff w.id v.id, eq_iff v.id v.id)

unseen_bound : (vs : List Version) → unseen [] vs ≤ length vs
unfolding unseen mem_str
unseen_bound [] = omega arith
unseen_bound (v ∷ vs) = omega (arith, unseen_bound vs)

-- Each version is followed by its parent, or is the last.
abbrev pub IsLinked : List Version → List Version → Type 0
IsLinked vs [] = Unit
IsLinked vs (v ∷ []) = Unit
IsLinked vs (v ∷ w ∷ out) = (parent vs v ≡ some w) × IsLinked vs (w ∷ out)

abbrev pub first? : List Version → Option Version
first? [] = none
first? (v ∷ _) = some v

abbrev pub ids : List Version → List String
ids out = map (λ (v : Version). v.id) out

-- No id is among these, nor stands twice.
abbrev pub IsFresh : List String → List String → Type 0
IsFresh seen [] = Unit
IsFresh seen (j ∷ js) = (mem_str j seen ≡ false) × IsFresh (j ∷ seen) js

-- The version has no parent, or one whose id is among these or those.
abbrev pub Stops : List Version → List String → List String → Version → Type 0
Stops vs seen js v =
    (parent vs v ≡ none)
    ⊎ ((w : Version) × (parent vs v ≡ some w)
        × ((mem_str w.id seen ≡ true) ⊎ (mem_str w.id js ≡ true)))

-- The last version stops the walk.
abbrev pub StopsAtLast : List Version → List String → List Version → Type 0
StopsAtLast vs seen out = (v : Version) → last? out ≡ some v → Stops vs seen (ids out) v

-- The walk ends with a list that starts with the given version, goes from each version to its parent,
-- repeats none, goes on as long as there is a parent that is not in it, and has at most so many.
abbrev pub Ends : List Version → Option Version → ℕ → Walk → Type 0
Ends vs start bound w =
    (out : List Version) × (w ≡ walked out)
    × (first? out ≡ start)
    × IsLinked vs out
    × IsFresh [] (ids out)
    × StopsAtLast vs [] out
    × (length out ≤ bound)

-- what the walk on from a version gives, with these ids seen
Chained : List Version → List String → Option Version → List Version → Type 0
Chained vs seen none [] = Unit
Chained vs seen none (_ ∷ _) = ⊥
Chained vs seen (some v) [] = mem_str v.id seen ≡ true
Chained vs seen (some v) (w ∷ out) =
    (v ≡ w) × (mem_str w.id seen ≡ false) × Chained vs (w.id ∷ seen) (parent vs w) out

Chained-starts :
    (vs : List Version) (seen : List String) (o : Option Version) (w : Version) (out : List Version)
    → Chained vs seen o (w ∷ out)
    → o ≡ some w
unfolding Chained
Chained-starts vs seen none w out c = absurd c
Chained-starts vs seen (some v) w out c = ap some c.0

Chained-rest :
    (vs : List Version) (seen : List String) (o : Option Version) (w : Version) (out : List Version)
    → Chained vs seen o (w ∷ out)
    → (mem_str w.id seen ≡ false) × Chained vs (w.id ∷ seen) (parent vs w) out
unfolding Chained
Chained-rest vs seen none w out c = absurd c
Chained-rest vs seen (some v) w out (same, new, rest) = (new, rest)

Chained-IsLinked :
    (vs : List Version) (seen : List String) (o : Option Version) (out : List Version)
    → Chained vs seen o out
    → IsLinked vs out
Chained-IsLinked vs seen o [] c = tt
Chained-IsLinked vs seen o (v ∷ []) c = tt
Chained-IsLinked vs seen o (v ∷ w ∷ out) c =
    let rest = (Chained-rest vs seen o v (w ∷ out) c).1 in
    (
      Chained-starts vs (v.id ∷ seen) (parent vs v) w out rest,
      Chained-IsLinked vs (v.id ∷ seen) (parent vs v) (w ∷ out) rest,
    )

Chained-IsFresh :
    (vs : List Version) (seen : List String) (o : Option Version) (out : List Version)
    → Chained vs seen o out
    → IsFresh seen (ids out)
Chained-IsFresh vs seen o [] c = tt
Chained-IsFresh vs seen o (v ∷ out) c =
    let (new, rest) = Chained-rest vs seen o v out c in
    (new, Chained-IsFresh vs (v.id ∷ seen) (parent vs v) out rest)

Stops-here :
    (vs : List Version) (seen : List String) (v : Version) (o : Option Version)
    → parent vs v ≡ o
    → Chained vs (v.id ∷ seen) o []
    → Stops vs seen (v.id ∷ []) v
unfolding Chained mem_str
Stops-here vs seen v none e c = inl e
Stops-here vs seen v (some w) e c = elim (Bool-cases (str_eq w.id v.id)) [
  | inl itself ↦ inr (w, e, inr (rw itself refl))
  | inr other ↦ inr (w, e, inl (ground arith))
]

Stops-later :
    (vs : List Version) (seen js : List String) (v : Version) (j : String)
    → Stops vs (j ∷ seen) js v
    → Stops vs seen (j ∷ js) v
unfolding mem_str
Stops-later vs seen js v j (inl e) = inl e
Stops-later vs seen js v j (inr (w, e, inr later)) = inr (w, e, inr (ground arith))
Stops-later vs seen js v j (inr (w, e, inl before)) = elim (Bool-cases (str_eq w.id j)) [
  | inl itself ↦ inr (w, e, inr (rw itself refl))
  | inr other ↦ inr (w, e, inl (ground arith))
]

Chained-stops :
    (vs : List Version) (seen : List String) (o : Option Version) (out : List Version)
    → Chained vs seen o out
    → StopsAtLast vs seen out
Chained-stops vs seen o [] c v e = absurd (ground arith)
Chained-stops vs seen o (w ∷ []) c v e =
    subst (Stops vs seen (ids (w ∷ []))) (some_inj.0 e)
      (Stops-here vs seen w (parent vs w) refl (Chained-rest vs seen o w [] c).1)
Chained-stops vs seen o (w ∷ x ∷ out) c v e = Stops-later vs seen (ids (x ∷ out)) v w.id (
    Chained-stops vs (w.id ∷ seen) (parent vs w) (x ∷ out) (Chained-rest vs seen o w (x ∷ out) c).1
      v e)

-- The walk ends with what it gives.
abbrev Walked : List Version → List String → Option Version → Walk → Type 0
Walked vs seen o w =
    (out : List Version) × (w ≡ walked out) × Chained vs seen o out × (length out ≤ unseen seen vs)

parent-found :
    (vs : List Version) (v w : Version)
    → parent vs v ≡ some w
    → (j : String) × (find_version j vs ≡ some w)
unfolding parent
parent-found vs v w h = elim (Option-cases v.parent_id) [
  | inl e ↦ absurd (ground arith)
  | inr (p, e) ↦ (p, ground arith)
]

walk-Walked :
    (fuel : ℕ) (vs : List Version) (seen : List String) (o : Option Version)
    → ((v : Version) → o ≡ some v → (j : String) × (find_version j vs ≡ some v))
    → unseen seen vs < fuel
    → Walked vs seen o (walk fuel vs seen o)
unfolding walk Chained
walk-Walked fuel vs seen none f h = ([], refl, tt, omega arith)
walk-Walked zero vs seen (some v) f h = absurd (omega arith)
walk-Walked (suc fuel) vs seen (some v) f h = elim (Bool-cases (mem_str v.id seen)) [
  | inl old ↦ rw old ([], refl, old, omega arith)
  | inr new ↦
      let (j, e) = f v refl in
      let less = unseen-lt j seen vs v e new in
      let (out, w, c, b) =
        walk-Walked fuel vs (v.id ∷ seen) (parent vs v) (parent-found vs v) (omega arith) in
      rw new (v ∷ out, ap (onto v) w, (refl, new, c), omega arith)
]

first-Chained :
    (vs : List Version) (o : Option Version) (out : List Version)
    → Chained vs [] o out
    → first? out ≡ o
unfolding Chained mem_str
first-Chained vs none [] c = refl
first-Chained vs (some v) [] c = absurd (ground arith)
first-Chained vs o (w ∷ out) c = sym (Chained-starts vs [] o w out c)

-- The chain of parents ends whatever the table holds, cycles included: it is empty exactly if there is no
-- such version, else it starts with the version asked for; it goes from each version to its parent; no id
-- stands in it twice; its last version has no parent, or one whose id is in it already; and it has at
-- most one entry for each row.
pub chain-Ends :
    (id : String) (vs : List Version) → Ends vs (find_version id vs) (length vs) (chain id vs)
unfolding chain
chain-Ends id vs =
    let o = find_version id vs in
    let (out, e, c, b) =
      walk-Walked (suc (length vs)) vs [] o (λ v k. (id, k)) (omega (arith, unseen_bound vs)) in
    (
      out,
      e,
      first-Chained vs o out c,
      Chained-IsLinked vs [] o out c,
      Chained-IsFresh vs [] o out c,
      Chained-stops vs [] o out c,
      omega (arith, unseen_bound vs),
    )
