-- ===== src/Boundary/Listed.antt =====
-- When a host is covered by an entry of the egress broker's allowlist.
use mathlib.Core.List.{Memᴰ}
use mathlib.Core.List.Memᴰ.{head, tail}
use ai_system_canonical.Prelude.{
  ℕ, ◌≡◌, refl, ap, subst, ◌⊎◌, String, Bool, true, false, Option, some, List, [], ◌∷◌, ◌++◌, ◌||◌,
  is_cons, map, arith, if◌then◌else◌, inl, inr, Bool-cases,
}
use ai_system_canonical.Prelude.Text.{codes, codes_eq, ends_with, strip, lower}
use ai_system_canonical.Boundary.Egress.{normalised, is_listed}

codes_eq_sound : (xs ys : List ℕ) → codes_eq xs ys ≡ true → xs ≡ ys
unfolding codes_eq
codes_eq_sound [] [] h = refl
codes_eq_sound [] (y ∷ ys) h = absurd (ground arith)
codes_eq_sound (x ∷ xs) [] h = absurd (ground arith)
codes_eq_sound (x ∷ xs) (y ∷ ys) h =
    let e : x ≡ y = ground arith in let es = codes_eq_sound xs ys (ground arith) in rw (e, es) refl

codes_eq_refl : (xs : List ℕ) → codes_eq xs xs ≡ true
unfolding codes_eq
codes_eq_refl [] = refl
codes_eq_refl (x ∷ xs) = ground (arith, codes_eq_refl xs)

-- The text ends with that one.
abbrev pub EndsIn : List ℕ → List ℕ → Type 0
EndsIn suffix cs = (front : List ℕ) × (cs ≡ front ++ suffix)

ends_with-split : (cs suffix : List ℕ) → ends_with cs suffix ≡ true → EndsIn suffix cs
unfolding ends_with
ends_with-split [] suffix h = ([], codes_eq_sound [] suffix h)
ends_with-split (c ∷ cs) suffix h = elim (Bool-cases (codes_eq (c ∷ cs) suffix)) [
  | inl all_of_it ↦ ([], codes_eq_sound (c ∷ cs) suffix all_of_it)
  | inr less ↦
      let (front, e) = ends_with-split cs suffix (ground arith) in
      (c ∷ front, ap (λ (t : List ℕ). c ∷ t) e)
]

ends_with-append : (front suffix : List ℕ) → ends_with (front ++ suffix) suffix ≡ true
unfolding ends_with
ends_with-append [] [] = codes_eq_refl []
ends_with-append [] (c ∷ cs) = rw (codes_eq_refl (c ∷ cs)) refl
ends_with-append (c ∷ front) suffix = ground (arith, ends_with-append front suffix)

-- An entry of the allowlist that is not blank, without the space around it and in lower case.
abbrev pub IsEntry : List String → List ℕ → Type 0
IsEntry allowlist a =
    (entry : String) × Memᴰ entry allowlist
    × (is_cons (strip (codes entry)) ≡ true)
    × (a ≡ map lower (strip (codes entry)))

pub normalised-IsEntry :
    (allowlist : List String) (a : List ℕ) → Memᴰ a (normalised allowlist) → IsEntry allowlist a
unfolding normalised
normalised-IsEntry [] a h = elim h [ ]
normalised-IsEntry (x ∷ xs) a h =
    on_blank (normalised-IsEntry xs a) (is_cons (strip (codes x))) refl h
  where
    on_blank :
        (Memᴰ a (normalised xs) → IsEntry xs a)
        → (b : Bool) → is_cons (strip (codes x)) ≡ b
        → Memᴰ a (if b then map lower (strip (codes x)) ∷ normalised xs else normalised xs)
        → IsEntry (x ∷ xs) a
    on_blank ih true e (head same) = (x, head refl, e, same)
    on_blank ih true e (tail t) = let (y, there, c, same) = ih t in (y, tail there, c, same)
    on_blank ih false e t = let (y, there, c, same) = ih t in (y, tail there, c, same)

pub IsEntry-normalised :
    (allowlist : List String) (a : List ℕ) → IsEntry allowlist a → Memᴰ a (normalised allowlist)
unfolding normalised
IsEntry-normalised [] a (y, h, c, e) = elim h [ ]
IsEntry-normalised (x ∷ xs) a (y, head same, c, e) =
    let full : is_cons (strip (codes x)) ≡ true =
      subst (λ (z : String). is_cons (strip (codes z)) ≡ true) same c in
    rw full (head (subst (λ (z : String). a ≡ map lower (strip (codes z))) same e))
IsEntry-normalised (x ∷ xs) a (y, tail t, c, e) =
    let there = IsEntry-normalised xs a (y, t, c, e) in
    elim (Bool-cases (is_cons (strip (codes x)))) [
      | inl full ↦ rw full (tail there)
      | inr blank ↦ rw blank there
    ]

-- The host is the entry, or ends in a dot and the entry.
abbrev pub Covers : List ℕ → List ℕ → Type 0
Covers a host = (host ≡ a) ⊎ EndsIn (b'.' ∷ a) host

pub is_listed-Covers :
    (host : List ℕ) (as' : List (List ℕ))
    → is_listed host as' ≡ true
    → (a : List ℕ) × Memᴰ a as' × Covers a host
unfolding is_listed
is_listed-Covers host [] h = absurd (ground arith)
is_listed-Covers host (a ∷ as') h = elim (Bool-cases (codes_eq host a)) [
  | inl same ↦ (a, head refl, inl (codes_eq_sound host a same))
  | inr other ↦ elim (Bool-cases (ends_with host (b'.' ∷ a))) [
    | inl under ↦ (a, head refl, inr (ends_with-split host (b'.' ∷ a) under))
    | inr apart ↦ let (b, there, c) = is_listed-Covers host as' (ground arith) in (b, tail there, c)
  ]
]

Covers-test :
    (host a : List ℕ) → Covers a host → (codes_eq host a || ends_with host (b'.' ∷ a)) ≡ true
Covers-test host a (inl e) = rw (e, codes_eq_refl a) refl
Covers-test host a (inr (front, e)) =
    let under = ends_with-append front (b'.' ∷ a) in rw e (ground arith)

pub Covers-is_listed :
    (host a : List ℕ) (as' : List (List ℕ)) → Memᴰ a as' → Covers a host → is_listed host as' ≡ true
unfolding is_listed
Covers-is_listed host a [] h c = elim h [ ]
Covers-is_listed host a (b ∷ as') (head same) c =
    let t = Covers-test host b (subst (λ (x : List ℕ). Covers x host) same c) in rw t refl
Covers-is_listed host a (b ∷ as') (tail h) c =
    let rest = Covers-is_listed host a as' h c in ground arith

-- the host that `urlparse` finds, in lower case, is covered by an entry of the allowlist
abbrev pub IsAllowed : List String → (String → Option String) → String → Type 0
IsAllowed allowlist hostname url =
    (h : String) × (a : List ℕ) × (hostname url ≡ some h)
    × IsEntry allowlist a
    × Covers a (map lower (codes h))

map-is_cons : (cs : List ℕ) → is_cons cs ≡ true → is_cons (map lower cs) ≡ true
map-is_cons [] h = h
map-is_cons (c ∷ cs) h = refl

append-is_cons : (xs : List ℕ) (y : ℕ) (ys : List ℕ) → is_cons (xs ++ y ∷ ys) ≡ true
append-is_cons [] y ys = refl
append-is_cons (x ∷ xs) y ys = refl

pub Covers-is_cons :
    (allowlist : List String) (a host : List ℕ)
    → IsEntry allowlist a
    → Covers a host
    → is_cons host ≡ true
Covers-is_cons allowlist a host (y, there, full, e) (inl same) =
    rw (same, e) (map-is_cons (strip (codes y)) full)
Covers-is_cons allowlist a host entry (inr (front, e)) = rw e (append-is_cons front b'.' a)
