-- ===== src/Boundary/Scrubbed.antt =====
-- What an environment keeps when it is scrubbed of a store's secrets.
use mathlib.Core.List.{Memᴰ}
use mathlib.Core.List.Memᴰ.{head, tail}
use ai_system_canonical.Prelude.{
  ℕ, ◌≡◌, refl, sym, ap, subst, ◌++◌, ◌↔◌, ◌⊎◌, String, Bool, true, false, List, [], ◌∷◌, ◌&&◌, not,
  any, str_eq, eq_iff, map, arith, if◌then◌else◌, Bool-cases, inl, inr,
}
use ai_system_canonical.Prelude.Text.{
  codes, is_prefix_of, is_infix_of, is_infix_of-append, is_empty, mem_str,
}
use ai_system_canonical.Boundary.Secrets.{
  Environment, upper, key_markers, key_looks_secret, values, scrub_env,
}

-- The key does not look secret and the value, unless it is empty, is none of the secrets.
abbrev pub IsClean : List String → String × String → Type 0
IsClean secrets e =
    (key_looks_secret e.0 ≡ false) × (is_empty e.1 ≡ false → mem_str e.1 secrets ≡ false)

abbrev pub Has : String × String → Environment → Type 0
Has e [] = ⊥
Has e (f ∷ env) = (f ≡ e) ⊎ Has e env

passes :
    (k v : String) (secrets : List String)
    → IsClean secrets (k, v)
    → (not (key_looks_secret k) && not (not (is_empty v) && mem_str v secrets)) ≡ true
passes k v secrets c = elim (Bool-cases (is_empty v)) [
  | inl none_there ↦ rw (c.0, none_there) refl
  | inr some_there ↦ rw (c.0, some_there, c.1 some_there) refl
]

scrub-keeps :
    (env : Environment) (secrets : List String) (e : String × String)
    → Has e env
    → IsClean secrets e
    → Has e (scrub_env env secrets)
unfolding scrub_env
scrub-keeps [] secrets e h c = absurd h
scrub-keeps ((k, v) ∷ env) secrets e (inl same) c =
    rw (passes k v secrets (subst (IsClean secrets) (sym same) c)) (inl same)
scrub-keeps ((k, v) ∷ env) secrets e (inr later) c =
    elim (Bool-cases (not (key_looks_secret k) && not (not (is_empty v) && mem_str v secrets))) [
      | inl keep ↦ rw keep (inr (scrub-keeps env secrets e later c))
      | inr drops ↦ rw drops (scrub-keeps env secrets e later c)
    ]

-- The key has, somewhere, one of the markers in any case.
abbrev pub IsMarked : String → Type 0
IsMarked k =
    (m : String) × (a : List ℕ) × (p : List ℕ) × (b : List ℕ) × Memᴰ m key_markers
    × (codes k ≡ a ++ p ++ b)
    × (map upper p ≡ codes m)

-- A text that is not empty and is the value of an entry of the store.
abbrev pub IsSecret : List (List ℕ × String) → String → Type 0
IsSecret known v = (name : List ℕ) × Memᴰ (name, v) known × (is_empty v ≡ false)

map-append : (xs ys : List ℕ) → map upper (xs ++ ys) ≡ map upper xs ++ map upper ys
map-append [] ys = refl
map-append (x ∷ xs) ys = ap (λ (t : List ℕ). upper x ∷ t) (map-append xs ys)

any-Memᴰ :
    (f : String → Bool) (m : String) (ms : List String) → Memᴰ m ms → f m ≡ true → any f ms ≡ true
any-Memᴰ f m [] h e = elim h [ ]
any-Memᴰ f m (x ∷ ms) (head same) e = rw (subst (λ (y : String). f y ≡ true) same e) refl
any-Memᴰ f m (x ∷ ms) (tail h) e = ground (arith, any-Memᴰ f m ms h e)

Memᴰ-any :
    (f : String → Bool) (ms : List String)
    → any f ms ≡ true
    → (m : String) × Memᴰ m ms × (f m ≡ true)
Memᴰ-any f [] h = absurd (ground arith)
Memᴰ-any f (x ∷ ms) h = elim (Bool-cases (f x)) [
  | inl yes' ↦ (x, head refl, yes')
  | inr no' ↦ let (m, there, e) = Memᴰ-any f ms (ground arith) in (m, tail there, e)
]

-- a prefix of the capitals is a prefix in some case
prefix-split :
    (q ks : List ℕ)
    → is_prefix_of q (map upper ks) ≡ true
    → (p : List ℕ) × (b : List ℕ) × (ks ≡ p ++ b) × (map upper p ≡ q)
unfolding is_prefix_of
prefix-split [] ks h = ([], ks, refl, refl)
prefix-split (c ∷ q) [] h = absurd (ground arith)
prefix-split (c ∷ q) (k ∷ ks) h =
    let (p, b, e, f) = prefix-split q ks (ground arith) in
    let same : upper k ≡ c = ground arith in
    (k ∷ p, b, ap (λ (t : List ℕ). k ∷ t) e, rw (same, f) refl)

infix-split :
    (q ks : List ℕ)
    → is_infix_of q (map upper ks) ≡ true
    → (a : List ℕ) × (p : List ℕ) × (b : List ℕ) × (ks ≡ a ++ p ++ b) × (map upper p ≡ q)
unfolding is_infix_of
infix-split q [] h = let (p, b, e, f) = prefix-split q [] h in ([], p, b, e, f)
infix-split q (k ∷ ks) h = elim (Bool-cases (is_prefix_of q (map upper (k ∷ ks)))) [
  | inl here ↦ let (p, b, e, f) = prefix-split q (k ∷ ks) here in ([], p, b, e, f)
  | inr later ↦
      let (a, p, b, e, f) = infix-split q ks (ground arith) in
      (k ∷ a, p, b, ap (λ (t : List ℕ). k ∷ t) e, f)
]

IsMarked-looks : (k : String) → IsMarked k → key_looks_secret k ≡ true
unfolding key_looks_secret
IsMarked-looks k (m, a, p, b, listed, e, f) =
    any-Memᴰ (λ x. is_infix_of (codes x) (map upper (codes k))) m key_markers listed
      (rw (e, map-append (a ++ p) b, map-append a p, f)
        (is_infix_of-append (map upper a) (codes m) (map upper b)))

looks-IsMarked : (k : String) → key_looks_secret k ≡ true → IsMarked k
unfolding key_looks_secret
looks-IsMarked k h =
    let (m, listed, found) =
      Memᴰ-any (λ x. is_infix_of (codes x) (map upper (codes k))) key_markers h in
    let (a, p, b, e, f) = infix-split (codes m) (codes k) found in (m, a, p, b, listed, e, f)

IsSecret-mem :
    (known : List (List ℕ × String)) (v : String)
    → IsSecret known v
    → mem_str v (values known) ≡ true
unfolding values mem_str
IsSecret-mem [] v (name, h, e) = elim h [ ]
IsSecret-mem ((n, w) ∷ known) v (name, head same, e) =
    let is : v ≡ w = ap (λ (x : List ℕ × String). x.1) same in
    let full : is_empty w ≡ false = subst (λ (x : String). is_empty x ≡ false) is e in
    let here : str_eq v w ≡ true = (eq_iff v w).1 is in rw (full, here) refl
IsSecret-mem ((n, w) ∷ known) v (name, tail h, e) =
    let ih = IsSecret-mem known v (name, h, e) in
    elim (Bool-cases (is_empty w)) [
      | inl blank ↦ rw blank ih
      | inr full ↦ elim (Bool-cases (str_eq v w)) [
        | inl here ↦ rw (full, here) refl
        | inr other ↦ rw (full, other) ih
      ]
    ]

mem-IsSecret :
    (known : List (List ℕ × String)) (v : String)
    → mem_str v (values known) ≡ true
    → IsSecret known v
unfolding values mem_str
mem-IsSecret [] v h = absurd (ground arith)
mem-IsSecret ((n, w) ∷ known) v h =
    first_or_later (mem-IsSecret known v) (is_empty w) (str_eq v w) refl refl h
  where
    later : IsSecret known v → IsSecret ((n, w) ∷ known) v
    later (name, there, full) = (name, tail there, full)

    first_or_later :
        (mem_str v (values known) ≡ true → IsSecret known v)
        → (b c : Bool) → is_empty w ≡ b
        → str_eq v w ≡ c
        → mem_str v (if b then values known else w ∷ values known) ≡ true
        → IsSecret ((n, w) ∷ known) v
    first_or_later ih true c e f k = later (ih k)
    first_or_later ih false false e f k = later (ih (ground arith))
    first_or_later ih false true e f k =
        let is : v ≡ w = (eq_iff v w).0 f in
        (n, head (ap (λ (x : String). (n, x)) is), subst (λ x. is_empty x ≡ false) (sym is) e)

scrub-left :
    (env : Environment) (secrets : List String) (e : String × String)
    → Has e (scrub_env env secrets)
    → Has e env × IsClean secrets e
unfolding scrub_env
scrub-left [] secrets e h = absurd h
scrub-left ((k, v) ∷ env) secrets e h =
    on_test (scrub-left env secrets e)
      (not (key_looks_secret k) && not (not (is_empty v) && mem_str v secrets)) refl h
  where
    on_test :
        (Has e (scrub_env env secrets) → Has e env × IsClean secrets e)
        → (b : Bool) → (not (key_looks_secret k) && not (not (is_empty v) && mem_str v secrets)) ≡ b
        → Has e (if b then (k, v) ∷ scrub_env env secrets else scrub_env env secrets)
        → Has e ((k, v) ∷ env) × IsClean secrets e
    on_test ih true t (inl same) =
        (inl same, subst (IsClean secrets) same (ground arith, λ h. ground arith))
    on_test ih true t (inr later) = let (there, clean) = ih later in (inr there, clean)
    on_test ih false t later = let (there, clean) = ih later in (inr there, clean)

not_true : (b : Bool) → (¬ (b ≡ true)) → b ≡ false
not_true true h = absurd (h refl)
not_true false h = refl

-- What `scrub_env` leaves of an environment, for a store of secrets, is exactly the entries of which the
-- key has none of the markers in it, in any case, and the value is none of the store's that are not empty.
pub scrub_env-Has :
    (env : Environment) (known : List (List ℕ × String)) (k v : String)
    → Has (k, v) (scrub_env env (values known))
      ↔ (Has (k, v) env × (¬ IsMarked k) × (¬ IsSecret known v))
scrub_env-Has env known k v = (to, from)
  where
    to :
        Has (k, v) (scrub_env env (values known))
        → Has (k, v) env × (¬ IsMarked k) × (¬ IsSecret known v)
    to h =
        let (there, (plain, other)) = scrub-left env (values known) (k, v) h in
        (
          there,
          λ m. let looks = IsMarked-looks k m in absurd (ground arith),
          λ s.
              let (name, _, full) = s in
              let found = IsSecret-mem known v s in
              let missing = other full in absurd (ground arith),
        )

    from :
        Has (k, v) env × (¬ IsMarked k) × (¬ IsSecret known v)
        → Has (k, v) (scrub_env env (values known))
    from (there, plain, other) =
        scrub-keeps env (values known) (k, v) there
          (
            not_true (key_looks_secret k) (λ h. plain (looks-IsMarked k h)),
            λ full. not_true (mem_str v (values known)) (λ h. other (mem-IsSecret known v h)),
          )
