-- ===== src/Policy/Glob.antt =====
-- `fnmatch.fnmatch` for patterns of `*`, `?` and plain characters, over code points. The patterns of
-- the program hold no `[`.
use ai_system_canonical.Prelude.{
  ℕ, ◌≡◌, refl, Bool, true, false, List, [], ◌∷◌, ◌++◌, ◌||◌, ◌&&◌, ◌==◌, arith, if◌then◌else◌, All,
}

-- some rest of the text satisfies the test
any_rest : (List ℕ → Bool) → List ℕ → Bool
any_rest f [] = f []
any_rest f (c ∷ cs) = f (c ∷ cs) || any_rest f cs

-- `?` or the character itself, then the rest of the pattern
one_char : ℕ → (List ℕ → Bool) → List ℕ → Bool
one_char p rest [] = false
one_char p rest (c ∷ cs) = (p == b'?' || p == c) && rest cs

unfoldable pub glob_matches : List ℕ → List ℕ → Bool
unfolding any_rest one_char
glob_matches [] [] = true
glob_matches [] (_ ∷ _) = false
glob_matches (p ∷ ps) t =
    if p == b'*' then any_rest (glob_matches ps) t else one_char p (glob_matches ps) t

any_rest-of : (f : List ℕ → Bool) (a t : List ℕ) → f t ≡ true → any_rest f (a ++ t) ≡ true
unfolding any_rest
any_rest-of f [] [] h = h
any_rest-of f [] (c ∷ t) h = ground arith
any_rest-of f (c ∷ a) t h = ground (arith, any_rest-of f a t h)

IsLiteral : List ℕ → Type 0
IsLiteral w = All (λ c. (c == b'*') ≡ false) w

glob_matches-IsLiteral :
    (w ps t : List ℕ)
    → IsLiteral w
    → glob_matches ps t ≡ true
    → glob_matches (w ++ ps) (w ++ t) ≡ true
unfolding glob_matches IsLiteral
glob_matches-IsLiteral [] ps t h k = k
glob_matches-IsLiteral (c ∷ w) ps t h k = ground (arith, glob_matches-IsLiteral w ps t h.1 k)

-- A pattern `*w*`, with `w` free of wildcards, matches every text that holds `w`.
pub glob_matches-infix :
    (w a b : List ℕ)
    → All (λ c. (c == b'*') ≡ false) w
    → glob_matches (b'*' ∷ w ++ b'*' ∷ []) (a ++ (w ++ b)) ≡ true
unfolding glob_matches IsLiteral
glob_matches-infix w a b h =
    any_rest-of (glob_matches (w ++ b'*' ∷ [])) a (w ++ b)
      (glob_matches-IsLiteral w (b'*' ∷ []) b h (star_all b))
  where
    star_all : (t : List ℕ) → glob_matches (b'*' ∷ []) t ≡ true
    star_all [] = refl
    star_all (c ∷ t) = ground (arith, star_all t)
