-- ===== src/Prelude/Text.antt =====
-- Python's `str` operations, over the code points of a text.
use Prim.Native.Nat.{ℕ, ◌+◌}
use Prim.Native.Char.{code}
use Prim.Native.String.{String}
use mathlib.Core.Path.{◌≡◌, refl}
use mathlib.Core.Bool.{Bool, true, false, ◌&&◌, ◌||◌}
use mathlib.Core.List.{List, [], ◌∷◌, ◌++◌, reverse}
use native.Mathlib.Omega.{arith}
use text.Mathlib.Text.{◌==◌ as str_eq}
use ai_system_canonical.Prelude.Tests.{leb, ◌==◌, if◌then◌else◌}

abbrev pub codes : String → List ℕ
codes String.[] = []
codes (String.◌∷◌ letter rest) = code letter ∷ codes rest

-- what `str.strip` removes and `\s` matches
unfoldable pub is_space : ℕ → Bool
is_space c =
    (leb 9 c && leb c 13)
    || (leb 28 c && leb c 32)
    || c == 0x85
    || c == 0xa0
    || c == 0x1680
    || (leb 0x2000 c && leb c 0x200a)
    || c == 0x2028
    || c == 0x2029
    || c == 0x202f
    || c == 0x205f
    || c == 0x3000

unfoldable pub all_space : List ℕ → Bool
unfolding is_space
all_space [] = true
all_space (c ∷ cs) = is_space c && all_space cs

-- `not s.strip()`
unfoldable pub is_blank : String → Bool
unfolding all_space
is_blank s = all_space (codes s)

-- `not s`
abbrev pub is_empty : String → Bool
is_empty s = str_eq s ""

-- `str.lower` on ASCII letters
unfoldable pub lower : ℕ → ℕ
lower c = if leb b'A' c && leb c b'Z' then c + 32 else c

-- Is the first text a prefix of the second?
unfoldable pub is_prefix_of : List ℕ → List ℕ → Bool
is_prefix_of [] t = true
is_prefix_of (p ∷ ps) [] = false
is_prefix_of (p ∷ ps) (c ∷ cs) = p == c && is_prefix_of ps cs

-- `needle in s`
unfoldable pub is_infix_of : List ℕ → List ℕ → Bool
unfolding is_prefix_of
is_infix_of needle [] = is_prefix_of needle []
is_infix_of needle (c ∷ cs) = is_prefix_of needle (c ∷ cs) || is_infix_of needle cs

unfoldable pub codes_eq : List ℕ → List ℕ → Bool
codes_eq [] [] = true
codes_eq (a ∷ as') (b ∷ bs) = a == b && codes_eq as' bs
codes_eq _ _ = false

-- `s.endswith(suffix)`
unfoldable pub ends_with : List ℕ → List ℕ → Bool
unfolding codes_eq
ends_with [] suffix = codes_eq [] suffix
ends_with (c ∷ cs) suffix = codes_eq (c ∷ cs) suffix || ends_with cs suffix

unfoldable pub drop_space : List ℕ → List ℕ
unfolding is_space
drop_space [] = []
drop_space (c ∷ cs) = elim (is_space c) [ true ↦ drop_space cs | false ↦ c ∷ cs ]

-- `s.strip()`
unfoldable pub strip : List ℕ → List ℕ
unfolding drop_space
strip cs = reverse (drop_space (reverse (drop_space cs)))

-- `x in xs` for texts
unfoldable pub mem_str : String → List String → Bool
mem_str x [] = false
mem_str x (y ∷ ys) = str_eq x y || mem_str x ys

pub is_prefix_of-append : (p t : List ℕ) → is_prefix_of p (p ++ t) ≡ true
unfolding is_prefix_of
is_prefix_of-append [] t = refl
is_prefix_of-append (c ∷ p) t = ground (arith, is_prefix_of-append p t)

pub is_infix_of-append : (a p t : List ℕ) → is_infix_of p (a ++ p ++ t) ≡ true
unfolding is_infix_of
is_infix_of-append [] p t = is_infix_of_prefix p t
  where
    is_infix_of_prefix : (p t : List ℕ) → is_infix_of p (p ++ t) ≡ true
    is_infix_of_prefix [] [] = refl
    is_infix_of_prefix [] (c ∷ t) = refl
    is_infix_of_prefix (c ∷ p) t = ground (arith, is_prefix_of-append p t)
is_infix_of-append (c ∷ a) p t = ground (arith, is_infix_of-append a p t)

-- `s.split(c)` of one character, the piece at hand reversed
pieces : ℕ → List ℕ → List ℕ → List (List ℕ)
pieces sep piece [] = reverse piece ∷ []
pieces sep piece (c ∷ cs) =
    let here = pieces sep [] cs in
    let on = pieces sep (c ∷ piece) cs in if c == sep then reverse piece ∷ here else on

-- `s.split(c)`
unfoldable pub split_on : ℕ → List ℕ → List (List ℕ)
unfolding pieces
split_on sep cs = pieces sep [] cs

-- `x in xs` for texts as code points
unfoldable pub mem_codes : List ℕ → List (List ℕ) → Bool
unfolding codes_eq
mem_codes x [] = false
mem_codes x (y ∷ ys) = codes_eq x y || mem_codes x ys

-- `needle in hay.lower()`
unfoldable pub occurs_in : String → List ℕ → Bool
unfolding is_infix_of
occurs_in needle hay = is_infix_of (codes needle) hay
