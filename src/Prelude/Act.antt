-- ===== src/Prelude/Act.antt =====
-- Methods as functions of the state that return or throw, with `try`, `finally` and loops over lists.
use mathlib.Core.Option.{Option, none, some}
use mathlib.Core.Bool.{Bool, true, false}
use mathlib.Core.List.{List, [], ◌∷◌}

pub data Outcome (X A : Type 0) : Type 0 where
  returns : A → Outcome X A
  throws : X → Outcome X A

abbrev pub Act : Type 0 → Type 0 → Type 0 → Type 0
Act X S A = S → Outcome X A × S

module _ {X S A : Type 0} where
  unfoldable pub pure : A → Act X S A
  pure a s = (returns a, s)

  unfoldable pub throw : X → Act X S A
  throw x s = (throws x, s)

  unfoldable pub from : Outcome X A → Act X S A
  from o s = (o, s)

module _ {X S A B : Type 0} where
  abbrev pub go_on : Outcome X A → (A → Act X S B) → Act X S B
  go_on (returns a) f s = f a s
  go_on (throws x) f s = (throws x, s)

  infixl 10 ◌>>=◌ ◌>>◌
  unfoldable pub ◌>>=◌ : Act X S A → (A → Act X S B) → Act X S B
  ◌>>=◌ m f s = let (o, s') = m s in go_on o f s'

  abbrev pub ◌>>◌ : Act X S A → Act X S B → Act X S B
  m >> n = m >>= λ _. n

module _ {X S A : Type 0} where
  abbrev pub handle : Outcome X A → (X → Act X S A) → Act X S A
  handle (returns a) h s = (returns a, s)
  handle (throws x) h s = h x s

  -- `try: m except …: h`
  unfoldable pub catch : Act X S A → (X → Act X S A) → Act X S A
  catch m h s = let (o, s') = m s in handle o h s'

  -- `finally`, for a change of the state that cannot fail
  unfoldable pub finally : Act X S A → (S → S) → Act X S A
  finally m undo s = let (o, s') = m s in (o, undo s')

module _ {X S A B : Type 0} where
  abbrev pub either : Outcome X A → (A → Act X S B) → (X → Act X S B) → Act X S B
  either (returns a) good bad s = good a s
  either (throws x) good bad s = bad x s

  -- `try: a = m except …: return bad`, with what follows outside the `try`
  unfoldable pub try_else : Act X S A → (A → Act X S B) → (X → Act X S B) → Act X S B
  try_else m good bad s = let (o, s') = m s in either o good bad s'

module _ {X S A B : Type 0} where
  -- `if o is None: m`, and otherwise `f` of what it holds
  unfoldable pub on_option : Option A → Act X S B → (A → Act X S B) → Act X S B
  on_option none m f = m
  on_option (some a) m f = f a

module _ {X S : Type 0} where
  unfoldable pub modify : (S → S) → Act X S (Unit {0})
  modify f s = (returns tt, f s)

  unfoldable pub gets : {A : Type 0} → (S → A) → Act X S A
  gets f s = (returns (f s), s)

  unfoldable pub for_each : {A : Type 0} → (A → Act X S (Unit {0})) → List A → Act X S (Unit {0})
  for_each f [] = pure tt
  for_each f (x ∷ xs) = f x >>= λ _. for_each f xs

  abbrev pub when : Bool → Act X S (Unit {0}) → Act X S (Unit {0})
  when true m = m
  when false m = pure tt
