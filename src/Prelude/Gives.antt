-- ===== src/Prelude/Gives.antt =====
-- Properties of what a method returns: one rule for each way to build a method.
use ai_system_canonical.Prelude.Tests.{if◌then◌else◌}
use mathlib.Core.Path.{◌≡◌, subst}
use mathlib.Core.Bool.{Bool, true, false}
use ai_system_canonical.Prelude.Act.{
  Act, Outcome, returns, throws, pure, throw, catch, finally, try_else, ◌>>=◌, go_on, handle,
  either,
}

-- whatever `m` returns satisfies `Q`
pub record Gives {X S A : Type 0} (Q : A → Type 0) (m : Act X S A) : Type 0 where
  pub given : (s : S) (a : A) → (m s).0 ≡ returns a → Q a

module _ {X S A B : Type 0} {Q : B → Type 0} where
  after_first :
      (o : Outcome X A) (f : A → Act X S B) (s : S) (b : B)
      → ((a : A) → Gives Q (f a))
      → (go_on o f s).0 ≡ returns b
      → Q b
  after_first (returns a) f s b g e = (g a).given s b e
  after_first (throws x) f s b g e = cc

  pub Gives-bind :
      (m : Act X S A) (f : A → Act X S B) → ((a : A) → Gives Q (f a)) → Gives Q (m >>= f)
  unfolding ◌>>=◌
  Gives-bind m f g = record { given = λ s b e. after_first (m s).0 f (m s).1 b g e }

  after_try :
      (o : Outcome X A) (good : A → Act X S B) (bad : X → Act X S B) (s : S) (b : B)
      → ((a : A) → Gives Q (good a))
      → ((x : X) → Gives Q (bad x))
      → (either o good bad s).0 ≡ returns b
      → Q b
  after_try (returns a) good bad s b g h e = (g a).given s b e
  after_try (throws x) good bad s b g h e = (h x).given s b e

  pub Gives-try_else :
      (m : Act X S A) (good : A → Act X S B) (bad : X → Act X S B)
      → ((a : A) → Gives Q (good a))
      → ((x : X) → Gives Q (bad x))
      → Gives Q (try_else m good bad)
  unfolding try_else
  Gives-try_else m good bad g h = record {
    given = λ s b e. after_try (m s).0 good bad (m s).1 b g h e;
  }

module _ {X S A : Type 0} {Q : A → Type 0} where
  pub Gives-pure : (a : A) → Q a → Gives {X = X} {S = S} Q (pure a)
  unfolding pure
  Gives-pure a q = record { given = λ s b e. subst Q (cc) q }

  pub Gives-throw : (x : X) → Gives {S = S} Q (throw x)
  unfolding throw
  Gives-throw x = record { given = λ s a e. cc }

  pub Gives-if :
      (test : Bool) (m n : Act X S A) → Gives Q m → Gives Q n → Gives Q (if test then m else n)
  Gives-if true m n g h = g
  Gives-if false m n g h = h

  pub Gives-finally : (m : Act X S A) (undo : S → S) → Gives Q m → Gives Q (finally m undo)
  unfolding finally
  Gives-finally m undo g = record { given = λ s a e. g.given s a e }

  caught :
      (o : Outcome X A) (h : X → Act X S A) (s : S) (a : A)
      → (o ≡ returns a → Q a)
      → ((x : X) → Gives Q (h x))
      → (handle o h s).0 ≡ returns a
      → Q a
  caught (returns b) h s a g k e = g e
  caught (throws x) h s a g k e = (k x).given s a e

  pub Gives-catch :
      (m : Act X S A) (h : X → Act X S A)
      → Gives Q m
      → ((x : X) → Gives Q (h x))
      → Gives Q (catch m h)
  unfolding catch
  Gives-catch m h g k = record {
    given = λ s a e. caught (m s).0 h (m s).1 a (λ e'. g.given s a e') k e;
  }

pub ruleset gives_rules =
    (Gives-bind, Gives-try_else, Gives-throw, Gives-if, Gives-finally, Gives-catch)
