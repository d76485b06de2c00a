-- ===== src/Prelude/Keeps.antt =====
-- Invariants of methods: one rule for each way to build a method.
use ai_system_canonical.Prelude.Tests.{if◌then◌else◌}
use mathlib.Core.Option.{Option, none, some}
use mathlib.Core.Bool.{Bool, true, false}
use mathlib.Core.List.{List, [], ◌∷◌}
use ai_system_canonical.Prelude.Act.{
  Act, Outcome, returns, throws, pure, throw, gets, for_each, on_option, catch, finally, try_else,
  ◌>>=◌, go_on, handle, either,
}

-- whether it returns or throws, `m` leaves a state that satisfies `P`
pub record Keeps {X S A : Type 0} (P : S → Type 0) (m : Act X S A) : Type 0 where
  pub holds : (before : S) → P before → P (m before).1

module _ {X S A : Type 0} {P : S → Type 0} where
  pub Keeps-if :
      (test : Bool) (yes' no' : Act X S A)
      → Keeps P yes'
      → Keeps P no'
      → Keeps P (if test then yes' else no')
  Keeps-if true yes' no' good bad = good
  Keeps-if false yes' no' good bad = bad

  pub Keeps-gets : (look : S → A) → Keeps {X = X} P (gets look)
  unfolding gets
  Keeps-gets look = record { holds = λ before kept. kept }

  pub Keeps-throw : (x : X) → Keeps P (throw {A = A} x)
  unfolding throw
  Keeps-throw x = record { holds = λ before kept. kept }

  pub Keeps-pure : (value : A) → Keeps {X = X} P (pure value)
  unfolding pure
  Keeps-pure value = record { holds = λ before kept. kept }

  pub Keeps-finally :
      (m : Act X S A) (undo : S → S)
      → Keeps P m
      → ((s : S) → P s → P (undo s))
      → Keeps P (finally m undo)
  unfolding finally
  Keeps-finally m undo km ku = record { holds = λ s h. ku (m s).1 (km.holds s h) }

  handled :
      (o : Outcome X A) (h : X → Act X S A) (s : S)
      → ((x : X) → Keeps P (h x))
      → P s
      → P (handle o h s).1
  handled (returns a) h s kh p = p
  handled (throws x) h s kh p = (kh x).holds s p

  pub Keeps-catch :
      (m : Act X S A) (h : X → Act X S A)
      → Keeps P m
      → ((x : X) → Keeps P (h x))
      → Keeps P (catch m h)
  unfolding catch
  Keeps-catch m h km kh = record { holds = λ s p. handled (m s).0 h (m s).1 kh (km.holds s p) }

module _ {X S A B : Type 0} {P : S → Type 0} where
  gone_on :
      (o : Outcome X A) (f : A → Act X S B) (s : S)
      → ((a : A) → Keeps P (f a))
      → P s
      → P (go_on o f s).1
  gone_on (returns a) f s kf p = (kf a).holds s p
  gone_on (throws x) f s kf p = p

  pub Keeps-bind :
      (first : Act X S A) (next : A → Act X S B)
      → Keeps P first
      → ((value : A) → Keeps P (next value))
      → Keeps P (first >>= next)
  unfolding ◌>>=◌
  Keeps-bind first next one two = record {
    holds =
        λ before kept. gone_on (first before).0 next (first before).1 two (one.holds before kept);
  }

  chosen :
      (o : Outcome X A) (good : A → Act X S B) (bad : X → Act X S B) (s : S)
      → ((a : A) → Keeps P (good a))
      → ((x : X) → Keeps P (bad x))
      → P s
      → P (either o good bad s).1
  chosen (returns a) good bad s kg kb p = (kg a).holds s p
  chosen (throws x) good bad s kg kb p = (kb x).holds s p

  pub Keeps-try_else :
      (m : Act X S A) (good : A → Act X S B) (bad : X → Act X S B)
      → Keeps P m
      → ((a : A) → Keeps P (good a))
      → ((x : X) → Keeps P (bad x))
      → Keeps P (try_else m good bad)
  unfolding try_else
  Keeps-try_else m good bad km kg kb = record {
    holds = λ s p. chosen (m s).0 good bad (m s).1 kg kb (km.holds s p);
  }

module _ {X S A : Type 0} {P : S → Type 0} where
  pub Keeps-for_each :
      (f : A → Act X S (Unit {0})) (xs : List A)
      → ((a : A) → Keeps P (f a))
      → Keeps P (for_each f xs)
  unfolding for_each
  Keeps-for_each f [] kf = Keeps-pure tt
  Keeps-for_each f (x ∷ xs) kf =
      Keeps-bind (f x) (λ _. for_each f xs) (kf x) (λ _. Keeps-for_each f xs kf)

module _ {X S A B : Type 0} {P : S → Type 0} where
  pub Keeps-option :
      (o : Option A) (m : Act X S B) (f : A → Act X S B)
      → Keeps P m
      → ((a : A) → Keeps P (f a))
      → Keeps P (on_option o m f)
  unfolding on_option
  Keeps-option none m f km kf = km
  Keeps-option (some a) m f km kf = kf a

pub ruleset keeps_rules = (
  Keeps-option, Keeps-pure, Keeps-throw, Keeps-gets, Keeps-if, Keeps-finally, Keeps-catch,
  Keeps-bind, Keeps-try_else, Keeps-for_each,
)
