-- ===== src/State/Trace.antt =====
-- What the log of a task looks like when every STATE event was checked by `transition_ok`.
use ai_system_canonical.Prelude.{◌≡◌, refl, none, List, [], ◌∷◌, ◌++◌}
use ai_system_canonical.Events.{Event, Body}
use ai_system_canonical.Events.Projection.{TaskSnapshot, apply_event, project_from}
use ai_system_canonical.State.Gate.{transition_ok}

-- a STATE event passed the check against the snapshot of the events before it
abbrev pub IsChecked : TaskSnapshot → Body → Type 0
IsChecked snap (Body.state s) = transition_ok snap.state s snap ≡ none
IsChecked snap _ = Unit

abbrev pub IsSound : TaskSnapshot → List Event → Type 0
IsSound snap [] = Unit
IsSound snap (e ∷ es) = IsChecked snap e.body × IsSound (apply_event snap e) es

pub project_from-append :
    (snap : TaskSnapshot) (xs ys : List Event)
    → project_from snap (xs ++ ys) ≡ project_from (project_from snap xs) ys
unfolding project_from
project_from-append snap [] ys = refl
project_from-append snap (e ∷ xs) ys = project_from-append (apply_event snap e) xs ys

pub IsSound-snoc :
    (snap : TaskSnapshot) (xs : List Event) (e : Event)
    → IsSound snap xs
    → IsChecked (project_from snap xs) e.body
    → IsSound snap (xs ++ e ∷ [])
unfolding project_from
IsSound-snoc snap [] e h k = (k, tt)
IsSound-snoc snap (x ∷ xs) e h k = (h.0, IsSound-snoc (apply_event snap x) xs e h.1 k)

pub IsSound-append :
    (snap : TaskSnapshot) (xs ys : List Event)
    → IsSound snap (xs ++ ys)
    → IsSound snap xs × IsSound (project_from snap xs) ys
unfolding project_from
IsSound-append snap [] ys h = (tt, h)
IsSound-append snap (x ∷ xs) ys h =
    let (a, b) = IsSound-append (apply_event snap x) xs ys h.1 in ((h.0, a), b)
