-- ===== src/Publisher/Tests.antt =====
-- A publisher with a listener and a dispatcher for one event.
use rmake.Base.{ℕ, ◌≡◌, refl, [], ◌∷◌, List}
use rmake.Publisher.{Notice, Publisher, fresh, cork, uncork, emit_each}
use rmake.Publisher.Corking.{heard}
use rmake.Publisher.Equal.{cork-emit_each}

abbrev listening : Publisher
listening = record fresh { listeners = (1, 50 ∷ []) ∷ []; dispatchers = (1, 60 ∷ 50 ∷ []) ∷ [] }

abbrev two_notices : List Notice
two_notices = record { event = 1; args = 8 } ∷ record { event = 1; args = 9 } ∷ []

cork_example :
    ((emit_each two_notices (cork listening)).1 ≡ [])
    × ((fn : ℕ)
        → heard fn (uncork (emit_each two_notices (cork listening)).0).1
          ≡ heard fn (emit_each two_notices listening).1)
cork_example = cork-emit_each two_notices listening refl refl
