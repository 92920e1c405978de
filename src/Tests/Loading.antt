-- ===== src/Tests/Loading.antt =====
-- The theorems on the look-up of symbols at concrete inputs.
use vsqlite.Base.{ℕ, ◌≤◌, ◌≡◌, ◌≢◌, ◌↔◌, true, Text, [], ◌∷◌}
use vsqlite.Symbols.{Apis, Question, Statics, unasked, ask, ask_all}
use vsqlite.Symbols.Loads.{opens, look_ups}
use vsqlite.Symbols.Addresses.{AllFound, names, constant}
use vsqlite.Symbols.Loading
use vsqlite.Symbols.Support
use vsqlite.Tests.Recording.{sessions, snapshots}
use vsqlite.Tests.Imaging.{refusing}

abbrev answers : Apis
answers = record { session = sessions; snapshot = snapshots; image = refusing }

abbrev the_module : ℕ
the_module = 1

-- A module with every function.
abbrev everything : ℕ → Text → ℕ
everything h name = 7

supported_iff_example :
    ((ask
        (constant the_module everything)
        answers
        Question.sessions
        (ask_all (constant the_module everything) answers (Question.images ∷ []) unasked)).0
      ≡ true)
    ↔ ((the_module ≢ 0) × AllFound (everything the_module) (names Question.sessions))
supported_iff_example =
    Support.supported_iff the_module everything answers (Question.images ∷ []) Question.sessions

abbrev asked_later : Statics
asked_later =
    ask_all (constant the_module everything) answers (Question.snapshots ∷ [])
      (ask (constant the_module everything) answers Question.sessions unasked).1

asked_again_example :
    (opens asked_later.log ≤ 1)
    × (look_ups asked_later.log ≤ 13)
    × (ask (constant the_module everything) answers Question.sessions asked_later
        ≡ ((ask (constant the_module everything) answers Question.sessions unasked).0, asked_later))
unfolding ask_all
asked_again_example =
    Loading.asked_again (constant the_module everything) answers [] (Question.snapshots ∷ [])
      Question.sessions
