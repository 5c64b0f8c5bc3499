-- ===== src/ProcessPool/Tests.antt =====
-- Three choices of the parent among two children.
use mylittle_code_house.Base.{ℕ, ◌≡◌, List, [], ◌∷◌, true, ok}
use mylittle_code_house.ProcessPool.{loaded, Event, child_rounds, parent_rounds}
use mylittle_code_house.ProcessPool.Dispatch.{Runs, children_run_what_was_sent}

abbrev choices : List (ℕ × ℕ)
choices = (6, 0) ∷ (3, 1) ∷ (9, 4) ∷ []

children_run_what_was_sent_example :
    (es : List Event) × Runs (2 ∷ 1 ∷ []) es
    × (child_rounds 2 loaded
          (parent_rounds loaded 2 choices (λ _. record { bytes = []; is_open = true }) 0)
        ≡ ok (es, record { bytes = []; is_open = true }))
children_run_what_was_sent_example = children_run_what_was_sent 2 0 choices
