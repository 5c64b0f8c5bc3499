-- ===== src/Stack/Tests.antt =====
-- A stack that has been made and not used.
use mylittle_code_house.Base.{◌<◌, ◌≡◌, ◌⊎◌, [], ◌∷◌, length, err, segfault, Returns}
use mylittle_code_house.Base.Int.{ℤ, pos}
use mylittle_code_house.Stack.{Stack, init, push}
use mylittle_code_house.Stack.Laws.{Holds, init-Holds, push_four}

abbrev made : Stack
made = init (pos 0)

push_four_example :
    ((0 < 4) × Returns (λ (t : Stack). Holds t (pos 8 ∷ [])) (push made (pos 8)))
    ⊎ ((length {A = ℤ} [] ≡ 4) × (push made (pos 8) ≡ err segfault))
push_four_example = push_four made [] (pos 8) (init-Holds (pos 0))
