-- ===== src/Shell/Tests.antt =====
-- The line `ls -l`.
use mylittle_code_house.Base.{
  ℕ, ◌≤◌, ◌<◌, ◌≡◌, ◌⊎◌, refl, arith, none, List, [], ◌∷◌, ◌++◌, replicate, ok, err, out_of_bounds,
}
use mylittle_code_house.Shell.{Argv, round}
use mylittle_code_house.Shell.Words.{join, meaning, places, round-join}

abbrev unused : Argv
unused = replicate 32 none

abbrev ls : List ℕ
ls = b'l' ∷ b's' ∷ []

abbrev dash_l : List ℕ
dash_l = b'-' ∷ b'l' ∷ []

round-join_example :
    ((1 < 31)
      × (rest : Argv) × (round unused (join (ls ∷ dash_l ∷ []) ++ b'!' ∷ [])
          ≡ ok (places (ls ∷ dash_l ∷ []) (none ∷ rest), meaning ls (dash_l ∷ []))))
    ⊎ ((31 ≤ 1) × (round unused (join (ls ∷ dash_l ∷ []) ++ b'!' ∷ []) ≡ err out_of_bounds))
round-join_example =
    round-join unused ls (dash_l ∷ []) b'!' refl
      ((omega arith, (omega arith, tt)), ((omega arith, (omega arith, tt)), tt))
