-- ===== src/Vector/Tests.antt =====
-- Vectors of three and of four cells with three elements.
use mylittle_code_house.Base.{ℕ, ◌≡◌, refl, ok, arith, Returns, [], ◌∷◌}
use mylittle_code_house.Vector.{
  Vector, cell, insert, erase, shift_up, grow, reserve, copy, new_capacity, deref,
}
use mylittle_code_house.Vector.Insert.{Inserted, taken, insert-Inserted}
use mylittle_code_house.Vector.Erase.{Erased, erase-Erased}

abbrev full : Vector ℕ
full = record { buf = 10 ∷ 20 ∷ 30 ∷ []; size = 3 }

abbrev roomy : Vector ℕ
roomy = record { buf = 10 ∷ 20 ∷ 30 ∷ 0 ∷ []; size = 3 }

-- The last element, inserted without growth before itself: the one before it is put there.
insert-Inserted_example :
    Returns (Inserted 0 roomy 0 (taken 0 roomy 0 (cell 2))) (insert 0 roomy 0 (cell 2))
insert-Inserted_example =
    insert-Inserted 0 roomy 0 (cell 2) (omega arith) (omega arith) (omega arith) (omega arith)

wrong_element :
    insert 0 roomy 0 (cell 2) ≡ ok (record { buf = 20 ∷ 10 ∷ 20 ∷ 30 ∷ []; size = 4 }, 0)
unfolding insert shift_up grow reserve new_capacity deref
wrong_element = refl

right_element :
    insert 0 full 0 (cell 2) ≡ ok (record { buf = 30 ∷ 10 ∷ 20 ∷ 30 ∷ 0 ∷ 0 ∷ []; size = 4 }, 0)
unfolding insert shift_up grow reserve copy new_capacity deref
right_element = refl

erase-Erased_example : Returns (Erased 0 roomy 1) (erase 0 roomy 1)
erase-Erased_example = erase-Erased 0 roomy 1 (omega arith) (omega arith)
