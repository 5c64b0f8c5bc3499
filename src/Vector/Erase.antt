-- ===== src/Vector/Erase.antt =====
-- `erase` and `pop_back`.
use mylittle_code_house.Base.{
  ℕ, zero, suc, ◌+◌, ◌-◌, ◌≤◌, ◌<◌, ◌≡◌, refl, sym, ◌∙◌, arith, List, length, get_elem?, get_or,
  set, Returns, returns, bind, mono, lt→ltb, ◌⊎◌, inl, length-set, get_elem?-set_self,
  get_elem?-set_ne, get_elem?-eq-get_or, dec_lt, ◌>>=◌,
}
use mylittle_code_house.Vector.{int_half, Vector, Ref, capacity, shift_down, erase, insert}
use mylittle_code_house.Vector.Cells.{elem?, IsValid, elem?-inside, elem?-outside}
use mylittle_code_house.Vector.Insert.{RefIn, insert-Inserted}

module _ {A : Type 0} (junk : A) where
  length-shift_down :
      (k start : ℕ) (buf : List A) → length (shift_down junk k start buf) ≡ length buf
  unfolding shift_down
  length-shift_down zero start buf = refl
  length-shift_down (suc k) start buf =
      length-shift_down k (start + 1) _ ∙ length-set buf start (get_or buf (start + 1) junk)

  shift_down-outside :
      (k start j : ℕ) (buf : List A)
      → (j < start) ⊎ (start + k ≤ j)
      → get_elem? (shift_down junk k start buf) j ≡ get_elem? buf j
  unfolding shift_down
  shift_down-outside zero start j buf h = refl
  shift_down-outside (suc k) start j buf h =
      shift_down-outside k (start + 1) j _ (ground arith)
      ∙ get_elem?-set_ne buf start j (get_or buf (start + 1) junk) (ground arith)

  shift_down-inside :
      (k start j : ℕ) (buf : List A)
      → start ≤ j
      → j < start + k
      → start + k < length buf
      → get_elem? (shift_down junk k start buf) j ≡ get_elem? buf (j + 1)
  unfolding shift_down
  shift_down-inside zero start j buf low high room = absurd (omega arith)
  shift_down-inside (suc k) start j buf low high room =
      let x = get_or buf (start + 1) junk in
      let buf' = set buf start x in
      elim (dec_lt start j) [
        | yes behind ↦
            shift_down-inside k (start + 1) j buf' (omega arith) (omega arith)
              (omega (arith, length-set buf start x))
            ∙ get_elem?-set_ne buf start (j + 1) x (omega arith)
        | no first ↦
            let e : j ≡ start = omega arith in
            rw e (
              shift_down-outside k (start + 1) start buf' (inl (omega arith))
              ∙ get_elem?-set_self buf start x (omega arith)
              ∙ sym (get_elem?-eq-get_or buf (start + 1) junk (omega arith)))
      ]

  -- What `erase` at `pos` makes of a vector.
  abbrev pub Erased : Vector A → ℕ → Vector A × ℕ → Type 0
  Erased v pos r =
      IsValid r.0
      × (r.0.size + 1 ≡ v.size)
      × (r.1 ≡ pos)
      × ((i : ℕ) → i < pos → elem? r.0 i ≡ elem? v i)
      × ((i : ℕ) → pos ≤ i → elem? r.0 i ≡ elem? v (i + 1))

  -- erase at the position of an element of a valid vector takes that element out, moves every
  -- later one down by one, and keeps the earlier ones.
  pub erase-Erased :
      (v : Vector A) (pos : ℕ)
      → IsValid v
      → pos < v.size
      → Returns (Erased v pos) (erase junk v pos)
  unfolding erase
  erase-Erased v pos valid here =
      let k = v.size - 1 - pos in
      let moved = shift_down junk k pos v.buf in
      let long = length-shift_down k pos v.buf in
      let v' : Vector A = record v { buf = moved; size = v.size - 1 } in
      rw (lt→ltb 0 v.size (omega arith), lt→ltb pos v.size here)
        (returns (
          omega (arith, long),
          omega arith,
          refl,
          λ i h.
              elem?-inside v' i (omega arith)
              ∙ shift_down-outside k pos i v.buf (inl h)
              ∙ sym (elem?-inside v i (omega arith)),
          λ i h. elim (dec_lt i (v.size - 1)) [
            | yes inside ↦
                elem?-inside v' i inside
                ∙ shift_down-inside k pos i v.buf h (omega arith) (omega arith)
                ∙ sym (elem?-inside v (i + 1) (omega arith))
            | no outside ↦
                elem?-outside v' i (omega arith) ∙ sym (elem?-outside v (i + 1) (omega arith))
          ],
        ))

  -- In a valid vector of fewer than 2^30 cells, erasing the element just inserted gives back the
  -- same elements.
  pub erase-insert :
      (v : Vector A) (pos : ℕ) (x : Ref A)
      → IsValid v
      → pos ≤ v.size
      → capacity v < int_half
      → RefIn junk v x
      → Returns
          (λ (r : Vector A × ℕ). (r.0.size ≡ v.size) × ((i : ℕ) → elem? r.0 i ≡ elem? v i))
          (insert junk v pos x >>= λ (v', p). erase junk v' p)
  erase-insert v pos x valid here fits within =
      bind (insert-Inserted junk v pos x valid here fits within) λ r p. rw p.2 (
        mono (erase-Erased r.0 pos p.0 (omega (arith, p.1))) λ q g. (
          omega (arith, g.1, p.1),
          λ i. elim (dec_lt i pos) [
            | yes before ↦ g.3 i before ∙ p.3 i before
            | no behind ↦ g.4 i (omega arith) ∙ p.5 i (omega arith)
          ],
        ))
