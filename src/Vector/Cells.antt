-- ===== src/Vector/Cells.antt =====
-- The elements of a vector, and what growing does to them.
use mylittle_code_house.Base.{
  lt→not-leb, ℕ, zero, suc, ◌+◌, ◌≤◌, ◌<◌, ◌≡◌, ◌≢◌, refl, sym, ◌∙◌, arith, List, length, get_elem?,
  get_or, set, replicate, Option, none, ltb, ◌==◌, if◌then◌else◌, length-set, length-replicate,
  get_elem?-set_self, get_elem?-set_ne, get_elem?-eq-get_or, Bool-cases, inl, inr, ltb→lt,
  not-ltb→le, ℕ_discrete, lt→ltb, Returns, returns, ne→not-==, true, le→not-ltb,
}
use mylittle_code_house.Vector.{int_half, new_capacity, Vector, capacity, copy, reserve, grow}

-- The element at a position, none behind the last.
abbrev pub elem? : {A : Type 0} → Vector A → ℕ → Option A
elem? v i = if ltb i v.size then get_elem? v.buf i else none

-- The elements lie inside the storage.
abbrev pub IsValid : {A : Type 0} → Vector A → Type 0
IsValid v = v.size ≤ capacity v

module _ {A : Type 0} (junk : A) where
  pub length-copy : (k i : ℕ) (src dst : List A) → length (copy junk k i src dst) ≡ length dst
  unfolding copy
  length-copy zero i src dst = refl
  length-copy (suc k) i src dst =
      length-copy k (i + 1) src (set dst i (get_or src i junk))
      ∙ length-set dst i (get_or src i junk)

  copy-before :
      (k i j : ℕ) (src dst : List A) → j < i → get_elem? (copy junk k i src dst) j ≡ get_elem? dst j
  unfolding copy
  copy-before zero i j src dst h = refl
  copy-before (suc k) i j src dst h =
      copy-before k (i + 1) j src (set dst i (get_or src i junk)) (omega arith)
      ∙ get_elem?-set_ne dst i j (get_or src i junk) (omega arith)

  copy-inside :
      (k i j : ℕ) (src dst : List A)
      → i ≤ j
      → j < i + k
      → j < length src
      → j < length dst
      → get_elem? (copy junk k i src dst) j ≡ get_elem? src j
  unfolding copy
  copy-inside zero i j src dst low high hs hd = absurd (omega arith)
  copy-inside (suc k) i j src dst low high hs hd = elim (ℕ_discrete i j) [
    | yes e ↦ rw (← e) (
        copy-before k (i + 1) i src (set dst i (get_or src i junk)) (omega arith)
        ∙ get_elem?-set_self dst i (get_or src i junk) (omega (arith, e))
        ∙ sym (get_elem?-eq-get_or src i junk (omega (arith, e))))
    | no ne ↦
        copy-inside k (i + 1) j src (set dst i (get_or src i junk)) (omega arith) (omega arith) hs
          (omega (arith, length-set dst i (get_or src i junk)))
  ]

  -- reserve keeps a valid vector valid and every element as it is, and gives at least the
  -- capacity asked for and no less than there was.
  pub reserve-elem? :
      (v : Vector A) (n : ℕ)
      → IsValid v
      → let v' = reserve junk v n in
        IsValid v'
        × (v'.size ≡ v.size)
        × (n ≤ capacity v')
        × (capacity v ≤ capacity v')
        × ((i : ℕ) → elem? v' i ≡ elem? v i)
  unfolding reserve
  reserve-elem? v n valid = elim (Bool-cases (ltb (capacity v) n)) [
    | inl more ↦
        let buf = replicate n junk in
        let long = length-copy v.size 0 v.buf buf in
        let room = length-replicate n junk in
        let below = ltb→lt (capacity v) n more in
        rw more (
          omega (arith, long, room),
          refl,
          omega (arith, long, room),
          omega (arith, long, room),
          λ i. elim (Bool-cases (ltb i v.size)) [
            | inl inside ↦
                let lt = ltb→lt i v.size inside in
                rw inside (
                  copy-inside v.size 0 i v.buf buf (omega arith) (omega arith) (omega arith)
                    (omega (arith, room)))
            | inr outside ↦ rw outside
          ],
        )
    | inr enough ↦
        let above = not-ltb→le (capacity v) n enough in
        rw enough (valid, refl, above, omega arith, λ i. refl)
  ]

  -- What the growth of `insert` makes of a vector: the same elements, with room for one more; a
  -- storage that is not full is left alone.
  pub record Roomy (v v' : Vector A) : Type 0 where
    pub room : v.size + 1 ≤ capacity v'
    pub size : v'.size ≡ v.size
    pub same : (i : ℕ) → elem? v' i ≡ elem? v i
    pub replaced : v.size ≡ capacity v → capacity v < capacity v'
    pub kept : v.size ≢ capacity v → v' ≡ v

  new_capacity-more : (n : ℕ) → n < int_half → (n < new_capacity n) × (new_capacity n < 2147483648)
  unfolding new_capacity
  new_capacity-more n h = (ground arith, ground arith)

  pub grow-Roomy :
      (v : Vector A) → IsValid v → capacity v < int_half → Returns (Roomy v) (grow junk v)
  unfolding grow
  grow-Roomy v valid fits = elim (ℕ_discrete v.size (capacity v)) [
    | yes full ↦
        let c = new_capacity (capacity v) in
        let (more, below) = new_capacity-more (capacity v) fits in
        let r = reserve-elem? v c valid in
        let is_full : (v.size == capacity v) ≡ true = ground (arith, full) in
        rw (is_full, lt→not-leb 2147483648 c below)
          (returns (record {
            room = omega (arith, r.2, more, full);
            size = r.1;
            same = r.4;
            replaced = λ e. omega (arith, r.2, more);
            kept = λ ne. absurd (ne full);
          }))
    | no free ↦ rw (ne→not-== v.size (capacity v) free) (
        returns (record {
          room = omega arith;
          size = refl;
          same = λ i. refl;
          replaced = λ e. absurd (free e);
          kept = λ ne. refl;
        }))
  ]

pub elem?-inside : {A : Type 0} (v : Vector A) (i : ℕ) → i < v.size → elem? v i ≡ get_elem? v.buf i
elem?-inside v i h = rw (lt→ltb i v.size h)

pub elem?-outside : {A : Type 0} (v : Vector A) (i : ℕ) → v.size ≤ i → elem? v i ≡ none
elem?-outside v i h = rw (le→not-ltb i v.size h)
