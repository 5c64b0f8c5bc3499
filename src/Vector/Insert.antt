-- ===== src/Vector/Insert.antt =====
-- `insert` and `push_back`.
use mylittle_code_house.Base.{
  ℕ, zero, suc, ◌+◌, ◌-◌, ◌≤◌, ◌<◌, ◌≡◌, refl, sym, ◌∙◌, arith, List, length, get_elem?, get_or,
  set, some, Returns, returns, bind, leb, ltb, ◌||◌, if◌then◌else◌, Option, ap, true, false, ◌≢◌,
  ℕ_discrete, lt→ltb, le→not-ltb, le→leb, ◌==◌, length-set, get_elem?-set_self, get_elem?-set_ne,
  get_elem?-eq-get_or, dec_lt, ◌⊎◌, inl, inr,
}
use mylittle_code_house.Vector.{
  int_half, Vector, Ref, object, cell, capacity, shift_up, deref, insert, push_back,
}
use mylittle_code_house.Vector.Cells.{
  elem?, IsValid, Roomy, grow-Roomy, elem?-inside, elem?-outside,
}

module _ {A : Type 0} (junk : A) where
  length-shift_up : (k pos : ℕ) (buf : List A) → length (shift_up junk k pos buf) ≡ length buf
  unfolding shift_up
  length-shift_up zero pos buf = refl
  length-shift_up (suc k) pos buf =
      length-shift_up k pos _ ∙ length-set buf (pos + k + 1) (get_or buf (pos + k) junk)

  -- Up to `pos`, and behind the cells that move, nothing changes.
  shift_up-outside :
      (k pos j : ℕ) (buf : List A)
      → (j ≤ pos) ⊎ (pos + k < j)
      → get_elem? (shift_up junk k pos buf) j ≡ get_elem? buf j
  unfolding shift_up
  shift_up-outside zero pos j buf h = refl
  shift_up-outside (suc k) pos j buf h =
      shift_up-outside k pos j _ (ground arith)
      ∙ get_elem?-set_ne buf (pos + k + 1) j (get_or buf (pos + k) junk) (ground arith)

  shift_up-inside :
      (k pos j : ℕ) (buf : List A)
      → pos ≤ j
      → j < pos + k
      → pos + k < length buf
      → get_elem? (shift_up junk k pos buf) (j + 1) ≡ get_elem? buf j
  unfolding shift_up
  shift_up-inside zero pos j buf low high room = absurd (omega arith)
  shift_up-inside (suc k) pos j buf low high room =
      let x = get_or buf (pos + k) junk in
      let buf' = set buf (pos + k + 1) x in
      elim (dec_lt j (pos + k)) [
        | yes below ↦
            shift_up-inside k pos j buf' low below (omega (arith, length-set buf (pos + k + 1) x))
            ∙ get_elem?-set_ne buf (pos + k + 1) j x (omega arith)
        | no at_top ↦
            let e : j ≡ pos + k = omega arith in
            rw e (
              shift_up-outside k pos (pos + k + 1) buf' (inr (omega arith))
              ∙ get_elem?-set_self buf (pos + k + 1) x (omega arith)
              ∙ sym (get_elem?-eq-get_or buf (pos + k) junk (omega arith)))
      ]

  -- What `insert` at `pos` makes of a vector when it puts `x` there.
  abbrev pub Inserted : Vector A → ℕ → Option A → Vector A × ℕ → Type 0
  Inserted v pos x r =
      IsValid r.0
      × (r.0.size ≡ v.size + 1)
      × (r.1 ≡ pos)
      × ((i : ℕ) → i < pos → elem? r.0 i ≡ elem? v i)
      × (elem? r.0 pos ≡ x)
      × ((i : ℕ) → pos ≤ i → elem? r.0 (i + 1) ≡ elem? v i)

  made-Inserted :
      (v w : Vector A) (pos : ℕ) (x : A)
      → pos ≤ v.size
      → v.size + 1 ≤ capacity w
      → w.size ≡ v.size
      → ((i : ℕ) → elem? w i ≡ elem? v i)
      → Inserted v pos (some x) (
        record w { buf = set (shift_up junk (w.size - pos) pos w.buf) pos x; size = w.size + 1 },
        pos,
      )
  made-Inserted v w pos x here room size same =
      let k = w.size - pos in
      let moved = shift_up junk k pos w.buf in
      let long = length-shift_up k pos w.buf in
      let v' : Vector A = record w { buf = set moved pos x; size = w.size + 1 } in
      (
        omega (arith, length-set moved pos x, long, size),
        omega (arith, size),
        refl,
        λ i h.
            elem?-inside v' i (omega (arith, size))
            ∙ get_elem?-set_ne moved pos i x (omega arith)
            ∙ shift_up-outside k pos i w.buf (inl (omega arith))
            ∙ sym (elem?-inside w i (omega (arith, size)))
            ∙ same i,
        elem?-inside v' pos (omega (arith, size))
            ∙ get_elem?-set_self moved pos x (omega (arith, long)),
        λ i h. elim (dec_lt i v.size) [
          | yes inside ↦
              elem?-inside v' (i + 1) (omega (arith, size))
              ∙ get_elem?-set_ne moved pos (i + 1) x (omega arith)
              ∙ shift_up-inside k pos i w.buf h (omega (arith, size)) (omega (arith, size))
              ∙ sym (elem?-inside w i (omega (arith, size)))
              ∙ same i
          | no outside ↦
              elem?-outside v' (i + 1) (omega (arith, size)) ∙ sym (elem?-outside v i (omega arith))
        ],
      )

  -- A reference into the vector goes to an element.
  abbrev pub RefIn : Vector A → Ref A → Type 0
  RefIn v (object x) = Unit
  RefIn v (cell j) = j < v.size

  -- What `insert` at `pos` puts there: the object outside; the element referred to, if the storage
  -- is replaced or the element does not lie behind `pos`; else the one before it.
  abbrev pub taken : Vector A → ℕ → Ref A → Option A
  taken v pos (object x) = some x
  taken v pos (cell j) = elem? v (if v.size == capacity v || leb j pos then j else j - 1)

  deref-replaced :
      (v : Vector A) (pos : ℕ) (r : Ref A)
      → IsValid v
      → RefIn v r
      → v.size ≡ capacity v
      → some (deref junk r v.buf) ≡ taken v pos r
  unfolding deref
  deref-replaced v pos (object x) valid h full = refl
  deref-replaced v pos (cell j) valid h full =
      let e : (v.size == capacity v || leb j pos) ≡ true = ground (arith, full) in
      rw e (sym (get_elem?-eq-get_or v.buf j junk (omega arith)) ∙ sym (elem?-inside v j h))

  deref-moved :
      (v : Vector A) (pos : ℕ) (r : Ref A)
      → IsValid v
      → pos ≤ v.size
      → RefIn v r
      → v.size ≢ capacity v
      → some (deref junk r (shift_up junk (v.size - pos) pos v.buf)) ≡ taken v pos r
  unfolding deref
  deref-moved v pos (object x) valid here h free = refl
  deref-moved v pos (cell j) valid here h free =
      let k = v.size - pos in
      let moved = shift_up junk k pos v.buf in
      let value : get_elem? moved j ≡ some (get_or moved j junk) =
        get_elem?-eq-get_or moved j junk (omega (arith, length-shift_up k pos v.buf)) in
      elim (dec_lt pos j) [
        | yes behind ↦
            let e : (v.size == capacity v || leb j pos) ≡ false = ground (arith, free) in
            let j' : j - 1 + 1 ≡ j = omega arith in
            rw e (
              sym value
              ∙ ap (get_elem? moved) (sym j')
              ∙ shift_up-inside k pos (j - 1) v.buf (omega arith) (omega arith)
                  (omega (arith, free))
              ∙ sym (elem?-inside v (j - 1) (omega arith)))
        | no before ↦
            let e : (v.size == capacity v || leb j pos) ≡ true = ground arith in
            rw e (
              sym value
              ∙ shift_up-outside k pos j v.buf (inl (omega arith))
              ∙ sym (elem?-inside v j h))
      ]

  -- The storage that the reference reads gives `taken`.
  deref-taken :
      (v w : Vector A) (pos : ℕ) (r : Ref A)
      → IsValid v
      → pos ≤ v.size
      → RefIn v r
      → Roomy junk v w
      → some (
          deref junk r (
            if ltb (capacity v) (capacity w)
            then v.buf
            else shift_up junk (w.size - pos) pos w.buf))
        ≡ taken v pos r
  deref-taken v w pos r valid here h g = elim (ℕ_discrete v.size (capacity v)) [
    | yes full ↦
        rw (lt→ltb (capacity v) (capacity w) (g.replaced full))
          (deref-replaced v pos r valid h full)
    | no free ↦
        let same = g.kept free in
        rw (same, le→not-ltb (capacity v) (capacity v) (omega arith))
          (deref-moved v pos r valid here h free)
  ]

  -- insert at a position up to the one behind the last element, in a valid vector of fewer than
  -- 2^30 cells, of an object outside the vector or of one of its own elements, moves every later
  -- element on by one, keeps the earlier ones, and returns the position, whether or not the
  -- storage grows. It puts the object there; of the elements of the vector, the one that is given
  -- when the storage grows or that element does not lie behind the position, and otherwise the
  -- one before it.
  pub insert-Inserted :
      (v : Vector A) (pos : ℕ) (r : Ref A)
      → IsValid v
      → pos ≤ v.size
      → capacity v < int_half
      → RefIn v r
      → Returns (Inserted v pos (taken v pos r)) (insert junk v pos r)
  unfolding insert
  insert-Inserted v pos r valid here fits h = rw (le→leb pos v.size here) (
      bind (grow-Roomy junk v valid fits) λ w g.
        rw (lt→ltb w.size (capacity w) (omega (arith, g.room, g.size))) (
          let seen =
            if ltb (capacity v) (capacity w)
            then v.buf
            else shift_up junk (w.size - pos) pos w.buf in
          let p = made-Inserted v w pos (deref junk r seen) here g.room g.size g.same in
          returns (p.0, p.1, p.2, p.3, p.4 ∙ deref-taken v w pos r valid here h g, p.5)))

  -- `push_back` puts what the reference reads behind the last element and keeps the others, also
  -- when it is an element of the vector, for a storage of fewer than 2^30 cells.
  pub push_back-elem? :
      (v : Vector A) (r : Ref A)
      → IsValid v
      → capacity v < int_half
      → RefIn v r
      → Returns
          (λ (v' : Vector A).
            IsValid v'
            × (v'.size ≡ v.size + 1)
            × (elem? v' v.size ≡ some (deref junk r v.buf))
            × ((i : ℕ) → i < v.size → elem? v' i ≡ elem? v i))
          (push_back junk v r)
  unfolding push_back deref
  push_back-elem? v r valid fits h =
      bind (insert-Inserted v v.size r valid (omega arith) fits h)
        λ q p. returns (p.0, p.1, p.4 ∙ taken_at_end v r valid h, p.3)
    where
      taken_at_end :
          (v : Vector A) (r : Ref A)
          → IsValid v
          → RefIn v r
          → taken v v.size r ≡ some (deref junk r v.buf)
      taken_at_end v (object x) valid h = refl
      taken_at_end v (cell j) valid h =
          let e : (v.size == capacity v || leb j v.size) ≡ true = ground arith in
          rw e (elem?-inside v j h ∙ get_elem?-eq-get_or v.buf j junk (omega arith))
