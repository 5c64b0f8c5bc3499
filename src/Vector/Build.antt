-- ===== src/Vector/Build.antt =====
-- The constructor from a range of elements.
use mylittle_code_house.Base.{
  ℕ, zero, suc, ◌+◌, ◌-◌, ◌≤◌, ◌<◌, ◌≡◌, refl, sym, ◌∙◌, ap, arith, List, [], ◌∷◌, length,
  get_elem?, set, Result, ok, err, Returns, returns, mono, replicate, length-replicate, le→leb,
  lt→ltb, ◌>>=◌, length-set, ne→not-==, get_elem?-set_self, get_elem?-set_ne,
}
use mylittle_code_house.Vector.{
  Vector, capacity, empty, reserve, insert, push_back, push_all, push_times, filled, from_range,
  shift_up, grow, deref, object,
}
use mylittle_code_house.Vector.Cells.{elem?, IsValid, reserve-elem?, elem?-inside}

module _ {A : Type 0} (junk : A) where
  -- `push_back` into free storage writes the next cell.
  push_back-free :
      (v : Vector A) (x : A)
      → v.size < capacity v
      → push_back junk v (object x) ≡ ok (record v { buf = set v.buf v.size x; size = v.size + 1 })
  unfolding push_back insert grow shift_up deref
  push_back-free v x free =
      let none_moved : v.size - v.size ≡ 0 = omega arith in
      rw
        (
          le→leb v.size v.size (omega arith),
          ne→not-== v.size (capacity v) (omega arith),
          none_moved,
          lt→ltb v.size (capacity v) free,
        )
        refl

  -- What pushing the elements `xs` makes of a vector.
  abbrev Pushed : Vector A → List A → Vector A → Type 0
  Pushed v xs v' =
      IsValid v'
      × (v'.size ≡ v.size + length xs)
      × ((i : ℕ) → i < v.size → elem? v' i ≡ elem? v i)
      × ((k : ℕ) → k < length xs → elem? v' (v.size + k) ≡ get_elem? xs k)

  next_cell :
      (v : Vector A) (x : A) (i : ℕ)
      → v.size < capacity v
      → i < v.size
      → elem? (record v { buf = set v.buf v.size x; size = v.size + 1 }) i ≡ elem? v i
  next_cell v x i free h =
      elem?-inside (record v { buf = set v.buf v.size x; size = v.size + 1 }) i (omega arith)
      ∙ get_elem?-set_ne v.buf v.size i x (omega arith)
      ∙ sym (elem?-inside v i h)

  push_all-Pushed :
      (xs : List A) (v : Vector A)
      → v.size + length xs ≤ capacity v
      → Returns (Pushed v xs) (push_all junk v xs)
  unfolding push_all
  push_all-Pushed [] v room =
      returns (omega arith, omega arith, λ i h. refl, λ k h. absurd (omega arith))
  push_all-Pushed (x ∷ xs) v room =
      let free : v.size < capacity v = omega arith in
      let v' : Vector A = record v { buf = set v.buf v.size x; size = v.size + 1 } in
      rw (push_back-free v x free) (
        mono (push_all-Pushed xs v' (omega (arith, length-set v.buf v.size x))) λ w p.
          (p.0, omega (arith, p.1), λ i h. p.2 i (omega arith) ∙ next_cell v x i free h, cells w p))
    where
      cells :
          (w : Vector A)
          → Pushed (record v { buf = set v.buf v.size x; size = v.size + 1 }) xs w
          → (k : ℕ) → k < length (x ∷ xs)
          → elem? w (v.size + k) ≡ get_elem? (x ∷ xs) k
      cells w p zero h =
          let v' : Vector A = record v { buf = set v.buf v.size x; size = v.size + 1 } in
          let e : v.size + 0 ≡ v.size = omega arith in
          rw e (
            p.2 v.size (omega arith)
            ∙ elem?-inside v' v.size (omega arith)
            ∙ get_elem?-set_self v.buf v.size x (omega arith))
      cells w p (suc k) h =
          let e : v.size + suc k ≡ v.size + 1 + k = omega arith in rw e (p.3 k (omega arith))

  -- The constructor from a range ends with a valid vector that holds exactly the elements of the
  -- range, in their order.
  pub from_range-elem? :
      (xs : List A)
      → Returns
          (λ (v : Vector A).
            IsValid v
            × (v.size ≡ length xs)
            × ((k : ℕ) → k < length xs → elem? v k ≡ get_elem? xs k))
          (from_range junk xs)
  unfolding from_range empty
  from_range-elem? xs =
      let start : Vector A = record { buf = []; size = 0 } in
      let r = reserve-elem? junk start (length xs) (omega arith) in
      mono (push_all-Pushed xs (reserve junk start (length xs)) (omega (arith, r.1, r.2))) λ v p. (
        p.0,
        omega (arith, p.1, r.1),
        λ k h.
            let e : (reserve junk start (length xs)).size + k ≡ k = omega (arith, r.1) in
            ap (elem? v) (sym e) ∙ p.3 k h,
      )

  same_after :
      {f g : Vector A → Result (Vector A)} (r : Result (Vector A))
      → ((v : Vector A) → f v ≡ g v)
      → (r >>= f) ≡ (r >>= g)
  same_after (ok v) h = h v
  same_after (err e) h = refl

  push_times-push_all :
      (n : ℕ) (v : Vector A) (x : A) → push_times junk n v x ≡ push_all junk v (replicate n x)
  unfolding push_times push_all
  push_times-push_all zero v x = refl
  push_times-push_all (suc n) v x =
      same_after (push_back junk v (object x)) λ v'. push_times-push_all n v' x

  -- The constructor of n copies of a value ends exactly as the constructor from a range that
  -- holds the value n times.
  pub filled-from_range : (n : ℕ) (x : A) → filled junk n x ≡ from_range junk (replicate n x)
  unfolding filled from_range empty
  filled-from_range n x = rw (length-replicate n x) (push_times-push_all n _ x)
