-- ===== src/TcMalloc/PageCache/Divide.antt =====
-- The pages of one span divided between two.
use mylittle_code_house.Base.{ℕ, ◌≡◌, ◌≢◌, refl, sym, ap, ◌∙◌, Returns, returns, null, add64, sub64}
use mylittle_code_house.TcMalloc.SpanList.{Span}
use mylittle_code_house.TcMalloc.State.{State, bind_state}
use mylittle_code_house.TcMalloc.PageCache.{divide}
use mylittle_code_house.TcMalloc.PageCache.Assign.{modify-Assigned}
use mylittle_code_house.TcMalloc.PageCache.Mapping.{load-ok}

abbrev pub with_n : ℕ → Span → Span
with_n n t = record t { n = n }

abbrev pub with_id : ℕ → Span → Span
with_id id t = record t { id = id }

abbrev pub behind : ℕ → Span → Span
behind n t = record t { n = sub64 t.n n; id = add64 t.id n }

-- `q` has the first `n` pages of `x`, and `x` the others.
pub record Divided (s : State) (x q n : ℕ) (r : Span × State) : Type 0 where
  pub whole : r.0 ≡ s.spans x
  pub front : r.1.spans q ≡ with_id (s.spans x).id (with_n n (s.spans q))
  pub back : r.1.spans x ≡ behind n (s.spans x)
  pub others : (y : ℕ) → y ≢ q → y ≢ x → r.1.spans y ≡ s.spans y
  pub pages : r.1.pages ≡ s.pages
  pub words : r.1.words ≡ s.words
  pub os : r.1.os ≡ s.os
  pub central : r.1.central ≡ s.central
  pub caches : r.1.caches ≡ s.caches

pub divide-Divided :
    (s : State) (x q n : ℕ)
    → x ≢ null
    → q ≢ null
    → q ≢ x
    → Returns (Divided s x q n) (divide x q n s)
unfolding divide
divide-Divided s x q n nex neq apart =
    let apart' : x ≢ q = λ e. apart (sym e) in
    bind_state _ (modify-Assigned s q (with_n n) neq) λ r1 a1.
      let at = a1.others x apart' in
      rw (load-ok r1.1 x nex, at)
        (bind_state _ (modify-Assigned r1.1 q (with_id (s.spans x).id) neq) λ r2 a2.
          bind_state _
            (modify-Assigned r2.1 x
              (λ t. record t { n = sub64 (s.spans x).n n; id = add64 (s.spans x).id n }) nex)
            λ r3 a3. returns (record {
              whole = refl;
              front = a3.others q apart ∙ a2.at ∙ ap (with_id (s.spans x).id) a1.at;
              back =
                  a3.at
                  ∙ ap
                      (λ (t : Span).
                        with_n (sub64 (s.spans x).n n) (with_id (add64 (s.spans x).id n) t))
                      (a2.others x apart' ∙ at);
              others = λ y h g. a3.others y g ∙ a2.others y h ∙ a1.others y h;
              pages = a3.pages ∙ a2.pages ∙ a1.pages;
              words = a3.words ∙ a2.words ∙ a1.words;
              os = a3.os ∙ a2.os ∙ a1.os;
              central = a3.central ∙ a2.central ∙ a1.central;
              caches = a3.caches ∙ a2.caches ∙ a1.caches;
            }))
