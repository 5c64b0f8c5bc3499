-- ===== src/ProcessPool/Dispatch.antt =====
-- What the children make of the parent's commands.
use mylittle_code_house.Base.{
  ℕ, zero, suc, ◌%◌, ◌<◌, ◌≡◌, refl, ◌∙◌, arith, Bool, true, false, some, List, [], ◌∷◌, ◌++◌,
  append_assoc, append-nil, if◌then◌else◌, Bool-cases, inl, inr, length, replicate, ok, All, ◌==◌,
}
use mylittle_code_house.Base.Int.{negsuc}
use mylittle_code_house.ProcessPool.{
  read_my_sql, execule_url, cal, save, parent_rounds, Task, Tables, loaded, handler_size, Pipe,
  to_bytes, from_bytes, read_word, wait_command, Event, ran, illegal, handle, child_round,
  child_rounds, send_and_wakeup, parent_round,
}

-- The events of legal commands: each runs its task.
abbrev pub Runs : List ℕ → List Event → Type 0
Runs [] [] = Unit
Runs (c ∷ cs) (ran f ∷ es) = (loaded.desc c ≡ some f) × Runs cs es
Runs _ _ = ⊥

-- The pipe after the commands have been sent one by one.
abbrev pub send_all : Pipe → List ℕ → Pipe
send_all p [] = p
send_all p (c ∷ cs) = send_all (send_and_wakeup p c) cs

from_bytes-to_bytes : (c : ℕ) → c < 4294967296 → from_bytes (to_bytes c) ≡ c
unfolding to_bytes
from_bytes-to_bytes c h = omega arith

-- Once the write end of its pipe is closed and the pipe is empty, a child goes through any number
-- of rounds, each of which reports the illegal command -1.
pub child_rounds_after_end :
    (t : Tables) (k : ℕ)
    → child_rounds k t (record { bytes = []; is_open = false })
      ≡ ok (replicate k (illegal (negsuc 0)), record { bytes = []; is_open = false })
unfolding child_rounds child_round wait_command read_word handle
child_rounds_after_end t zero = refl
child_rounds_after_end t (suc k) = ground (arith, child_rounds_after_end t k)

-- A child with a legal command in its pipe.
first_round :
    (c : ℕ) (rest : List ℕ) (b : Bool)
    → c < 4
    → (f : Task) × (loaded.desc c ≡ some f)
      × (child_round loaded (record { bytes = to_bytes c ++ rest; is_open = b })
          ≡ ok (ran f, record { bytes = rest; is_open = b }))
unfolding child_round wait_command read_word handle handler_size loaded to_bytes
first_round zero rest b h = (read_my_sql, refl, ground arith)
first_round (suc zero) rest b h = (execule_url, refl, ground arith)
first_round (suc (suc zero)) rest b h = (cal, refl, ground arith)
first_round (suc (suc (suc zero))) rest b h = (save, refl, ground arith)
first_round (suc (suc (suc (suc c)))) rest b h = absurd (omega arith)

encode : List ℕ → List ℕ
encode [] = []
encode (c ∷ cs) = to_bytes c ++ encode cs

send_all-encode :
    (cs bytes : List ℕ) (b : Bool)
    → send_all (record { bytes = bytes; is_open = b }) cs
      ≡ record { bytes = bytes ++ encode cs; is_open = b }
unfolding send_and_wakeup encode
send_all-encode [] bytes b = rw append-nil
send_all-encode (c ∷ cs) bytes b = send_all-encode cs (bytes ++ to_bytes c) b ∙ rw append_assoc

rounds-encode :
    (cs : List ℕ) (b : Bool)
    → All (λ c. c < 4) cs
    → (es : List Event) × Runs cs es
      × (child_rounds (length cs) loaded (record { bytes = encode cs; is_open = b })
          ≡ ok (es, record { bytes = []; is_open = b }))
unfolding child_rounds encode
rounds-encode [] b h = ([], tt, refl)
rounds-encode (c ∷ cs) b h =
    let (f, named, first) = first_round c (encode cs) b h.0 in
    let (es, runs, later) = rounds-encode cs b h.1 in
    (ran f ∷ es, (named, runs), rw (first, later) refl)

-- The commands that the parent's choices give to child `i`.
abbrev pub sent : ℕ → ℕ → List (ℕ × ℕ) → List ℕ
sent slots i [] = []
sent slots i ((first, second) ∷ rest) =
    if second % slots == i then first % 4 ∷ sent slots i rest else sent slots i rest

sent-legal : (slots i : ℕ) (choices : List (ℕ × ℕ)) → All (λ c. c < 4) (sent slots i choices)
sent-legal slots i [] = tt
sent-legal slots i ((first, second) ∷ rest) = elim (Bool-cases (second % slots == i)) [
  | inl mine ↦ rw mine (omega arith, sent-legal slots i rest)
  | inr other ↦ rw other (sent-legal slots i rest)
]

parent_rounds-send_all :
    (slots i : ℕ) (choices : List (ℕ × ℕ)) (pipes : ℕ → Pipe)
    → parent_rounds loaded slots choices pipes i ≡ send_all (pipes i) (sent slots i choices)
unfolding parent_rounds parent_round handler_size loaded
parent_rounds-send_all slots i [] pipes = refl
parent_rounds-send_all slots i ((first, second) ∷ rest) pipes =
    elim (Bool-cases (second % slots == i)) [
      | inl mine ↦ parent_rounds-send_all slots i rest _ ∙ ground arith
      | inr other ↦ parent_rounds-send_all slots i rest _ ∙ ground arith
    ]

-- After any rounds of the parent with any random numbers, each child, reading as many commands as
-- were sent to its slot, runs exactly the tasks sent, in their order, and leaves its pipe empty
-- and open.
pub children_run_what_was_sent :
    (slots i : ℕ) (choices : List (ℕ × ℕ))
    → (es : List Event) × Runs (sent slots i choices) es
      × (child_rounds
            (length (sent slots i choices))
            loaded
            (parent_rounds loaded slots choices (λ _. record { bytes = []; is_open = true }) i)
          ≡ ok (es, record { bytes = []; is_open = true }))
children_run_what_was_sent slots i choices =
    let (es, runs, done) = rounds-encode (sent slots i choices) true (sent-legal slots i choices) in
    (
      es,
      runs,
      rw (parent_rounds-send_all slots i choices, send_all-encode (sent slots i choices) [] true)
          done,
    )
