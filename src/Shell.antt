-- ===== src/Shell.antt =====
-- Linux下自建一个简易shell程序/自己创建一个简易shell程.c: what a line of input makes the shell do. A
-- text is a list of byte values, without the null byte at its end.
pub mod Words
mod Tests
use mylittle_code_house.Base.{
  ℕ, zero, suc, ◌+◌, ◌-◌, Bool, true, false, ◌&&◌, Option, none, some, List, [], ◌∷◌, set,
  get_elem?, Result, ok, err, segfault, out_of_bounds, ◌>>=◌, ◌==◌, if◌then◌else◌,
}

-- `SIZE`, the places of `g_argv`, and `SEP`
abbrev pub size : ℕ
size = 32

abbrev pub sep : ℕ
sep = b' '

-- `g_argv`: a place is a token or the null pointer.
abbrev pub Argv : Type 0
Argv = List (Option (List ℕ))

-- `strtok(s, SEP)` as documented: the token behind any separators, up to the next one, and the
-- text behind that one, where the next call goes on.
unfoldable pub token : List ℕ → List ℕ × List ℕ
token [] = ([], [])
token (c ∷ cs) = let (t, rest) = token cs in if c == sep then ([], cs) else (c ∷ t, rest)

unfoldable pub strtok : List ℕ → Option (List ℕ × List ℕ)
strtok [] = none
strtok (c ∷ cs) = let later = strtok cs in if c == sep then later else some (token (c ∷ cs))

-- `cmd_line[strlen(cmd_line)-1]='\0'`
unfoldable pub chop : List ℕ → Result (List ℕ)
chop [] = err out_of_bounds
chop (c ∷ []) = ok []
chop (c ∷ d ∷ cs) = do rest ← chop (d ∷ cs); ok (c ∷ rest)

-- `while(g_argv[index++]=strtok(NULL,SEP))`, with `k` places left from `index` on.
unfoldable pub fill : ℕ → Argv → ℕ → List ℕ → Result Argv
fill zero argv index rest = err out_of_bounds
fill (suc k) argv index rest = elim (strtok rest) [
  | none ↦ ok (set argv index none)
  | some (t, rest') ↦ fill k (set argv index (some t)) (index + 1) rest'
]

unfoldable pub parse : Argv → List ℕ → Result Argv
parse argv line = elim (strtok line) [
  | none ↦ fill (size - 1) (set argv 0 none) 1 []
  | some (t, rest) ↦ fill (size - 1) (set argv 0 (some t)) 1 rest
]

-- `strcmp(s, t) == 0`
unfoldable pub same : List ℕ → List ℕ → Bool
same [] [] = true
same [] (d ∷ ds) = false
same (c ∷ cs) [] = false
same (c ∷ cs) (d ∷ ds) = (c == d) && same cs ds

pub data Action : Type 0 where
  nothing : Action
  chdir : List ℕ → Action
  exec : List (List ℕ) → Action

-- What `execvp` reads: the tokens up to the null pointer.
unfoldable pub args : Argv → List (List ℕ)
args [] = []
args (none ∷ rest) = []
args (some t ∷ rest) = t ∷ args rest

-- The built-in `cd`, or a command for a child process; `strcmp` of the null pointer faults.
unfoldable pub command : Argv → Result Action
command [] = err out_of_bounds
command (none ∷ rest) = err segfault
command (some t ∷ rest) =
    if same t (b'c' ∷ b'd' ∷ [])
    then (elim (get_elem? rest 0) [
      | none ↦ err out_of_bounds
      | some none ↦ ok nothing
      | some (some dir) ↦ ok (chdir dir)
    ])
    else ok (exec (args (some t ∷ rest)))

-- One round of the shell for a line that `fgets` has read.
unfoldable pub round : Argv → List ℕ → Result (Argv × Action)
round argv line = do
  text ← chop line
  argv' ← parse argv text
  action ← command argv'
  ok (argv', action)
