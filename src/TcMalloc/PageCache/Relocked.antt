-- ===== src/TcMalloc/PageCache/Relocked.antt =====
-- What `NewSpan` gives while the other layers hold their locks.
use mylittle_code_house.Base.{ℕ, Bool, List}
use mylittle_code_house.TcMalloc.FreeList.{FreeList}
use mylittle_code_house.TcMalloc.State.{State, Central}
use mylittle_code_house.TcMalloc.PageCache.Assign.{Ready}
use mylittle_code_house.TcMalloc.PageCache.Provide.{Source, waiting, longer, system, whole}

-- The locks and the threads' lists play no part in it.
abbrev pub relocked : State → (ℕ → ℕ → FreeList) → Central → Bool → State
relocked s f c b = record s { caches = f; central = c; pages = record (s.pages) { locked = b } }

Ready-relocked :
    (s : State) (f : ℕ → ℕ → FreeList) (c : Central) (b : Bool) → Ready s → Ready (relocked s f c b)
Ready-relocked s f c b v = record {
  unused = v.unused;
  enough = v.enough;
  somewhere = v.somewhere;
  inside = v.inside;
}

pub Source-relocked :
    (s : State) (f : ℕ → ℕ → FreeList) (c : Central) (b : Bool) (n : ℕ) (ws : List ℕ)
    (x id count : ℕ)
    → Source s n ws x id count
    → Source (relocked s f c b) n ws x id count
Source-relocked s f c b n ws _ _ _ (waiting x xs held long room far own) =
    waiting x xs held long room far own
Source-relocked s f c b n ws _ _ _ (longer m y xs zs clear v far own) =
    longer m y xs zs clear
      (record {
        low = v.low;
        shorter = v.shorter;
        high = v.high;
        longer = v.longer;
        rest = v.rest;
        apart = v.apart;
        size = v.size;
        room = v.room;
        ready = Ready-relocked s f c b v.ready;
        unused = v.unused;
        unused_rest = v.unused_rest;
      })
      far own
Source-relocked s f c b n ws _ _ _ (system zs v given far own own') =
    system zs
      (record {
        low = v.low;
        short = v.short;
        clear = v.clear;
        rest = v.rest;
        heads = v.heads;
        apart = v.apart;
        ready = Ready-relocked s f c b v.ready;
        twice = v.twice;
        unused = v.unused;
        unused_next = v.unused_next;
        unused_rest = v.unused_rest;
        unused_rest_next = v.unused_rest_next;
        top = v.top;
        room = v.room;
      })
      given far own own'
Source-relocked s f c b n ws _ _ _ (whole e clear ne ready top room given far own) =
    whole e clear ne (Ready-relocked s f c b ready) top room given far own
