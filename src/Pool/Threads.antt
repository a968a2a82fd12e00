-- ===== src/Pool/Threads.antt =====
-- The threads of first-proxylab-handout/proxy.c over the buffer of descriptors: thread 0 is `main`,
-- which accepts, the others run `proxy_thread`.
pub mod Order
pub mod Hands
pub mod Connections
pub mod Progress
use systems_programming.Base.{
  ℕ, ◌+◌, ◌/◌, ◌<◌, ◌≡◌, ltb, if◌then◌else◌, Bool, not, Option, none, some, List, [], ◌∷◌, ◌++◌,
}
use systems_programming.Base.Family.{update}
use systems_programming.Sbuf.{Sbuf}
use systems_programming.Logbuf.{Logbuf, logbuf_init}
use systems_programming.Cache.{Cache, cache_init, max_cache_size}
use systems_programming.Sbuf.Threads.{
  Pc, call_insert, call_remove, post_slots, Move, stored, taken, System, start_system,
}

abbrev pub nthreads : ℕ
nthreads = 16

abbrev pub sbufsize : ℕ
sbufsize = 32

abbrev pub logbufsize : ℕ
logbufsize = 64

-- What `accept` returns; `none` is -1.
abbrev pub Fd : Type 0
Fd = Option ℕ

-- The threads and their buffer, the descriptor that `read_write` of each thread works on, and the
-- descriptors that `accept` and `read_write` returned so far, in order.
pub record Workers : Type 0 where
  pub system : System Fd
  pub serving : ℕ → Option Fd
  pub accepted : List Fd
  pub served : List Fd

-- Only `main` calls `sbuf_insert`; another thread calls `sbuf_remove` when its `read_write` is over.
abbrev pub May : {m m' : Sbuf Fd} {p p' : Pc Fd} → ℕ → Option Fd → Move m p m' p' → Type 0
May i hand (call_insert _) = i ≡ 0
May i hand call_remove = (0 < i) × (hand ≡ none)
May i hand _ = Unit

-- What `accept` returned, where `main` goes on with it.
abbrev pub called : {m m' : Sbuf Fd} {p p' : Pc Fd} → Move m p m' p' → List Fd
called (call_insert item) = item ∷ []
called _ = []

-- What a thread works on: what `sbuf_remove` returned.
abbrev pub hand_after : {m m' : Sbuf Fd} {p p' : Pc Fd} → Option Fd → Move m p m' p' → Option Fd
hand_after hand (post_slots {item}) = some item
hand_after hand _ = hand

-- One of the first `k` threads makes a step on the buffer, or comes back from `read_write`.
pub data Step (k : ℕ) (s : Workers) : Workers → Type 0 where
  move :
      (i : ℕ) {m : Sbuf Fd} {p : Pc Fd}
      → i < k
      → (mv : Move s.system.mem (s.system.pc i) m p) → May i (s.serving i) mv
      → Step k s (record {
        system = record {
          mem = m;
          pc = update s.system.pc i p;
          puts = s.system.puts ++ stored mv;
          gets = s.system.gets ++ taken mv;
        };
        serving = update s.serving i (hand_after (s.serving i) mv);
        accepted = s.accepted ++ called mv;
        served = s.served;
      })
  finish :
      (i : ℕ) (fd : Fd)
      → i < k
      → s.serving i ≡ some fd
      → Step k s (record s { serving = update s.serving i none; served = s.served ++ (fd ∷ []) })

abbrev pub start_workers : ℕ → Workers
start_workers n = record {
  system = start_system (some 0) n;
  serving = λ _. none;
  accepted = [];
  served = [];
}

pub data Reach (k : ℕ) (w : Workers) : Workers → Type 0 where
  start : Reach k w w
  later : {s t : Workers} → Reach k w s → Step k s t → Reach k w t

-- What the calls that set the socket up return: a descriptor, or whether they succeed.
pub record Setup : Type 0 where
  pub socket : Fd
  pub binds : Bool
  pub listens : Bool

-- How `main` begins: in `exit`, with the descriptors that it closed, or in its loop, with the
-- listening descriptor and the threads.
pub data Begun : Type 0 where
  exited : List ℕ → Begun
  serving : ℕ → Cache → Logbuf → ℕ → Workers → Begun

unfoldable pub main : ℕ → Setup → Begun
main argc setup = if ltb argc 2 then exited [] else elim setup.socket [
  | none ↦ exited []
  | some listenfd ↦
      if not setup.binds
      then exited (listenfd ∷ [])
      else if not setup.listens
      then exited (listenfd ∷ [])
      else serving listenfd (cache_init (max_cache_size / 100)) (logbuf_init logbufsize)
          (1 + nthreads) (start_workers sbufsize)
]
