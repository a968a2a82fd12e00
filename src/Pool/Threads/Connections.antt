-- ===== src/Pool/Threads/Connections.antt =====
-- What `main` of first-proxylab-handout/proxy.c and its threads do with the connections.
use systems_programming.Base.{
  ℕ, ◌+◌, ◌≤◌, ◌<◌, ◌≡◌, ◌==◌, subst, List, arith, length, take, none, some, Bool, true, false,
  if◌then◌else◌,
}
use systems_programming.Base.Family.{tally, total}
use systems_programming.Sbuf.{int_max}
use systems_programming.Cache.{Cache}
use systems_programming.Logbuf.{Logbuf}
use systems_programming.Pool.Threads.{
  Fd, Workers, start_workers, Reach, Setup, main, serving, sbufsize,
}
use systems_programming.Pool.Threads.Order.{taken_in_order}
use systems_programming.Pool.Threads.Hands.{in_call, in_hand, Reach-InHands}

abbrev pub same : Fd → Fd → Bool
same none none = true
same (some a) (some b) = a == b
same _ _ = false

abbrev pub is : Fd → Fd → ℕ
is fd other = if same fd other then 1 else 0

-- How often a descriptor stands in a list. The kernel may give the same one again.
abbrev pub occurrences : Fd → List Fd → ℕ
occurrences fd = total (is fd)

-- The connections in a state with `k` threads and a buffer of `n`.
pub record Handed (k n : ℕ) (s : Workers) : Type 0 where
  pub in_order : s.system.gets ≡ take (length s.system.gets) s.accepted
  pub few_wait : length s.accepted ≤ length s.system.gets + n + 1
  pub one_thread :
      (fd : Fd)
      → occurrences fd s.system.gets
        ≡ tally (in_call (is fd)) k s.system.pc
          + tally (in_hand (is fd)) k s.serving
          + occurrences fd s.served

Reach-Handed :
    {k n : ℕ} {s : Workers}
    → 0 < n
    → Reach k (start_workers n) s
    → length s.accepted < int_max
    → Handed k n s
Reach-Handed {n} h r few =
    let (in_order, few_wait) = taken_in_order h r few in
    record {
      in_order = in_order;
      few_wait = few_wait;
      one_thread = λ fd. (Reach-InHands n r).taken_out (is fd);
    }

pub main-serving :
    (argc : ℕ) (setup : Setup) (listenfd k : ℕ) (cache : Cache) (log : Logbuf) (w : Workers)
    → main argc setup ≡ serving listenfd cache log k w
    → w ≡ start_workers sbufsize
unfolding main
main-serving argc setup listenfd k cache log w e = ground arith

-- In every state that the threads of the proxy reach once `main` has set them up, with fewer connections
-- accepted than the largest `int`: `sbuf_remove` returns the descriptors in the order of `accept`; at most
-- one more than `SBUFSIZE` are still to be taken out; and of those that were, each is with a single
-- thread or has been served, as often as it was taken out.
pub main-Handed :
    (argc : ℕ) (setup : Setup) (listenfd k : ℕ) (cache : Cache) (log : Logbuf) (w s : Workers)
    → main argc setup ≡ serving listenfd cache log k w
    → Reach k w s
    → length s.accepted < int_max
    → Handed k sbufsize s
main-Handed argc setup listenfd k cache log w s e r few =
    Reach-Handed (omega arith)
      (subst (λ u. Reach k u s) (main-serving argc setup listenfd k cache log w e) r) few
