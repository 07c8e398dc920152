-- ===== src/Server/Main.antt =====
-- `main` of src/server.c as a process: its start, its signals, its accept loop and its end.
use tcg_final_project.Prelude.{
  ℕ, ◌+◌, List, [], ◌∷◌, Bool, true, false, not, ◌||◌, Option, none, some, if◌then◌else◌,
}
use tcg_final_project.Server.{System, Accepted, accept_round, created}

-- The process: whether it lives and what it has returned; the handlers that are set; `g_stop`; the
-- children that have ended and wait for a `waitpid`; what it has opened, and the names of shared
-- memory that there are; and the system of its children.
pub record Main : Type 0 where
  pub alive : Bool
  pub result : Option ℕ
  pub int_set : Bool
  pub term_set : Bool
  pub chld_set : Bool
  pub stop : Bool
  pub zombies : ℕ
  pub ctx : Bool
  pub stats_name : Bool
  pub store_name : Bool
  pub listener : Bool
  pub system : System

-- A signal; behind a SIGCHLD is the number of children that have ended since the last one.
pub data Signal : Type 0 where
  sigint sigterm : Signal
  sigchld : ℕ → Signal

-- What `main` gets of a shared memory: no name, a name of a memory that it cannot use, or the memory.
pub data Opened : Type 0 where
  no_name unusable usable : Opened

abbrev has_name : Opened → Bool
has_name no_name = false
has_name unusable = true
has_name usable = true

abbrev is_usable : Opened → Bool
is_usable usable = true
is_usable _ = false

-- Behind the three calls of `signal`.
abbrev pub armed : Main
armed = record {
  alive = true;
  result = none;
  int_set = true;
  term_set = true;
  chld_set = true;
  stop = false;
  zombies = 0;
  ctx = false;
  stats_name = false;
  store_name = false;
  listener = false;
  system = created;
}

abbrev returns : ℕ → Main → Main
returns rc m = record m { result = some rc }

-- The start of `main`, up to its loop.
unfoldable pub start_up : Bool → Opened → Opened → Bool → Main
start_up ctx stats store lfd =
    let with_ctx = record armed { ctx = true } in
    let with_stats = record with_ctx { stats_name = has_name stats } in
    let with_store = record with_stats { store_name = has_name store } in
    if not ctx
    then returns 1 armed
    else if not (is_usable stats)
    then returns 1 with_stats
    else if not (is_usable store)
    then returns 1 with_store
    else if not lfd
    then returns 1 with_store
    else record with_store { listener = true }

abbrev is_some : Option ℕ → Bool
is_some none = false
is_some (some _) = true

-- The process runs no more: a signal has killed it, or it has returned.
abbrev pub is_over : Main → Bool
is_over m = not m.alive || is_some m.result

-- Whether `signal` sets a handler for one delivery alone, is a parameter: with -std=c11, as Makefile
-- has it, glibc's does, and without it not.
module _ (one_shot : Bool) where
  -- A signal that the process gets: the handler that is set, or the default action, which kills the
  -- process for SIGINT and SIGTERM, and does nothing for SIGCHLD.
  unfoldable pub on_signal : Signal → Main → Main
  on_signal sigint m =
      if is_over m
      then m
      else if m.int_set
      then record m { stop = true; int_set = not one_shot }
      else record m { alive = false }
  on_signal sigterm m =
      if is_over m
      then m
      else if m.term_set
      then record m { stop = true; term_set = not one_shot }
      else record m { alive = false }
  on_signal (sigchld ended) m =
      if is_over m
      then m
      else if m.chld_set
      then record m { zombies = 0; chld_set = not one_shot }
      else record m { zombies = m.zombies + ended }

  unfoldable pub on_signals : List Signal → Main → Main
  on_signals [] m = m
  on_signals (s ∷ ss) m = on_signals ss (on_signal s m)

  -- `while (!g_stop)`: for each round what `accept` and `fork` bring, and the signals that come behind
  -- that and before the next test of `g_stop`.
  unfoldable pub accept_loop : List (Accepted × List Signal) → Main → Main
  accept_loop [] m = m
  accept_loop ((a, signals) ∷ rs) m =
      if is_over m || m.stop
      then m
      else accept_loop rs (on_signals signals (record m { system = accept_round a m.system }))

  -- What follows the loop, when it has ended: the signals that come before the memories are unlinked,
  -- and then `close`, `SSL_CTX_free`, the two calls of `shm_unlink`, and the result.
  unfoldable pub shut_down : List Signal → Main → Main
  shut_down late m =
      let m' = on_signals late m in
      if not m.stop
      then m
      else if is_over m'
      then m'
      else returns 0
          (record m' { listener = false; ctx = false; stats_name = false; store_name = false })

  -- `main`, with the rounds that its loop has had so far.
  unfoldable pub server_main :
      Bool → Opened → Opened → Bool → List (Accepted × List Signal) → List Signal → Main
  server_main ctx stats store lfd rounds late =
      shut_down late (accept_loop rounds (start_up ctx stats store lfd))
