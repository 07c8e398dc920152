-- ===== src/Server.antt =====
-- `main` of src/server.c: a round of the loop that accepts connections, and the processes that it
-- forks, which share the memory of src/common/ipc.c.
pub mod Sharing
pub mod Sound
pub mod Counting
pub mod Apart
pub mod Surviving
pub mod Losing
pub mod Main
pub mod Signals
pub mod Stopping
pub mod Reaping
pub mod Restarting
use tcg_final_project.Prelude.{
  ℕ, List, [], ◌∷◌, ◌++◌, Bool, true, false, not, Option, none, some, get_elem?, set, if◌then◌else◌,
}
use tcg_final_project.Ipc.{Entry, Stats, ipc_stats_inc_conn, ipc_store_init}
use tcg_final_project.Session.World.{Libc, World, Received}
use tcg_final_project.Session.Serve.{step, start}

-- A child: what the system returns to it, and its locals. The shared memory that its record has is
-- the one it saw last.
pub record Process : Type 0 where
  pub libc : Libc
  pub world : World

-- The shared memory, and the children in the order of their connections.
pub record System : Type 0 where
  pub store : List Entry
  pub stats : Stats
  pub procs : List Process

-- A child at the shared memory as it is now.
abbrev pub attach : System → World → World
attach s w = record w { store = s.store; stats = s.stats }

-- What a round of the loop meets: no connection, no child, a child whose TLS handshake fails, or a
-- child that runs a session.
pub data Accepted : Type 0 where
  refused no_fork no_handshake : Accepted
  joined : Libc → Accepted

unfoldable pub accept_round : Accepted → System → System
accept_round (joined c) s =
    let stats = ipc_stats_inc_conn s.stats in
    record s {
      stats = stats;
      procs = s.procs ++ record { libc = c; world = start s.store stats } ∷ [];
    }
accept_round _ s = s

-- The `i`-th child takes what `proto_recv` returns to it.
unfoldable pub deliver : ℕ → Process → Received → System → System
deliver i p r s =
    let w = step p.libc (attach s p.world) r in
    record { store = w.store; stats = w.stats; procs = set s.procs i (record p { world = w }) }

unfoldable pub receive : ℕ → Received → System → System
receive i r s = elim (get_elem? s.procs i) [ none ↦ s | some p ↦ deliver i p r s ]

pub data Happening : Type 0 where
  accepts : Accepted → Happening
  receives : ℕ → Received → Happening

unfoldable pub happen : System → Happening → System
happen s (accepts a) = accept_round a s
happen s (receives i r) = receive i r s

-- The accept loop and the children's loops, in any order.
unfoldable pub run_server : System → List Happening → System
run_server s [] = s
run_server s (h ∷ hs) = run_server (happen s h) hs

-- The shared memory that `ipc_stats_init(1)` and `ipc_store_init(1)` create.
unfoldable pub created : System
created = record {
  store = ipc_store_init;
  stats = record { total_connections = 0; total_packets = 0 };
  procs = [];
}
