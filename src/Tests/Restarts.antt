-- ===== src/Tests/Restarts.antt =====
-- Two children on one session, the end of the server of src/server.c, and a second start of it.
use tcg_final_project.Prelude.{ℕ, true, ◌≡◌, refl, List, [], ◌∷◌, some, none, false, ◌++◌, drop}
use tcg_final_project.Ipc.Laws.{game_of}
use tcg_final_project.Session.World.{World}
use tcg_final_project.Session.World
use tcg_final_project.Session.Handshake.{greet}
use tcg_final_project.Session.Serve.{start}
use tcg_final_project.Session.Resumption.{resume_req}
use tcg_final_project.Server.{
  Process, System, Happening, Accepted, refused, joined, deliver, accepts, receives, run_server,
  created,
}
use tcg_final_project.Server.Losing.{deliver-loses}
use tcg_final_project.Server.Main.{
  Signal, sigint, sigterm, sigchld, usable, start_up, accept_loop, server_main,
}
use tcg_final_project.Server.Signals.{ints, terms, asks, calm, survives}
use tcg_final_project.Server.Stopping.{Ends, accept_rounds, server_main-stops}
use tcg_final_project.Server.Reaping.{ended_children, all_signals, total, accept_loop-zombies}
use tcg_final_project.Server.Restarting.{
  Setting, start_beside, has_login, reaches_table, start_beside-loses,
}
use tcg_final_project.Tests.Sessions.{logged_in, logged_in-running, logged_in-IsServing}
use tcg_final_project.Proto.Opcode.{op_play_card}
use tcg_final_project.Tests.Sessions.{libc}

-- Two children that run the session that has just begun.
abbrev twin : Process
twin = record { libc = libc; world = logged_in }

abbrev one_session : System
one_session = record { store = logged_in.store; stats = logged_in.stats; procs = twin ∷ twin ∷ [] }

abbrev plays : ℕ → World.Received
plays i = World.packet op_play_card (i ∷ [])

deliver-loses_example :
    game_of (deliver 1 twin (plays 2) (deliver 0 twin (plays 1) one_session)).store logged_in.my_sid
    ≡ game_of (deliver 1 twin (plays 2) one_session).store logged_in.my_sid
deliver-loses_example =
    deliver-loses 0 twin (plays 1) one_session 1 twin 2 logged_in-IsServing.good logged_in-IsServing
      logged_in-running.2

-- Two children end in two rounds; then a SIGINT comes, and a second one behind the loop.
abbrev calm_rounds : List (Accepted × List Signal)
calm_rounds = (joined libc, sigchld 1 ∷ []) ∷ (refused, sigchld 2 ∷ []) ∷ []

abbrev asked_twice : List Signal
asked_twice = sigint ∷ sigint ∷ []

server_main-stops_example :
    Ends
      (survives true asked_twice)
      (accept_rounds (calm_rounds ++ (refused, sigint ∷ []) ∷ []) created)
      (server_main true true usable usable true
        (calm_rounds ++ (refused, sigint ∷ []) ∷ calm_rounds)
        (sigint ∷ []))
unfolding calm asks ints terms
server_main-stops_example =
    server_main-stops true calm_rounds refused (sigint ∷ []) calm_rounds (sigint ∷ []) refl refl

-- The second SIGINT kills the server, where `signal` sets a handler for one delivery; a SIGTERM behind
-- a SIGINT does not, nor a second SIGINT where handlers stay set.
asked_twice-survives :
    (survives true asked_twice ≡ false)
    × (survives true (sigint ∷ sigterm ∷ []) ≡ true)
    × (survives false asked_twice ≡ true)
unfolding survives ints terms
asked_twice-survives = (refl, refl, refl)

-- The two children of the second SIGCHLD are never collected.
accept_loop-zombies_example :
    (accept_loop true calm_rounds (start_up true usable usable true)).zombies
    ≡ total (drop 1 (ended_children (all_signals calm_rounds)))
unfolding calm asks ints terms
accept_loop-zombies_example = accept_loop-zombies true calm_rounds refl

-- A second start that does not get the port, with a game under way, and the plays behind it.
abbrev port_in_use : Setting
port_in_use = record {
  ctx = true;
  stats_fd = some 3;
  stats_sized = true;
  stats_mapped = true;
  store_fd = some 4;
  store_sized = true;
  store_mapped = true;
  lfd = false;
}

abbrev plays_on : List Happening
plays_on = receives 0 (plays 1) ∷ accepts (joined libc) ∷ receives 0 (plays 2) ∷ []

start_beside-loses_example :
    let (rc, t) = start_beside port_in_use one_session in
    let u = run_server t plays_on in
    (rc ≡ 1)
    × (game_of u.store logged_in.my_sid ≡ none)
    × ((greet libc (resume_req logged_in.my_sid) (start u.store u.stats)).sent
        ≡ World.resume_resp 0 0 ∷ [])
unfolding has_login reaches_table
start_beside-loses_example =
    start_beside-loses port_in_use one_session plays_on logged_in.my_sid libc refl refl
