-- ===== src/Tests/Connections.antt =====
-- A session of src/server.c and a client as bytes on a connection.
use tcg_final_project.Prelude.{ℕ, ◌≡◌, ◌++◌, refl, List, [], ◌∷◌, map, length, arith, some}
use tcg_final_project.Proto.Opcode.{op_login_req, op_play_card, op_end_turn}
use tcg_final_project.Proto.Packet.{packet}
use tcg_final_project.Ipc.{ipc_store_init}
use tcg_final_project.Session.World.{World, Reply}
use tcg_final_project.Session.World
use tcg_final_project.Session.Serve.{run, start}
use tcg_final_project.Session.Bytes.{run_bytes, run_bytes-run, stream_of, packets_of}
use tcg_final_project.Session.Run.{init-GoodAt}
use tcg_final_project.Session.Hostile.{IsUnharmed, run_bytes-IsUnharmed}
use tcg_final_project.Client.Bytes.{
  recv_bytes, sent_as, IsRoomy, told, unheard, heard_game, play-recv_bytes, on_end_turn-recv_bytes,
}
use tcg_final_project.Tests.Packets.{connection, Wire}
use tcg_final_project.Tests.Sessions.{
  libc, no_stats, layout, logged_in, logged_in-running, logged_in-IsServing,
}

-- A login and a play.
abbrev requests : List (ℕ × List ℕ)
requests = (op_login_req, []) ∷ (op_play_card, 1 ∷ []) ∷ []

run_bytes-run_example :
    (run_bytes libc connection.readn 2
      (start ipc_store_init no_stats)
      (4, stream_of requests ++ [])).0
    ≡ run libc (start ipc_store_init no_stats) (packets_of requests)
run_bytes-run_example =
    run_bytes-run libc connection requests [] (start ipc_store_init no_stats)
      (4, stream_of requests ++ [])
      (
        record { opcode_lt = omega arith; fits = omega arith; room = omega arith },
        (record { opcode_lt = omega arith; fits = omega arith; room = omega arith }, tt),
      )
      refl

layout-IsRoomy : IsRoomy layout
unfolding sent_as
layout-IsRoomy World.pong = omega arith
layout-IsRoomy World.login_resp = omega arith
layout-IsRoomy (World.resume_resp ok sid) = omega arith
layout-IsRoomy (World.state st) = omega (arith, layout.state_length st)
layout-IsRoomy (World.hand h) = omega (arith, layout.hand_length h)
layout-IsRoomy (World.error code msg) = omega arith

-- What the client's connection has behind the play.
abbrev asked : Wire
asked = (4, packet op_play_card (2 ∷ []) ++ [])

played : World
played = (run_bytes libc connection.readn 1 logged_in asked).0

abbrev answered : Wire
answered = (0, stream_of (map (sent_as layout) (told layout logged_in played)) ++ [])

play-recv_bytes_example :
    recv_bytes connection.readn
      (length (told layout logged_in played))
      (unheard layout [] [])
      answered
    ≡ (some 0, heard_game layout played)
unfolding played
play-recv_bytes_example =
    play-recv_bytes layout libc connection connection 2 logged_in asked answered [] [] [] []
      layout-IsRoomy logged_in-IsServing logged_in-running.2 refl refl

abbrev passed : Wire
passed = (4, packet op_end_turn [] ++ [])

ended : World
ended = (run_bytes libc connection.readn 1 logged_in passed).0

abbrev turned : Wire
turned = (0, stream_of (map (sent_as layout) (told layout logged_in ended)) ++ [])

on_end_turn-recv_bytes_example :
    recv_bytes connection.readn (length (told layout logged_in ended)) (unheard layout [] []) turned
    ≡ (some 0, heard_game layout ended)
unfolding ended
on_end_turn-recv_bytes_example =
    on_end_turn-recv_bytes layout libc connection connection logged_in passed turned [] [] [] []
      layout-IsRoomy logged_in-IsServing logged_in-running.2 refl refl

-- A login, and then bytes that are no packet.
abbrev garbage : Wire
garbage = (4, packet op_login_req [] ++ 255 ∷ 254 ∷ 0 ∷ 7 ∷ 0 ∷ 9 ∷ 200 ∷ [])

run_bytes-IsUnharmed_example :
    IsUnharmed libc (run_bytes libc connection.readn 3 (start ipc_store_init no_stats) garbage).0
run_bytes-IsUnharmed_example =
    run_bytes-IsUnharmed libc connection.readn 3 garbage ipc_store_init no_stats init-GoodAt
