-- ===== src/Tests/Clients.antt =====
-- The clients of src/client_app.c and src/client.c against the server.
use tcg_final_project.Prelude.{
  ◌+◌, ◌*◌, Option, none, ◌++◌, get_or, arith, replicate, length-replicate, true, ℕ, ◌*◌, some, ◌≡◌,
  refl, List, [], ◌∷◌, replicate,
}
use tcg_final_project.Session.World.{World}
use tcg_final_project.Ipc.{ipc_store_init}
use tcg_final_project.Session.World.{Received}
use tcg_final_project.Session.World
use tcg_final_project.Session.Serve.{start}
use tcg_final_project.Session.Run.{init-GoodAt}
use tcg_final_project.Client.Worker.{worker}
use tcg_final_project.Client.Rounds.{ask_server}
use tcg_final_project.Client.Thread.{Worked, worker-Worked}
use tcg_final_project.Game.Ledger.{Fits}
use tcg_final_project.Proto.Opcode.{op_end_turn, op_pong}
use tcg_final_project.Session.Serve.{step}
use tcg_final_project.Session.Bounds.{session-Fits}
use tcg_final_project.Client.{Gui}
use tcg_final_project.Client.NetThread.{
  Net, Turn, Attempt, on_command, ready, error, connected, no_connection, end_button, may_ask,
  choose, click,
}
use tcg_final_project.Client.Asking.{Serves, click-Serves}
use tcg_final_project.Session.World.{get_u64}
use tcg_final_project.Client.Worker.{Ended, summed}
use tcg_final_project.Client.App.{request}
use tcg_final_project.Client.App
use tcg_final_project.Client.Structs.{Text}
use tcg_final_project.Client.App.{App, drive}
use tcg_final_project.Client.InStep.{InStep, Agrees, drive-Agrees}
use tcg_final_project.Tests.Sessions.{
  libc, layout, no_stats, logged_in, logged_in-running, logged_in-IsServing,
}

abbrev shown : App
shown = record {
  st = layout.state_bytes logged_in.game.st;
  hand = layout.hand_bytes logged_in.game.hand;
}

in_step : InStep libc layout (λ st h. refl) logged_in shown
in_step = record { serving = logged_in-IsServing; st_eq = refl; hand_eq = refl }

-- A card, a key without a meaning, the end of the turn.
abbrev keys : List ℕ
keys = b'1' ∷ b'x' ∷ b'e' ∷ []

drive-Agrees_example :
    Agrees libc layout
      (λ st h. refl)
      (drive libc layout keys logged_in shown).1
      (drive libc layout keys logged_in shown).0
drive-Agrees_example = drive-Agrees libc layout (λ st h. refl) keys logged_in shown in_step

-- A clock that goes on by a thousand nanoseconds.
abbrev ticks : ℕ → ℕ
ticks n = 1000 * n

worker-Worked_example :
    Worked libc layout
      (λ st h. refl)
      ticks
      true
      5
      ipc_store_init
      (worker
        (ask_server libc layout (λ st h. refl) ticks true)
        ticks
        true
        true
        true
        5
        (start ipc_store_init no_stats))
worker-Worked_example =
    worker-Worked libc layout (λ st h. refl) ticks true 5 ipc_store_init no_stats init-GoodAt

-- A connection on which each request is answered by the end of it.
abbrev hang_ups : Received → ℕ → Option (List Received × ℕ)
hang_ups r s = some (World.broken ∷ [], s)

-- A graphical client that shows the session.
abbrev pub open_gui : Gui
open_gui = record {
  session_id = 7;
  st = layout.state_bytes logged_in.game.st;
  hand = layout.hand_bytes logged_in.game.hand;
  has_state = true;
  has_hand = true;
  connected = true;
  game_over = 0;
}

abbrev net : Net
net = record { gui = open_gui; last_ping = 100; sent = [] }

turn_byte : get_or open_gui.st 6 0 ≡ 0
turn_byte = logged_in-running.2

clicked : click open_gui end_button none ≡ (some (record { op = op_end_turn; hand_idx = 0 }), none)
unfolding click choose may_ask
clicked = ground (arith, turn_byte)

click-Serves_example :
    (p : Received) × ((on_command (record { op = op_end_turn; hand_idx = 0 }) net).sent
      ≡ [] ++ p ∷ [])
    × Serves logged_in (step libc logged_in p)
click-Serves_example =
    click-Serves libc layout (λ st h. refl) logged_in open_gui end_button none none _ net
      logged_in-IsServing refl clicked

-- A heartbeat that is due, and a packet.
abbrev round : Turn
round = record { now = 103; ping_sent = true; found = ready none (some (World.packet op_pong [])) }

-- A connection that breaks, and one that cannot be made.
abbrev attempts : List Attempt
attempts =
    connected 100 (record { now = 101; ping_sent = true; found = error } ∷ []) ∷ no_connection ∷ []

-- Texts of nothing but the end of the string.
abbrev texts : Text
texts = record {
  line_bytes = λ x. replicate 64 0;
  msg_bytes = λ x. replicate 48 0;
  line_length = λ x. length-replicate {A = ℕ} 64 0;
}

session-Fits_example : Fits 1 logged_in.game.st
unfolding logged_in
session-Fits_example =
    session-Fits libc ipc_store_init no_stats [] init-GoodAt (omega arith) logged_in-running.0

-- A hand of three cards, and the key that plays the second.
abbrev three_cards : App
three_cards = record {
  st = replicate 405 0;
  hand = 3 ∷ 101 ∷ 0 ∷ 102 ∷ 0 ∷ 103 ∷ 0 ∷ replicate 10 0;
}

second_key : request b'2' three_cards ≡ App.play 1
unfolding request
second_key = refl

-- A thread whose login and rounds take longer with its place.
abbrev slower : ℕ → ℕ → Ended
slower rounds i = summed (rounds * 10 + i)
