-- ===== src/Tests/Graphics.antt =====
-- The graphical client of src/client_gui.c: what it draws, and clicks against the server.
use tcg_final_project.Prelude.{
  ℕ, ◌≡◌, refl, sym, List, [], ◌∷◌, ◌++◌, false, none, some, get_or, replicate, length-replicate,
  drop, arith,
}
use tcg_final_project.Game.Defs.{Hand, zero_state, LogLine, blank, resumed}
use tcg_final_project.Game.Rules.{push_log}
use tcg_final_project.Game.Invariant.{IsShaped}
use tcg_final_project.Ipc.{ipc_store_init}
use tcg_final_project.Session.Serve.{run, start}
use tcg_final_project.Session.Duty.{IsServing}
use tcg_final_project.Session.Backed.{IsBacked, step-IsBacked}
use tcg_final_project.Client.NetThread.{Target, card, end_button}
use tcg_final_project.Client.{on_packets}
use tcg_final_project.Client.Playing.{Playing, clicks, IsInStep}
use tcg_final_project.Client.Returning.{reconnect, IsBack, clicks-IsBack}
use tcg_final_project.Client.Flight.{Flight, Move, clicks_on, beats, serves, moves}
use tcg_final_project.Client.Flight.Ahead.{Shows}
use tcg_final_project.Client.Flight.Course.{IsOnCourse, moves-IsOnCourse, moves-Shows}
use tcg_final_project.Client.Flight.Settling.{arriving, arriving-replies}
use tcg_final_project.Client.Structs.{Seen, Text}
use tcg_final_project.Client.Packing.{seen}
use tcg_final_project.Client.Drawing.{draw_log}
use tcg_final_project.Client.Drawing.Log.{log_texts, caption, draw_log-push_log}
use tcg_final_project.Tests.Sessions.{
  login, libc, layout, no_stats, logged_in, logged_in-running, logged_in-IsServing,
}
use tcg_final_project.Tests.Clients.{open_gui}

logged_in-IsBacked : IsBacked logged_in
unfolding logged_in run
logged_in-IsBacked =
    step-IsBacked libc (start ipc_store_init no_stats) login (λ at. absurd (cc at))
      logged_in-running.0

-- A player who has logged in.
abbrev seat : Playing
seat = record {
  world = logged_in;
  gui = record open_gui {
    session_id = 27469803818;
    game_over = get_or (layout.state_bytes logged_in.game.st) 6 0;
  };
  selected = none;
  stopped = false;
}

seat-IsInStep : IsInStep layout seat
seat-IsInStep = record {
  serving = logged_in-IsServing;
  backed = logged_in-IsBacked;
  sid_eq = sym logged_in-running.3;
  sid_pos = λ e. omega (arith, e);
  sid_lt = omega arith;
  st_eq = refl;
  hand_eq = refl;
  over_eq = refl;
  has_state = refl;
  has_hand = refl;
  is_connected = refl;
  stands = refl;
}

-- A card, selected and played, and the end of the turn.
abbrev targets : List Target
targets = card 1 ∷ card 1 ∷ end_button ∷ []

clicks-IsBack_example :
    IsBack layout
      (clicks libc layout targets seat)
      (reconnect layout libc no_stats (clicks libc layout targets seat))
clicks-IsBack_example =
    clicks-IsBack layout (λ ok sid. refl) libc libc no_stats targets seat seat-IsInStep

-- The same player, with nothing under way.
abbrev at_rest : Flight
at_rest = record {
  world = logged_in;
  requests = [];
  replies = [];
  gui = seat.gui;
  selected = none;
  stopped = false;
}

at_rest-IsOnCourse : IsOnCourse layout at_rest
unfolding on_packets
at_rest-IsOnCourse = record {
  serving = logged_in-IsServing;
  asked = tt;
  ahead = record {
    behind = seat.gui;
    heard = refl;
    shows = record { st_eq = refl; hand_eq = refl };
  };
  stands = refl;
}

-- The end of the turn, and a heartbeat before it is answered.
abbrev some_moves : List Move
some_moves = clicks_on end_button ∷ beats ∷ serves ∷ []

under_way : Flight
under_way = moves libc layout some_moves at_rest

under_way-IsOnCourse : IsOnCourse layout under_way
unfolding under_way
under_way-IsOnCourse = moves-IsOnCourse libc layout some_moves at_rest at_rest-IsOnCourse

-- The moves that let all arrive.
last_moves : List Move
last_moves = arriving libc layout under_way

last_moves-replies : (moves libc layout last_moves under_way).replies ≡ []
unfolding last_moves
last_moves-replies = arriving-replies libc layout under_way

moves-Shows_example :
    IsServing (moves libc layout last_moves under_way).world
    × ((moves libc layout last_moves under_way).stopped ≡ false)
    × Shows layout
        (moves libc layout last_moves under_way).world
        (moves libc layout last_moves under_way).gui
moves-Shows_example =
    moves-Shows libc layout last_moves under_way under_way-IsOnCourse last_moves-replies

-- A card of each kind in the hand, the second one selected, and the mouse over the third.
abbrev full_hand : Hand
full_hand = record { n = 3; card_ids = 100 ∷ 200 ∷ 500 ∷ 0 ∷ 0 ∷ 0 ∷ 0 ∷ 0 ∷ [] }

-- A text that gives each line its own first byte, and none to an empty line.
abbrev first_byte : LogLine → ℕ
first_byte blank = 0
first_byte resumed = 82
first_byte _ = 71

abbrev text : Text
text = record {
  line_bytes = λ l. replicate 64 (first_byte l);
  msg_bytes = λ m. replicate 48 0;
  line_length = λ l. length-replicate 64 (first_byte l);
}

abbrev screen : Seen
screen = seen text zero_state

-- A game in which somebody has 30 hit points.
begun-IsShaped : IsShaped (record zero_state { p_hp = 30; ai_hp = 30; max_mana = 3 })
begun-IsShaped = ground arith

draw_log-push_log_example :
    log_texts (
      draw_log
        (seen text (push_log (record zero_state { p_hp = 30; ai_hp = 30; max_mana = 3 }) resumed)))
    ≡ drop 1 (
        log_texts
          (draw_log (seen text (record zero_state { p_hp = 30; ai_hp = 30; max_mana = 3 }))))
      ++ caption text resumed ∷ []
draw_log-push_log_example =
    draw_log-push_log text (record zero_state { p_hp = 30; ai_hp = 30; max_mana = 3 }) resumed
      begun-IsShaped

-- What the newest line is then.
newest_line : caption text resumed ≡ some (replicate 64 82)
newest_line = refl
