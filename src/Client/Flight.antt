-- ===== src/Client/Flight.antt =====
-- The graphical client of src/client_gui.c and the server of src/server.c with what is between them:
-- requests that the server has not read yet, and replies that the client has not.
pub mod Ahead
pub mod Course
pub mod Settling
use tcg_final_project.Prelude.{
  ℕ, ◌≡◌, refl, sym, ap, ◌∙◌, List, [], ◌∷◌, ◌++◌, drop, drop-append, length, map, Bool, true,
  false, Option, none, some,
}
use mathlib.Core.Path.{subst}
use mathlib.Core.List.{append_assoc, append-nil}
use tcg_final_project.Prelude.Words.{u8}
use tcg_final_project.Game.Defs.{State, Hand}
use tcg_final_project.Proto.Opcode.{op_ping, op_pong, op_play_card, op_end_turn}
use tcg_final_project.Session.World.{Libc, World, Reply, Received, send, touch}
use tcg_final_project.Session.World
use tcg_final_project.Session.Serve.{step, serve, answer}
use tcg_final_project.Session.Invariant.{send-IsGood}
use tcg_final_project.Session.Duty.{IsServing}
use tcg_final_project.Session.Serving.{counted-IsServing}
use tcg_final_project.Session.Waiting.{counted, step-serve}
use tcg_final_project.Client.{Gui, on_packet, on_packets}
use tcg_final_project.Client.Answers.{Layout, wire}
use tcg_final_project.Client.App.{between}
use tcg_final_project.Client.Telling.{Tells, step_play-Tells, step_end_turn-Tells}
use tcg_final_project.Client.Hearing.{after_game, on_packets-after_game}
use tcg_final_project.Client.NetThread.{Command, on_command, on_socket, Target, click}
use tcg_final_project.Client.Clicking.{Asked, asks_end, asks_play, click-Asked}

pub record Flight : Type 0 where
  pub world : World
  pub requests : List Received
  pub replies : List Received
  pub gui : Gui
  pub selected : Option ℕ
  pub stopped : Bool

-- A click, whose command the network thread sends; a heartbeat; the server handles the next request;
-- the network thread reads the next reply.
pub data Move : Type 0 where
  clicks_on : Target → Move
  beats serves hears : Move

abbrev pub sent_for : Option Command → Gui → List Received
sent_for none g = []
sent_for (some cmd) g = (on_command cmd (record { gui = g; last_ping = 0; sent = [] })).sent

module _ (c : Libc) (l : Layout) where
  unfoldable pub serve_next : List Received → Flight → Flight
  serve_next [] f = f
  serve_next (r ∷ rs) f =
      let w = step c f.world r in
      record f { world = w; requests = rs; replies = f.replies ++ between c l f.world w }

  unfoldable pub hear_next : List Received → Flight → Flight
  hear_next [] f = f
  hear_next (r ∷ rs) f =
      let (stop, n) = on_socket (some r) (record { gui = f.gui; last_ping = 0; sent = [] }) in
      record f { gui = n.gui; replies = rs; stopped = stop }

  unfoldable pub move : Move → Flight → Flight
  move (clicks_on at) f =
      let (cmd, s) = click f.gui at f.selected in
      record f { requests = f.requests ++ sent_for cmd f.gui; selected = s }
  move beats f = record f { requests = f.requests ++ World.packet op_ping [] ∷ [] }
  move serves f = serve_next f.requests f
  move hears f = hear_next f.replies f

  unfoldable pub moves : List Move → Flight → Flight
  moves [] f = f
  moves (m ∷ ms) f = moves ms (move m f)
