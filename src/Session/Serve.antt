-- ===== src/Session/Serve.antt =====
-- The main loop of `run_session` in src/server.c, and the whole session.
use tcg_final_project.Prelude.{
  ℕ, List, [], ◌∷◌, length, get_or, true, ◌&&◌, ◌||◌, ◌==◌, if◌then◌else◌,
}
use tcg_final_project.Prelude.Words.{neg}
use tcg_final_project.Game.Defs.{zero_state, zero_hand}
use tcg_final_project.Game.Rules.{handle_play_card}
use tcg_final_project.Game.Turns.{phase_end}
use tcg_final_project.Game.Ai.{is_main, process_ai_turn}
use tcg_final_project.Ipc.{Entry, Stats, ipc_stats_inc_pkt}
use tcg_final_project.Proto.Opcode.{op_ping, op_login_req, op_resume_req, op_play_card, op_end_turn}
use tcg_final_project.Session.World.{
  Libc, World, Received, broken, Reply, pong, error, send, send_game, close, save, touch,
}
use tcg_final_project.Session.World
use tcg_final_project.Session.Handshake.{greet}

-- The error that answers a play that was refused.
unfoldable pub complain : ℕ → World → World
complain rc w =
    if rc == 0
    then w
    else if rc == neg 1
    then send (error (neg 1) "invalid hand idx") w
    else if rc == neg 2
    then send (error (neg 2) "not enough mana") w
    else send (error (neg 3) "invalid card") w

module _ (c : Libc) where
  -- The AI's turn, if it is one, and its save.
  unfoldable pub let_ai_play : World → World
  let_ai_play w =
      if w.game.st.turn == 1 && w.game.st.game_over == 0
      then save c (record w { game = process_ai_turn c.rand w.game })
      else w

  -- `OP_PLAY_CARD`, behind its tests.
  unfoldable pub play : ℕ → World → World
  play idx w =
      let (rc, st) = handle_play_card w.game.st w.game.hand true idx in
      send_game (save c (complain rc (record w { game = record w.game { st = st } })))

  unfoldable pub on_play_card : List ℕ → World → World
  on_play_card payload w =
      if w.game.st.turn == 0
      then (if is_main w.game.st.phase
          then (if length payload == 1
              then play (get_or payload 0 0) w
              else send (error (neg 10) "bad payload") w)
          else send (error (neg 12) "phase error") w)
      else send (error (neg 11) "not your turn") w

  -- `OP_END_TURN`
  unfoldable pub on_end_turn : World → World
  on_end_turn w =
      if w.game.st.turn == 0
      then send_game (let_ai_play (save c (record w { game = phase_end c.rand w.game })))
      else send (error (neg 11) "not your turn") w

  -- The packets of a game that is not over.
  unfoldable pub dispatch : ℕ → List ℕ → World → World
  dispatch op payload w =
      if op == op_play_card
      then on_play_card payload w
      else if op == op_end_turn
      then on_end_turn w
      else if op == op_login_req || op == op_resume_req
      then w
      else send (error (neg 99) "unknown opcode") w

  unfoldable pub answer : ℕ → List ℕ → World → World
  answer op payload w =
      if op == op_ping
      then send pong w
      else if w.game.st.game_over == 0
      then dispatch op payload w
      else send_game w

  -- The main loop behind `proto_recv`.
  unfoldable pub serve : Received → World → World
  serve broken w = close w
  serve (World.packet op payload) w =
      answer op payload (touch c (record w { stats = ipc_stats_inc_pkt w.stats }))

  -- What the process does with one result of `proto_recv`. In the main loop the AI's turn comes first.
  unfoldable pub step_at : World.Stage → Received → World → World
  step_at World.handshake r w = greet c r w
  step_at World.playing r w = serve r (let_ai_play w)
  step_at World.closed r w = w

  unfoldable pub step : World → Received → World
  step w r = step_at w.stage r w

  unfoldable pub run : World → List Received → World
  run w [] = w
  run w (r ∷ rs) = run (step w r) rs

-- A process that has just been forked.
abbrev pub start : List Entry → Stats → World
start store stats = record {
  stage = World.handshake;
  my_sid = 0;
  game = record { st = zero_state; hand = zero_hand; rands = 0 };
  accesses = 0;
  store = store;
  stats = stats;
  sent = [];
}
