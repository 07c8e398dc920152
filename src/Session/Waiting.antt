-- ===== src/Session/Waiting.antt =====
-- Between two packets of the main loop of `run_session` in src/server.c: the process waits, and it is
-- the player who may act.
use tcg_final_project.Prelude.{
  ℕ, ◌≡◌, inl, inr, refl, sym, ap, ◌∙◌, List, [], ◌∷◌, true, false, ◌==◌, ==_iff, arith,
}
use mathlib.Core.Path.{subst}
use tcg_final_project.Session.Invariant.{send_game-IsGood}
use tcg_final_project.Game.Rules.{handle_play_card}
use tcg_final_project.Game.Ai.{is_main}
use tcg_final_project.Game.Play.{handle_play_card-IsKept}
use tcg_final_project.Ipc.{ipc_stats_inc_pkt}
use tcg_final_project.Proto.Opcode.{op_ping, op_play_card, op_end_turn}
use tcg_final_project.Session.World.{Libc, World, Received, playing, send, send_game, save, touch}
use tcg_final_project.Session.World
use tcg_final_project.Session.Serve.{
  complain, let_ai_play, play, on_play_card, on_end_turn, dispatch, answer, serve, step_at, step,
}
use tcg_final_project.Session.Duty.{IsPlayers, IsServing, my_turn, let_ai_play-IsServing}
use tcg_final_project.Session.Serving.{play-IsGood, end_saved}

pub complain-game : (rc : ℕ) (w : World) → (complain rc w).game ≡ w.game
unfolding complain send
complain-game rc w = ground arith

complain-stage : (rc : ℕ) (w : World) → (complain rc w).stage ≡ w.stage
unfolding complain send
complain-stage rc w = ground arith

-- The process's world behind the count and the heartbeat of a packet.
abbrev pub counted : Libc → World → World
counted c w = touch c (record w { stats = ipc_stats_inc_pkt w.stats })

pub send_game-IsServing : (w : World) → IsServing w → IsServing (send_game w)
unfolding send_game send
send_game-IsServing w v = record {
  good = send_game-IsGood w v.good;
  at = v.at;
  players = v.players;
}

module _ (c : Libc) where
  play-IsPlayers :
      (idx : ℕ) (w : World)
      → IsServing w
      → w.game.st.game_over ≡ 0
      → IsPlayers (play c idx w).game.st
  unfolding play save send_game send
  play-IsPlayers idx w v on =
      let p = v.good.ready v.at in
      let (turn, phase) = my_turn w.game.st v.players on in
      let r = handle_play_card w.game.st w.game.hand true idx in
      let k = handle_play_card-IsKept w.game.st w.game.hand true idx p.shaped p.settled on in
      subst (λ g. IsPlayers g.st)
        (sym (complain-game r.0 (record w { game = record w.game { st = r.1 } })))
        (inr (k.turn_eq ∙ turn, k.phase_eq ∙ phase))

  play-stage : (idx : ℕ) (w : World) → (play c idx w).stage ≡ w.stage
  unfolding play save send_game send
  play-stage idx w = complain-stage _ _

  -- Behind a play the process waits again.
  pub play-IsServing :
      (idx : ℕ) (w : World) → IsServing w → w.game.st.game_over ≡ 0 → IsServing (play c idx w)
  play-IsServing idx w v on = record {
    good = play-IsGood c idx w v on;
    at = play-stage idx w ∙ v.at;
    players = play-IsPlayers idx w v on;
  }

  -- And so it does behind the end of a turn.
  pub on_end_turn-IsServing :
      (w : World) → IsServing w → w.game.st.game_over ≡ 0 → IsServing (on_end_turn c w)
  unfolding on_end_turn send_game send
  on_end_turn-IsServing w v on =
      let (turn, _) = my_turn w.game.st v.players on in
      let mine : (w.game.st.turn == 0) ≡ true = (==_iff _ _).1 turn in
      let (good, at) = end_saved c w v on in
      let behind = let_ai_play-IsServing c _ good at in rw mine (send_game-IsServing _ behind)

  -- The AI is not to play when the process waits.
  let_ai_play-same : (w : World) → IsServing w → let_ai_play c w ≡ w
  unfolding let_ai_play
  let_ai_play-same w v = go v.players
    where
      go : IsPlayers w.game.st → let_ai_play c w ≡ w
      go (inl over) = ground arith
      go (inr (turn, _)) = ground arith

  pub step-serve : (w : World) (r : Received) → IsServing w → step c w r ≡ serve c r w
  unfolding step step_at
  step-serve w r v = ap (λ s. step_at c s r w) v.at ∙ ap (serve c r) (let_ai_play-same w v)

  -- A request to play is played.
  pub step-play :
      (idx : ℕ) (w : World)
      → IsServing w
      → w.game.st.game_over ≡ 0
      → step c w (World.packet op_play_card (idx ∷ [])) ≡ play c idx (counted c w)
  unfolding serve answer dispatch on_play_card touch
  step-play idx w v on =
      let (turn, phase) = my_turn w.game.st v.players on in
      let mine : (w.game.st.turn == 0) ≡ true = (==_iff _ _).1 turn in
      let goes_on : (w.game.st.game_over == 0) ≡ true = (==_iff _ _).1 on in
      step-serve w (World.packet op_play_card (idx ∷ [])) v
      ∙ rw (goes_on, mine, ap is_main phase) refl

  -- A request to end the turn ends it.
  pub step-on_end_turn :
      (w : World)
      → IsServing w
      → w.game.st.game_over ≡ 0
      → step c w (World.packet op_end_turn []) ≡ on_end_turn c (counted c w)
  unfolding serve answer dispatch touch
  step-on_end_turn w v on =
      let goes_on : (w.game.st.game_over == 0) ≡ true = (==_iff _ _).1 on in
      step-serve w (World.packet op_end_turn []) v ∙ rw goes_on refl

  -- A game that is over is sent again, whatever the packet, but for a heartbeat.
  pub step-over :
      (op : ℕ) (payload : List ℕ) (w : World)
      → IsServing w
      → w.game.st.game_over ≡ 1
      → (op == op_ping) ≡ false
      → step c w (World.packet op payload) ≡ send_game (counted c w)
  unfolding serve answer touch
  step-over op payload w v over other =
      step-serve w (World.packet op payload) v ∙ rw (other, over) refl
