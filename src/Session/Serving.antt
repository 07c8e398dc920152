-- ===== src/Session/Serving.antt =====
-- The packets of the main loop of `run_session` in src/server.c: each leaves a good world.
use tcg_final_project.Prelude.{
  ℕ, ◌≡◌, ◌⊎◌, inl, inr, refl, ap, ◌∙◌, List, length, true, ◌||◌, ◌==◌, ==_iff, arith, Bool-cases,
  get_or,
}
use tcg_final_project.Game.Defs.{Game, Phase}
use tcg_final_project.Game.Rules.{handle_play_card}
use tcg_final_project.Game.Turns.{phase_end}
use tcg_final_project.Game.Ai.{is_main}
use tcg_final_project.Game.Play.{handle_play_card-IsKept}
use tcg_final_project.Game.Handover.{TurnEnds, stops, passes, phase_end_lem}
use tcg_final_project.Ipc.{ipc_stats_inc_pkt}
use tcg_final_project.Proto.Opcode.{op_ping, op_login_req, op_resume_req, op_play_card, op_end_turn}
use tcg_final_project.Session.World.{
  Libc, World, Reply, error, Stage, handshake, playing, closed, Received, broken, send, send_game,
  close, save, touch,
}
use tcg_final_project.Session.World
use tcg_final_project.Session.Serve.{
  complain, play, on_play_card, on_end_turn, dispatch, answer, serve,
}
use tcg_final_project.Session.Invariant.{
  IsGood, IsSavable, send-IsGood, send_game-IsGood, save-IsGood, touch-IsGood,
}
use tcg_final_project.Session.Duty.{
  IsServing, IsSound-of, IsPlayable-of, savable, closed≢handshake, closed≢playing, my_turn,
  complain-IsSavable, let_ai_play-IsServing,
}

module _ (c : Libc) where
  -- The world in which a play is saved, with its result told.
  abbrev pub played_world : ℕ → World → World
  played_world idx w =
      let (rc, st) = handle_play_card w.game.st w.game.hand true idx in
      complain rc (record w { game = record w.game { st = st } })

  pub played-IsSavable :
      (idx : ℕ) (w : World) → IsServing w → w.game.st.game_over ≡ 0 → IsSavable (played_world idx w)
  played-IsSavable idx w v on =
      let p = v.good.ready v.at in
      let k = handle_play_card-IsKept w.game.st w.game.hand true idx p.shaped p.settled on in
      let r = handle_play_card w.game.st w.game.hand true idx in
      complain-IsSavable r.0 _ (
        savable w (record w.game { st = r.1 }) v.good v.at
          (record {
            shaped = k.shaped;
            settled = k.settled;
            holds = p.holds;
            main_phase = inr (k.phase_eq ∙ (my_turn w.game.st v.players on).1);
          }))

  pub play-IsGood :
      (idx : ℕ) (w : World) → IsServing w → w.game.st.game_over ≡ 0 → IsGood (play c idx w)
  unfolding play
  play-IsGood idx w v on = send_game-IsGood _ (save-IsGood c _ (played-IsSavable idx w v on))

  on_play_card-IsGood :
      (payload : List ℕ) (w : World)
      → IsServing w
      → w.game.st.game_over ≡ 0
      → IsGood (on_play_card c payload w)
  unfolding on_play_card
  on_play_card-IsGood payload w v on =
      let (t, m) = my_turn w.game.st v.players on in
      let mine : (w.game.st.turn == 0) ≡ true = ground arith in
      rw (mine, ap is_main m)
        (elim (Bool-cases (length payload == 1)) [
          | inl one ↦ rw one (play-IsGood (get_or payload 0 0) w v on)
          | inr bad ↦ rw bad (send-IsGood _ w refl v.good)
        ])

  ended_of :
      {g g' : Game} → TurnEnds c.rand g g' → (g'.st.game_over ≡ 1) ⊎ (g'.st.phase ≡ Phase.main)
  ended_of (stops over _) = inl over
  ended_of (passes b _) = inr b.phase_eq

  pub end_saved :
      (w : World)
      → IsServing w
      → w.game.st.game_over ≡ 0
      → let w' = save c (record w { game = phase_end c.rand w.game }) in
        IsGood w' × (w'.stage ≡ playing)
  unfolding save
  end_saved w v on =
      let (sound, ends) = phase_end_lem c.rand w.game (IsSound-of w.game (v.good.ready v.at)) on in
      (
        save-IsGood c _ (
            savable w (phase_end c.rand w.game) v.good v.at
              (IsPlayable-of _ sound (ended_of ends))),
        v.at,
      )

  pub on_end_turn-IsGood :
      (w : World) → IsServing w → w.game.st.game_over ≡ 0 → IsGood (on_end_turn c w)
  unfolding on_end_turn
  on_end_turn-IsGood w v on =
      let (t, _) = my_turn w.game.st v.players on in
      let mine : (w.game.st.turn == 0) ≡ true = ground arith in
      let (good, at) = end_saved w v on in
      rw mine (send_game-IsGood _ (let_ai_play-IsServing c _ good at).good)

  dispatch-IsGood :
      (op : ℕ) (payload : List ℕ) (w : World)
      → IsServing w
      → w.game.st.game_over ≡ 0
      → IsGood (dispatch c op payload w)
  unfolding dispatch
  dispatch-IsGood op payload w v on = elim (Bool-cases (op == op_play_card)) [
    | inl p ↦ rw p (on_play_card-IsGood payload w v on)
    | inr np ↦ elim (Bool-cases (op == op_end_turn)) [
      | inl e ↦ rw (np, e) (on_end_turn-IsGood w v on)
      | inr ne ↦ elim (Bool-cases (op == op_login_req || op == op_resume_req)) [
        | inl l ↦ rw (np, ne, l) v.good
        | inr u ↦ rw (np, ne, u) (send-IsGood _ w refl v.good)
      ]
    ]
  ]

  answer-IsGood :
      (op : ℕ) (payload : List ℕ) (w : World) → IsServing w → IsGood (answer c op payload w)
  unfolding answer
  answer-IsGood op payload w v = elim (Bool-cases (op == op_ping)) [
    | inl p ↦ rw p (send-IsGood _ w refl v.good)
    | inr np ↦ elim (Bool-cases (w.game.st.game_over == 0)) [
      | inl on ↦ rw (np, on) (dispatch-IsGood op payload w v ((==_iff _ _).0 on))
      | inr over ↦ rw (np, over) (send_game-IsGood w v.good)
    ]
  ]

  pub counted-IsServing :
      (w : World)
      → IsServing w
      → IsServing (touch c (record w { stats = ipc_stats_inc_pkt w.stats }))
  unfolding touch
  counted-IsServing w v = record {
    good = touch-IsGood c _ (record {
      stored = v.good.stored;
      fresh = v.good.fresh;
      ready = v.good.ready;
      live = v.good.live;
      quiet = v.good.quiet;
    });
    at = v.at;
    players = v.players;
  }

  pub serve-IsGood : (r : Received) (w : World) → IsServing w → IsGood (serve c r w)
  unfolding serve close
  serve-IsGood broken w v = record {
    stored = v.good.stored;
    fresh = λ h. absurd (closed≢handshake h);
    ready = λ h. absurd (closed≢playing h);
    live = λ h. absurd (closed≢playing h);
    quiet = v.good.quiet;
  }
  serve-IsGood (World.packet op payload) w v = answer-IsGood op payload _ (counted-IsServing w v)
