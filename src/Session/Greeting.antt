-- ===== src/Session/Greeting.antt =====
-- The handshake of `run_session` in src/server.c, and the whole session: a login starts a sound game
-- under a session id of its own, a resumption finds a sound one, and so it stays.
use tcg_final_project.Prelude.{
  ℕ, ◌+◌, ◌≡◌, ◌≢◌, inl, inr, refl, sym, ap, ◌∙◌, length, take, true, false, Option, none, some,
  ◌==◌, arith, ltb, Bool-cases,
}
use native.Mathlib.Decide.{dec_lt}
use tcg_final_project.Prelude.Words.{neg}
use tcg_final_project.Game.Defs.{State, Hand, Game, zero_state, resumed}
use tcg_final_project.Game.Rules.{push_log, judge}
use tcg_final_project.Game.Invariant.{IsShaped, IsSettled, push_log-IsShaped}
use tcg_final_project.Game.Handover.{enter_turn-IsSound, enter_turn-HasBegun}
use tcg_final_project.Ipc.Laws.{game_of, is_live, game_of-load, ipc_load_session-game_of}
use tcg_final_project.Ipc.Alloc.{taken, taken-le, ipc_alloc_session-IsGrown, ipc_alloc_session-full}
use tcg_final_project.Proto.Opcode.{op_ping, op_login_req, op_resume_req}
use tcg_final_project.Session.World.{
  Libc, World, Reply, error, login_resp, resume_resp, Stage, handshake, playing, closed, Received,
  broken, send, send_game, close, save, get_u64,
}
use tcg_final_project.Session.World
use tcg_final_project.Session.Handshake.{
  new_game, allocate, welcome, log_in, take_over, resume, greet,
}
use tcg_final_project.Session.Invariant.{
  IsPlayable, IsGood, IsSavable, turn_errors, GoodAt, send-IsGood, send_game-IsGood, save-IsGood,
}

new_state-IsShaped :
    (st : State)
    → st ≡ zero_state
    → IsShaped (record st { p_hp = 30; ai_hp = 30; max_mana = 3; game_over = 0 })
new_state-IsShaped st e = rw e (ground arith)

new_state-IsSettled :
    (st : State)
    → st ≡ zero_state
    → IsSettled (record st { p_hp = 30; ai_hp = 30; max_mana = 3; game_over = 0 })
new_state-IsSettled st e = rw e (ground arith)

module _ (c : Libc) where
  new_game-IsPlayable :
      (g : Game) → g.st ≡ zero_state → IsPlayable (new_game c g).st (new_game c g).hand
  unfolding new_game
  new_game-IsPlayable g e =
      let g0 : Game = record g {
        st = record g.st { p_hp = 30; ai_hp = 30; max_mana = 3; game_over = 0 };
      } in
      let v =
        enter_turn-IsSound c.rand g0 0 (omega arith) (new_state-IsShaped g.st e)
          (new_state-IsSettled g.st e) in
      let b = enter_turn-HasBegun c.rand g0 0 (omega arith) refl in
      record {
        shaped = v.shaped;
        settled = v.settled;
        holds = v.holds;
        main_phase = inr b.phase_eq;
      }

  -- The world in which the session starts to play, once its game is saved.
  pub begun-IsGood :
      (w : World)
      → IsGood (record w { stage = playing })
      → IsGood (record (send_game w) { stage = playing })
  unfolding send_game send
  begun-IsGood w v = send_game-IsGood (record w { stage = playing }) v

  shut-IsGood :
      (w : World) → ((k : ℕ) → GoodAt w.store k) → turn_errors w.sent ≡ false → IsGood (close w)
  unfolding close
  shut-IsGood w stored quiet = record {
    stored = stored;
    fresh = λ h. absurd (not_open h);
    ready = λ h. absurd (not_played h);
    live = λ h. absurd (not_played h);
    quiet = quiet;
  }
    where
      not_open : closed ≢ handshake
      not_open h = cc

      not_played : closed ≢ playing
      not_played h = cc

  welcomed :
      (w : World) → IsSavable (record w { stage = playing }) → w.my_sid ≢ 0 → IsGood (welcome c w)
  unfolding welcome send_game send save
  welcomed w v pos =
      let some_sid : (w.my_sid == 0) ≡ false = ground arith in
      rw some_sid (
        send_game-IsGood _ (
          send-IsGood (resume_resp 1 w.my_sid) _ refl
            (send-IsGood login_resp _ refl (save-IsGood c (record w { stage = playing }) v))))

  refused :
      (w : World)
      → w.my_sid ≡ 0
      → ((k : ℕ) → GoodAt w.store k)
      → turn_errors w.sent ≡ false
      → IsGood (welcome c w)
  unfolding welcome close send
  refused w e stored quiet =
      let no_sid : (w.my_sid == 0) ≡ true = ground arith in
      rw no_sid (send-IsGood (error (neg 999) "server full") _ refl (shut-IsGood w stored quiet))

  log_in-IsGood : (w : World) → IsGood w → w.stage ≡ handshake → IsGood (log_in c w)
  unfolding log_in allocate
  log_in-IsGood w v at = elim (dec_lt (taken w.store) (length w.store)) [
    | yes free ↦
        let g =
          ipc_alloc_session-IsGrown (c.time w.accesses) (c.time (w.accesses + 1)) c.pid
            (c.rand (new_game c w.game).rands) w.store free in
        welcomed _
          (record {
            game_ok = new_game-IsPlayable w.game (v.fresh at);
            live = g.live;
            others = λ k ne st h e. v.stored k st h (sym (g.others k ne) ∙ e);
            begun = λ h. cc;
            quiet = v.quiet;
          })
          g.sid_pos
    | no full ↦
        let same =
          ipc_alloc_session-full (c.time w.accesses) (c.time (w.accesses + 1)) c.pid
            (c.rand (new_game c w.game).rands) w.store (omega (arith, taken-le w.store)) in
        refused _ (ap (λ r. r.0) same)
          (λ k st h e. v.stored k st h (sym (ap (λ r. game_of r.1 k) same) ∙ e)) v.quiet
  ]

  resumed-IsPlayable :
      (st : State) (h : Hand) → IsPlayable st h → IsPlayable (push_log st resumed) h
  unfolding push_log judge
  resumed-IsPlayable st h p = record {
    shaped = push_log-IsShaped st resumed p.shaped;
    settled = record { playing = p.settled.playing; ended = p.settled.ended };
    holds = p.holds;
    main_phase = p.main_phase;
  }

  playing≢handshake : playing ≢ handshake
  playing≢handshake h = cc

  abbrev found_world : ℕ → State → Hand → World → World
  found_world sid st h w = record w {
    stage = playing;
    my_sid = sid;
    game = record w.game { st = st; hand = h };
  }

  changed :
      (w : World) (g : Game)
      → w.stage ≡ playing
      → IsGood w
      → IsPlayable g.st g.hand
      → IsGood (record w { game = g })
  changed w g at v p = record {
    stored = v.stored;
    fresh = λ h. absurd (playing≢handshake (sym at ∙ h));
    ready = λ _. p;
    live = v.live;
    quiet = v.quiet;
  }

  take_over-IsGood :
      (sid : ℕ) (found : Option (State × Hand)) (w : World)
      → IsGood w
      → found ≡ game_of w.store sid
      → IsGood (take_over c sid found w)
  unfolding take_over send_game send
  take_over-IsGood sid none w v e = send-IsGood _ w refl v
  take_over-IsGood sid (some (st, h)) w v e =
      let p = v.stored sid st h (sym e) in
      let there : IsGood (found_world sid st h w) = record {
        stored = v.stored;
        fresh = λ b. absurd (playing≢handshake b);
        ready = λ _. p;
        live = λ _. ap is_live (sym e);
        quiet = v.quiet;
      } in
      changed _ (record w.game { st = push_log st resumed; hand = h }) refl
        (send_game-IsGood _ (send-IsGood (resume_resp 1 sid) _ refl there))
        (resumed-IsPlayable st h p)

  -- A session that is found is one of the table's.
  resume-IsGood : (sid : ℕ) (w : World) → IsGood w → w.stage ≡ handshake → IsGood (resume c sid w)
  unfolding resume
  resume-IsGood sid w v at =
      take_over-IsGood sid _ _
        (record {
          stored = λ k st h e. v.stored k st h (sym (game_of-load w.store sid _ k) ∙ e);
          fresh = v.fresh;
          ready = v.ready;
          live = λ p. ap is_live (game_of-load w.store sid _ w.my_sid) ∙ v.live p;
          quiet = v.quiet;
        })
        (ipc_load_session-game_of w.store sid _ ∙ sym (game_of-load w.store sid _ sid))

  pub greet-IsGood :
      (r : Received) (w : World) → IsGood w → w.stage ≡ handshake → IsGood (greet c r w)
  unfolding greet
  greet-IsGood broken w v at = shut-IsGood w v.stored v.quiet
  greet-IsGood (World.packet op payload) w v at = elim (Bool-cases (op == op_ping)) [
    | inl p ↦ rw p (send-IsGood _ w refl v)
    | inr np ↦ elim (Bool-cases (op == op_login_req)) [
      | inl l ↦ rw (np, l) (log_in-IsGood w v at)
      | inr nl ↦ elim (Bool-cases (op == op_resume_req)) [
        | inr other ↦ rw (np, nl, other) v
        | inl again ↦ elim (Bool-cases (ltb (length payload) 8)) [
          | inl short ↦ rw (np, nl, again, short) (shut-IsGood w v.stored v.quiet)
          | inr long ↦ rw (np, nl, again, long) (resume-IsGood (get_u64 (take 8 payload)) w v at)
        ]
      ]
    ]
  ]
