-- ===== src/Session/Handshake.antt =====
-- The handshake of `run_session` in src/server.c: a login or a resumption.
use tcg_final_project.Prelude.{ℕ, ◌+◌, take, length, Option, none, some, ◌==◌, ltb, if◌then◌else◌}
use tcg_final_project.Prelude.Words.{neg}
use tcg_final_project.Game.Defs.{State, Hand, Game, resumed}
use tcg_final_project.Game.Rules.{push_log}
use tcg_final_project.Game.Turns.{enter_turn}
use tcg_final_project.Ipc.{ipc_alloc_session, ipc_load_session}
use tcg_final_project.Proto.Opcode.{op_ping, op_login_req, op_resume_req}
use tcg_final_project.Session.World.{
  Libc, World, Received, broken, playing, login_resp, resume_resp, pong, error, send, send_game,
  close, save, get_u64,
}
use tcg_final_project.Session.World

module _ (c : Libc) where
  -- The new game of `OP_LOGIN_REQ`.
  unfoldable pub new_game : Game → Game
  new_game g =
      enter_turn c.rand
        (record g { st = record g.st { p_hp = 30; ai_hp = 30; max_mana = 3; game_over = 0 } }) 0

  -- `my_sid = ipc_alloc_session(store)`. In a full table the source calls neither `rand` nor `time`,
  -- and the session ends there.
  unfoldable pub allocate : World → World
  allocate w =
      let (sid, store) =
        ipc_alloc_session (c.time w.accesses) (c.time (w.accesses + 1)) c.pid (c.rand w.game.rands)
          w.store in
      record w {
        my_sid = sid;
        store = store;
        accesses = w.accesses + 2;
        game = record w.game { rands = w.game.rands + 1 };
      }

  -- What follows the allocation.
  unfoldable pub welcome : World → World
  welcome w =
      if w.my_sid == 0
      then close (send (error (neg 999) "server full") w)
      else record (send_game (send (resume_resp 1 w.my_sid) (send login_resp (save c w)))) {
        stage = playing;
      }

  unfoldable pub log_in : World → World
  log_in w = welcome (allocate (record w { game = new_game w.game }))

  -- What follows the search for the session.
  unfoldable pub take_over : ℕ → Option (State × Hand) → World → World
  take_over sid none w = send (resume_resp 0 0) w
  take_over sid (some (st, h)) w =
      let found = record w { my_sid = sid; game = record w.game { st = st; hand = h } } in
      let told = send_game (send (resume_resp 1 sid) found) in
      record told { stage = playing; game = record told.game { st = push_log st resumed } }

  unfoldable pub resume : ℕ → World → World
  resume sid w =
      let (found, store) = ipc_load_session w.store sid (c.time w.accesses) in
      take_over sid found (record w { store = store; accesses = w.accesses + 1 })

  -- One round of the handshake's loop.
  unfoldable pub greet : Received → World → World
  greet broken w = close w
  greet (World.packet op payload) w =
      if op == op_ping
      then send pong w
      else if op == op_login_req
      then log_in w
      else if op == op_resume_req
      then (if ltb (length payload) 8 then close w else resume (get_u64 (take 8 payload)) w)
      else w
