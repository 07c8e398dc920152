-- ===== src/Session/Backed.antt =====
-- The main loop of `run_session` in src/server.c between two packets: the shared table has the game
-- of the session.
use tcg_final_project.Prelude.{
  ℕ, ◌≡◌, ◌⊎◌, inl, inr, refl, sym, ap, ◌∙◌, List, length, Bool, true, false, ◌&&◌, ◌||◌, ◌==◌, ltb,
  take, get_or, Option, none, some, if◌then◌else◌,
}
use tcg_final_project.Prelude.Words.{neg}
use tcg_final_project.Game.Defs.{State, Hand, resumed}
use tcg_final_project.Game.Rules.{push_log, handle_play_card}
use tcg_final_project.Game.Turns.{phase_end}
use tcg_final_project.Game.Ai.{is_main, process_ai_turn}
use tcg_final_project.Ipc.{ipc_stats_inc_pkt}
use tcg_final_project.Ipc.Laws.{
  game_of, is_live, game_of-load, game_of-touch, ipc_load_session-game_of,
}
use tcg_final_project.Proto.Opcode.{op_ping, op_login_req, op_resume_req, op_play_card, op_end_turn}
use tcg_final_project.Session.World.{
  Libc, World, Reply, send, send_game, close, save, touch, get_u64, Received,
}
use tcg_final_project.Session.World
use tcg_final_project.Session.Handshake.{take_over, resume, log_in, greet}
use tcg_final_project.Session.Serve.{
  complain, let_ai_play, play, on_play_card, on_end_turn, dispatch, answer, serve, step_at, step,
}
use tcg_final_project.Session.Invariant.{save-saved}
use tcg_final_project.Session.Login.{LoggedIn, seated, full, log_in-LoggedIn}

-- The game in the table is the process's, but for the line that a resumption adds to the log of the
-- process alone.
pub record IsBacked (w : World) : Type 0 where
  pub stored : State
  pub there : game_of w.store w.my_sid ≡ some (stored, w.game.hand)
  pub same : (w.game.st ≡ stored) ⊎ (w.game.st ≡ push_log stored resumed)

abbrev HasSlot : World → Type 0
HasSlot w = is_live (game_of w.store w.my_sid) ≡ true

IsBacked-HasSlot : {w : World} → IsBacked w → HasSlot w
IsBacked-HasSlot b = ap is_live b.there

IsBacked-if : (b : Bool) (x y : World) → IsBacked x → IsBacked y → IsBacked (if b then x else y)
IsBacked-if true x y p q = p
IsBacked-if false x y p q = q

HasSlot-if : (b : Bool) (x y : World) → HasSlot x → HasSlot y → HasSlot (if b then x else y)
HasSlot-if true x y p q = p
HasSlot-if false x y p q = q

send-IsBacked : (r : Reply) (w : World) → IsBacked w → IsBacked (send r w)
unfolding send
send-IsBacked r w b = record { stored = b.stored; there = b.there; same = b.same }

send_game-IsBacked : (w : World) → IsBacked w → IsBacked (send_game w)
unfolding send_game
send_game-IsBacked w b = send-IsBacked _ _ (send-IsBacked _ w b)

complain-HasSlot : (rc : ℕ) (w : World) → HasSlot w → HasSlot (complain rc w)
unfolding complain send
complain-HasSlot rc w h =
    HasSlot-if (rc == 0) _ _ h (HasSlot-if (rc == neg 1) _ _ h (HasSlot-if (rc == neg 2) _ _ h h))

module _ (c : Libc) where
  -- Behind a save the table has the process's game itself.
  save-IsBacked : (w : World) → HasSlot w → IsBacked (save c w)
  unfolding save
  save-IsBacked w h = record { stored = w.game.st; there = save-saved c w h; same = inl refl }

  touch-IsBacked : (w : World) → IsBacked w → IsBacked (touch c w)
  unfolding touch
  touch-IsBacked w b = record {
    stored = b.stored;
    there = game_of-touch w.store w.my_sid _ w.my_sid ∙ b.there;
    same = b.same;
  }

  let_ai_play-IsBacked : (w : World) → IsBacked w → IsBacked (let_ai_play c w)
  unfolding let_ai_play
  let_ai_play-IsBacked w b =
      IsBacked-if (w.game.st.turn == 1 && w.game.st.game_over == 0) _ w
        (save-IsBacked (record w { game = process_ai_turn c.rand w.game }) (IsBacked-HasSlot b)) b

  play-IsBacked : (idx : ℕ) (w : World) → HasSlot w → IsBacked (play c idx w)
  unfolding play
  play-IsBacked idx w h =
      let (rc, st) = handle_play_card w.game.st w.game.hand true idx in
      send_game-IsBacked _
        (save-IsBacked _ (complain-HasSlot rc (record w { game = record w.game { st = st } }) h))

  on_play_card-IsBacked :
      (payload : List ℕ) (w : World) → IsBacked w → IsBacked (on_play_card c payload w)
  unfolding on_play_card
  on_play_card-IsBacked payload w b =
      IsBacked-if (w.game.st.turn == 0) _ _
        (IsBacked-if (is_main w.game.st.phase) _ _
          (IsBacked-if (length payload == 1) _ _
            (play-IsBacked (get_or payload 0 0) w (IsBacked-HasSlot b)) (send-IsBacked _ w b))
          (send-IsBacked _ w b))
        (send-IsBacked _ w b)

  on_end_turn-IsBacked : (w : World) → IsBacked w → IsBacked (on_end_turn c w)
  unfolding on_end_turn
  on_end_turn-IsBacked w b =
      let ended = record w { game = phase_end c.rand w.game } in
      IsBacked-if (w.game.st.turn == 0) _ _
        (send_game-IsBacked _ (let_ai_play-IsBacked _ (save-IsBacked ended (IsBacked-HasSlot b))))
        (send-IsBacked _ w b)

  dispatch-IsBacked :
      (op : ℕ) (payload : List ℕ) (w : World) → IsBacked w → IsBacked (dispatch c op payload w)
  unfolding dispatch
  dispatch-IsBacked op payload w b =
      IsBacked-if (op == op_play_card) _ _ (on_play_card-IsBacked payload w b) (
        IsBacked-if (op == op_end_turn) _ _ (on_end_turn-IsBacked w b)
          (IsBacked-if (op == op_login_req || op == op_resume_req) _ _ b (send-IsBacked _ w b)))

  serve-IsBacked : (r : Received) (w : World) → IsBacked w → IsBacked (serve c r w)
  unfolding serve close answer
  serve-IsBacked World.broken w b = record { stored = b.stored; there = b.there; same = b.same }
  serve-IsBacked (World.packet op payload) w b =
      let counted = record w { stats = ipc_stats_inc_pkt w.stats } in
      let x = touch c counted in
      let bx : IsBacked x =
        touch-IsBacked counted (record { stored = b.stored; there = b.there; same = b.same }) in
      IsBacked-if (op == op_ping) _ _ (send-IsBacked _ x bx) (
        IsBacked-if (x.game.st.game_over == 0) _ _ (dispatch-IsBacked op payload x bx)
          (send_game-IsBacked x bx))

  log_in-IsBacked : (w w' : World) → LoggedIn c w w' → w'.stage ≡ World.playing → IsBacked w'
  log_in-IsBacked w w' (seated _ _ _ _ _ there _) at = record {
    stored = w'.game.st;
    there = there;
    same = inl refl;
  }
  log_in-IsBacked w w' (full _ shut _ _) at = absurd (cc (shut, at))

  take_over-IsBacked :
      (sid : ℕ) (found : Option (State × Hand)) (w : World)
      → w.stage ≡ World.handshake
      → found ≡ game_of w.store sid
      → (take_over c sid found w).stage ≡ World.playing
      → IsBacked (take_over c sid found w)
  unfolding take_over send_game send
  take_over-IsBacked sid none w new e at = absurd (cc (new, at))
  take_over-IsBacked sid (some (st, h)) w new e at = record {
    stored = st;
    there = sym e;
    same = inr refl;
  }

  resume-IsBacked :
      (sid : ℕ) (w : World)
      → w.stage ≡ World.handshake
      → (resume c sid w).stage ≡ World.playing
      → IsBacked (resume c sid w)
  unfolding resume
  resume-IsBacked sid w new at =
      take_over-IsBacked sid _ _ new
        (ipc_load_session-game_of w.store sid _ ∙ sym (game_of-load w.store sid _ sid)) at

  abbrev Begins : World → Type 0
  Begins w = w.stage ≡ World.playing → IsBacked w

  Begins-if : (b : Bool) (x y : World) → Begins x → Begins y → Begins (if b then x else y)
  Begins-if true x y p q = p
  Begins-if false x y p q = q

  greet-IsBacked :
      (r : Received) (w : World)
      → w.stage ≡ World.handshake
      → (greet c r w).stage ≡ World.playing
      → IsBacked (greet c r w)
  unfolding greet close send
  greet-IsBacked World.broken w new = λ at. absurd (cc at)
  greet-IsBacked (World.packet op payload) w new =
      Begins-if (op == op_ping) _ _ (λ at. absurd (cc (new, at)))
        (Begins-if (op == op_login_req) _ _ (log_in-IsBacked w (log_in c w) (log_in-LoggedIn c w)) (
          Begins-if (op == op_resume_req) _ _
            (Begins-if (ltb (length payload) 8) _ _ (λ at. absurd (cc at))
              (resume-IsBacked (get_u64 (take 8 payload)) w new))
            (λ at. absurd (cc (new, at)))))

  step_at-IsBacked :
      (s : World.Stage) (r : Received) (w : World)
      → w.stage ≡ s
      → (w.stage ≡ World.playing → IsBacked w)
      → (step_at c s r w).stage ≡ World.playing
      → IsBacked (step_at c s r w)
  unfolding step_at
  step_at-IsBacked World.handshake r w at b = greet-IsBacked r w at
  step_at-IsBacked World.playing r w at b = λ _. serve-IsBacked r _ (let_ai_play-IsBacked w (b at))
  step_at-IsBacked World.closed r w at b = b

  -- Whatever packet a session's process gets: if the table has the game of the session before, it has
  -- it behind the packet, the session then running.
  pub step-IsBacked :
      (w : World) (r : Received)
      → (w.stage ≡ World.playing → IsBacked w)
      → (step c w r).stage ≡ World.playing
      → IsBacked (step c w r)
  unfolding step
  step-IsBacked w r b = step_at-IsBacked w.stage r w refl b
