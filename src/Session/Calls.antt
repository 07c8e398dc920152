-- ===== src/Session/Calls.antt =====
-- What a session of src/server.c does to the table of sessions that all processes share.
use tcg_final_project.Prelude.{
  ℕ, ◌≡◌, ◌≢◌, refl, sym, ap, ◌∙◌, List, [], ◌∷◌, ◌++◌, Bool, true, false, ◌&&◌, ◌||◌, ◌==◌, length,
  if◌then◌else◌, get_or, none,
}
use mathlib.Core.Path.{subst}
use tcg_final_project.Prelude.Words.{neg}
use tcg_final_project.Game.Defs.{Game}
use tcg_final_project.Game.Rules.{handle_play_card}
use tcg_final_project.Game.Turns.{phase_end}
use tcg_final_project.Game.Ai.{is_main, process_ai_turn}
use tcg_final_project.Ipc.{Entry, ipc_stats_inc_pkt}
use tcg_final_project.Ipc.Laws.{game_of, game_of-touch, game_of-save_ne, game_of-save_gone}
use tcg_final_project.Ipc.Alloc.{
  StoreCall, call, call_all, taken, taken-le, ipc_alloc_session-IsGrown, ipc_alloc_session-full,
}
use tcg_final_project.Ipc.Alloc
use tcg_final_project.Proto.Opcode.{op_ping, op_login_req, op_resume_req, op_play_card, op_end_turn}
use tcg_final_project.Session.World.{
  Libc, World, Received, broken, Reply, send, send_game, close, save, touch, get_u64,
}
use tcg_final_project.Session.World
use tcg_final_project.Session.Serve.{
  complain, let_ai_play, play, on_play_card, on_end_turn, dispatch, answer, serve,
}

-- From `w` to `w'` the table is changed by calls of src/common/ipc.c alone, and of all games only that
-- of `sid` may change.
pub record Acts (sid : ℕ) (w w' : World) : Type 0 where
  pub calls : List StoreCall
  pub store_eq : w'.store ≡ call_all calls w.store
  pub others : (k : ℕ) → k ≢ sid → game_of w'.store k ≡ game_of w.store k

-- The same, on the process's own session, and no session id comes into the table.
pub record Stays (w w' : World) : Type 0 where
  pub acts : Acts w.my_sid w w'
  pub sid_eq : w'.my_sid ≡ w.my_sid
  pub gone : (k : ℕ) → game_of w.store k ≡ none → game_of w'.store k ≡ none

call_all-append :
    (cs ds : List StoreCall) (es : List Entry)
    → call_all (cs ++ ds) es ≡ call_all ds (call_all cs es)
unfolding call_all
call_all-append [] ds es = refl
call_all-append (c ∷ cs) ds es = call_all-append cs ds (call c es)

pub Acts-trans : (sid : ℕ) (w x y : World) → Acts sid w x → Acts sid x y → Acts sid w y
Acts-trans sid w x y a b = record {
  calls = a.calls ++ b.calls;
  store_eq =
      b.store_eq ∙ ap (call_all b.calls) a.store_eq ∙ sym (call_all-append a.calls b.calls w.store);
  others = λ k ne. b.others k ne ∙ a.others k ne;
}

pub Acts-same : (sid : ℕ) (w x : World) → x.store ≡ w.store → Acts sid w x
unfolding call_all
Acts-same sid w x e = record { calls = []; store_eq = e; others = λ k ne. ap (λ s. game_of s k) e }

pub Stays-same : (w x : World) → x.store ≡ w.store → x.my_sid ≡ w.my_sid → Stays w x
Stays-same w x e q = record {
  acts = Acts-same w.my_sid w x e;
  sid_eq = q;
  gone = λ k h. ap (λ s. game_of s k) e ∙ h;
}

pub Stays-trans : (w x y : World) → Stays w x → Stays x y → Stays w y
Stays-trans w x y a b = record {
  acts = Acts-trans w.my_sid w x y a.acts (subst (λ k. Acts k x y) a.sid_eq b.acts);
  sid_eq = b.sid_eq ∙ a.sid_eq;
  gone = λ k h. b.gone k (a.gone k h);
}

pub Stays-if : (b : Bool) (w x y : World) → Stays w x → Stays w y → Stays w (if b then x else y)
Stays-if true w x y p q = p
Stays-if false w x y p q = q

complain-Stays : (rc : ℕ) (w : World) → Stays w (complain rc w)
unfolding complain send
complain-Stays rc w = Stays-if (rc == 0) w _ _ (Stays-same w _ refl refl) (
    Stays-if (rc == neg 1) w _ _ (Stays-same w _ refl refl)
      (Stays-if (rc == neg 2) w _ _ (Stays-same w _ refl refl) (Stays-same w _ refl refl)))

module _ (c : Libc) where
  pub save-Stays : (w : World) → Stays w (save c w)
  unfolding save call call_all
  save-Stays w = record {
    acts = record {
      calls = Alloc.save w.my_sid w.game.st w.game.hand (c.time w.accesses) ∷ [];
      store_eq = refl;
      others =
          λ k ne. game_of-save_ne w.store w.my_sid w.game.st w.game.hand (c.time w.accesses) k ne;
    };
    sid_eq = refl;
    gone = λ k h. game_of-save_gone w.store w.my_sid w.game.st w.game.hand (c.time w.accesses) k h;
  }

  -- A save of the session with another game in the process.
  save_game-Stays : (w : World) (g : Game) → Stays w (save c (record w { game = g }))
  save_game-Stays w g =
      Stays-trans w (record w { game = g }) _ (Stays-same w _ refl refl)
        (save-Stays (record w { game = g }))

  touch-Stays : (w : World) → Stays w (touch c w)
  unfolding touch call call_all
  touch-Stays w = record {
    acts = record {
      calls = Alloc.touch w.my_sid (c.time w.accesses) ∷ [];
      store_eq = refl;
      others = λ k ne. game_of-touch w.store w.my_sid (c.time w.accesses) k;
    };
    sid_eq = refl;
    gone = λ k h. game_of-touch w.store w.my_sid (c.time w.accesses) k ∙ h;
  }

  pub let_ai_play-Stays : (w : World) → Stays w (let_ai_play c w)
  unfolding let_ai_play
  let_ai_play-Stays w =
      Stays-if (w.game.st.turn == 1 && w.game.st.game_over == 0) w _ _
        (save_game-Stays w (process_ai_turn c.rand w.game)) (Stays-same w _ refl refl)

  pub send_game-Stays : (w x : World) → Stays w x → Stays w (send_game x)
  unfolding send_game send
  send_game-Stays w x s = Stays-trans w x _ s (Stays-same x _ refl refl)

  pub send-Stays : (r : Reply) (w : World) → Stays w (send r w)
  unfolding send
  send-Stays r w = Stays-same w _ refl refl

  play-Stays : (idx : ℕ) (w : World) → Stays w (play c idx w)
  unfolding play
  play-Stays idx w =
      let (rc, st) = handle_play_card w.game.st w.game.hand true idx in
      let played = record w { game = record w.game { st = st } } in
      send_game-Stays w _ (
        Stays-trans w played _ (Stays-same w played refl refl)
          (Stays-trans played (complain rc played) _ (complain-Stays rc played) (save-Stays _)))

  on_play_card-Stays : (payload : List ℕ) (w : World) → Stays w (on_play_card c payload w)
  unfolding on_play_card
  on_play_card-Stays payload w =
      Stays-if (w.game.st.turn == 0) w _ _
        (Stays-if (is_main w.game.st.phase) w _ _
          (Stays-if (length payload == 1) w _ _ (play-Stays (get_or payload 0 0) w)
            (send-Stays _ w))
          (send-Stays _ w))
        (send-Stays _ w)

  on_end_turn-Stays : (w : World) → Stays w (on_end_turn c w)
  unfolding on_end_turn
  on_end_turn-Stays w =
      let ended = save c (record w { game = phase_end c.rand w.game }) in
      Stays-if (w.game.st.turn == 0) w _ _
        (send_game-Stays w _ (
          Stays-trans w ended _ (save_game-Stays w (phase_end c.rand w.game))
            (let_ai_play-Stays ended)))
        (send-Stays _ w)

  dispatch-Stays : (op : ℕ) (payload : List ℕ) (w : World) → Stays w (dispatch c op payload w)
  unfolding dispatch
  dispatch-Stays op payload w = Stays-if (op == op_play_card) w _ _ (on_play_card-Stays payload w) (
      Stays-if (op == op_end_turn) w _ _ (on_end_turn-Stays w) (
        Stays-if (op == op_login_req || op == op_resume_req) w _ _ (Stays-same w _ refl refl)
          (send-Stays _ w)))

  answer-Stays : (op : ℕ) (payload : List ℕ) (w : World) → Stays w (answer c op payload w)
  unfolding answer
  answer-Stays op payload w = Stays-if (op == op_ping) w _ _ (send-Stays _ w) (
      Stays-if (w.game.st.game_over == 0) w _ _ (dispatch-Stays op payload w)
        (send_game-Stays w w (Stays-same w w refl refl)))

  -- The main loop touches no session but the process's own.
  pub serve-Stays : (r : Received) (w : World) → Stays w (serve c r w)
  unfolding serve close
  serve-Stays broken w = Stays-same w _ refl refl
  serve-Stays (World.packet op payload) w =
      let counted = record w { stats = ipc_stats_inc_pkt w.stats } in
      Stays-trans w counted _ (Stays-same w counted refl refl) (
        Stays-trans counted (touch c counted) _ (touch-Stays counted)
          (answer-Stays op payload (touch c counted)))
