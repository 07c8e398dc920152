-- ===== src/Session/Run.antt =====
-- The whole of `run_session` in src/server.c, over every sequence of packets.
use tcg_final_project.Prelude.{
  ℕ, ◌≡◌, refl, sym, ◌∙◌, List, [], ◌∷◌, false, Option, none, some, zero, suc, replicate,
}
use tcg_final_project.Game.Defs.{State, Hand}
use tcg_final_project.Ipc.{Entry, Stats, zero_entry, ipc_store_init}
use tcg_final_project.Ipc.Laws.{game_of}
use tcg_final_project.Session.World.{Libc, World, Received, Stage, handshake, playing, closed}
use tcg_final_project.Session.Serve.{let_ai_play, step_at, step, run, start}
use tcg_final_project.Session.Invariant.{IsGood, GoodAt, turn_errors}
use tcg_final_project.Session.Duty.{IsPlayers, let_ai_play-IsServing}
use tcg_final_project.Session.Serving.{serve-IsGood}
use tcg_final_project.Session.Greeting.{greet-IsGood}

module _ (c : Libc) where
  step_at-IsGood :
      (s : Stage) (r : Received) (w : World) → w.stage ≡ s → IsGood w → IsGood (step_at c s r w)
  unfolding step_at
  step_at-IsGood handshake r w at v = greet-IsGood c r w v at
  step_at-IsGood playing r w at v = serve-IsGood c r _ (let_ai_play-IsServing c w v at)
  step_at-IsGood closed r w at v = v

  pub step-IsGood : (w : World) (r : Received) → IsGood w → IsGood (step c w r)
  unfolding step
  step-IsGood w r v = step_at-IsGood w.stage r w refl v

  pub run-IsGood : (rs : List Received) (w : World) → IsGood w → IsGood (run c w rs)
  unfolding run
  run-IsGood [] w v = v
  run-IsGood (r ∷ rs) w v = run-IsGood rs (step c w r) (step-IsGood w r v)

pub start-IsGood :
    (store : List Entry) (stats : Stats) → ((k : ℕ) → GoodAt store k) → IsGood (start store stats)
unfolding turn_errors
start-IsGood store stats h = record {
  stored = h;
  fresh = λ _. refl;
  ready = λ b. cc;
  live = λ b. cc;
  quiet = refl;
}

init_empty : (n k : ℕ) → game_of (replicate n zero_entry) k ≡ none
unfolding game_of
init_empty zero k = refl
init_empty (suc n) k = init_empty n k

-- The table that the server creates has no session.
pub init-GoodAt : (k : ℕ) → GoodAt ipc_store_init k
unfolding ipc_store_init
init-GoodAt k st h e = absurd (none_is_some (sym (init_empty 128 k) ∙ e))
  where
    none_is_some : ◌≡◌ {A = Option (State × Hand)} none (some (st, h)) → ⊥
    none_is_some q = cc

module _ (c : Libc) (store : List Entry) (stats : Stats) (stored : (k : ℕ) → GoodAt store k) where
  -- Whatever packets a client sends, over a table of sound games: each time the server waits for
  -- the next packet of a running session, the game is over or it is the player's own main phase.
  pub player_may_act :
      (rs : List Received)
      → (run c (start store stats) rs).stage ≡ playing
      → IsPlayers (let_ai_play c (run c (start store stats) rs)).game.st
  player_may_act rs at =
      (let_ai_play-IsServing c _ (run-IsGood c rs _ (start-IsGood store stats stored)) at).players

  -- Whatever packets a client sends, over a table of sound games: the server never answers with the
  -- errors -11, not your turn, or -12, phase error.
  pub no_turn_errors :
      (rs : List Received) → turn_errors (run c (start store stats) rs).sent ≡ false
  no_turn_errors rs = (run-IsGood c rs _ (start-IsGood store stats stored)).quiet

  -- Whatever packets a client sends, over a table of sound games: every game of the table stays
  -- sound.
  pub table_stays_sound :
      (rs : List Received) (k : ℕ) → GoodAt (run c (start store stats) rs).store k
  table_stays_sound rs = (run-IsGood c rs _ (start-IsGood store stats stored)).stored
