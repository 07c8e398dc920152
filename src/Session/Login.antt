-- ===== src/Session/Login.antt =====
-- The login of `run_session` in src/server.c: a seat at the table, or a refusal.
use tcg_final_project.Prelude.{
  ℕ, ◌+◌, ◌<◌, ◌≡◌, ◌≢◌, refl, ◌⊎◌, inl, inr, sym, ap, ◌∙◌, List, [], ◌∷◌, ◌++◌, true, false, ◌==◌,
  ==_iff, arith, some, length,
}
use mathlib.Core.List.{append_assoc}
use native.Mathlib.Decide.{dec_lt}
use tcg_final_project.Prelude.Words.{neg}
use tcg_final_project.Game.Defs.{State, Hand, Game, Phase}
use tcg_final_project.Ipc.{ipc_alloc_session}
use tcg_final_project.Ipc.Laws.{game_of, is_live}
use tcg_final_project.Ipc.Alloc.{taken, taken-le, ipc_alloc_session-IsGrown, ipc_alloc_session-full}
use tcg_final_project.Session.World.{Libc, World, Reply, send, send_game, close, save}
use tcg_final_project.Session.World
use tcg_final_project.Session.Handshake.{new_game, allocate, welcome, log_in}
use tcg_final_project.Session.Invariant.{IsGood, save-saved}
use tcg_final_project.Session.Duty.{IsPlayers, IsServing}
use tcg_final_project.Game.Rules.{push_log}
use tcg_final_project.Game.Turns.{enter_turn, phase_draw, deal_hand}

-- The server's four answers to a login.
abbrev pub answers : ℕ → State → Hand → List Reply
answers sid st h = World.login_resp ∷ World.resume_resp 1 sid ∷ World.state st ∷ World.hand h ∷ []

pub welcome-sent :
    (c : Libc) (w : World)
    → w.my_sid ≢ 0
    → (welcome c w).sent ≡ w.sent ++ answers w.my_sid w.game.st w.game.hand
unfolding welcome send_game send save
welcome-sent c w pos =
    let live : (w.my_sid == 0) ≡ false = ground arith in
    let told = World.state w.game.st ∷ World.hand w.game.hand ∷ [] in
    rw live (
      append_assoc (((w.sent ++ World.login_resp ∷ []) ++ World.resume_resp 1 w.my_sid ∷ []))
        (World.state w.game.st ∷ []) (World.hand w.game.hand ∷ [])
      ∙ append_assoc (w.sent ++ World.login_resp ∷ []) (World.resume_resp 1 w.my_sid ∷ []) told
      ∙ append_assoc w.sent (World.login_resp ∷ []) (World.resume_resp 1 w.my_sid ∷ told))

pub welcome-stored :
    (c : Libc) (w : World)
    → w.my_sid ≢ 0
    → is_live (game_of w.store w.my_sid) ≡ true
    → game_of (welcome c w).store w.my_sid ≡ some (w.game.st, w.game.hand)
unfolding welcome send_game send
welcome-stored c w pos held =
    let live : (w.my_sid == 0) ≡ false = ground arith in rw live (save-saved c w held)

-- What a login comes to: a new session, whose game is in the table and is sent with its id, or, at a
-- full table, the error -999 and the end of the connection.
pub data LoggedIn (c : Libc) (w w' : World) : Type 0 where
  seated :
      taken w.store < length w.store
      → w'.stage ≡ World.playing
      → w'.my_sid ≢ 0
      → w'.game.st ≡ (new_game c w.game).st
      → w'.game.hand ≡ (new_game c w.game).hand
      → game_of w'.store w'.my_sid ≡ some (w'.game.st, w'.game.hand)
      → w'.sent ≡ w.sent ++ answers w'.my_sid w'.game.st w'.game.hand
      → LoggedIn c w w'
  full :
      taken w.store ≡ length w.store
      → w'.stage ≡ World.closed
      → w'.store ≡ w.store
      → w'.sent ≡ w.sent ++ World.error (neg 999) "server full" ∷ []
      → LoggedIn c w w'

module _ (c : Libc) where
  -- The fields of the world that a login leaves, from those of the allocation.
  welcome-seated :
      (w : World)
      → w.my_sid ≢ 0
      → ((welcome c w).stage ≡ World.playing)
        × ((welcome c w).my_sid ≡ w.my_sid)
        × ((welcome c w).game.st ≡ w.game.st)
        × ((welcome c w).game.hand ≡ w.game.hand)
  unfolding welcome send_game send save
  welcome-seated w pos =
      let live : (w.my_sid == 0) ≡ false = ground arith in rw live (refl, refl, refl, refl)

  welcome-full :
      (w : World)
      → w.my_sid ≡ 0
      → ((welcome c w).stage ≡ World.closed)
        × ((welcome c w).store ≡ w.store)
        × ((welcome c w).sent ≡ w.sent ++ World.error (neg 999) "server full" ∷ [])
  unfolding welcome send close
  welcome-full w none_left =
      let zero_sid : (w.my_sid == 0) ≡ true = (==_iff _ _).1 none_left in
      rw zero_sid (refl, refl, refl)

  -- A login has one of two results. With a free slot, the process plays, under a session id that is
  -- not 0, the new game, which is in the table under that id, and sends the login's answer, the id,
  -- the state and the hand. At a full table it sends the error -999 alone, closes, and leaves the
  -- table as it was.
  pub log_in-LoggedIn : (w : World) → LoggedIn c w (log_in c w)
  unfolding log_in allocate
  log_in-LoggedIn w =
      let g = new_game c w.game in
      let r =
        ipc_alloc_session (c.time w.accesses) (c.time (w.accesses + 1)) c.pid (c.rand g.rands)
          w.store in
      let x = allocate c (record w { game = g }) in
      elim (dec_lt (taken w.store) (length w.store)) [
        | yes free ↦
            let grown =
              ipc_alloc_session-IsGrown (c.time w.accesses) (c.time (w.accesses + 1)) c.pid
                (c.rand g.rands) w.store free in
            let (stage, sid, st, hand) = welcome-seated x grown.sid_pos in
            let same_game : some (x.game.st, x.game.hand)
                ≡ some ((welcome c x).game.st, (welcome c x).game.hand) =
              cc (st, hand) in
            let same_answers : answers x.my_sid x.game.st x.game.hand
                ≡ answers (welcome c x).my_sid (welcome c x).game.st (welcome c x).game.hand =
              cc (sid, st, hand) in
            seated free stage (λ e. grown.sid_pos (sym sid ∙ e)) st hand
              (ap (game_of (welcome c x).store) sid
                ∙ welcome-stored c x grown.sid_pos grown.live
                ∙ same_game)
              (welcome-sent c x grown.sid_pos ∙ ap (λ a. w.sent ++ a) same_answers)
        | no over ↦
            let all : taken w.store ≡ length w.store = omega (arith, taken-le w.store) in
            let e =
              ipc_alloc_session-full (c.time w.accesses) (c.time (w.accesses + 1)) c.pid
                (c.rand g.rands) w.store all in
            let (stage, store, sent) = welcome-full x (ap (λ p. p.0) e) in
            full all stage (store ∙ ap (λ p. p.1) e) sent
      ]

-- A new game begins with the player's turn.
new_game-turn : (c : Libc) (g : Game) → (new_game c g).st.turn ≡ 0
unfolding new_game enter_turn phase_draw push_log deal_hand
new_game-turn c g = refl

IsPlayers-of :
    (st : State) → (st.game_over ≡ 1) ⊎ (st.phase ≡ Phase.main) → st.turn ≡ 0 → IsPlayers st
IsPlayers-of st (inl over) turn = inl over
IsPlayers-of st (inr phase) turn = inr (turn, phase)

-- A thread of the stress client against a new child of the server, whose table has sound games,
-- over a connection that loses nothing, and for a layout that puts `game_over` in its place: with
-- a free slot the thread ends, and reports the time of its login and of some of its rounds, and
-- of all of them unless it is the first thread; at a full table it reports -1. It never waits for
-- a packet that does not come.
-- Behind a login that has got a seat the process waits for the player.
pub login-IsServing :
    (c : Libc) (g : Game) (w : World)
    → IsGood w
    → w.stage ≡ World.playing
    → w.game.st ≡ (new_game c g).st
    → IsServing w
login-IsServing c g w good at same = record {
  good = good;
  at = at;
  players =
      IsPlayers-of w.game.st (good.ready at).main_phase (ap (λ s. s.turn) same ∙ new_game-turn c g);
}
