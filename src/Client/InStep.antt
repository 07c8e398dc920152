-- ===== src/Client/InStep.antt =====
-- The terminal client of src/client_app.c against the server of src/server.c: after each key both have
-- the same game.
use tcg_final_project.Prelude.{
  ℕ, ◌-◌, ◌≡◌, ◌≤◌, inl, inr, refl, sym, ap, ◌∙◌, List, [], ◌∷◌, ◌++◌, drop, drop-append, length,
  map, Bool, true, false, ◌||◌, ◌==◌, ==_iff, get_or, if◌then◌else◌, leb, Bool-cases,
}
use mathlib.Core.Path.{subst}
use mathlib.Core.List.{append-nil}
use tcg_final_project.Prelude.Words.{u8}
use tcg_final_project.Game.Defs.{State}
use tcg_final_project.Session.World.{Libc, World, touch}
use tcg_final_project.Session.Serve.{play, on_end_turn}
use tcg_final_project.Session.Duty.{IsServing, my_turn}
use tcg_final_project.Session.Serving.{counted-IsServing}
use tcg_final_project.Session.Waiting.{
  counted, play-IsServing, on_end_turn-IsServing, step-play, step-on_end_turn,
}
use tcg_final_project.Client.{recv_until, game_over_at}
use tcg_final_project.Client.Answers.{Layout, wire, Answered, play-Answered, on_end_turn-Answered}
use tcg_final_project.Client.App.{
  App, Request, quit, nothing, end_turn, request, Round, stays, leaves, waits, heard_round,
  exchange, app_round, packet_of, served, between, follow, drive,
}
use tcg_final_project.Client.App

module _ (c : Libc) (l : Layout)
    (placed : (st : State)
      → st.game_over ≤ 1
      → get_or (l.state_bytes st) game_over_at 0 ≡ st.game_over) where
  open l use {state_bytes, hand_bytes}

  -- The server waits for the player, and the client shows the server's game.
  pub record InStep (w : World) (a : App) : Type 0 where
    pub serving : IsServing w
    pub st_eq : a.st ≡ state_bytes w.game.st
    pub hand_eq : a.hand ≡ hand_bytes w.game.hand

  -- The loop is left, or the two are in step.
  pub data Agrees (w : World) (r : Round) : Type 0 where
    left : r ≡ leaves → Agrees w r
    agrees : (a : App) → r ≡ stays a → InStep w a → Agrees w r

  exchange-Agrees :
      (w w' : World) (a : App)
      → IsServing w'
      → Answered l w w' [] a.st a.hand
      → Agrees w' (exchange true (between c l w w') a)
  unfolding exchange
  exchange-Agrees w w' a v (told, sent, heard) =
      let fresh : between c l w w' ≡ map (wire l) told ++ [] =
        ap (λ s. map (wire l) (drop (length w.sent) s)) sent
        ∙ ap (map (wire l)) (drop-append w.sent told)
        ∙ sym (append-nil (map (wire l) told)) in
      let got = ap (λ rs. recv_until rs a.st a.hand) fresh ∙ heard in
      agrees (record { st = state_bytes w'.game.st; hand = hand_bytes w'.game.hand }) (rw got refl)
        (record { serving = v; st_eq = refl; hand_eq = refl })

  play-Agrees :
      (idx : ℕ) (w : World) (a : App)
      → InStep w a
      → w.game.st.game_over ≡ 0
      → Agrees (served c l (packet_of (App.play idx)) w) (
          app_round (App.play idx) true (between c l w (served c l (packet_of (App.play idx)) w)) a)
  unfolding app_round touch
  play-Agrees idx w a s on =
      let x = counted c w in
      subst (λ w'. Agrees w' (exchange true (between c l w w') a))
        (sym (step-play c idx w s.serving on))
        (exchange-Agrees w (play c idx x) a
          (play-IsServing c idx x (counted-IsServing c w s.serving) on)
          (play-Answered l c idx x [] a.st a.hand))

  end_turn-Agrees :
      (w : World) (a : App)
      → InStep w a
      → w.game.st.game_over ≡ 0
      → Agrees
          (served c l (packet_of end_turn) w)
          (app_round end_turn true (between c l w (served c l (packet_of end_turn) w)) a)
  unfolding app_round touch
  end_turn-Agrees w a s on =
      let x = counted c w in
      let (turn, _) = my_turn w.game.st s.serving.players on in
      subst (λ w'. Agrees w' (exchange true (between c l w w') a))
        (sym (step-on_end_turn c w s.serving on))
        (exchange-Agrees w (on_end_turn c x) a
          (on_end_turn-IsServing c x (counted-IsServing c w s.serving) on)
          (on_end_turn-Answered l c x [] a.st a.hand turn))

  -- A request is made only while the game goes on.
  data Asks (w : World) : Request → Type 0 where
    quits : Asks w quit
    idles : Asks w nothing
    ends : w.game.st.game_over ≡ 0 → Asks w end_turn
    plays : (i : ℕ) → w.game.st.game_over ≡ 0 → Asks w (App.play i)

  Asks-if :
      {w : World} (b : Bool) (p q : Request) → Asks w p → Asks w q → Asks w (if b then p else q)
  Asks-if true p q x y = x
  Asks-if false p q x y = y

  request-Asks : (ch : ℕ) (w : World) (a : App) → InStep w a → Asks w (request ch a)
  unfolding request
  request-Asks ch w a s =
      let shaped = (s.serving.good.ready s.serving.at).shaped in
      let over_byte : get_or a.st game_over_at 0 ≡ w.game.st.game_over =
        ap (λ b. get_or b game_over_at 0) s.st_eq ∙ placed w.game.st shaped.over_le in
      elim (Bool-cases (w.game.st.game_over == 0)) [
        | inl on ↦
            let goes_on = (==_iff _ _).0 on in
            rw (over_byte, on)
              (Asks-if (ch == b'q' || ch == b'Q') _ _ quits (
                Asks-if (ch == b'e' || ch == b'E') _ _ (ends goes_on) (
                  Asks-if (ch == b'1' || ch == b'2' || ch == b'3') _ _
                    (Asks-if (leb (get_or a.hand 0 0) (ch - b'1')) _ _ idles
                      (plays (u8 (ch - b'1')) goes_on))
                    idles)))
        | inr over ↦ rw (over_byte, over) (Asks-if (ch == b'q' || ch == b'Q') _ _ quits idles)
      ]

  round-Agrees :
      (w : World) (a : App) (q : Request)
      → InStep w a
      → Asks w q
      → Agrees
          (served c l (packet_of q) w)
          (app_round q true (between c l w (served c l (packet_of q) w)) a)
  unfolding app_round
  round-Agrees w a q s quits = left refl
  round-Agrees w a q s idles = agrees a refl s
  round-Agrees w a q s (ends on) = end_turn-Agrees w a s on
  round-Agrees w a q s (plays i on) = play-Agrees i w a s on

  -- Whatever keys the player presses, from a client that is in step with a server that waits for
  -- the player, over a connection that loses nothing and for a layout that puts `game_over` in its
  -- place: the loop is left, or the server waits for the player again and the client shows the
  -- server's state and hand. It never waits for a packet that does not come.
  pub drive-Agrees :
      (keys : List ℕ) (w : World) (a : App)
      → InStep w a
      → Agrees (drive c l keys w a).1 (drive c l keys w a).0
  unfolding drive
  drive-Agrees [] w a s = agrees a refl s
  drive-Agrees (ch ∷ keys) w a s =
      let q = request ch a in
      let w' = served c l (packet_of q) w in
      go (app_round q true (between c l w w') a) w' (round-Agrees w a q s (request-Asks ch w a s))
        (drive-Agrees keys w')
    where
      go :
          (r : Round) (w' : World)
          → Agrees w' r
          → ((a' : App) → InStep w' a' → Agrees (drive c l keys w' a').1 (drive c l keys w' a').0)
          → Agrees
              (follow r w' (λ a'. drive c l keys w' a')).1
              (follow r w' (λ a'. drive c l keys w' a')).0
      go r w' (left e) rest =
          subst
            (λ r.
              Agrees (follow r w' (λ a'. drive c l keys w' a')).1
                (follow r w' (λ a'. drive c l keys w' a')).0)
            (sym e) (left refl)
      go r w' (agrees a' e t) rest =
          subst
            (λ r.
              Agrees (follow r w' (λ a'. drive c l keys w' a')).1
                (follow r w' (λ a'. drive c l keys w' a')).0)
            (sym e) (rest a' t)
