-- ===== src/Client/Memory.antt =====
-- What the network thread of src/client_gui.c remembers of a session, for the next connection.
use tcg_final_project.Prelude.{
  ℕ, ◌<◌, ◌≡◌, ◌≢◌, refl, sym, ◌∙◌, List, [], ◌∷◌, ◌++◌, map, get_or, Bool, true, false, ◌==◌,
  arith,
}
use tcg_final_project.Game.Defs.{State, Hand}
use tcg_final_project.Proto.Opcode.{op_state, op_hand, op_resume_resp, op_login_resp}
use tcg_final_project.Session.World.{Libc, World, Reply, Received, send, send_game, save, get_u64}
use tcg_final_project.Session.World
use tcg_final_project.Session.Handshake.{welcome, greet}
use tcg_final_project.Session.Login.{answers, welcome-sent, welcome-stored}
use tcg_final_project.Session.Serve.{start}
use tcg_final_project.Ipc.{Stats}
use tcg_final_project.Ipc.Laws.{game_of, is_live}
use mathlib.Core.Path.{subst}
use tcg_final_project.Session.Resumption.{
  bytes_of, Resumed, resume-Resumed, resume_req, get_u64-bytes_of, u64-shifted,
}
use tcg_final_project.Client.{Gui, game_over_at, opening, on_resume_resp, on_packet, on_packets}
use tcg_final_project.Client.Answers.{Layout, wire}
use tcg_final_project.Client.Hearing.{on_packet-state, on_packet-hand, on_packets-cons}

module _ (l : Layout)
    (packed : (ok sid : ℕ) → l.resume_bytes ok sid ≡ bytes_of 4 ok ++ bytes_of 8 sid) where
  open l use {state_bytes, hand_bytes, state_length, hand_length}

  on_resume_resp-ok :
      (sid : ℕ) (g : Gui)
      → sid < 18446744073709551616
      → on_resume_resp (l.resume_bytes 1 sid) g ≡ (false, record g { session_id = sid })
  unfolding on_resume_resp get_u64
  on_resume_resp-ok sid g small =
      let back : get_u64 (bytes_of 8 sid) ≡ sid = get_u64-bytes_of 8 sid (u64-shifted sid small) in
      rw (packed 1 sid) (rw back refl)

  -- The client's memory of the session `sid` with the game `st` and `h`.
  pub record Remembers (sid : ℕ) (st : State) (h : Hand) (r : Bool × Gui) : Type 0 where
    pub goes_on : r.0 ≡ false
    pub sid_eq : r.1.session_id ≡ sid
    pub state_eq : r.1.st ≡ state_bytes st
    pub hand_eq : r.1.hand ≡ hand_bytes h
    pub asks_again : opening (bytes_of 8) r.1 ≡ resume_req sid

  -- What a GUI is when it has heard the answers to a login.
  abbrev after_login : ℕ → State → Hand → Gui → Gui
  after_login sid st h g = record g {
    session_id = sid;
    st = state_bytes st;
    has_state = true;
    connected = true;
    game_over = get_or (state_bytes st) game_over_at 0;
    hand = hand_bytes h;
    has_hand = true;
  }

  pub on_packet-resume_resp :
      (sid : ℕ) (g : Gui)
      → sid < 18446744073709551616
      → on_packet op_resume_resp (l.resume_bytes 1 sid) g ≡ (false, record g { session_id = sid })
  unfolding on_packet
  on_packet-resume_resp sid g small = on_resume_resp-ok sid g small

  on_packet-login_resp : (g : Gui) → on_packet op_login_resp l.login_bytes g ≡ (false, g)
  unfolding on_packet
  on_packet-login_resp g = refl

  on_packets-answers :
      (sid : ℕ) (st : State) (h : Hand) (g : Gui)
      → sid < 18446744073709551616
      → on_packets (map (wire l) (answers sid st h)) g ≡ (false, after_login sid st h g)
  unfolding wire on_packets
  on_packets-answers sid st h g small =
      let g1 : Gui = record g { session_id = sid } in
      let g2 : Gui = record g1 {
        st = state_bytes st;
        has_state = true;
        connected = true;
        game_over = get_or (state_bytes st) game_over_at 0;
      } in
      let p4 : List Received = World.packet op_hand (hand_bytes h) ∷ [] in
      let p3 : List Received = World.packet op_state (state_bytes st) ∷ p4 in
      let p2 : List Received = World.packet op_resume_resp (l.resume_bytes 1 sid) ∷ p3 in
      on_packets-cons op_login_resp l.login_bytes p2 g g (on_packet-login_resp g)
      ∙ on_packets-cons op_resume_resp (l.resume_bytes 1 sid) p3 g g1
          (on_packet-resume_resp sid g small)
      ∙ on_packets-cons op_state (state_bytes st) p4 g1 g2 (on_packet-state l st g1)
      ∙ on_packets-cons op_hand (hand_bytes h) [] g2 (after_login sid st h g)
          (on_packet-hand l h g2)

  after_login-Remembers :
      (sid : ℕ) (st : State) (h : Hand) (g : Gui)
      → sid ≢ 0
      → Remembers sid st h (false, after_login sid st h g)
  unfolding opening
  after_login-Remembers sid st h g pos =
      let live : (sid == 0) ≡ false = ground arith in
      record {
        goes_on = refl;
        sid_eq = refl;
        state_eq = refl;
        hand_eq = refl;
        asks_again = rw live refl;
      }

  -- When a login gets a session id that is a `uint64_t`, not 0 and held by the table, the packets
  -- that the server sends leave the graphical client with that session id and with the bytes of the
  -- state and the hand; and if the connection breaks then, the request with which the client opens
  -- the next one makes a new process of the server go on with that very game, a line added to its
  -- log, and send it.
  pub welcome-Remembers :
      (c : Libc) (w : World) (g : Gui) (stats : Stats)
      → w.my_sid ≢ 0
      → w.my_sid < 18446744073709551616
      → is_live (game_of w.store w.my_sid) ≡ true
      → (told : List Reply) × ((welcome c w).sent ≡ w.sent ++ told)
        × Remembers w.my_sid w.game.st w.game.hand (on_packets (map (wire l) told) g)
        × Resumed
            (start (welcome c w).store stats)
            (greet c
              (opening (bytes_of 8) (on_packets (map (wire l) told) g).1)
              (start (welcome c w).store stats))
            w.my_sid
            w.game.st
            w.game.hand
  welcome-Remembers c w g stats pos small held =
      let sid = w.my_sid in
      let told = answers sid w.game.st w.game.hand in
      let heard = on_packets-answers sid w.game.st w.game.hand g small in
      let v : Remembers sid w.game.st w.game.hand (on_packets (map (wire l) told) g) =
        subst (Remembers sid w.game.st w.game.hand) (sym heard)
          (after_login-Remembers sid w.game.st w.game.hand g pos) in
      (
        told,
        welcome-sent c w pos,
        v,
        subst
            (λ r.
              Resumed (start (welcome c w).store stats)
                (greet c r (start (welcome c w).store stats)) sid w.game.st w.game.hand)
            (sym v.asks_again)
            (resume-Resumed c sid w.game.st w.game.hand (start (welcome c w).store stats) small
              (welcome-stored c w pos held)),
      )
