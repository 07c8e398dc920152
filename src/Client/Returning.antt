-- ===== src/Client/Returning.antt =====
-- The graphical client of src/client_gui.c behind a lost connection: it resumes its session, and shows
-- the game again.
use tcg_final_project.Prelude.{
  ℕ, ◌<◌, ◌≡◌, ◌⊎◌, refl, sym, ap, ◌∙◌, List, [], ◌∷◌, ◌++◌, map, true, false, some, ◌==◌, arith,
}
use mathlib.Core.Path.{subst}
use tcg_final_project.Game.Defs.{State, Hand, resumed}
use tcg_final_project.Game.Rules.{push_log}
use tcg_final_project.Ipc.{Stats}
use tcg_final_project.Ipc.Laws.{game_of}
use tcg_final_project.Session.World.{Libc, World, Reply, Received}
use tcg_final_project.Session.World
use tcg_final_project.Session.Handshake.{greet}
use tcg_final_project.Session.Serve.{start}
use tcg_final_project.Session.Resumption.{bytes_of, Resumed, resume_req, resume-Resumed}
use tcg_final_project.Proto.Opcode.{op_resume_resp}
use tcg_final_project.Client.{Gui, opening, on_packets}
use tcg_final_project.Client.Answers.{Layout, wire, only_errors}
use tcg_final_project.Client.Memory.{on_packet-resume_resp}
use tcg_final_project.Client.Hearing.{after_game, on_packets-cons, on_packets-after_game}
use tcg_final_project.Client.NetThread.{Target}
use tcg_final_project.Client.Playing.{Playing, clicks, IsInStep, clicks-IsInStep}

module _ (l : Layout) where
  -- The connection breaks. The network thread opens another one with its first request, for which the
  -- server has forked a new process, and takes the answers.
  unfoldable pub reconnect : Libc → Stats → Playing → Playing
  reconnect c stats p =
      let down = record p.gui { connected = false } in
      let w = greet c (opening (bytes_of 8) down) (start p.world.store stats) in
      let (stop, g) = on_packets (map (wire l) w.sent) down in
      record p { world = w; gui = g; stopped = stop }

  -- From `p` to `q` the client has a new connection to the same session, shows the hand as before, and
  -- the state as before, but for the line that an earlier resumption may have added to its log.
  pub record IsBack (p q : Playing) : Type 0 where
    pub stored : State
    pub same : (p.world.game.st ≡ stored) ⊎ (p.world.game.st ≡ push_log stored resumed)
    pub stands : q.stopped ≡ false
    pub is_connected : q.gui.connected ≡ true
    pub sid_eq : q.world.my_sid ≡ p.world.my_sid
    pub remembered : q.gui.session_id ≡ p.gui.session_id
    pub state_shown : q.gui.st ≡ l.state_bytes stored
    pub hand_shown : q.gui.hand ≡ p.gui.hand
    pub goes_on : q.world.game.st ≡ push_log stored resumed

  module _ (packed : (ok sid : ℕ) → l.resume_bytes ok sid ≡ bytes_of 4 ok ++ bytes_of 8 sid) where
    on_packets-resumption :
        (sid : ℕ) (st : State) (h : Hand) (g : Gui)
        → sid < 18446744073709551616
        → on_packets (map (wire l) (World.resume_resp 1 sid ∷ World.state st ∷ World.hand h ∷ [])) g
          ≡ (false, after_game l st h (record g { session_id = sid }))
    unfolding wire only_errors
    on_packets-resumption sid st h g small =
        on_packets-cons op_resume_resp (l.resume_bytes 1 sid)
          (map (wire l) (World.state st ∷ World.hand h ∷ [])) g (record g { session_id = sid })
          (on_packet-resume_resp l packed sid g small)
        ∙ on_packets-after_game l [] st h (record g { session_id = sid }) refl

    reconnect-IsBack :
        (c : Libc) (stats : Stats) (p : Playing) → IsInStep l p → IsBack p (reconnect c stats p)
    unfolding reconnect opening
    reconnect-IsBack c stats p v =
        let sid = p.gui.session_id in
        let new = start p.world.store stats in
        let down = record p.gui { connected = false } in
        let st = v.backed.stored in
        let h = p.world.game.hand in
        let live : (sid == 0) ≡ false = ground (arith, v.sid_pos) in
        let there : game_of p.world.store sid ≡ some (st, h) =
          ap (game_of p.world.store) v.sid_eq ∙ v.backed.there in
        let asked : opening (bytes_of 8) down ≡ resume_req sid = rw live refl in
        let r : Resumed new (greet c (opening (bytes_of 8) down) new) sid st h =
          subst (λ q. Resumed new (greet c q new) sid st h) (sym asked)
            (resume-Resumed c sid st h new v.sid_lt there) in
        let heard =
          ap (λ rs. on_packets (map (wire l) rs) down) r.sent_eq
          ∙ on_packets-resumption sid st h down v.sid_lt in
        record {
          stored = st;
          same = v.backed.same;
          stands = ap (λ x. x.0) heard;
          is_connected = ap (λ x. x.1.connected) heard;
          sid_eq = r.sid_eq ∙ v.sid_eq;
          remembered = ap (λ x. x.1.session_id) heard;
          state_shown = ap (λ x. x.1.st) heard;
          hand_shown = ap (λ x. x.1.hand) heard ∙ sym v.hand_eq;
          goes_on = r.st_eq;
        }

    -- A player at a graphical client that is in step with the server clicks anywhere, each answer
    -- coming before the next click, and then the connection breaks. The next connection of the
    -- network thread gets the same session: the client shows the same hand, and the same state but
    -- for a line that an earlier resumption has added to its log, and the new process goes on with
    -- that game, a line added to its log.
    pub clicks-IsBack :
        (c c' : Libc) (stats : Stats) (targets : List Target) (p : Playing)
        → IsInStep l p
        → IsBack (clicks c l targets p) (reconnect c' stats (clicks c l targets p))
    clicks-IsBack c c' stats targets p v =
        reconnect-IsBack c' stats (clicks c l targets p) (clicks-IsInStep c l targets p v)
