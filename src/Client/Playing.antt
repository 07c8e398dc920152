-- ===== src/Client/Playing.antt =====
-- A player at the graphical client of src/client_gui.c: clicks, the network thread, and the answers of
-- src/server.c.
use tcg_final_project.Prelude.{
  ℕ, ◌<◌, ◌≡◌, ◌≢◌, refl, sym, ap, ◌∙◌, List, [], ◌∷◌, ◌++◌, drop, drop-append, length, map, get_or,
  Bool, true, false, Option, none, some,
}
use mathlib.Core.Path.{subst}
use tcg_final_project.Prelude.Words.{u8}
use tcg_final_project.Proto.Opcode.{op_play_card, op_end_turn}
use tcg_final_project.Session.World.{Libc, World, Reply, Received}
use tcg_final_project.Session.World
use tcg_final_project.Session.Serve.{run}
use tcg_final_project.Session.Duty.{IsServing}
use tcg_final_project.Session.Backed.{IsBacked, step-IsBacked}
use tcg_final_project.Session.Steps.{step-my_sid}
use tcg_final_project.Client.{Gui, game_over_at, on_packets}
use tcg_final_project.Client.Answers.{Layout, wire}
use tcg_final_project.Client.App.{between}
use tcg_final_project.Client.Telling.{Tells, step_play-Tells, step_end_turn-Tells}
use tcg_final_project.Client.Hearing.{after_game, on_packets-after_game}
use tcg_final_project.Client.NetThread.{Command, on_command, Target, click}
use tcg_final_project.Client.Clicking.{Asked, asks_end, asks_play, click-Asked}

-- The server's process, what the two threads of the client share, the card that is selected, and
-- whether the network thread has broken the connection off.
pub record Playing : Type 0 where
  pub world : World
  pub gui : Gui
  pub selected : Option ℕ
  pub stopped : Bool

module _ (l : Layout) where
  open l use {state_bytes, hand_bytes}

  -- The server waits for the player and has the game in the table, and the client shows the server's
  -- game, on a connection that stands, and remembers its session id.
  pub record IsInStep (p : Playing) : Type 0 where
    pub serving : IsServing p.world
    pub backed : IsBacked p.world
    pub sid_eq : p.gui.session_id ≡ p.world.my_sid
    pub sid_pos : p.gui.session_id ≢ 0
    pub sid_lt : p.gui.session_id < 18446744073709551616
    pub st_eq : p.gui.st ≡ state_bytes p.world.game.st
    pub hand_eq : p.gui.hand ≡ hand_bytes p.world.game.hand
    pub over_eq : p.gui.game_over ≡ get_or (state_bytes p.world.game.st) game_over_at 0
    pub has_state : p.gui.has_state ≡ true
    pub has_hand : p.gui.has_hand ≡ true
    pub is_connected : p.gui.connected ≡ true
    pub stands : p.stopped ≡ false

module _ (c : Libc) (l : Layout) where
  -- A command goes over the pipe to the network thread, which sends a packet for it, and what the
  -- server answers comes back to the thread.
  unfoldable pub ask : Command → Playing → Playing
  ask cmd p =
      let n = on_command cmd (record { gui = p.gui; last_ping = 0; sent = [] }) in
      let w = run c p.world n.sent in
      let (stop, g) = on_packets (between c l p.world w) n.gui in
      record p { world = w; gui = g; stopped = stop }

  abbrev pub ask_if : Option Command → Playing → Playing
  ask_if none p = p
  ask_if (some cmd) p = ask cmd p

  -- A click.
  unfoldable pub click_on : Target → Playing → Playing
  click_on at p = let (cmd, s) = click p.gui at p.selected in ask_if cmd (record p { selected = s })

  unfoldable pub clicks : List Target → Playing → Playing
  clicks [] p = p
  clicks (at ∷ more) p = clicks more (click_on at p)

  -- An answer that tells the game puts a client in step.
  heard-IsInStep :
      (w w' : World) (g : Gui) (selected : Option ℕ)
      → Tells w w'
      → IsBacked w'
      → g.session_id ≡ w'.my_sid
      → g.session_id ≢ 0
      → g.session_id < 18446744073709551616
      → let r = on_packets (between c l w w') g in
        IsInStep l (record { world = w'; gui = r.1; selected = selected; stopped = r.0 })
  heard-IsInStep w w' g selected t b sid pos small =
      let told = t.others ++ World.state w'.game.st ∷ World.hand w'.game.hand ∷ [] in
      let fresh : between c l w w' ≡ map (wire l) told =
        ap (λ s. map (wire l) (drop (length w.sent) s)) t.sent_eq
        ∙ ap (map (wire l)) (drop-append w.sent told) in
      let heard : on_packets (between c l w w') g
          ≡ (false, after_game l w'.game.st w'.game.hand g) =
        ap (λ rs. on_packets rs g) fresh
        ∙ on_packets-after_game l t.others w'.game.st w'.game.hand g t.errors in
      subst (λ r. IsInStep l (record { world = w'; gui = r.1; selected = selected; stopped = r.0 }))
        (sym heard)
        (record {
          serving = t.serving;
          backed = b;
          sid_eq = sid;
          sid_pos = pos;
          sid_lt = small;
          st_eq = refl;
          hand_eq = refl;
          over_eq = refl;
          has_state = refl;
          has_hand = refl;
          is_connected = refl;
          stands = refl;
        })

  ask-IsInStep :
      (g : Gui) (selected : Option ℕ) (cmd : Command) (p : Playing)
      → Asked g selected cmd
      → IsInStep l p
      → IsInStep l (ask cmd p)
  unfolding ask on_command run
  ask-IsInStep g selected cmd p asks_end v =
      let r = World.packet op_end_turn [] in
      let t = step_end_turn-Tells c p.world v.serving in
      heard-IsInStep p.world _ p.gui p.selected t
        (step-IsBacked c p.world r (λ _. v.backed) t.serving.at)
        (v.sid_eq ∙ sym (step-my_sid c p.world r v.serving.at)) v.sid_pos v.sid_lt
  ask-IsInStep g selected cmd p (asks_play i shown again) v =
      let r = World.packet op_play_card (u8 i ∷ []) in
      let t = step_play-Tells c (u8 i) p.world v.serving in
      heard-IsInStep p.world _ p.gui p.selected t
        (step-IsBacked c p.world r (λ _. v.backed) t.serving.at)
        (v.sid_eq ∙ sym (step-my_sid c p.world r v.serving.at)) v.sid_pos v.sid_lt

  select-IsInStep :
      (s : Option ℕ) (p : Playing) → IsInStep l p → IsInStep l (record p { selected = s })
  select-IsInStep s p v = record {
    serving = v.serving;
    backed = v.backed;
    sid_eq = v.sid_eq;
    sid_pos = v.sid_pos;
    sid_lt = v.sid_lt;
    st_eq = v.st_eq;
    hand_eq = v.hand_eq;
    over_eq = v.over_eq;
    has_state = v.has_state;
    has_hand = v.has_hand;
    is_connected = v.is_connected;
    stands = v.stands;
  }

  click_on-IsInStep : (at : Target) (p : Playing) → IsInStep l p → IsInStep l (click_on at p)
  unfolding click_on
  click_on-IsInStep at p v =
      let r = click p.gui at p.selected in go r.0 refl (select-IsInStep r.1 p v)
    where
      go :
          (cmd : Option Command)
          → (click p.gui at p.selected).0 ≡ cmd
          → IsInStep l (record p { selected = (click p.gui at p.selected).1 })
          → IsInStep l (ask_if cmd (record p { selected = (click p.gui at p.selected).1 }))
      go none e s = s
      go (some cmd) e s =
          let s' = (click p.gui at p.selected).1 in
          let (_, asked) = click-Asked p.gui at p.selected s' cmd (ap (λ o. (o, s')) e) in
          ask-IsInStep p.gui p.selected cmd _ asked s

  -- Wherever the player clicks, from a graphical client that is in step with the server, when each
  -- answer comes before the next click: the two are in step again, and the table has the game.
  pub clicks-IsInStep :
      (targets : List Target) (p : Playing) → IsInStep l p → IsInStep l (clicks targets p)
  unfolding clicks
  clicks-IsInStep [] p v = v
  clicks-IsInStep (at ∷ more) p v = clicks-IsInStep more (click_on at p) (click_on-IsInStep at p v)
