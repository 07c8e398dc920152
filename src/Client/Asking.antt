-- ===== src/Client/Asking.antt =====
-- The command of a click in src/client_gui.c and the answer of src/server.c to it.
use tcg_final_project.Prelude.{
  ℕ, ◌<◌, ◌≤◌, ◌≡◌, ◌⊎◌, inl, inr, refl, sym, ap, ◌∙◌, List, [], ◌∷◌, ◌++◌, Bool, true, false, not,
  ◌||◌, Option, some, ◌==◌, ==_iff, get_or, arith,
}
use mathlib.Core.List.{append-nil}
use mathlib.Core.Path.{subst}
use tcg_final_project.Prelude.Words.{neg, u8}
use tcg_final_project.Game.Defs.{State}
use tcg_final_project.Game.Rules.{handle_play_card}
use tcg_final_project.Game.Turns.{phase_end}
use tcg_final_project.Game.Play.{
  Outcome, no_place, no_card, no_mana, played, handle_play_card-Outcome,
}
use tcg_final_project.Proto.Opcode.{op_play_card, op_end_turn}
use tcg_final_project.Session.World.{Libc, World, Reply, Received, send, send_game, save, touch}
use tcg_final_project.Session.World
use tcg_final_project.Session.Serve.{complain, let_ai_play, play, on_end_turn, step}
use tcg_final_project.Session.Duty.{IsServing, my_turn}
use tcg_final_project.Session.Serving.{counted-IsServing}
use tcg_final_project.Session.Waiting.{counted, step-play, step-on_end_turn}
use tcg_final_project.Client.{Gui, game_over_at}
use tcg_final_project.Client.Answers.{Layout, let_ai_play-sent}
use tcg_final_project.Client.Telling.{send_game-sent}
use tcg_final_project.Client.NetThread.{
  Command, Net, on_command, Target, shown_cards, may_ask, click,
}
use tcg_final_project.Client.Clicking.{Asked, asks_end, asks_play, click-Asked}

-- An error that says that the client has asked for what it may not.
abbrev pub is_misuse : Reply → Bool
is_misuse (World.error code msg) = not (code == neg 2 || code == neg 3)
is_misuse _ = false

unfoldable pub misuses : List Reply → Bool
misuses [] = false
misuses (r ∷ rs) = is_misuse r || misuses rs

-- From `w` to `w'` the server sends the game behind no error of misuse.
pub record Serves (w w' : World) : Type 0 where
  pub told : List Reply
  pub sent_eq : w'.sent ≡ w.sent ++ (told ++ World.state w'.game.st ∷ World.hand w'.game.hand ∷ [])
  pub polite : misuses told ≡ false

complain-polite :
    (rc : ℕ) (w : World)
    → (rc ≡ 0) ⊎ (rc ≡ neg 2) ⊎ (rc ≡ neg 3)
    → (others : List Reply) × ((complain rc w).sent ≡ w.sent ++ others) × (misuses others ≡ false)
unfolding complain send misuses
complain-polite rc w (inl fine) = ([], rw fine (sym (append-nil w.sent)), refl)
complain-polite rc w (inr (inl mana)) =
    (World.error (neg 2) "not enough mana" ∷ [], rw mana refl, refl)
complain-polite rc w (inr (inr gone)) =
    (World.error (neg 3) "invalid card" ∷ [], rw gone refl, refl)

send_game-shown :
    (w w1 : World) (others : List Reply)
    → w1.sent ≡ w.sent ++ others
    → (send_game w1).sent
      ≡ w.sent
        ++ (others ++ World.state (send_game w1).game.st ∷ World.hand (send_game w1).game.hand ∷ [])
unfolding send_game send
send_game-shown w w1 others before = send_game-sent w w1 others before

module _ (c : Libc) where
  play-rc :
      (idx : ℕ) (w : World)
      → IsServing w
      → idx < 3
      → let r = handle_play_card w.game.st w.game.hand true idx in
        (r.0 ≡ 0) ⊎ (r.0 ≡ neg 2) ⊎ (r.0 ≡ neg 3)
  play-rc idx w v inside =
      let p = v.good.ready v.at in
      go (handle_play_card-Outcome w.game.st w.game.hand true idx (omega (arith, p.shaped.mana_le)))
        p.holds.n_eq
    where
      go :
          Outcome w.game.st w.game.hand true idx (handle_play_card w.game.st w.game.hand true idx)
          → w.game.hand.n ≡ 3
          → let r = handle_play_card w.game.st w.game.hand true idx in
            (r.0 ≡ 0) ⊎ (r.0 ≡ neg 2) ⊎ (r.0 ≡ neg 3)
      go (no_place out e) three = absurd (omega (arith, out, three, inside))
      go (no_card place none_there e) three = inr (inr (ap (λ r. r.0) e))
      go (no_mana d place there poor e) three = inr (inl (ap (λ r. r.0) e))
      go (played d place there rich e) three = inl (ap (λ r. r.0) e)

  play-Serves : (idx : ℕ) (w : World) → IsServing w → idx < 3 → Serves w (play c idx w)
  unfolding play save
  play-Serves idx w v inside =
      let (rc, st) = handle_play_card w.game.st w.game.hand true idx in
      let w1 = record w { game = record w.game { st = st } } in
      let (others, told, polite) = complain-polite rc w1 (play-rc idx w v inside) in
      record {
        told = others;
        sent_eq = send_game-shown w (save c (complain rc w1)) others told;
        polite = polite;
      }

  on_end_turn-Serves : (w : World) → w.game.st.turn ≡ 0 → Serves w (on_end_turn c w)
  unfolding on_end_turn save misuses
  on_end_turn-Serves w turn =
      let mine : (w.game.st.turn == 0) ≡ true = (==_iff _ _).1 turn in
      let ended = save c (record w { game = phase_end c.rand w.game }) in
      let same : on_end_turn c w ≡ send_game (let_ai_play c ended) = rw mine refl in
      subst (λ w'. Serves w w') (sym same)
        (record {
          told = [];
          sent_eq =
              send_game-shown w (let_ai_play c ended) []
                (let_ai_play-sent c ended ∙ sym (append-nil w.sent));
          polite = refl;
        })

  -- The count of a packet sends nothing.
  of_counted : (w w' : World) → Serves (counted c w) w' → Serves w w'
  unfolding touch
  of_counted w w' t = record { told = t.told; sent_eq = t.sent_eq; polite = t.polite }

  command-Serves :
      (w : World) (g : Gui) (selected : Option ℕ) (cmd : Command) (n : Net)
      → IsServing w
      → w.game.st.game_over ≡ 0
      → Asked g selected cmd
      → (p : Received) × ((on_command cmd n).sent ≡ n.sent ++ p ∷ []) × Serves w (step c w p)
  unfolding on_command shown_cards touch
  command-Serves w g selected cmd n v on asks_end =
      let (turn, _) = my_turn w.game.st v.players on in
      (
        World.packet op_end_turn [],
        refl,
        subst (λ w'. Serves w w') (sym (step-on_end_turn c w v on))
            (of_counted w _ (on_end_turn-Serves (counted c w) turn)),
      )
  command-Serves w g selected cmd n v on (asks_play i shown again) = (
    World.packet op_play_card (u8 i ∷ []),
    refl,
    subst (λ w'. Serves w w') (sym (step-play c (u8 i) w v on))
        (of_counted w _
          (play-Serves (u8 i) (counted c w) (counted-IsServing c w v) (ground (arith, shown)))),
  )

  goes_on :
      (l : Layout)
      → ((st : State) → st.game_over ≤ 1 → get_or (l.state_bytes st) game_over_at 0 ≡ st.game_over)
      → (w : World) (g : Gui) → IsServing w
      → g.st ≡ l.state_bytes w.game.st
      → may_ask g ≡ true
      → w.game.st.game_over ≡ 0
  unfolding may_ask
  goes_on l placed w g v shown may =
      let le = (v.good.ready v.at).shaped.over_le in
      let byte : get_or g.st game_over_at 0 ≡ w.game.st.game_over =
        ap (λ b. get_or b game_over_at 0) shown ∙ placed w.game.st le in
      ground (arith, byte, may)

  -- A graphical client shows the state of a server that waits for the player, in a layout that puts
  -- `game_over` in its place. If a click then sends a command, whatever is under the mouse and
  -- selected, the network thread sends one packet for it, and the server answers that with the
  -- state and the hand, behind no error but -2, not enough mana, or -3, invalid card.
  pub click-Serves :
      (l : Layout)
      → ((st : State) → st.game_over ≤ 1 → get_or (l.state_bytes st) game_over_at 0 ≡ st.game_over)
      → (w : World) (g : Gui) (at : Target) (selected s : Option ℕ) (cmd : Command) (n : Net)
      → IsServing w
      → g.st ≡ l.state_bytes w.game.st
      → click g at selected ≡ (some cmd, s)
      → (p : Received) × ((on_command cmd n).sent ≡ n.sent ++ p ∷ []) × Serves w (step c w p)
  click-Serves l placed w g at selected s cmd n v shown h =
      let (may, asked) = click-Asked g at selected s cmd h in
      command-Serves w g selected cmd n v (goes_on l placed w g v shown may) asked
