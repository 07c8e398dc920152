-- ===== src/Server/Losing.antt =====
-- Two children of src/server.c that run one session: each goes on with its own copy of the game.
use tcg_final_project.Prelude.{ℕ, ◌≡◌, sym, ap, ◌∙◌, [], ◌∷◌, true, some}
use tcg_final_project.Game.Rules.{handle_play_card}
use tcg_final_project.Ipc.Laws.{game_of}
use tcg_final_project.Proto.Opcode.{op_play_card}
use tcg_final_project.Session.World.{Libc, World, Received, save, touch, send_game, send}
use tcg_final_project.Session.World
use tcg_final_project.Session.Serve.{play, step}
use tcg_final_project.Session.Invariant.{IsGood}
use tcg_final_project.Session.Duty.{IsServing}
use tcg_final_project.Session.Serving.{counted-IsServing}
use tcg_final_project.Session.Waiting.{counted, step-play, complain-game}
use tcg_final_project.Session.Durable.{play-IsSaved}
use tcg_final_project.Session.Run.{step-IsGood}
use tcg_final_project.Session.Steps.{step-my_sid}
use tcg_final_project.Server.{Process, System, attach, deliver}
use tcg_final_project.Server.Sharing.{step-live}
use tcg_final_project.Server.Sound.{carry}

module _ (c : Libc) (idx : ℕ) where
  play-game :
      (w : World)
      → (play c idx w).game
        ≡ record w.game { st = (handle_play_card w.game.st w.game.hand true idx).1 }
  unfolding play save send_game send
  play-game w = complain-game _ _

  -- The play that the table has then.
  step-play-saved :
      (w : World)
      → IsServing w
      → w.game.st.game_over ≡ 0
      → game_of (step c w (World.packet op_play_card (idx ∷ []))).store w.my_sid
        ≡ some ((handle_play_card w.game.st w.game.hand true idx).1, w.game.hand)
  unfolding touch
  step-play-saved w v on =
      let r = World.packet op_play_card (idx ∷ []) in
      let x = counted c w in
      let same = step-play c idx w v on in
      let sid : (play c idx x).my_sid ≡ w.my_sid =
        ap (λ y. y.my_sid) (sym same) ∙ step-my_sid c w r v.at in
      ap (λ y. game_of y.store w.my_sid) same
      ∙ ap (game_of (play c idx x).store) (sym sid)
      ∙ (play-IsSaved c idx x (counted-IsServing c w v) on).0
      ∙ ap (λ g. some (g.st, g.hand)) (play-game x)

-- A child that waits for its player still waits when another has had a packet.
deliver-IsServing :
    (i : ℕ) (p : Process) (r : Received) (s : System) (w : World)
    → IsGood (attach s p.world)
    → IsServing (attach s w)
    → IsServing (attach (deliver i p r s) w)
unfolding deliver
deliver-IsServing i p r s w g v =
    let t = deliver i p r s in
    let good = step-IsGood p.libc (attach s p.world) r g in
    record {
      good =
          carry s t w
            (record { stored = good.stored; kept = step-live p.libc (attach s p.world) r }) v.good;
      at = v.at;
      players = v.players;
    }

-- Two children run sessions on one table, the second one with the player to act in a game that goes
-- on. Whatever packet the first child gets before it: what the table has of the second child's
-- session behind the second child's next play is the same as if the first child had not had that
-- packet. So of two children that run one session, the second one's play takes back all that the
-- first one has saved.
pub deliver-loses :
    (i : ℕ) (p : Process) (r : Received) (s : System) (j : ℕ) (q : Process) (idx : ℕ)
    → IsGood (attach s p.world)
    → IsServing (attach s q.world)
    → q.world.game.st.game_over ≡ 0
    → let plays = World.packet op_play_card (idx ∷ []) in
      game_of (deliver j q plays (deliver i p r s)).store q.world.my_sid
      ≡ game_of (deliver j q plays s).store q.world.my_sid
unfolding deliver
deliver-loses i p r s j q idx g v on =
    step-play-saved q.libc idx (attach (deliver i p r s) q.world)
      (deliver-IsServing i p r s q.world g v) on
    ∙ sym (step-play-saved q.libc idx (attach s q.world) v on)
