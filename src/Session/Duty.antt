-- ===== src/Session/Duty.antt =====
-- The AI's turn in the main loop of `run_session` in src/server.c: behind it the player may act.
use tcg_final_project.Prelude.{ℕ, ◌≡◌, ◌≢◌, ◌⊎◌, inl, inr, refl, ◌==◌, ==_iff, arith, Bool-cases}
use tcg_final_project.Prelude.Words.{neg}
use tcg_final_project.Game.Defs.{State, Game, Phase}
use tcg_final_project.Game.Ai.{process_ai_turn}
use tcg_final_project.Game.Handover.{IsSound, HasBegun}
use tcg_final_project.Game.AiTurn.{process_ai_turn_lem}
use tcg_final_project.Session.World.{Libc, World, handshake, playing, closed, save}
use tcg_final_project.Session.Serve.{complain, let_ai_play}
use tcg_final_project.Session.Invariant.{IsPlayable, IsGood, IsSavable, send-IsSavable, save-IsGood}

-- The player may act: the game is over, or it is the player's main phase.
abbrev pub IsPlayers : State → Type 0
IsPlayers st = (st.game_over ≡ 1) ⊎ ((st.turn ≡ 0) × (st.phase ≡ Phase.main))

pub IsSound-of : (g : Game) → IsPlayable g.st g.hand → IsSound g
IsSound-of g p = record { shaped = p.shaped; settled = p.settled; holds = p.holds }

pub IsPlayable-of :
    (g : Game)
    → IsSound g
    → (g.st.game_over ≡ 1) ⊎ (g.st.phase ≡ Phase.main)
    → IsPlayable g.st g.hand
IsPlayable-of g v m = record {
  shaped = v.shaped;
  settled = v.settled;
  holds = v.holds;
  main_phase = m;
}

-- A new game in a good world of a game that goes on.
pub savable :
    (w : World) (g : Game)
    → IsGood w
    → w.stage ≡ playing
    → IsPlayable g.st g.hand
    → IsSavable (record w { game = g })
savable w g v at p = record {
  game_ok = p;
  live = v.live at;
  others = λ k _. v.stored k;
  begun = λ h. cc (at, h);
  quiet = v.quiet;
}

pub closed≢handshake : closed ≢ handshake
closed≢handshake h = cc

pub closed≢playing : closed ≢ playing
closed≢playing h = cc

-- A good world in the main loop, behind the AI's turn.
pub record IsServing (w : World) : Type 0 where
  pub good : IsGood w
  pub at : w.stage ≡ playing
  pub players : IsPlayers w.game.st

pub my_turn :
    (st : State) → IsPlayers st → st.game_over ≡ 0 → (st.turn ≡ 0) × (st.phase ≡ Phase.main)
my_turn st (inl over) on = absurd (omega arith)
my_turn st (inr p) on = p

pub complain-IsSavable : (rc : ℕ) (w : World) → IsSavable w → IsSavable (complain rc w)
unfolding complain
complain-IsSavable rc w v = elim (Bool-cases (rc == 0)) [
  | inl fine ↦ rw fine v
  | inr bad ↦ elim (Bool-cases (rc == neg 1)) [
    | inl place ↦ rw (bad, place) (send-IsSavable _ w refl v)
    | inr rest ↦ elim (Bool-cases (rc == neg 2)) [
      | inl mana ↦ rw (bad, rest, mana) (send-IsSavable _ w refl v)
      | inr card ↦ rw (bad, rest, card) (send-IsSavable _ w refl v)
    ]
  ]
]

module _ (c : Libc) where
  ai_played :
      (w : World)
      → IsGood w
      → w.stage ≡ playing
      → w.game.st.turn ≡ 1
      → IsServing (save c (record w { game = process_ai_turn c.rand w.game }))
  unfolding save
  ai_played w v at t =
      let g = process_ai_turn c.rand w.game in
      let (sound, ends) = process_ai_turn_lem c.rand w.game (IsSound-of w.game (v.ready at)) t in
      record {
        good = save-IsGood c _ (savable w g v at (IsPlayable-of g sound (main_of ends)));
        at = at;
        players = players_of ends;
      }
    where
      main_of :
          {g : Game}
          → (g.st.game_over ≡ 1) ⊎ HasBegun 0 g
          → (g.st.game_over ≡ 1) ⊎ (g.st.phase ≡ Phase.main)
      main_of (inl over) = inl over
      main_of (inr b) = inr b.phase_eq

      players_of : {g : Game} → (g.st.game_over ≡ 1) ⊎ HasBegun 0 g → IsPlayers g.st
      players_of (inl over) = inl over
      players_of (inr b) = inr (b.turn_eq, b.phase_eq)

  not_ais :
      (w : World)
      → IsGood w
      → w.stage ≡ playing
      → (w.game.st.turn ≢ 1) ⊎ (w.game.st.game_over ≢ 0)
      → IsServing w
  not_ais w v at h = record { good = v; at = at; players = go h (v.ready at).main_phase }
    where
      go :
          (w.game.st.turn ≢ 1) ⊎ (w.game.st.game_over ≢ 0)
          → (w.game.st.game_over ≡ 1) ⊎ (w.game.st.phase ≡ Phase.main)
          → IsPlayers w.game.st
      go (inr over) _ = inl (omega (arith, (v.ready at).shaped.over_le))
      go (inl turn) (inl over) = inl over
      go (inl turn) (inr m) = inr (omega (arith, (v.ready at).shaped.turn_le), m)

  -- Whoever's turn it was, behind the AI's turn the player may act, or the game is over.
  pub let_ai_play-IsServing :
      (w : World) → IsGood w → w.stage ≡ playing → IsServing (let_ai_play c w)
  unfolding let_ai_play
  let_ai_play-IsServing w v at = elim (Bool-cases (w.game.st.turn == 1)) [
    | inr other ↦ rw other (not_ais w v at (inl (ground arith)))
    | inl ai ↦ elim (Bool-cases (w.game.st.game_over == 0)) [
      | inr over ↦ rw (ai, over) (not_ais w v at (inr (ground arith)))
      | inl on ↦ rw (ai, on) (ai_played w v at ((==_iff _ _).0 ai))
    ]
  ]
