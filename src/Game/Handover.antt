-- ===== src/Game/Handover.antt =====
-- The end of a turn in src/server.c: `phase_end` and what it calls.
use tcg_final_project.Prelude.Words.{u8}
use tcg_final_project.Prelude.{
  length-set, ◌%◌, ℕ, zero, suc, ◌+◌, ◌-◌, ◌≤◌, ◌<◌, ◌≡◌, refl, ap, get_or, [], ◌∷◌, inl, inr, ◌∙◌,
  arith, Bool-cases, if◌then◌else◌, ◌==◌, ==_iff,
}
use mathlib.Core.Path.{subst}
use tcg_final_project.Game.Defs.{State, Game, Phase, log_lines, draw_phase, end_phase}
use tcg_final_project.Game.Rules.{push_log, tick_poison, check_game_over, judge}
use tcg_final_project.Game.Turns.{pool, rand_card_id, deal_hand, phase_draw, enter_turn, phase_end}
use tcg_final_project.Game.Invariant.{
  IsShaped, IsSettled, push_log-IsShaped, tick_poison-IsShaped, check_game_over-IsShaped,
  check_game_over-IsSettled,
}
use tcg_final_project.Game.Frame.{
  tick_poison-SameTurn, tick_poison-SameVerdict, check_game_over-SameTurn,
}
use tcg_final_project.Game.Hands.{IsHand, deal_hand-IsHand}

-- A game between two calls.
pub record IsSound (g : Game) : Type 0 where
  pub shaped : IsShaped g.st
  pub settled : IsSettled g.st
  pub holds : IsHand g.hand

-- The turn of `side` has just begun: its cards are drawn and its mana is full.
pub record HasBegun (side : ℕ) (g : Game) : Type 0 where
  pub turn_eq : g.st.turn ≡ side
  pub phase_eq : g.st.phase ≡ Phase.main
  pub mana_eq : g.st.mana ≡ g.st.max_mana
  pub running : g.st.game_over ≡ 0

-- The state after the poison and the check, and whether the other side's turn follows.
abbrev pub ended : Game → State
ended g =
    check_game_over
      (tick_poison (push_log (record g.st { phase = Phase.finish }) (end_phase (g.st.turn == 0))))

pub ended-IsShaped : (g : Game) → IsShaped g.st → IsShaped (ended g)
ended-IsShaped g v =
    check_game_over-IsShaped _ (tick_poison-IsShaped _ (push_log-IsShaped _ _ (ground arith)))

ended-IsSettled : (g : Game) → IsSettled g.st → g.st.game_over ≡ 0 → IsSettled (ended g)
unfolding push_log
ended-IsSettled g s e =
    let shown : State =
      push_log (record g.st { phase = Phase.finish }) (end_phase (g.st.turn == 0)) in
    let f = tick_poison-SameVerdict shown in
    check_game_over-IsSettled _ (f.over_eq ∙ e) (f.winner_eq ∙ (s.playing e).1)

ended-turn : (g : Game) → (ended g).turn ≡ g.st.turn
unfolding push_log
ended-turn g =
    let shown : State =
      push_log (record g.st { phase = Phase.finish }) (end_phase (g.st.turn == 0)) in
    (check_game_over-SameTurn (tick_poison shown)).turn_eq ∙ (tick_poison-SameTurn shown).turn_eq

-- A new hand: its three cards are drawn from the pool by the next three calls of `rand` that the
-- process makes, and nothing of an older hand is left in it.
pub record IsDealt (rand : ℕ → ℕ) (g g' : Game) : Type 0 where
  pub n_eq : g'.hand.n ≡ 3
  pub drawn :
      (i : ℕ) → i < 3 → get_or g'.hand.card_ids i 0 ≡ get_or pool (rand (g.rands + i) % 11) 0
  pub cleared : (i : ℕ) → 3 ≤ i → get_or g'.hand.card_ids i 0 ≡ 0
  pub rands_eq : g'.rands ≡ g.rands + 3

-- How a turn ends: the poison ends the game, and the hand is as it was, or the other side's turn has
-- begun, with a new hand.
pub data TurnEnds (rand : ℕ → ℕ) (g g' : Game) : Type 0 where
  stops : g'.st.game_over ≡ 1 → g'.hand ≡ g.hand → TurnEnds rand g g'
  passes : HasBegun (1 - g.st.turn) g' → IsDealt rand g g' → TurnEnds rand g g'

abbrev next_side : ℕ → ℕ
next_side t = if t == 0 then 1 else 0

five_zeros : (i : ℕ) → get_or {A = ℕ} (0 ∷ 0 ∷ 0 ∷ 0 ∷ 0 ∷ []) i 0 ≡ 0
five_zeros zero = refl
five_zeros (suc zero) = refl
five_zeros (suc (suc zero)) = refl
five_zeros (suc (suc (suc zero))) = refl
five_zeros (suc (suc (suc (suc zero)))) = refl
five_zeros (suc (suc (suc (suc (suc i))))) = refl

module _ (rand : ℕ → ℕ) where
  enter_turn-IsShaped :
      (g : Game) (side : ℕ) → side ≤ 1 → IsShaped g.st → IsShaped (enter_turn rand g side).st
  unfolding enter_turn phase_draw deal_hand push_log
  enter_turn-IsShaped g side h v =
      ground (arith, length-set g.st.logs (g.st.log_head % log_lines) (draw_phase (u8 side == 0)))

  enter_turn-IsSettled :
      (g : Game) (side : ℕ) → IsSettled g.st → IsSettled (enter_turn rand g side).st
  unfolding enter_turn phase_draw deal_hand push_log judge
  enter_turn-IsSettled g side s = record { playing = s.playing; ended = s.ended }

  enter_turn-IsHand : (g : Game) (side : ℕ) → IsHand (enter_turn rand g side).hand
  unfolding enter_turn phase_draw
  enter_turn-IsHand g side = deal_hand-IsHand rand _

  -- A turn that is entered begins with its phase, its mana and a dealt hand, in a sound game.
  pub enter_turn-IsSound :
      (g : Game) (side : ℕ)
      → side ≤ 1
      → IsShaped g.st
      → IsSettled g.st
      → IsSound (enter_turn rand g side)
  enter_turn-IsSound g side h v s = record {
    shaped = enter_turn-IsShaped g side h v;
    settled = enter_turn-IsSettled g side s;
    holds = enter_turn-IsHand g side;
  }

  pub enter_turn-HasBegun :
      (g : Game) (side : ℕ) → side ≤ 1 → g.st.game_over ≡ 0 → HasBegun side (enter_turn rand g side)
  unfolding enter_turn phase_draw deal_hand push_log
  enter_turn-HasBegun g side h e = ground arith

  enter_turn-IsDealt :
      (g : Game) (st : State) (side : ℕ)
      → IsDealt rand g (enter_turn rand (record g { st = st }) side)
  unfolding enter_turn phase_draw deal_hand rand_card_id
  enter_turn-IsDealt g st side = record {
    n_eq = refl;
    drawn = drawn;
    cleared = cleared;
    rands_eq = refl;
  }
    where
      drawn :
          (i : ℕ)
          → i < 3
          → get_or (enter_turn rand (record g { st = st }) side).hand.card_ids i 0
            ≡ get_or pool (rand (g.rands + i) % 11) 0
      drawn zero h = ap (λ k. get_or pool (rand k % 11) 0) (omega arith)
      drawn (suc zero) h = refl
      drawn (suc (suc zero)) h = refl
      drawn (suc (suc (suc i))) h = absurd (omega arith)

      cleared :
          (i : ℕ)
          → 3 ≤ i
          → get_or (enter_turn rand (record g { st = st }) side).hand.card_ids i 0 ≡ 0
      cleared zero h = absurd (omega arith)
      cleared (suc zero) h = absurd (omega arith)
      cleared (suc (suc zero)) h = absurd (omega arith)
      cleared (suc (suc (suc i))) h = five_zeros i

  passes_on :
      (g : Game)
      → IsSound g
      → g.st.game_over ≡ 0
      → (ended g).game_over ≡ 0
      → let g' = enter_turn rand (record g { st = ended g }) (next_side (ended g).turn) in
        IsSound g' × TurnEnds rand g g'
  passes_on g v e on = (
    enter_turn-IsSound _ _ (ground arith) (ended-IsShaped g v.shaped)
        (ended-IsSettled g v.settled e),
    passes
        (subst
          (λ k. HasBegun k (enter_turn rand (record g { st = ended g }) (next_side (ended g).turn)))
          (ground (arith, ended-turn g))
          (enter_turn-HasBegun (record g { st = ended g }) (next_side (ended g).turn) (ground arith)
            on))
        (enter_turn-IsDealt g (ended g) (next_side (ended g).turn)),
  )

  -- In a sound game that is not over, the end of a turn leaves a sound game. Either the poison has
  -- ended the game, and the hand is as it was; or the other side is in its main phase with full
  -- mana and a new hand: three cards that the next three calls of `rand` draw from the pool, and no
  -- other.
  pub phase_end_lem :
      (g : Game)
      → IsSound g
      → g.st.game_over ≡ 0
      → IsSound (phase_end rand g) × TurnEnds rand g (phase_end rand g)
  unfolding phase_end
  phase_end_lem g v e = elim (Bool-cases ((ended g).game_over == 0)) [
    | inl on ↦ rw on (passes_on g v e ((==_iff _ _).0 on))
    | inr off ↦ rw off (
      record {
        shaped = ended-IsShaped g v.shaped;
        settled = ended-IsSettled g v.settled e;
        holds = v.holds;
      },
      stops (ground (arith, (ended-IsShaped g v.shaped).over_le)) refl,
    )
  ]
