-- ===== src/Game/Ledger.antt =====
-- How large the numbers of a `state_t` of src/server.c grow: each is paid for by mana, and a turn
-- brings three.
use tcg_final_project.Prelude.{
  ℕ, ◌+◌, ◌-◌, ◌*◌, ◌<◌, ◌≤◌, ◌≡◌, refl, Bool, true, false, arith, zero, suc, inl, inr,
  Option-cases, Bool-cases, ◌==◌,
}
use tcg_final_project.Cards.{CardType, CardDef, atk, heal, shield, buff, poison}
use tcg_final_project.Cards.Table.{IsFair, get_card_def-IsFair}
use tcg_final_project.Game.Defs.{State, Hand, Game}
use tcg_final_project.Game.Rules.{
  push_log, strike, apply_card, tick_p, tick_ai, tick_poison, check_game_over, handle_play_card,
}
use tcg_final_project.Game.Damage.{apply_damage_lem, poisoned_hp_lem}
use tcg_final_project.Game.Turns.{deal_hand, phase_draw, enter_turn, phase_end}
use tcg_final_project.Game.Ai.{ai_choice, ai_play, ai_loop, process_ai_turn}
use tcg_final_project.Game.Play.{
  Outcome, no_place, no_card, no_mana, played, paid, handle_play_card-Outcome,
}
use tcg_final_project.Game.Handover.{IsSound, ended, ended-IsShaped}
use tcg_final_project.Game.AiTurn.{ai_play-AiPlays, ai_loop_exits}
use tcg_final_project.Prelude.Words.{u8}

-- The numbers after `b` turns have begun: each field, with what the mana left can add to it.
pub record Fits (b : ℕ) (st : State) : Type 0 where
  pub p_hp : st.p_hp + 3 * st.mana ≤ 30 + 9 * b
  pub ai_hp : st.ai_hp + 3 * st.mana ≤ 30 + 9 * b
  pub p_shield : st.p_shield + 3 * st.mana ≤ 9 * b
  pub ai_shield : st.ai_shield + 3 * st.mana ≤ 9 * b
  pub p_buff : st.p_buff + 3 * st.mana ≤ 9 * b
  pub ai_buff : st.ai_buff + 3 * st.mana ≤ 9 * b
  pub p_poison : b ≤ 85 → st.p_poison + st.mana ≤ 3 * b
  pub ai_poison : b ≤ 85 → st.ai_poison + st.mana ≤ 3 * b

module _ (b : ℕ) (small : b ≤ 3600) where
  strike-Fits :
      (side : Bool) (c : CardDef) (st : State)
      → IsFair c
      → c.cost ≤ st.mana
      → Fits b st
      → Fits b (strike side c (record st { mana = st.mana - c.cost }))
  unfolding strike push_log
  strike-Fits true c st f h v =
      ground (arith, apply_damage_lem st.ai_hp st.ai_shield (c.value + st.p_buff))
  strike-Fits false c st f h v =
      ground (arith, apply_damage_lem st.p_hp st.p_shield (c.value + st.ai_buff))

  apply_card-Fits :
      (t : CardType) (side : Bool) (c : CardDef) (st : State)
      → c.type ≡ t
      → IsFair c
      → c.cost ≤ st.mana
      → Fits b st
      → Fits b (apply_card t side c (record st { mana = st.mana - c.cost }))
  unfolding apply_card push_log
  apply_card-Fits atk side c st e f h v = strike-Fits side c st f h v
  apply_card-Fits heal true c st e f h v = ground arith
  apply_card-Fits heal false c st e f h v = ground arith
  apply_card-Fits shield true c st e f h v = ground arith
  apply_card-Fits shield false c st e f h v = ground arith
  apply_card-Fits buff true c st e f h v = ground arith
  apply_card-Fits buff false c st e f h v = ground arith
  apply_card-Fits poison true c st e f h v = ground (arith, f.poison_per_mana e)
  apply_card-Fits poison false c st e f h v = ground (arith, f.poison_per_mana e)

  check_game_over-Fits : (st : State) → Fits b st → Fits b (check_game_over st)
  unfolding check_game_over push_log
  check_game_over-Fits st v = ground arith

  -- A card that is paid for costs what its effect may add.
  pub paid-Fits :
      (side : Bool) (c : CardDef) (st : State)
      → IsFair c
      → c.cost ≤ st.mana
      → Fits b st
      → Fits b (paid st side c)
  paid-Fits side c st f h v = check_game_over-Fits _ (apply_card-Fits c.type side c st refl f h v)

  tick_p-Fits : (st : State) → Fits b st → Fits b (tick_p st)
  unfolding tick_p push_log
  tick_p-Fits st v = ground (arith, poisoned_hp_lem st.p_hp)

  tick_ai-Fits : (st : State) → Fits b st → Fits b (tick_ai st)
  unfolding tick_ai push_log
  tick_ai-Fits st v = ground (arith, poisoned_hp_lem st.ai_hp)

  tick_poison-Fits : (st : State) → Fits b st → Fits b (tick_poison st)
  unfolding tick_poison
  tick_poison-Fits st v = tick_ai-Fits _ (tick_p-Fits st v)

  -- For at most 3600 turns begun: playing a card keeps hit points, shields, buffs and poison, each
  -- with what the mana left can still add to it, within what the turns allow, whatever the result.
  pub handle_play_card-Fits :
      (st : State) (hand : Hand) (side : Bool) (idx : ℕ)
      → st.mana < 256
      → Fits b st
      → Fits b (handle_play_card st hand side idx).1
  handle_play_card-Fits st hand side idx w v = go _ (handle_play_card-Outcome st hand side idx w)
    where
      go : (r : ℕ × State) → Outcome st hand side idx r → Fits b r.1
      go r (no_place _ q) = rw q v
      go r (no_card _ _ q) = rw q v
      go r (no_mana _ _ _ _ q) = rw q v
      go r (played c _ e h q) = rw q (paid-Fits side c st (get_card_def-IsFair _ c e).0 h v)

  ai_loop-Fits : (fuel : ℕ) (g : Game) → IsSound g → Fits b g.st → Fits b (ai_loop fuel g).st
  unfolding ai_loop
  ai_loop-Fits zero g v f = f
  ai_loop-Fits (suc fuel) g v f = elim (Option-cases (ai_choice g)) [
    | inl e ↦ rw (e, ai_loop) f
    | inr (i, e) ↦
        rw (e, ai_loop)
          (ai_loop-Fits fuel (ai_play g i) (ai_play-AiPlays g i v e).sound
            (unfold ai_play in handle_play_card-Fits g.st g.hand false (u8 i) (omega arith) f))
  ]

  -- The mana of a new turn is the next turn's allowance.
  enter_turn-Fits :
      (rand : ℕ → ℕ) (g : Game) (side : ℕ)
      → g.st.max_mana ≡ 3
      → Fits b g.st
      → Fits (b + 1) (enter_turn rand g side).st
  unfolding enter_turn phase_draw deal_hand push_log
  enter_turn-Fits rand g side m v = ground arith

  ended-Fits : (g : Game) → Fits b g.st → Fits b (ended g)
  unfolding push_log
  ended-Fits g v = check_game_over-Fits _ (tick_poison-Fits _ (ground arith))

  Fits-next : (st : State) → Fits b st → Fits (b + 1) st
  Fits-next st v = ground arith

  -- For at most 3600 turns begun: the end of a turn of a sound game keeps hit points, shields,
  -- buffs and poison, each with what the mana can add to it, within what one turn more allows.
  pub phase_end-Fits :
      (rand : ℕ → ℕ) (g : Game) → IsSound g → Fits b g.st → Fits (b + 1) (phase_end rand g).st
  unfolding phase_end
  phase_end-Fits rand g v f = elim (Bool-cases ((ended g).game_over == 0)) [
    | inr over ↦ rw over (Fits-next _ (ended-Fits g f))
    | inl on ↦ rw on (
        enter_turn-Fits rand (record g { st = ended g }) _ (ended-IsShaped g v.shaped).mana_max
          (ended-Fits g f))
  ]

  -- For at most 3600 turns begun: the whole turn of the AI, in a sound game, keeps hit points,
  -- shields, buffs and poison, each with what the mana can add to it, within what one turn more
  -- allows.
  pub process_ai_turn-Fits :
      (rand : ℕ → ℕ) (g : Game) → IsSound g → Fits b g.st → Fits (b + 1) (process_ai_turn rand g).st
  unfolding process_ai_turn
  process_ai_turn-Fits rand g v f =
      let (_, sound, _) = ai_loop_exits (suc g.st.mana) g v (omega arith) in
      let f' = ai_loop-Fits (suc g.st.mana) g v f in
      elim (Bool-cases ((ai_loop (suc g.st.mana) g).st.game_over == 0)) [
        | inr over ↦ rw over (Fits-next _ f')
        | inl on ↦ rw on (phase_end-Fits rand _ sound f')
      ]
