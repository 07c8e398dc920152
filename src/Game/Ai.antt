-- ===== src/Game/Ai.antt =====
-- src/server.c: how the AI values a card, chooses one, and plays its turn.
use tcg_final_project.Prelude.{
  ℕ, zero, suc, ◌+◌, ◌*◌, Bool, true, false, ◌&&◌, List, [], ◌∷◌, Option, none, some, leb, ◌==◌,
  if◌then◌else◌, set, take,
}
use tcg_final_project.Prelude.Words.{u8, sext16, add_int, sub_int, ltb_int, neg}
use tcg_final_project.Cards.{CardType, CardDef, atk, heal, shield, buff, poison, get_card_def}
use tcg_final_project.Game.Defs.{State, Hand, Game, Phase}
use tcg_final_project.Game.Rules.{handle_play_card}
use tcg_final_project.Game.Turns.{phase_end}

-- The two `if`s before the `switch`.
unfoldable pub bonus : State → CardType → ℕ
bonus st heal = if ltb_int (sext16 st.ai_hp) 10 then 100 else 0
bonus st buff = if ltb_int 0 (sext16 st.p_shield) then 40 else 0
bonus st _ = 0

-- The `switch`.
unfoldable pub worth : State → CardDef → CardType → ℕ
worth st c atk = sext16 c.value
worth st c poison = if st.p_poison == 0 then 30 else 0
worth st c shield = if st.ai_shield == 0 then 20 else 0
worth st c _ = 0

unfoldable pub ai_eval_card : State → CardDef → ℕ
ai_eval_card st c = sub_int (add_int (bonus st c.type) (worth st c c.type)) (c.cost * 2)

-- One round of the `for` loop: `best_idx` (none is -1) and `best_score`.
unfoldable pub consider : State → ℕ → ℕ → Option ℕ × ℕ → Option ℕ × ℕ
consider st cid i best = if cid == 0 then best else elim (get_card_def cid) [
  | none ↦ best
  | some c ↦
      if leb c.cost st.mana
      then if ltb_int best.1 (ai_eval_card st c) then (some i, ai_eval_card st c) else best
      else best
]

-- The `for` loop, from index `i`, over the places of the hand that are left.
unfoldable pub scan : State → List ℕ → ℕ → Option ℕ × ℕ → Option ℕ × ℕ
scan st [] i best = best
scan st (cid ∷ rest) i best = scan st rest (i + 1) (consider st cid i best)

unfoldable pub best_card : State → Hand → Option ℕ
best_card st hand = (scan st (take hand.n hand.card_ids) 0 (none, neg 9999)).0

abbrev pub is_main : Phase → Bool
is_main Phase.main = true
is_main _ = false

-- The test of the `while` loop, and then the card to play; none leaves the loop.
unfoldable pub ai_choice : Game → Option ℕ
ai_choice g = if is_main g.st.phase && g.st.game_over == 0 then best_card g.st g.hand else none

-- The body of the loop: the card is played and its place cleared.
unfoldable pub ai_play : Game → ℕ → Game
ai_play g i = record g {
  st = (handle_play_card g.st g.hand false (u8 i)).1;
  hand = record g.hand { card_ids = set g.hand.card_ids i 0 };
}

-- The `while` loop with fuel.
unfoldable pub ai_loop : ℕ → Game → Game
ai_loop zero g = g
ai_loop (suc fuel) g = elim (ai_choice g) [ none ↦ g | some i ↦ ai_loop fuel (ai_play g i) ]

-- Each round costs mana, so that the mana is fuel enough.
unfoldable pub process_ai_turn : (ℕ → ℕ) → Game → Game
process_ai_turn rand g =
    let played = ai_loop (suc g.st.mana) g in
    if played.st.game_over == 0 then phase_end rand played else played
