-- ===== src/Game/Frame.antt =====
-- What the functions of src/server.c leave alone in a `state_t`.
use tcg_final_project.Prelude.{◌≡◌, Bool, true, false, arith}
use tcg_final_project.Cards.{CardType, CardDef, atk, heal, shield, buff, poison}
use tcg_final_project.Game.Defs.{State}
use tcg_final_project.Game.Rules.{
  push_log, strike, apply_card, tick_p, tick_ai, tick_poison, check_game_over,
}

-- The same turn, and the mana, the verdict and the winner as they were.
pub record SameTurn (a b : State) : Type 0 where
  pub turn_eq : b.turn ≡ a.turn
  pub phase_eq : b.phase ≡ a.phase
  pub mana_eq : b.mana ≡ a.mana
  pub max_eq : b.max_mana ≡ a.max_mana

pub record SameVerdict (a b : State) : Type 0 where
  pub over_eq : b.game_over ≡ a.game_over
  pub winner_eq : b.winner ≡ a.winner

pub apply_card-SameTurn :
    (t : CardType) (side : Bool) (c : CardDef) (st : State) → SameTurn st (apply_card t side c st)
unfolding apply_card strike push_log
apply_card-SameTurn atk true c st = ground arith
apply_card-SameTurn atk false c st = ground arith
apply_card-SameTurn heal true c st = ground arith
apply_card-SameTurn heal false c st = ground arith
apply_card-SameTurn shield true c st = ground arith
apply_card-SameTurn shield false c st = ground arith
apply_card-SameTurn buff true c st = ground arith
apply_card-SameTurn buff false c st = ground arith
apply_card-SameTurn poison true c st = ground arith
apply_card-SameTurn poison false c st = ground arith

pub apply_card-SameVerdict :
    (t : CardType) (side : Bool) (c : CardDef) (st : State)
    → SameVerdict st (apply_card t side c st)
unfolding apply_card strike push_log
apply_card-SameVerdict atk true c st = ground arith
apply_card-SameVerdict atk false c st = ground arith
apply_card-SameVerdict heal true c st = ground arith
apply_card-SameVerdict heal false c st = ground arith
apply_card-SameVerdict shield true c st = ground arith
apply_card-SameVerdict shield false c st = ground arith
apply_card-SameVerdict buff true c st = ground arith
apply_card-SameVerdict buff false c st = ground arith
apply_card-SameVerdict poison true c st = ground arith
apply_card-SameVerdict poison false c st = ground arith

pub tick_poison-SameTurn : (st : State) → SameTurn st (tick_poison st)
unfolding tick_poison tick_p tick_ai push_log
tick_poison-SameTurn st = ground arith

pub tick_poison-SameVerdict : (st : State) → SameVerdict st (tick_poison st)
unfolding tick_poison tick_p tick_ai push_log
tick_poison-SameVerdict st = ground arith

pub check_game_over-SameTurn : (st : State) → SameTurn st (check_game_over st)
unfolding check_game_over push_log
check_game_over-SameTurn st = ground arith
