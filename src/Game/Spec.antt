-- ===== src/Game/Spec.antt =====
-- The rules of the game on plain numbers, with no words, no wrapping and no log: what the cards of
-- src/server.c promise to the two fighters.
use tcg_final_project.Prelude.{ℕ, ◌+◌, ◌-◌, ◌<◌, ◌≡◌, refl, Bool, true, false, not, arith, ◌*◌}
use Prim.Native.Nat.{min}
use tcg_final_project.Prelude.Words.{IsNat16}
use tcg_final_project.Cards.{CardType, CardDef, atk, heal, shield, buff, poison}
use tcg_final_project.Game.Defs.{State, LogLine}
use tcg_final_project.Game.Rules.{
  hp_of, shield_of, buff_of, poison_of, push_log, strike, apply_card, tick_p, tick_ai, tick_poison,
}
use tcg_final_project.Game.Damage.{apply_damage_lem, poisoned_hp_lem}

pub record Fighter : Type 0 where
  pub hp : ℕ
  pub armour : ℕ
  pub rage : ℕ
  pub venom : ℕ

-- The two sides: who acts, and the other.
pub record Duel : Type 0 where
  pub self : Fighter
  pub foe : Fighter

-- A blow hits the armour first.
abbrev pub hit : ℕ → Fighter → Fighter
hit d f = record f { hp = f.hp - (d - f.armour); armour = f.armour - d }

abbrev pub effect : CardType → ℕ → Duel → Duel
effect atk v d = record { self = record d.self { rage = 0 }; foe = hit (v + d.self.rage) d.foe }
effect heal v d = record d { self = record d.self { hp = d.self.hp + v } }
effect shield v d = record d { self = record d.self { armour = d.self.armour + v } }
effect buff v d = record d { self = record d.self { rage = d.self.rage + v } }
effect poison v d = record d { foe = record d.foe { venom = d.foe.venom + v } }

-- One turn of poison.
abbrev pub sicken : Fighter → Fighter
sicken f = record f { hp = (f.hp - (min f.venom 1) * 2); venom = f.venom - 1 }

abbrev pub fighter : Bool → State → Fighter
fighter side st = record {
  hp = hp_of side st;
  armour = shield_of side st;
  rage = buff_of side st;
  venom = poison_of side st;
}

-- The state seen from one side.
abbrev pub duel : Bool → State → Duel
duel side st = record { self = fighter side st; foe = fighter (not side) st }

-- Room for a change of `v` in the fields of a fighter.
pub record HasRoom (v : ℕ) (f : Fighter) : Type 0 where
  pub hp_room : f.hp + v < 32768
  pub armour_room : f.armour + v < 32768
  pub rage_room : f.rage + v < 32768
  pub venom_room : f.venom + v < 256

duel-push_log : (side : Bool) (st : State) (l : LogLine) → duel side (push_log st l) ≡ duel side st
unfolding push_log
duel-push_log true st l = refl
duel-push_log false st l = refl

-- If the fields of both fighters have room for the card's value, the effect of a card of any type
-- on the state, seen from the side that plays it, is the rule's effect on the two fighters.
pub apply_card_refines :
    (t : CardType) (side : Bool) (c : CardDef) (st : State)
    → HasRoom c.value (duel side st).self
    → HasRoom c.value (duel side st).foe
    → duel side (apply_card t side c st) ≡ effect t c.value (duel side st)
unfolding apply_card strike push_log
apply_card_refines atk true c st h k =
    ground (arith, apply_damage_lem st.ai_hp st.ai_shield (c.value + st.p_buff))
apply_card_refines atk false c st h k =
    ground (arith, apply_damage_lem st.p_hp st.p_shield (c.value + st.ai_buff))
apply_card_refines heal true c st h k = ground arith
apply_card_refines heal false c st h k = ground arith
apply_card_refines shield true c st h k = ground arith
apply_card_refines shield false c st h k = ground arith
apply_card_refines buff true c st h k = ground arith
apply_card_refines buff false c st h k = ground arith
apply_card_refines poison true c st h k = ground arith
apply_card_refines poison false c st h k = ground arith

-- If no hit points are negative, one tick of the poison costs each poisoned fighter two hit points,
-- down to 0, and one turn of its poison, and leaves a fighter without poison as it is.
pub tick_poison_refines :
    (side : Bool) (st : State)
    → IsNat16 st.p_hp
    → IsNat16 st.ai_hp
    → fighter side (tick_poison st) ≡ sicken (fighter side st)
unfolding tick_poison tick_p tick_ai push_log
tick_poison_refines true st h k = ground (arith, poisoned_hp_lem st.p_hp)
tick_poison_refines false st h k = ground (arith, poisoned_hp_lem st.ai_hp)
