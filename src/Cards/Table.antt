-- ===== src/Cards/Table.antt =====
-- What the table of src/common/cards.c promises of every card.
use tcg_final_project.Prelude.{ℕ, ◌*◌, ◌≤◌, ◌≡◌, List, [], ◌∷◌, some, arith}
use tcg_final_project.Cards.{CardDef, poison, cards, find_card, get_card_def}

-- A card costs one to three mana, and is worth one to eight, and at most three points for each mana;
-- poison is worth no more turns than its cost.
pub record IsFair (c : CardDef) : Type 0 where
  pub cost_pos : 1 ≤ c.cost
  pub cost_le : c.cost ≤ 3
  pub value_pos : 1 ≤ c.value
  pub value_le : c.value ≤ 8
  pub value_per_mana : c.value ≤ 3 * c.cost
  pub poison_per_mana : c.type ≡ poison → c.value ≤ c.cost
  pub id_pos : 1 ≤ c.id
  pub id_le : c.id ≤ 501

AllFair : List CardDef → Type 0
AllFair [] = Unit {0}
AllFair (c ∷ cs) = IsFair c × AllFair cs

cards_fair : AllFair cards
unfolding AllFair
cards_fair = ground arith

find_card-IsFair :
    (cs : List CardDef) (id : ℕ) (c : CardDef)
    → AllFair cs
    → find_card cs id ≡ some c
    → IsFair c × (c.id ≡ id)
unfolding AllFair find_card
find_card-IsFair [] id c h e = ground arith
find_card-IsFair (d ∷ cs) id c h e = ground (arith, find_card-IsFair cs id c h.1)

-- Every card that `get_card_def` finds has the number that was asked for, costs one to three mana,
-- is worth one to eight and at most three points for each mana, and adds no more turns of poison
-- than it costs.
pub get_card_def-IsFair : (id : ℕ) (c : CardDef) → get_card_def id ≡ some c → IsFair c × (c.id ≡ id)
unfolding get_card_def
get_card_def-IsFair id c e = find_card-IsFair cards id c cards_fair e
