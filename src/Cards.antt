-- ===== src/Cards.antt =====
-- src/common/cards.c, cards.h and the card types of proto.h: the static table of cards.
pub mod Table
use tcg_final_project.Prelude.{ℕ, List, [], ◌∷◌, Option, none, some, ◌==◌, if◌then◌else◌}
use Prim.Native.String.{String}

-- `card_type_t`; the field `type` of the table holds nothing else.
pub data CardType : Type 0 where
  atk heal shield buff poison : CardType

-- `card_def_t`. `value` is an `int16_t`.
pub record CardDef : Type 0 where
  pub id : ℕ
  pub type : CardType
  pub cost : ℕ
  pub value : ℕ
  pub duration : ℕ
  pub name : String

abbrev card : ℕ → CardType → ℕ → ℕ → ℕ → String → CardDef
card i t c v d s = record { id = i; type = t; cost = c; value = v; duration = d; name = s }

-- `g_cards`
abbrev pub cards : List CardDef
cards =
    card 100 atk 1 3 0 "Slash"
    ∷ card 101 atk 2 5 0 "Heavy Hit"
    ∷ card 102 atk 3 8 0 "Execute"
    ∷ card 200 heal 2 4 0 "Bandage"
    ∷ card 201 heal 3 7 0 "Potion"
    ∷ card 300 shield 1 3 0 "Block"
    ∷ card 301 shield 2 6 0 "Barrier"
    ∷ card 400 buff 1 2 0 "Sharpen"
    ∷ card 401 buff 2 4 0 "Empower"
    ∷ card 500 poison 2 2 0 "Toxic Dagger"
    ∷ card 501 poison 3 3 0 "Venom"
    ∷ []

-- The `for` loop over the table.
find_card : List CardDef → ℕ → Option CardDef
find_card [] id = none
find_card (c ∷ rest) id = if c.id == id then some c else find_card rest id

-- `NULL` is `none`.
unfoldable pub get_card_def : ℕ → Option CardDef
unfolding find_card
get_card_def id = find_card cards id
