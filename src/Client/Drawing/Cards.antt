-- ===== src/Client/Drawing/Cards.antt =====
-- The cards that a frame of src/client_gui.c draws.
use tcg_final_project.Prelude.{
  ℕ, ◌+◌, List, [], ◌∷◌, Bool, not, ◌&&◌, ◌||◌, Option, ◌==◌, ltb, if◌then◌else◌,
}
use tcg_final_project.Game.Defs.{Hand}
use tcg_final_project.Client.NetThread.{is_selected}
use tcg_final_project.Client.Drawing.{Mark, drawn_card}

-- A card in the place.
abbrev is_place : ℕ → Mark → ℕ
is_place j (drawn_card mode i tex def) = if i == j then 1 else 0
is_place j _ = 0

-- How often the card in a place is drawn.
unfoldable pub times : ℕ → List Mark → ℕ
times j [] = 0
times j (m ∷ ms) = is_place j m + times j ms

abbrev once : Bool → ℕ
once b = if b then 1 else 0

module _ (disabled : Bool) (n : ℕ) (chosen hover : Option ℕ) (hand : Hand) (j : ℕ) where
  -- The card is not left to the other two parts.
  abbrev stays : Bool
  stays = ltb j n && not (is_selected j chosen || is_selected j hover)
