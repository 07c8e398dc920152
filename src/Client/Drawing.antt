-- ===== src/Client/Drawing.antt =====
-- One frame of `main` in src/client_gui.c: what it draws of the state and the hand that the network
-- thread shares. Each mark is a call that draws, or a group of calls that always stand together, in the
-- source's order; the texts are given by what they are made of, and the colours are left out.
pub mod Cards
pub mod Bars
pub mod Log
pub mod Damage
use tcg_final_project.Prelude.{
  ℕ, zero, suc, ◌+◌, ◌*◌, ◌-◌, ◌%◌, List, [], ◌∷◌, ◌++◌, Bool, true, false, not, ◌&&◌, ◌||◌, Option,
  none, some, ◌==◌, leb, ltb, if◌then◌else◌, get_or, take, drop,
}
use tcg_final_project.Prelude.Words.{sext16, ltb_int}
use tcg_final_project.Cards.{CardType, CardDef, atk, heal, shield, buff, poison, get_card_def}
use tcg_final_project.Game.Defs.{Hand}
use tcg_final_project.Client.Structs.{Seen}
use tcg_final_project.Client.Screen.{Winner, winner_name}
use tcg_final_project.Client.NetThread.{Target, end_button, elsewhere, card, is_selected}

-- `ui_assets_t`: the pictures. `tex_for_card`
pub data Texture : Type 0 where
  no_texture tex_atk tex_heal tex_shield tex_buff tex_poison : Texture

unfoldable pub tex_for_card : CardType → Texture
tex_for_card atk = tex_atk
tex_for_card heal = tex_heal
tex_for_card shield = tex_shield
tex_for_card buff = tex_buff
tex_for_card poison = tex_poison

-- The texts of `get_card_desc`, with the number in them.
pub data Desc : Type 0 where
  unknown_effect : Desc
  deal restore gain next_attack apply_poison : ℕ → Desc

unfoldable pub get_card_desc : Option CardDef → Desc
get_card_desc none = unknown_effect
get_card_desc (some def) =
    let v = sext16 def.value in
    elim def.type [
      | atk ↦ deal v
      | heal ↦ restore v
      | shield ↦ gain v
      | buff ↦ next_attack v
      | poison ↦ apply_poison v
    ]

-- The parts of a bar of hit points: its frame, its background, the filling, the shield.
pub data Part : Type 0 where
  frame ground filling armour : Part

-- How a card is drawn: in its place, and then disabled or not; raised under the mouse; or selected.
pub data Mode : Type 0 where
  resting : Bool → Mode
  hovered selected : Mode

pub data Mark : Type 0 where
  heading connecting player_name opponent_name log_name ai_turn confirm : Mark
  panel : ℕ → ℕ → ℕ → ℕ → Mark
  bar : Part → ℕ → ℕ → ℕ → ℕ → Mark
  player_line : ℕ → ℕ → ℕ → ℕ → Mark
  player_effects : ℕ → ℕ → Mark
  opponent_line : ℕ → ℕ → ℕ → Mark
  opponent_effects : ℕ → Mark
  log_line : ℕ → Option (List ℕ) → Mark
  end_turn : Bool → Mark
  empty_place : ℕ → Mark
  drawn_card : Mode → ℕ → Texture → Option CardDef → Mark
  preview : CardDef → Texture → Desc → Mark
  game_over : Winner → Mark

-- A ratio between 0 and 1.
pub record Ratio : Type 0 where
  pub part : ℕ
  pub whole : ℕ

abbrev pub max_of : ℕ → ℕ
max_of maxhp = if ltb_int 0 maxhp then maxhp else 1

-- The hit points against their maximum, as `ratio` is clamped.
unfoldable pub hp_ratio : ℕ → ℕ → Ratio
hp_ratio hp most =
    if ltb_int hp 0
    then record { part = 0; whole = 1 }
    else if ltb_int most hp
    then record { part = 1; whole = 1 }
    else record { part = hp; whole = most }

unfoldable pub shield_ratio : ℕ → ℕ → Ratio
shield_ratio sh most = record { part = if ltb_int most sh then most else sh; whole = most }

-- `(int)((w - 4) * ratio)`, in `float`s, is a parameter.
module _ (scale : ℕ → Ratio → ℕ) where
  unfoldable pub draw_hp_bar : ℕ → ℕ → ℕ → ℕ → ℕ → ℕ → ℕ → List Mark
  draw_hp_bar x y w h hp maxhp sh =
      let most = max_of maxhp in
      bar frame x y w h
      ∷ bar ground (x + 2) (y + 2) (w - 4) (h - 4)
      ∷ bar filling (x + 2) (y + 2) (scale (w - 4) (hp_ratio hp most)) (h - 4)
      ∷ (if ltb_int 0 sh
          then bar armour (x + 2) (y + 2) (scale (w - 4) (shield_ratio sh most)) 4 ∷ []
          else [])

  unfoldable pub draw_player : Seen → List Mark
  draw_player st =
      panel 30 70 340 100
      ∷ player_name
      ∷ (draw_hp_bar 40 105 320 20 (sext16 st.p_hp) 30 (sext16 st.p_shield)
          ++ player_line (sext16 st.p_hp) (sext16 st.p_shield) st.mana st.max_mana
            ∷ (if ltb_int 0 (sext16 st.p_buff) || ltb 0 st.p_poison
                then player_effects (sext16 st.p_buff) st.p_poison ∷ []
                else []))

  unfoldable pub draw_opponent : Seen → List Mark
  draw_opponent st =
      panel 530 70 340 100
      ∷ opponent_name
      ∷ (draw_hp_bar 540 105 320 20 (sext16 st.ai_hp) 30 (sext16 st.ai_shield)
          ++ opponent_line (sext16 st.ai_hp) (sext16 st.ai_shield) st.ai_poison
            ∷ (if ltb_int 0 (sext16 st.ai_buff)
                then opponent_effects (sext16 st.ai_buff) ∷ []
                else []))

-- `sh.st.logs[j]`, as far as the text goes: none is an empty line, for which "-" is shown.
abbrev pub log_text : List ℕ → ℕ → Option (List ℕ)
log_text logs j =
    let line = take 64 (drop (j * 64) logs) in if get_or line 0 0 == 0 then none else some line

-- The lines from the `i`-th on, `k` of them, each 18 below the one before.
unfoldable pub log_marks : ℕ → ℕ → ℕ → Seen → List Mark
log_marks zero i ly st = []
log_marks (suc k) i ly st =
    log_line ly (log_text st.log_bytes ((st.log_head + i) % 6)) ∷ log_marks k (suc i) (ly + 18) st

unfoldable pub draw_log : Seen → List Mark
draw_log st = panel 530 210 350 150 ∷ log_name ∷ log_marks 6 0 235 st

-- The cards that are shown.
unfoldable pub card_count : Bool → Hand → ℕ
card_count has_hand hand = if has_hand then (if ltb 3 hand.n then 3 else hand.n) else 0

-- The card under the mouse, in the player's turn of a game that goes on.
unfoldable pub hover_idx : Seen → ℕ → Target → Option ℕ
hover_idx st n at =
    if st.turn == 0 && st.game_over == 0
    then elim at [
      | end_button ↦ none
      | elsewhere ↦ none
      | card i ↦ if ltb i n then some i else none
    ]
    else none

abbrev pub texture_of : Option CardDef → Texture
texture_of none = no_texture
texture_of (some def) = tex_for_card def.type

-- `DrawCardVertical` of the card in place `i`.
abbrev pub card_mark : Mode → Hand → ℕ → Mark
card_mark mode hand i =
    let def = get_card_def (get_or hand.card_ids i 0) in drawn_card mode i (texture_of def) def

module _ (disabled : Bool) (n : ℕ) (chosen hover : Option ℕ) (hand : Hand) where
  -- The places from `i` on, `k` of them.
  unfoldable pub resting_cards : ℕ → ℕ → List Mark
  resting_cards zero i = []
  resting_cards (suc k) i =
      let rest = resting_cards k (suc i) in
      if leb n i
      then empty_place i ∷ rest
      else if is_selected i chosen || is_selected i hover
      then rest
      else card_mark (resting disabled) hand i ∷ rest

abbrev pub hovering : Option ℕ → Option ℕ → Hand → List Mark
hovering none chosen hand = []
hovering (some i) chosen hand = if is_selected i chosen then [] else card_mark hovered hand i ∷ []

abbrev pub preview_of : Option CardDef → List Mark
preview_of none = []
preview_of (some def) = preview def (tex_for_card def.type) (get_card_desc (some def)) ∷ []

abbrev pub choosing : Option ℕ → ℕ → Hand → List Mark
choosing none n hand = []
choosing (some i) n hand =
    if ltb i n
    then card_mark selected hand i ∷ confirm ∷ preview_of (get_card_def (get_or hand.card_ids i 0))
    else []

-- `selected_idx`, none for -1, and where the mouse is.
unfoldable pub draw_cards : Seen → Bool → Hand → Option ℕ → Target → List Mark
draw_cards st has_hand hand chosen at =
    let n = card_count has_hand hand in
    let hover = hover_idx st n at in
    resting_cards (not (st.turn == 0)) n chosen hover hand 3 0
    ++ (hovering hover chosen hand ++ choosing chosen n hand)

unfoldable pub draw_banners : Seen → List Mark
draw_banners st =
    (if not (st.turn == 0) && st.game_over == 0 then ai_turn ∷ [] else [])
    ++ (if st.game_over == 0 then [] else game_over (winner_name st.winner) ∷ [])

-- The frame, but for the card that flies for a moment behind a click.
unfoldable pub draw_frame :
    (ℕ → Ratio → ℕ) → Bool → Bool → Seen → Bool → Hand → Option ℕ → Target → List Mark
draw_frame scale connected has_state st has_hand hand chosen at =
    let game =
      draw_player scale st
      ++ (draw_opponent scale st
          ++ (draw_log st
              ++ (panel 760 20 120 40
                  ∷ end_turn (st.turn == 0)
                  ∷ (draw_cards st has_hand hand chosen at ++ draw_banners st)))) in
    if not connected && not has_state
    then heading ∷ connecting ∷ []
    else if has_state
    then heading ∷ game
    else heading ∷ []
