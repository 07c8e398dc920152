-- ===== src/Game/Rules.antt =====
-- src/server.c: the log, damage, poison, the end of a game, and the playing of a card.
use tcg_final_project.Prelude.{
  ℕ, ◌+◌, ◌-◌, ◌%◌, Bool, true, false, not, ◌||◌, none, some, ltb, leb, ◌==◌, if◌then◌else◌, get_or,
  set,
}
use tcg_final_project.Prelude.Words.{u8, i16, sext16, sub_i16, add_int, sub_int, ltb_int, neg}
use tcg_final_project.Cards.{CardType, CardDef, atk, heal, shield, buff, poison, get_card_def}
use tcg_final_project.Game.Defs.{State, Hand, LogLine, takes_poison, plays, log_lines}

unfoldable pub push_log : State → LogLine → State
push_log st line = record st {
  log_head = u8 ((st.log_head + 1) % log_lines);
  logs = set st.logs (st.log_head % log_lines) line;
}

-- The part of a blow that a shield takes: the new shield and the damage left.
unfoldable pub absorb : ℕ → ℕ → ℕ × ℕ
absorb armour dmg =
    let s = sext16 armour in
    let used = if ltb_int dmg s then dmg else s in
    if ltb_int 0 s then (sub_i16 armour used, sub_int dmg used) else (armour, dmg)

-- What is left of it hits, and hit points stop at 0.
unfoldable pub wound : ℕ → ℕ → ℕ
wound hp dmg =
    let hp' = sub_i16 hp dmg in
    if ltb_int 0 dmg then if ltb_int (sext16 hp') 0 then 0 else hp' else hp

-- The new `*hp` and `*shield`.
unfoldable pub apply_damage : ℕ → ℕ → ℕ → ℕ × ℕ
apply_damage hp armour dmg =
    let (armour', dmg') = absorb armour dmg in
    if ltb_int 0 dmg then (wound hp dmg', armour') else (hp, armour)

-- `hp - 2`, and not below 0.
unfoldable pub poisoned_hp : ℕ → ℕ
poisoned_hp hp = let hp' = sub_i16 hp 2 in if ltb_int (sext16 hp') 0 then 0 else hp'

unfoldable pub tick_p : State → State
tick_p st =
    if ltb 0 st.p_poison
    then push_log (record st { p_poison = st.p_poison - 1; p_hp = poisoned_hp st.p_hp })
        (takes_poison true)
    else st

unfoldable pub tick_ai : State → State
tick_ai st =
    if ltb 0 st.ai_poison
    then push_log (record st { ai_poison = st.ai_poison - 1; ai_hp = poisoned_hp st.ai_hp })
        (takes_poison false)
    else st

unfoldable pub tick_poison : State → State
tick_poison st = tick_ai (tick_p st)

-- 1 for the player, 2 for the AI, 0 for neither.
unfoldable pub judge : State → ℕ
judge st =
    if ltb_int (sext16 st.ai_hp) (sext16 st.p_hp)
    then 1
    else if ltb_int (sext16 st.p_hp) (sext16 st.ai_hp)
    then 2
    else 0

-- `x <= 0` of an `int16_t`.
abbrev pub is_dead : ℕ → Bool
is_dead hp = not (ltb_int 0 (sext16 hp))

unfoldable pub check_game_over : State → State
check_game_over st =
    if st.game_over == 0
    then if is_dead st.p_hp || is_dead st.ai_hp
      then push_log (record st { game_over = 1; winner = judge st }) LogLine.game_over
      else st
    else st

-- The pointers of `handle_play_card`: true stands for the player, false for the AI.
abbrev pub hp_of : Bool → State → ℕ
hp_of true st = st.p_hp
hp_of false st = st.ai_hp

abbrev pub shield_of : Bool → State → ℕ
shield_of true st = st.p_shield
shield_of false st = st.ai_shield

abbrev pub buff_of : Bool → State → ℕ
buff_of true st = st.p_buff
buff_of false st = st.ai_buff

abbrev pub poison_of : Bool → State → ℕ
poison_of true st = st.p_poison
poison_of false st = st.ai_poison

abbrev pub set_hp : Bool → ℕ → State → State
set_hp true v st = record st { p_hp = v }
set_hp false v st = record st { ai_hp = v }

abbrev pub set_shield : Bool → ℕ → State → State
set_shield true v st = record st { p_shield = v }
set_shield false v st = record st { ai_shield = v }

abbrev pub set_buff : Bool → ℕ → State → State
set_buff true v st = record st { p_buff = v }
set_buff false v st = record st { ai_buff = v }

abbrev pub set_poison : Bool → ℕ → State → State
set_poison true v st = record st { p_poison = v }
set_poison false v st = record st { ai_poison = v }

-- `case CT_ATK`: the buff is added and used up.
unfoldable pub strike : Bool → CardDef → State → State
strike side c st =
    let dmg = add_int (sext16 c.value) (sext16 (buff_of side st)) in
    let (hp, armour) = apply_damage (hp_of (not side) st) (shield_of (not side) st) dmg in
    push_log (set_hp (not side) hp (set_shield (not side) armour (set_buff side 0 st)))
      (plays side atk dmg st.mana)

-- The `switch` on the card's type, after its cost is paid.
unfoldable pub apply_card : CardType → Bool → CardDef → State → State
apply_card atk side c st = strike side c st
apply_card heal side c st =
    push_log (set_hp side (i16 (hp_of side st + c.value)) st) (plays side heal c.value st.mana)
apply_card shield side c st =
    push_log (set_shield side (i16 (shield_of side st + c.value)) st)
      (plays side shield c.value st.mana)
apply_card buff side c st =
    push_log (set_buff side (i16 (buff_of side st + c.value)) st) (plays side buff c.value st.mana)
apply_card poison side c st =
    push_log (set_poison (not side) (u8 (poison_of (not side) st + u8 c.value)) st)
      (plays side poison c.value st.mana)

-- Pays for a card and plays it.
unfoldable pub play_card : State → Bool → CardDef → ℕ × State
play_card st side c = if ltb st.mana c.cost then (neg 2, st) else (
  0,
  check_game_over (apply_card c.type side c (record st { mana = u8 (st.mana - c.cost) })),
)

-- The card of a number that is no empty place.
unfoldable pub play_id : State → Bool → ℕ → ℕ × State
play_id st side cid =
    if cid == 0
    then (neg 3, st)
    else elim (get_card_def cid) [ none ↦ (neg 3, st) | some c ↦ play_card st side c ]

-- The result and the new `*st`; `*hand` is only read. A read behind the eight places of a hand, where
-- C has no defined result, is 0 here.
unfoldable pub handle_play_card : State → Hand → Bool → ℕ → ℕ × State
handle_play_card st hand side idx =
    if leb hand.n idx then (neg 1, st) else play_id st side (get_or hand.card_ids idx 0)
