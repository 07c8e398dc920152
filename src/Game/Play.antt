-- ===== src/Game/Play.antt =====
-- `handle_play_card` of src/server.c: its four results, what each needs and what it does.
use tcg_final_project.Prelude.{
  ℕ, ◌-◌, ◌≤◌, ◌<◌, ◌≡◌, inl, inr, refl, ◌∙◌, Bool, arith, get_or, none, some, Bool-cases,
  Option-cases, leb, ltb, ◌==◌, ==_iff,
}
use tcg_final_project.Prelude.Words.{neg}
use tcg_final_project.Cards.{CardDef, get_card_def}
use tcg_final_project.Game.Defs.{State, Hand}
use tcg_final_project.Game.Rules.{apply_card, check_game_over, play_card, play_id, handle_play_card}
use tcg_final_project.Game.Invariant.{
  IsShaped, IsSettled, apply_card-IsShaped, check_game_over-IsShaped, check_game_over-IsSettled,
}
use tcg_final_project.Game.Frame.{
  apply_card-SameTurn, apply_card-SameVerdict, check_game_over-SameTurn,
}

-- The number at a place of the hand.
abbrev pub card_at : Hand → ℕ → ℕ
card_at hand idx = get_or hand.card_ids idx 0

-- The state after a card is paid for and has had its effect.
abbrev pub paid : State → Bool → CardDef → State
paid st side c = check_game_over (apply_card c.type side c (record st { mana = st.mana - c.cost }))

-- What the caller is told, and the state that it gets back.
pub data Outcome (st : State) (hand : Hand) (side : Bool) (idx : ℕ) (r : ℕ × State) : Type 0 where
  no_place : hand.n ≤ idx → r ≡ (neg 1, st) → Outcome st hand side idx r
  no_card :
      idx < hand.n
      → get_card_def (card_at hand idx) ≡ none
      → r ≡ (neg 3, st)
      → Outcome st hand side idx r
  no_mana :
      (c : CardDef)
      → idx < hand.n
      → get_card_def (card_at hand idx) ≡ some c
      → st.mana < c.cost
      → r ≡ (neg 2, st)
      → Outcome st hand side idx r
  played :
      (c : CardDef)
      → idx < hand.n
      → get_card_def (card_at hand idx) ≡ some c
      → c.cost ≤ st.mana
      → r ≡ (0, paid st side c)
      → Outcome st hand side idx r

-- No card has the number 0.
get_card_def-zero : get_card_def 0 ≡ none
unfolding get_card_def
get_card_def-zero = refl

play_card-Outcome :
    (st : State) (hand : Hand) (side : Bool) (idx : ℕ) (c : CardDef)
    → st.mana < 256
    → idx < hand.n
    → get_card_def (card_at hand idx) ≡ some c
    → Outcome st hand side idx (play_card st side c)
unfolding play_card
play_card-Outcome st hand side idx c w h e = elim (Bool-cases (ltb st.mana c.cost)) [
  | inl poor ↦ no_mana c h e (ground arith) (rw poor)
  | inr rich ↦ played c h e (ground arith) (rw rich (ground arith))
]

play_id-Outcome :
    (st : State) (hand : Hand) (side : Bool) (idx : ℕ)
    → st.mana < 256
    → idx < hand.n
    → Outcome st hand side idx (play_id st side (card_at hand idx))
unfolding play_id
play_id-Outcome st hand side idx w h = elim (Bool-cases (card_at hand idx == 0)) [
  | inl z ↦ no_card h (rw ((==_iff _ _).0 z) get_card_def-zero) (rw z)
  | inr nz ↦ elim (Option-cases (get_card_def (card_at hand idx))) [
    | inl e ↦ no_card h e (rw (nz, e))
    | inr (c, e) ↦ rw (nz, e) (play_card-Outcome st hand side idx c w h e)
  ]
]

-- Playing a card, with a mana that is a `uint8_t`, has one of four results: -1 for a place outside
-- the hand, -3 for a place with no card of the table, -2 for a card that costs more than the mana
-- there is, all three with the state as it was; and 0 for a card of the table that can be paid for,
-- with the state in which it is paid for, has had its effect and the end of the game is checked.
pub handle_play_card-Outcome :
    (st : State) (hand : Hand) (side : Bool) (idx : ℕ)
    → st.mana < 256
    → Outcome st hand side idx (handle_play_card st hand side idx)
unfolding handle_play_card
handle_play_card-Outcome st hand side idx w = elim (Bool-cases (leb hand.n idx)) [
  | inl out ↦ no_place (ground arith) (rw out)
  | inr place ↦ rw place (play_id-Outcome st hand side idx w (ground arith))
]

paid-IsShaped : (st : State) (side : Bool) (c : CardDef) → IsShaped st → IsShaped (paid st side c)
paid-IsShaped st side c v =
    check_game_over-IsShaped _ (apply_card-IsShaped c.type side c _ (omega arith))

paid-IsSettled :
    (st : State) (side : Bool) (c : CardDef)
    → st.game_over ≡ 0
    → st.winner ≡ 0
    → IsSettled (paid st side c)
paid-IsSettled st side c e w =
    let st' : State = record st { mana = st.mana - c.cost } in
    let f = apply_card-SameVerdict c.type side c st' in
    check_game_over-IsSettled _ (f.over_eq ∙ e) (f.winner_eq ∙ w)

pub paid-mana : (st : State) (side : Bool) (c : CardDef) → (paid st side c).mana ≡ st.mana - c.cost
paid-mana st side c =
    let st' : State = record st { mana = st.mana - c.cost } in
    (check_game_over-SameTurn (apply_card c.type side c st')).mana_eq
    ∙ (apply_card-SameTurn c.type side c st').mana_eq

pub paid-turn :
    (st : State) (side : Bool) (c : CardDef)
    → ((paid st side c).turn ≡ st.turn) × ((paid st side c).phase ≡ st.phase)
paid-turn st side c =
    let st' : State = record st { mana = st.mana - c.cost } in
    let f = check_game_over-SameTurn (apply_card c.type side c st') in
    let g = apply_card-SameTurn c.type side c st' in
    (f.turn_eq ∙ g.turn_eq, f.phase_eq ∙ g.phase_eq)

-- What a call leaves true of the state, whatever it returns.
pub record IsKept (st st' : State) : Type 0 where
  pub shaped : IsShaped st'
  pub settled : IsSettled st'
  pub turn_eq : st'.turn ≡ st.turn
  pub phase_eq : st'.phase ≡ st.phase
  pub mana_le : st'.mana ≤ st.mana

-- Playing a card of a game that is not over, whose fields are in range and whose verdict is in
-- order, keeps both, whatever the result: the game is over afterwards exactly when a fighter is
-- dead, with the right winner. It keeps the turn and the phase, and never raises the mana.
pub handle_play_card-IsKept :
    (st : State) (hand : Hand) (side : Bool) (idx : ℕ)
    → IsShaped st
    → IsSettled st
    → st.game_over ≡ 0
    → IsKept st (handle_play_card st hand side idx).1
handle_play_card-IsKept st hand side idx v s e =
    go (handle_play_card st hand side idx) (handle_play_card-Outcome st hand side idx (omega arith))
  where
    same : IsKept st st
    same = record {
      shaped = v;
      settled = s;
      turn_eq = refl;
      phase_eq = refl;
      mana_le = omega arith;
    }

    go : (r : ℕ × State) → Outcome st hand side idx r → IsKept st r.1
    go r (no_place _ q) = rw q same
    go r (no_card _ _ q) = rw q same
    go r (no_mana _ _ _ _ q) = rw q same
    go r (played c _ _ _ q) = rw q (record {
      shaped = paid-IsShaped st side c v;
      settled = paid-IsSettled st side c e (s.playing e).1;
      turn_eq = (paid-turn st side c).0;
      phase_eq = (paid-turn st side c).1;
      mana_le = omega (arith, paid-mana st side c);
    })
