-- ===== src/Client/Screen.antt =====
-- What `draw_ui` of src/client_app.c shows, and the keys of `run_app_mode`.
use tcg_final_project.Prelude.{
  ℕ, zero, suc, ◌+◌, ◌-◌, ◌<◌, ◌≡◌, ◌≢◌, refl, ap, List, [], ◌∷◌, ◌++◌, Bool, true, false, not,
  ◌||◌, Option, none, some, ◌==◌, leb, ltb, if◌then◌else◌, get_or, arith,
}
use mathlib.Core.List.{Memᴰ}
use mathlib.Core.List.Memᴰ
use mathlib.Core.Path.{subst}
use tcg_final_project.Prelude.Words.{u8}
use tcg_final_project.Game.Defs.{Hand}
use tcg_final_project.Session.World.{get_u64}
use tcg_final_project.Cards.{CardDef, get_card_def}
use tcg_final_project.Client.{game_over_at}
use tcg_final_project.Client.Structs.{Seen, read_state, read_hand}
use tcg_final_project.Client.App.{App, Request, quit, nothing, end_turn, request}
use tcg_final_project.Client.App

-- A winner's name.
pub data Winner : Type 0 where
  nobody player ai : Winner

-- A line of the screen: what `mvprintw` gets. A card has its place, from 1 on.
pub data Line : Type 0 where
  title hand_title action : Line
  player_hp ai_hp : ℕ → Line
  turn_of_player game_over : Bool → Line
  winner : Winner → Line
  card : ℕ → CardDef → Line
  unknown_card : ℕ → ℕ → Line

abbrev pub winner_name : ℕ → Winner
winner_name w = if w == 1 then player else if w == 2 then ai else nobody

abbrev pub card_line : ℕ → ℕ → Option CardDef → Line
card_line place cid none = unknown_card place cid
card_line place cid (some def) = card place def

-- The cards from place `i` on, `k` of them, each with its row.
unfoldable pub card_lines : ℕ → ℕ → List ℕ → List (ℕ × Line)
card_lines zero i ids = []
card_lines (suc k) i ids =
    let cid = get_or ids i 0 in
    (11 + i, card_line (i + 1) cid (get_card_def cid)) ∷ card_lines k (suc i) ids

-- The screen, each line with its row.
unfoldable pub draw_ui : Seen → Hand → List (ℕ × Line)
draw_ui st hand =
    let n = if ltb 8 hand.n then 8 else hand.n in
    (1, title)
    ∷ (3, player_hp st.p_hp)
    ∷ (4, ai_hp st.ai_hp)
    ∷ (6, turn_of_player (st.turn == 0))
    ∷ (7, game_over (not (st.game_over == 0)))
    ∷ ((if st.game_over == 0 then [] else (8, winner (winner_name st.winner)) ∷ [])
        ++ ((10, hand_title) ∷ (card_lines n 0 hand.card_ids ++ (20, action) ∷ [])))

card_lines-Mem :
    (k i j : ℕ) (ids : List ℕ)
    → j < k
    → let cid = get_or ids (i + j) 0 in
      Memᴰ (11 + (i + j), card_line (i + j + 1) cid (get_card_def cid)) (card_lines k i ids)
unfolding card_lines
card_lines-Mem zero i j ids h = absurd (omega (arith, h))
card_lines-Mem (suc k) i zero ids h =
    let same : i + 0 ≡ i = omega arith in
    Memᴰ.head
      (ap (λ x. (11 + x, card_line (x + 1) (get_or ids x 0) (get_card_def (get_or ids x 0)))) same)
card_lines-Mem (suc k) i (suc j) ids h =
    let same : suc i + j ≡ i + suc j = omega arith in
    let below : j < k = omega (arith, h) in
    Memᴰ.tail (
      subst
        (λ x.
          Memᴰ (11 + x, card_line (x + 1) (get_or ids x 0) (get_card_def (get_or ids x 0)))
            (card_lines k (suc i) ids))
        same (card_lines-Mem k (suc i) j ids below))

-- The keys that play, and the place that each plays.
data Plays (a : App) (ch i : ℕ) : Type 0 where
  by_key : ch ≡ b'1' + i → i < 3 → i < get_or a.hand 0 0 → Plays a ch i

not_then : (b : Bool) (p q r : Request) → (if b then p else q) ≡ r → p ≢ r → (b ≡ false) × (q ≡ r)
not_then true p q r h ne = absurd (ne h)
not_then false p q r h ne = (refl, h)

not_else : (b : Bool) (p q r : Request) → (if b then p else q) ≡ r → q ≢ r → (b ≡ true) × (p ≡ r)
not_else true p q r h ne = (refl, h)
not_else false p q r h ne = absurd (ne h)

request-Plays : (ch i : ℕ) (a : App) → request ch a ≡ App.play i → Plays a ch i
unfolding request
request-Plays ch i a h =
    let key = ch == b'1' || ch == b'2' || ch == b'3' in
    let (_, h1) = not_then (ch == b'q' || ch == b'Q') quit _ (App.play i) h (λ e. cc e) in
    let (_, h2) =
      not_then (not (get_or a.st game_over_at 0 == 0)) nothing _ (App.play i) h1 (λ e. cc e) in
    let (_, h3) = not_then (ch == b'e' || ch == b'E') end_turn _ (App.play i) h2 (λ e. cc e) in
    let (digit, h4) = not_else key _ nothing (App.play i) h3 (λ e. cc e) in
    let (inside, h5) =
      not_then (leb (get_or a.hand 0 0) (ch - b'1')) nothing (App.play (u8 (ch - b'1')))
        (App.play i) h4 (λ e. cc e) in
    let same : u8 (ch - b'1') ≡ i = cc h5 in
    by_key (ground (arith, digit, inside, same)) (ground (arith, digit, inside, same))
      (ground (arith, digit, inside, same))

read_hand-n : (b : List ℕ) → (read_hand b).n ≡ get_or b 0 0
unfolding read_hand get_u64
read_hand-n [] = refl
read_hand-n (x ∷ xs) = omega arith

card_lines-draw_ui :
    (st : Seen) (hand : Hand) (j : ℕ)
    → j < hand.n
    → j < 8
    → let cid = get_or hand.card_ids j 0 in
      Memᴰ (11 + j, card_line (j + 1) cid (get_card_def cid)) (draw_ui st hand)
unfolding draw_ui
card_lines-draw_ui st hand j inside low =
    let n = if ltb 8 hand.n then 8 else hand.n in
    let below : j < n = ground (arith, inside, low) in
    let same : 0 + j ≡ j = omega arith in
    let shown =
      subst
        (λ x.
          Memᴰ
            (
              11 + x,
              card_line (x + 1) (get_or hand.card_ids x 0)
                  (get_card_def (get_or hand.card_ids x 0)),
            )
            (card_lines n 0 hand.card_ids))
        same (card_lines-Mem n 0 j hand.card_ids below) in
    Memᴰ.tail (
      Memᴰ.tail (
        Memᴰ.tail (
          Memᴰ.tail (
            Memᴰ.tail (
              Memᴰ.append_right
                (if st.game_over == 0 then [] else (8, winner (winner_name st.winner)) ∷ [])
                (Memᴰ.tail (Memᴰ.append_left ((20, action) ∷ []) shown)))))))

-- A key that makes the terminal client play a place of the hand is the number that the screen shows
-- in front of that place's card, whatever bytes the client has.
pub request-shown :
    (ch i : ℕ) (a : App)
    → request ch a ≡ App.play i
    → let cid = get_or (read_hand a.hand).card_ids i 0 in
      (ch ≡ b'0' + (i + 1))
      × Memᴰ
          (11 + i, card_line (i + 1) cid (get_card_def cid))
          (draw_ui (read_state a.st) (read_hand a.hand))
request-shown ch i a h = go (request-Plays ch i a h)
  where
    go :
        Plays a ch i
        → let cid = get_or (read_hand a.hand).card_ids i 0 in
          (ch ≡ b'0' + (i + 1))
          × Memᴰ
              (11 + i, card_line (i + 1) cid (get_card_def cid))
              (draw_ui (read_state a.st) (read_hand a.hand))
    go (by_key key low inside) = (
      omega (arith, key),
      card_lines-draw_ui (read_state a.st) (read_hand a.hand) i
          (omega (arith, inside, read_hand-n a.hand)) (omega (arith, low)),
    )
