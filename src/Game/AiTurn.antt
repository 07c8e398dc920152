-- ===== src/Game/AiTurn.antt =====
-- `process_ai_turn` of src/server.c: its loop ends, each of its plays is accepted, and the turn comes
-- back to the player.
use tcg_final_project.Prelude.{
  ℕ, zero, suc, ◌<◌, ◌≤◌, ◌≡◌, ◌⊎◌, inl, inr, refl, ◌∙◌, sym, ap, arith, List, [], ◌∷◌, Option,
  none, some, get_or, length, take, Bool-cases, Option-cases, ◌==◌, ==_iff, true, false,
}
use mathlib.Core.Path.{subst}
use tcg_final_project.Prelude.Words.{u8}
use tcg_final_project.Cards.{CardDef, get_card_def}
use tcg_final_project.Cards.Table.{get_card_def-IsFair}
use tcg_final_project.Game.Defs.{Game}
use tcg_final_project.Game.Rules.{handle_play_card}
use tcg_final_project.Game.Turns.{phase_end}
use tcg_final_project.Game.Ai.{best_card, is_main, ai_choice, ai_play, ai_loop, process_ai_turn}
use tcg_final_project.Game.Play.{
  Outcome, no_place, no_card, no_mana, played, paid, paid-mana, card_at, handle_play_card-Outcome,
  handle_play_card-IsKept,
}
use tcg_final_project.Game.Hands.{clear-IsHand}
use tcg_final_project.Game.Handover.{IsSound, HasBegun, TurnEnds, stops, passes, phase_end_lem}
use tcg_final_project.Game.Choice.{Chosen, nothing, best, best_card-Chosen}

get_or-take :
    (n : ℕ) (xs : List ℕ) (j : ℕ)
    → j < length (take n xs)
    → (j < n) × (get_or (take n xs) j 0 ≡ get_or xs j 0)
get_or-take zero xs j h = absurd (omega arith)
get_or-take (suc n) [] j h = absurd (omega arith)
get_or-take (suc n) (x ∷ xs) zero h = (omega arith, refl)
get_or-take (suc n) (x ∷ xs) (suc j) h =
    let (lt, e) = get_or-take n xs j (omega arith) in (omega arith, e)

-- What the choice of a card tells.
record Choosing (g : Game) (i : ℕ) : Type 0 where
  main_phase : is_main g.st.phase ≡ true
  running : g.st.game_over ≡ 0
  card : CardDef
  inside : i < g.hand.n
  known : get_card_def (card_at g.hand i) ≡ some card
  payable : card.cost ≤ g.st.mana

best_card-Choosing :
    (g : Game) (i : ℕ)
    → is_main g.st.phase ≡ true
    → g.st.game_over ≡ 0
    → best_card g.st g.hand ≡ some i
    → Choosing g i
best_card-Choosing g i m e b = go _ (best_card-Chosen g.st g.hand) b
  where
    go : (r : Option ℕ) → Chosen g.st g.hand r → r ≡ some i → Choosing g i
    go r (nothing q _) f = cc
    go r (best j c q p _) f =
        let same : j ≡ i = cc in
        let (lt, at) = get_or-take g.hand.n g.hand.card_ids j p.inside in
        subst (λ k. Choosing g k) same
          (record {
            main_phase = m;
            running = e;
            card = c;
            inside = lt;
            known = sym (ap get_card_def at) ∙ p.card;
            payable = p.payable;
          })

ai_choice-Choosing : (g : Game) (i : ℕ) → ai_choice g ≡ some i → Choosing g i
unfolding ai_choice
ai_choice-Choosing g i h = elim (Bool-cases (is_main g.st.phase)) [
  | inr off ↦ absurd (ground arith)
  | inl m ↦ elim (Bool-cases (g.st.game_over == 0)) [
    | inr over ↦ absurd (ground arith)
    | inl on ↦ best_card-Choosing g i m ((==_iff _ _).0 on) (ground arith)
  ]
]

-- A play of the AI.
pub record AiPlays (g g' : Game) : Type 0 where
  pub sound : IsSound g'
  pub turn_eq : g'.st.turn ≡ g.st.turn
  pub phase_eq : g'.st.phase ≡ g.st.phase
  pub mana_lt : g'.st.mana < g.st.mana

passed :
    (rand : ℕ → ℕ) (g : Game)
    → g.st.turn ≡ 1
    → IsSound (phase_end rand g) × TurnEnds rand g (phase_end rand g)
    → IsSound (phase_end rand g)
      × (((phase_end rand g).st.game_over ≡ 1) ⊎ HasBegun 0 (phase_end rand g))
passed rand g t (v, stops over _) = (v, inl over)
passed rand g t (v, passes begun _) =
    (v, inr (subst (λ k. HasBegun k (phase_end rand g)) (omega arith) begun))

-- A play that `handle_play_card` accepts, for a card that the AI can pay for.
pub record IsAccepted (g : Game) (i : ℕ) (c : CardDef) : Type 0 where
  pub inside : i < g.hand.n
  pub known : get_card_def (card_at g.hand i) ≡ some c
  pub payable : c.cost ≤ g.st.mana
  pub result : handle_play_card g.st g.hand false (u8 i) ≡ (0, paid g.st false c)

Choosing-IsAccepted :
    (g : Game) (i : ℕ) (h : Choosing g i) → g.st.mana < 256 → g.hand.n ≡ 3 → IsAccepted g i h.card
Choosing-IsAccepted g i h w three = go (handle_play_card-Outcome g.st g.hand false (u8 i) w)
  where
    small : u8 i ≡ i
    small = omega (arith, h.inside)

    known' : get_card_def (card_at g.hand (u8 i)) ≡ some h.card
    known' = rw small h.known

    same_card : (c : CardDef) → get_card_def (card_at g.hand (u8 i)) ≡ some c → c ≡ h.card
    same_card c e = cc (e, known')

    go :
        Outcome g.st g.hand false (u8 i) (handle_play_card g.st g.hand false (u8 i))
        → IsAccepted g i h.card
    go (no_place out _) = absurd (omega (arith, h.inside))
    go (no_card _ none_there _) = absurd (ground (arith, known'))
    go (no_mana c _ e poor _) = absurd (omega (arith, h.payable, ap CardDef.cost (same_card c e)))
    go (played c _ e _ q) = record {
      inside = h.inside;
      known = h.known;
      payable = h.payable;
      result = q ∙ ap (λ d. (0, paid g.st false d)) (same_card c e);
    }

-- In a sound game every card that the AI chooses is one that `handle_play_card` accepts: it returns
-- 0, and the state after it is the paid one.
pub ai_choice-IsAccepted :
    (g : Game) (i : ℕ) → IsSound g → ai_choice g ≡ some i → (c : CardDef) × IsAccepted g i c
ai_choice-IsAccepted g i v h =
    let k = ai_choice-Choosing g i h in
    (k.card, Choosing-IsAccepted g i k (omega arith) v.holds.n_eq)

pub ai_play-AiPlays :
    (g : Game) (i : ℕ) → IsSound g → ai_choice g ≡ some i → AiPlays g (ai_play g i)
unfolding ai_play
ai_play-AiPlays g i v h =
    let k = ai_choice-Choosing g i h in
    let (c, a) = ai_choice-IsAccepted g i v h in
    let kept = handle_play_card-IsKept g.st g.hand false (u8 i) v.shaped v.settled k.running in
    record {
      sound = record {
        shaped = kept.shaped;
        settled = kept.settled;
        holds = clear-IsHand g.hand i v.holds;
      };
      turn_eq = kept.turn_eq;
      phase_eq = kept.phase_eq;
      mana_lt = omega (
        arith,
        ap (λ r. r.1.mana) a.result,
        paid-mana g.st false c,
        a.payable,
        (get_card_def-IsFair _ c a.known).0.cost_pos,
      );
    }

-- In a sound game, with more fuel than mana, the loop of the AI's turn ends by its own test and not
-- for want of fuel, in a sound game of the same turn.
pub ai_loop_exits :
    (fuel : ℕ) (g : Game)
    → IsSound g
    → g.st.mana < fuel
    → (ai_choice (ai_loop fuel g) ≡ none)
      × IsSound (ai_loop fuel g)
      × ((ai_loop fuel g).st.turn ≡ g.st.turn)
unfolding ai_loop
ai_loop_exits zero g v h = absurd (omega arith)
ai_loop_exits (suc fuel) g v h = elim (Option-cases (ai_choice g)) [
  | inl e ↦ rw (e, ai_loop) (e, v, refl)
  | inr (i, e) ↦
      let p = ai_play-AiPlays g i v e in
      let (exits, sound, turn) =
        ai_loop_exits fuel (ai_play g i) p.sound (omega (arith, p.mana_lt)) in
      rw (e, ai_loop) (exits, sound, turn ∙ p.turn_eq)
]

-- The whole turn of the AI, in a sound game whose turn it is, leaves a sound game, which is over,
-- or in which the player is in the main phase with full mana.
pub process_ai_turn_lem :
    (rand : ℕ → ℕ) (g : Game)
    → IsSound g
    → g.st.turn ≡ 1
    → let g' = process_ai_turn rand g in IsSound g' × ((g'.st.game_over ≡ 1) ⊎ HasBegun 0 g')
unfolding process_ai_turn
process_ai_turn_lem rand g v t =
    let (exits, sound, turn) = ai_loop_exits (suc g.st.mana) g v (omega arith) in
    elim (Bool-cases ((ai_loop (suc g.st.mana) g).st.game_over == 0)) [
      | inr over ↦ rw over (sound, inl (ground (arith, sound.shaped.over_le)))
      | inl on ↦ rw on (
          passed rand (ai_loop (suc g.st.mana) g) (turn ∙ t)
            (phase_end_lem rand _ sound ((==_iff _ _).0 on)))
    ]
