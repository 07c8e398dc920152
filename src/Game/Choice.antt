-- ===== src/Game/Choice.antt =====
-- How the AI of src/server.c chooses: the `for` loop of `process_ai_turn` finds a card of the highest
-- score among those that it can pay for.
use tcg_final_project.Prelude.{
  ℕ, zero, suc, ◌+◌, ◌<◌, ◌≤◌, ◌≡◌, ◌⊎◌, inl, inr, refl, ◌∙◌, ap, arith, List, [], ◌∷◌, Option,
  none, some, get_or, length, take, Bool-cases, Option-cases, leb, ◌==◌,
}
use tcg_final_project.Prelude.Words.{u32, neg, ltb_int}
use tcg_final_project.Cards.{CardDef, get_card_def}
use tcg_final_project.Cards.Table.{IsFair, get_card_def-IsFair}
use tcg_final_project.Game.Defs.{State, Hand}
use tcg_final_project.Game.Ai.{bonus, worth, ai_eval_card, consider, scan, best_card}

-- An `int` by its place among the `int`s.
abbrev pub rank : ℕ → ℕ
rank x = u32 (x + 2147483648)

-- A card of the list that the AI can pay for.
pub record CanPlay (st : State) (xs : List ℕ) (j : ℕ) (c : CardDef) : Type 0 where
  pub inside : j < length xs
  pub card : get_card_def (get_or xs j 0) ≡ some c
  pub payable : c.cost ≤ st.mana

-- A score lies between -6 and 142.
pub ai_eval_card-bounds :
    (st : State) (c : CardDef)
    → IsFair c
    → (2147483642 ≤ rank (ai_eval_card st c)) × (rank (ai_eval_card st c) ≤ 2147483790)
unfolding ai_eval_card bonus worth
ai_eval_card-bounds st c f = ground arith

consider-ge :
    (st : State) (cid i : ℕ) (best : Option ℕ × ℕ) → rank best.1 ≤ rank (consider st cid i best).1
unfolding consider
consider-ge st cid i best = ground arith

consider-ge_card :
    (st : State) (cid i : ℕ) (best : Option ℕ × ℕ) (c : CardDef)
    → get_card_def cid ≡ some c
    → c.cost ≤ st.mana
    → rank (ai_eval_card st c) ≤ rank (consider st cid i best).1
unfolding consider
consider-ge_card st cid i best c e h = ground (arith, get_card_def-IsFair cid c e)

-- A round keeps the best card so far, or takes the one at hand, which can be paid for.
consider_cases :
    (st : State) (cid i : ℕ) (best : Option ℕ × ℕ)
    → (consider st cid i best ≡ best)
      ⊎ ((c : CardDef) × (get_card_def cid ≡ some c)
          × (c.cost ≤ st.mana)
          × (consider st cid i best ≡ (some i, ai_eval_card st c)))
unfolding consider
consider_cases st cid i best = elim (Bool-cases (cid == 0)) [
  | inl z ↦ inl (rw z)
  | inr nz ↦ elim (Option-cases (get_card_def cid)) [
    | inl e ↦ inl (rw (nz, e))
    | inr (c, e) ↦ elim (Bool-cases (leb c.cost st.mana)) [
      | inr poor ↦ inl (rw (nz, e, poor))
      | inl rich ↦ elim (Bool-cases (ltb_int best.1 (ai_eval_card st c))) [
        | inl better ↦ inr (c, e, ground arith, rw (nz, e, rich, better))
        | inr worse ↦ inl (rw (nz, e, rich, worse))
      ]
    ]
  ]
]

scan-ge :
    (st : State) (xs : List ℕ) (k : ℕ) (best : Option ℕ × ℕ)
    → rank best.1 ≤ rank (scan st xs k best).1
unfolding scan
scan-ge st [] k best = omega arith
scan-ge st (x ∷ xs) k best =
    omega (arith, consider-ge st x k best, scan-ge st xs (k + 1) (consider st x k best))

scan-ge_card :
    (st : State) (xs : List ℕ) (k : ℕ) (best : Option ℕ × ℕ) (j : ℕ) (c : CardDef)
    → CanPlay st xs j c
    → rank (ai_eval_card st c) ≤ rank (scan st xs k best).1
unfolding scan
scan-ge_card st [] k best j c p = absurd (omega arith)
scan-ge_card st (x ∷ xs) k best zero c p = omega (
  arith,
  consider-ge_card st x k best c p.card p.payable,
  scan-ge st xs (k + 1) (consider st x k best),
)
scan-ge_card st (x ∷ xs) k best (suc j) c p =
    scan-ge_card st xs (k + 1) (consider st x k best) j c
      (record { inside = omega arith; card = p.card; payable = p.payable })

-- The loop ends with what it had, or with a place of the list and the score of the card there.
scan_cases :
    (st : State) (xs : List ℕ) (k : ℕ) (best : Option ℕ × ℕ)
    → (scan st xs k best ≡ best)
      ⊎ ((j : ℕ) × (c : CardDef) × CanPlay st xs j c
          × (scan st xs k best ≡ (some (k + j), ai_eval_card st c)))
unfolding scan
scan_cases st [] k best = inl refl
scan_cases st (x ∷ xs) k best = elim (scan_cases st xs (k + 1) (consider st x k best)) [
  | inr (j, c, p, e) ↦ inr (
    suc j,
    c,
    record { inside = omega arith; card = p.card; payable = p.payable },
    rw e (ground arith),
  )
  | inl e ↦ elim (consider_cases st x k best) [
    | inl old ↦ inl (e ∙ old)
    | inr (c, f, h, new) ↦
        inr
          (zero, c, record { inside = omega arith; card = f; payable = h }, e ∙ new ∙ ground arith)
  ]
]

-- The card that is played is one that can be paid for, with a score as high as any such card's; no
-- card is chosen only where none can be paid for.
pub data Chosen (st : State) (hand : Hand) (r : Option ℕ) : Type 0 where
  nothing :
      r ≡ none
      → ((j : ℕ) (c : CardDef) → ¬ CanPlay st (take hand.n hand.card_ids) j c)
      → Chosen st hand r
  best :
      (i : ℕ) (c : CardDef)
      → r ≡ some i
      → CanPlay st (take hand.n hand.card_ids) i c
      → ((j : ℕ) (d : CardDef)
          → CanPlay st (take hand.n hand.card_ids) j d
          → rank (ai_eval_card st d) ≤ rank (ai_eval_card st c))
      → Chosen st hand r

-- The card that the AI's search finds is in the hand and the table, can be paid for, and has a
-- score that no other payable card of the hand exceeds; and if the search finds none, the hand has
-- no payable card.
pub best_card-Chosen : (st : State) (hand : Hand) → Chosen st hand (best_card st hand)
unfolding best_card
best_card-Chosen st hand = elim (scan_cases st (take hand.n hand.card_ids) 0 (none, neg 9999)) [
  | inl e ↦ nothing (ap (λ r. r.0) e) λ j c p. omega (
    arith,
    scan-ge_card st (take hand.n hand.card_ids) 0 (none, neg 9999) j c p,
    ap (λ r. r.1) e,
    (ai_eval_card-bounds st c (get_card_def-IsFair _ c p.card).0).0,
  )
  | inr (i, c, p, e) ↦ best i c (ap (λ r. r.0) e ∙ ap some (omega arith)) p λ j d q.
      omega (
        arith,
        scan-ge_card st (take hand.n hand.card_ids) 0 (none, neg 9999) j d q,
        ap (λ r. r.1) e,
      )
]
