-- ===== src/Client/Clicking.antt =====
-- A click in the graphical client of src/client_gui.c, up to the answer of src/server.c.
use tcg_final_project.Prelude.{
  ℕ, ◌<◌, ◌≡◌, ◌≢◌, inl, inr, refl, sym, ap, ◌∙◌, true, Option, none, some, ==_iff, ltb, arith,
  Bool-cases,
}
use mathlib.Core.Path.{subst}
use tcg_final_project.Prelude.Words.{u8}
use tcg_final_project.Proto.Opcode.{op_play_card, op_end_turn}
use tcg_final_project.Client.{Gui}
use tcg_final_project.Client.NetThread.{
  Command, Target, end_button, elsewhere, card, shown_cards, may_ask, is_selected, choose, click,
}

-- What a click that asks for something asks for.
pub data Asked (g : Gui) (selected : Option ℕ) : Command → Type 0 where
  asks_end : Asked g selected (record { op = op_end_turn; hand_idx = 0 })
  asks_play :
      (i : ℕ)
      → i < shown_cards g
      → selected ≡ some i
      → Asked g selected (record { op = op_play_card; hand_idx = u8 i })

is_selected-eq : (i : ℕ) (o : Option ℕ) → is_selected i o ≡ true → o ≡ some i
is_selected-eq i none h = absurd (cc h)
is_selected-eq i (some j) h = ap some (sym ((==_iff i j).0 h))

Asked-by :
    (g : Gui) (selected s : Option ℕ) (cmd cmd' : Command) (t : Option ℕ)
    (r : Option Command × Option ℕ)
    → r ≡ (some cmd', t)
    → r ≡ (some cmd, s)
    → Asked g selected cmd'
    → Asked g selected cmd
Asked-by g selected s cmd cmd' t r here h a =
    let same : some cmd' ≡ some cmd = ap (λ p. p.0) (sym here ∙ h) in
    let same_command : cmd' ≡ cmd = cc same in subst (Asked g selected) same_command a

no_command :
    (s t : Option ℕ) (cmd : Command) (r : Option Command × Option ℕ)
    → r ≡ (none, t)
    → r ≢ (some cmd, s)
no_command s t cmd r here h = let same : none ≡ some cmd = ap (λ p. p.0) (sym here ∙ h) in cc same

choose-Asked :
    (g : Gui) (at : Target) (selected s : Option ℕ) (cmd : Command)
    → choose g at selected ≡ (some cmd, s)
    → Asked g selected cmd
unfolding choose
choose-Asked g end_button selected s cmd h = Asked-by g selected s cmd _ none _ refl h asks_end
choose-Asked g elsewhere selected s cmd h = absurd (no_command s none cmd _ refl h)
choose-Asked g (card i) selected s cmd h = elim (Bool-cases (ltb i (shown_cards g))) [
  | inl inside ↦ elim (Bool-cases (is_selected i selected)) [
    | inl again ↦
        Asked-by g selected s cmd _ none _ (rw (inside, again) refl) h
          (asks_play i (ground (arith, inside)) (is_selected-eq i selected again))
    | inr first ↦ absurd (no_command s (some i) cmd _ (rw (inside, first) refl) h)
  ]
  | inr outside ↦ absurd (no_command s none cmd _ (rw outside refl) h)
]

-- A click sends a command only to a running game of which the client knows that it is connected and
-- that it is the player's turn; and it plays only a card that is shown and was selected.
pub click-Asked :
    (g : Gui) (at : Target) (selected s : Option ℕ) (cmd : Command)
    → click g at selected ≡ (some cmd, s)
    → (may_ask g ≡ true) × Asked g selected cmd
unfolding click
click-Asked g at selected s cmd h = elim (Bool-cases (may_ask g)) [
  | inl may ↦
      let same : click g at selected ≡ choose g at selected = rw may refl in
      (may, choose-Asked g at selected s cmd (sym same ∙ h))
  | inr may_not ↦ absurd (no_command s selected cmd _ (rw may_not refl) h)
]
