-- ===== src/Game/Hands.antt =====
-- Hands of src/server.c: what `deal_hand` deals, and what a hand may hold.
use tcg_final_project.Prelude.{
  ℕ, zero, suc, ◌+◌, ◌%◌, ◌<◌, ◌≡◌, ◌⊎◌, inl, inr, refl, arith, List, [], ◌∷◌, some, get_or, length,
  set, length-set,
}
use tcg_final_project.Cards.{CardDef, get_card_def}
use tcg_final_project.Game.Defs.{Hand, Game}
use tcg_final_project.Game.Turns.{pool, rand_card_id, deal_hand}

-- A number that the table knows, or 0 for an empty place.
abbrev pub IsPlace : ℕ → Type 0
IsPlace id = (id ≡ 0) ⊎ ((c : CardDef) × (get_card_def id ≡ some c))

abbrev pub AllPlaces : List ℕ → Type 0
AllPlaces [] = Unit {0}
AllPlaces (x ∷ xs) = IsPlace x × AllPlaces xs

pub record IsHand (h : Hand) : Type 0 where
  pub n_eq : h.n ≡ 3
  pub places : length h.card_ids ≡ 8
  pub known : AllPlaces h.card_ids

pool-known : (i : ℕ) → i < 11 → (c : CardDef) × (get_card_def (get_or pool i 0) ≡ some c)
unfolding get_card_def
pool-known zero h = (_, refl)
pool-known (suc zero) h = (_, refl)
pool-known (suc (suc zero)) h = (_, refl)
pool-known (suc (suc (suc zero))) h = (_, refl)
pool-known (suc (suc (suc (suc zero)))) h = (_, refl)
pool-known (suc (suc (suc (suc (suc zero))))) h = (_, refl)
pool-known (suc (suc (suc (suc (suc (suc zero)))))) h = (_, refl)
pool-known (suc (suc (suc (suc (suc (suc (suc zero))))))) h = (_, refl)
pool-known (suc (suc (suc (suc (suc (suc (suc (suc zero)))))))) h = (_, refl)
pool-known (suc (suc (suc (suc (suc (suc (suc (suc (suc zero))))))))) h = (_, refl)
pool-known (suc (suc (suc (suc (suc (suc (suc (suc (suc (suc zero)))))))))) h = (_, refl)
pool-known (suc (suc (suc (suc (suc (suc (suc (suc (suc (suc (suc i))))))))))) h =
    absurd (omega arith)

pub rand_card_id-known :
    (rand : ℕ → ℕ) (k : ℕ) → (c : CardDef) × (get_card_def (rand_card_id rand k) ≡ some c)
unfolding rand_card_id
rand_card_id-known rand k = pool-known (rand k % 11) (omega arith)

empty_places : AllPlaces (0 ∷ 0 ∷ 0 ∷ 0 ∷ 0 ∷ [])
empty_places = (inl refl, (inl refl, (inl refl, (inl refl, (inl refl, tt)))))

-- Whatever `rand` returns, a hand just dealt has three cards of the table and five empty places.
pub deal_hand-IsHand : (rand : ℕ → ℕ) (g : Game) → IsHand (deal_hand rand g).hand
unfolding deal_hand
deal_hand-IsHand rand g = record {
  n_eq = refl;
  places = refl;
  known = (
    inr (rand_card_id-known rand g.rands),
    (
      inr (rand_card_id-known rand (g.rands + 1)),
      (inr (rand_card_id-known rand (g.rands + 2)), empty_places),
    ),
  );
}

set_zero-AllPlaces : (xs : List ℕ) (i : ℕ) → AllPlaces xs → AllPlaces (set xs i 0)
set_zero-AllPlaces [] i h = tt
set_zero-AllPlaces (x ∷ xs) zero h = (inl refl, h.1)
set_zero-AllPlaces (x ∷ xs) (suc i) h = (h.0, set_zero-AllPlaces xs i h.1)

pub clear-IsHand :
    (h : Hand) (i : ℕ) → IsHand h → IsHand (record h { card_ids = set h.card_ids i 0 })
clear-IsHand h i v = record {
  n_eq = v.n_eq;
  places = omega (arith, length-set h.card_ids i 0, v.places);
  known = set_zero-AllPlaces h.card_ids i v.known;
}
