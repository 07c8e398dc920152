-- ===== src/Client/Drawing/Bars.antt =====
-- The bars of hit points that src/client_gui.c draws.
use tcg_final_project.Prelude.{
  ℕ, ◌+◌, ◌-◌, ◌≤◌, ◌<◌, ◌≡◌, List, [], ◌∷◌, true, Bool-cases, inl, inr, arith,
}
use tcg_final_project.Prelude.Words.{ltb_int}
use tcg_final_project.Client.Drawing.{Mark, bar, Ratio, max_of, hp_ratio, shield_ratio, draw_hp_bar}

-- A bar within the frame of `w` by `h` at `x` and `y`.
abbrev pub IsInside : ℕ → ℕ → ℕ → ℕ → Mark → Type 0
IsInside x y w h (bar part a b c d) = (x ≤ a) × (a + c ≤ x + w) × (y ≤ b) × (b + d ≤ y + h)
IsInside x y w h _ = Unit {0}

abbrev pub AllInside : ℕ → ℕ → ℕ → ℕ → List Mark → Type 0
AllInside x y w h [] = Unit {0}
AllInside x y w h (m ∷ ms) = IsInside x y w h m × AllInside x y w h ms

hp_ratio-le :
    (hp most : ℕ)
    → hp < 4294967296
    → 0 < most
    → most < 2147483648
    → (hp_ratio hp most).part ≤ (hp_ratio hp most).whole
unfolding hp_ratio
hp_ratio-le hp most small some_most most_lt = ground arith

shield_ratio-le :
    (sh most : ℕ)
    → sh < 4294967296
    → most < 2147483648
    → ltb_int 0 sh ≡ true
    → (shield_ratio sh most).part ≤ (shield_ratio sh most).whole
unfolding shield_ratio
shield_ratio-le sh most small most_lt pos = ground (arith, pos)

module _ (scale : ℕ → Ratio → ℕ) where
  -- Whatever the hit points, their maximum and the shield are, negative or too large: each bar that
  -- `DrawHPBar` draws lies within the frame, if that is at least 4 wide and 6 high and a ratio of
  -- at most 1 takes no more than the width.
  pub draw_hp_bar-AllInside :
      ((w : ℕ) (r : Ratio) → r.part ≤ r.whole → scale w r ≤ w)
      → (x y w h hp maxhp sh : ℕ) → 4 ≤ w
      → 6 ≤ h
      → hp < 4294967296
      → maxhp < 2147483648
      → sh < 4294967296
      → AllInside x y w h (draw_hp_bar scale x y w h hp maxhp sh)
  unfolding draw_hp_bar
  draw_hp_bar-AllInside part_of x y w h hp maxhp sh wide high hp_lt max_lt sh_lt =
      let most = max_of maxhp in
      let some_most : 0 < most = ground arith in
      let most_lt : most < 2147483648 = ground arith in
      let filled =
        part_of (w - 4) (hp_ratio hp most) (hp_ratio-le hp most hp_lt some_most most_lt) in
      let over = λ (pos : ltb_int 0 sh ≡ true).
        part_of (w - 4) (shield_ratio sh most) (shield_ratio-le sh most sh_lt most_lt pos) in
      elim (Bool-cases (ltb_int 0 sh)) [
        | inl pos ↦
            let covered = over pos in rw (pos, draw_hp_bar) (ground (arith, filled, covered))
        | inr none_left ↦ rw (none_left, draw_hp_bar) (ground (arith, filled))
      ]
