-- ===== src/Game/Damage.antt =====
-- Damage and poison of src/server.c on plain numbers, where no `int16_t` is negative.
use tcg_final_project.Prelude.{ℕ, ◌-◌, ◌≤◌, ◌<◌, ◌≡◌, arith}
use tcg_final_project.Prelude.Words.{IsNat16, IsNat32}
use tcg_final_project.Game.Rules.{absorb, wound, apply_damage, poisoned_hp}

pub absorb_lem : (s d : ℕ) → IsNat16 s → 0 < d → IsNat32 d → absorb s d ≡ (s - d, d - s)
unfolding absorb
absorb_lem s d hs pos hd = ground arith

-- The difference of an `int16_t` and more than 32768 could come out positive.
pub wound_lem : (hp d : ℕ) → IsNat16 hp → d ≤ 32768 → wound hp d ≡ hp - d
unfolding wound
wound_lem hp d hh hd = ground arith

-- For hit points and a shield that are not negative and damage of at most 32768, `apply_damage`
-- takes the damage from the shield first and the rest from the hit points, both down to 0 and no
-- further.
pub apply_damage_lem :
    (hp s d : ℕ) → IsNat16 hp → IsNat16 s → d ≤ 32768 → apply_damage hp s d ≡ (hp - (d - s), s - d)
unfolding apply_damage
apply_damage_lem hp s d hh hs hd = ground (arith, absorb_lem s d, wound_lem hp (d - s))

pub poisoned_hp_lem : (hp : ℕ) → IsNat16 hp → poisoned_hp hp ≡ hp - 2
unfolding poisoned_hp
poisoned_hp_lem hp h = ground arith
