-- ===== src/Client/Drawing/Damage.antt =====
-- The damage that the network thread of src/client_gui.c makes out between two states.
use tcg_final_project.Prelude.{
  ℕ, ◌+◌, ◌<◌, ◌≡◌, true, ◌==◌, if◌then◌else◌, arith, Bool-cases, inl, inr,
}
use tcg_final_project.Prelude.Words.{sext16, sub_int, ltb_int, IsNat16}
use tcg_final_project.Client.Structs.{Seen}

-- Who has lost hit points.
pub data Hurt : Type 0 where
  nobody : Hurt
  the_ai the_player : ℕ → Hurt

-- What `g_float` gets when `st` follows `prev`.
unfoldable pub float_damage : Seen → Seen → Hurt
float_damage prev st =
    let dmg_to_ai = sub_int (sext16 prev.ai_hp) (sext16 st.ai_hp) in
    let dmg_to_p = sub_int (sext16 prev.p_hp) (sext16 st.p_hp) in
    if prev.max_mana == 0
    then nobody
    else if ltb_int 0 dmg_to_ai
    then the_ai dmg_to_ai
    else if ltb_int 0 dmg_to_p
    then the_player dmg_to_p
    else nobody

-- What is shown of a change of the hit points.
pub data Told (prev st : Seen) : Hurt → Type 0 where
  unhurt : Told prev st nobody
  ai_lost : (d : ℕ) → prev.ai_hp ≡ st.ai_hp + d → 0 < d → Told prev st (the_ai d)
  player_lost : (d : ℕ) → prev.p_hp ≡ st.p_hp + d → 0 < d → Told prev st (the_player d)

-- A difference above 0 is what was lost.
loss :
    (before after : ℕ)
    → IsNat16 before
    → IsNat16 after
    → ltb_int 0 (sub_int (sext16 before) (sext16 after)) ≡ true
    → (before ≡ after + sub_int (sext16 before) (sext16 after))
      × (0 < sub_int (sext16 before) (sext16 after))
loss before after a b h = ground (arith, h)

-- The damage that is made out is what the fighter has lost, if no hit points are negative.
pub float_damage-Told :
    (prev st : Seen)
    → IsNat16 prev.ai_hp
    → IsNat16 st.ai_hp
    → IsNat16 prev.p_hp
    → IsNat16 st.p_hp
    → Told prev st (float_damage prev st)
unfolding float_damage
float_damage-Told prev st a b c d =
    let to_ai = sub_int (sext16 prev.ai_hp) (sext16 st.ai_hp) in
    let to_p = sub_int (sext16 prev.p_hp) (sext16 st.p_hp) in
    elim (Bool-cases (prev.max_mana == 0)) [
      | inl new ↦ rw (new, float_damage) unhurt
      | inr known ↦ elim (Bool-cases (ltb_int 0 to_ai)) [
        | inl ai ↦
            let (lost, some_lost) = loss prev.ai_hp st.ai_hp a b ai in
            rw (known, ai, float_damage) (ai_lost to_ai lost some_lost)
        | inr no_ai ↦ elim (Bool-cases (ltb_int 0 to_p)) [
          | inl p ↦
              let (lost, some_lost) = loss prev.p_hp st.p_hp c d p in
              rw (known, no_ai, p, float_damage) (player_lost to_p lost some_lost)
          | inr no_p ↦ rw (known, no_ai, no_p, float_damage) unhurt
        ]
      ]
    ]
