-- ===== src/Proto/Fold.antt =====
-- What `proto_checksum16` of src/common/proto.c computes, and what errors it finds.
use tcg_final_project.Prelude.{
  ℕ, suc, ◌+◌, ◌-◌, ◌*◌, ◌/◌, ◌%◌, ◌<◌, ◌≤◌, ◌≡◌, ◌≢◌, refl, sym, ap, ◌∙◌, List, [], ◌∷◌, ◌++◌,
  length, arith, ◌==◌, if◌then◌else◌,
}
use mathlib.Core.List.{Perm, Permᴰ}
use native.Mathlib.Decide.{dec_lt}
use native.Mathlib.Nat.{zero-add, ℕ_set}
use mathlib.Core.Path.{ap₂}
use mathlib.Core.Logic.{∥∥₁_elim}
use tcg_final_project.Prelude.Words.{u32}
use tcg_final_project.Proto.Checksum.{add_bytes, fold_carries, proto_checksum16}

-- The plain sum.
unfoldable pub total : List ℕ → ℕ
total [] = 0
total (x ∷ xs) = x + total xs

abbrev pub AllBytes : List ℕ → Type 0
AllBytes [] = Unit {0}
AllBytes (x ∷ xs) = (x < 256) × AllBytes xs

-- The number from 1 to 65535 that a positive sum is congruent to, modulo 65535.
abbrev pub residue : ℕ → ℕ
residue s = if s == 0 then 0 else (s - 1) % 65535 + 1

residue-lt : (s : ℕ) → s < 65536 → residue s ≡ s
residue-lt s h = ground arith

residue_step : (s : ℕ) → residue (s % 65536 + s / 65536) ≡ residue s
residue_step s = ground arith

residue-le : (s : ℕ) → residue s ≤ 65535
residue-le s = ground arith

fold_done : (fuel s : ℕ) → s < 65536 → fold_carries (suc fuel) s ≡ s
unfolding fold_carries
fold_done fuel s h = ground arith

fold_step :
    (fuel s : ℕ)
    → s < 4294967296
    → 65536 ≤ s
    → fold_carries (suc fuel) s ≡ fold_carries fuel (s % 65536 + s / 65536)
unfolding fold_carries
fold_step fuel s h big = ground arith

-- One round is enough below 131071, as two are below 2 ^ 32.
fold_once : (fuel s : ℕ) → s ≤ 131070 → fold_carries (suc (suc fuel)) s ≡ residue s
fold_once fuel s h = elim (dec_lt s 65536) [
  | yes lo ↦ fold_done (suc fuel) s lo ∙ sym (residue-lt s lo)
  | no hi ↦
      fold_step (suc fuel) s (omega arith) (omega arith)
      ∙ fold_done fuel _ (omega arith)
      ∙ sym (residue-lt _ (omega arith))
      ∙ residue_step s
]

-- For a `uint32_t` and three rounds of fuel or more, the loop that folds the carries comes to the
-- number from 1 to 65535 that is congruent to the sum modulo 65535, or to 0 for 0.
pub fold_carries_lem :
    (fuel s : ℕ) → s < 4294967296 → fold_carries (suc (suc (suc fuel))) s ≡ residue s
fold_carries_lem fuel s h = elim (dec_lt s 65536) [
  | yes lo ↦ fold_done (suc (suc fuel)) s lo ∙ sym (residue-lt s lo)
  | no hi ↦
      fold_step (suc (suc fuel)) s h (omega arith) ∙ fold_once fuel _ (omega arith) ∙ residue_step s
]

add_bytes_lem : (xs : List ℕ) (s : ℕ) → s + total xs < 4294967296 → add_bytes s xs ≡ s + total xs
unfolding add_bytes total
add_bytes_lem [] s h = omega arith
add_bytes_lem (x ∷ xs) s h = omega (arith, add_bytes_lem xs (u32 (s + x)) (omega arith))

-- The checksum of bytes whose sum is a `uint32_t` is the complement of their plain sum's residue
-- modulo 65535.
pub proto_checksum16_lem :
    (xs : List ℕ) → total xs < 4294967296 → proto_checksum16 xs ≡ 65535 - residue (total xs)
unfolding proto_checksum16
proto_checksum16_lem xs h = omega (
  arith,
  add_bytes_lem xs 0 (omega arith),
  ap (fold_carries 3) (add_bytes_lem xs 0 (omega arith) ∙ zero-add _),
  fold_carries_lem 0 (total xs) h,
  residue-le (total xs),
)

pub total-append : (xs ys : List ℕ) → total (xs ++ ys) ≡ total xs + total ys
unfolding total
total-append [] ys = omega arith
total-append (x ∷ xs) ys = omega (arith, total-append xs ys)

pub total-le : (xs : List ℕ) → AllBytes xs → total xs ≤ 255 * length xs
unfolding total
total-le [] h = omega arith
total-le (x ∷ xs) h = omega (arith, total-le xs h.1)

-- Two sums that differ by less than 65535 have one residue only if they are equal, but for 0.
residue-apart :
    (s a b : ℕ) → a < 256 → b < 256 → a ≢ b → 65535 - residue (s + a) ≢ 65535 - residue (s + b)
residue-apart s a b ha hb ne = ground arith

AllBytes-middle :
    (xs ys : List ℕ) (a : ℕ)
    → AllBytes (xs ++ a ∷ ys)
    → (a < 256) × (total xs + total ys ≤ 255 * length (xs ++ a ∷ ys))
unfolding total
AllBytes-middle [] ys a h = (h.0, omega (arith, total-le ys h.1))
AllBytes-middle (x ∷ xs) ys a h = let (lt, le) = AllBytes-middle xs ys a h.1 in (lt, omega arith)

checksum_middle :
    (xs ys : List ℕ) (a : ℕ)
    → total xs + total ys ≤ 1_044_480
    → a < 256
    → proto_checksum16 (xs ++ a ∷ ys) ≡ 65535 - residue (total xs + total ys + a)
unfolding total
checksum_middle xs ys a le lt =
    let sum : total (xs ++ a ∷ ys) ≡ total xs + total ys + a =
      omega (arith, total-append xs (a ∷ ys)) in
    proto_checksum16_lem (xs ++ a ∷ ys) (omega arith) ∙ ap (λ t. 65535 - residue t) sum

-- The checksum of a packet of at most 4096 bytes changes whenever one byte of it changes to
-- another.
pub proto_checksum16-single_byte :
    (xs ys : List ℕ) (a b : ℕ)
    → AllBytes (xs ++ a ∷ ys)
    → b < 256
    → length (xs ++ a ∷ ys) ≤ 4096
    → a ≢ b
    → proto_checksum16 (xs ++ a ∷ ys) ≢ proto_checksum16 (xs ++ b ∷ ys)
proto_checksum16-single_byte xs ys a b h hb len ne e =
    let (ha, le) = AllBytes-middle xs ys a h in
    residue-apart (total xs + total ys) a b ha hb ne (
      sym (checksum_middle xs ys a (omega arith) ha) ∙ e ∙ checksum_middle xs ys b (omega arith) hb)

total-permᴰ : {xs ys : List ℕ} → Permᴰ xs ys → total xs ≡ total ys
unfolding total
total-permᴰ Permᴰ.nil = refl
total-permᴰ (Permᴰ.cons e p) = ap₂ ◌+◌ e (total-permᴰ p)
total-permᴰ (Permᴰ.swap e f) = omega arith
total-permᴰ (Permᴰ.trans p q) = total-permᴰ p ∙ total-permᴰ q

pub total-perm : {xs ys : List ℕ} → Perm xs ys → total xs ≡ total ys
total-perm p = ∥∥₁_elim p (ℕ_set _ _) total-permᴰ
