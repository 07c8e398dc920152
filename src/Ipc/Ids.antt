-- ===== src/Ipc/Ids.antt =====
-- The session ids of src/common/ipc.c are a `uint64_t`: `ipc_alloc_session` makes no other, and a
-- session id comes into the table in no other way.
use tcg_final_project.Prelude.{
  ℕ, zero, suc, ◌+◌, ◌*◌, ◌/◌, ◌%◌, ◌<◌, ◌≤◌, ◌≡◌, sym, ap, ◌∙◌, List, [], ◌∷◌, true, arith, length,
}
use Prim.Native.Nat.{bit_xor, bit_xor-bitwise, digits, differ}
use native.Mathlib.Decide.{dec_lt, ℕ_discrete}
use mathlib.Core.Path.{subst}
use tcg_final_project.Ipc.{u64, Entry, make_sid, alloc_from, ipc_alloc_session, ipc_store_init}
use tcg_final_project.Ipc.Laws.{game_of, is_live, game_of-load, game_of-touch, game_of-save}
use tcg_final_project.Ipc.Alloc.{
  StoreCall, call, call_all, taken, taken-le, ipc_alloc_session-IsGrown, ipc_alloc_session-full,
}
use tcg_final_project.Ipc.Alloc

abbrev two_to : ℕ → ℕ
two_to zero = 1
two_to (suc w) = two_to w + two_to w

differ-le : (x y : ℕ) → x ≤ 1 → y ≤ 1 → differ x y ≤ 1
differ-le zero y h k = k
differ-le (suc x) zero h k = h
differ-le (suc zero) (suc zero) h k = omega arith
differ-le (suc zero) (suc (suc y)) h k = absurd (omega arith)
differ-le (suc (suc x)) (suc y) h k = absurd (omega arith)

digits-lt : (w n a b : ℕ) → a < two_to w → b < two_to w → digits (λ b. b) differ n a b < two_to w
digits-lt w zero a b h k = k
digits-lt w (suc n) zero b h k = k
digits-lt zero (suc n) (suc a) b h k = absurd (omega arith)
digits-lt (suc w) (suc n) (suc a) b h k = omega (
  arith,
  digits-lt w n (suc a / 2) (b / 2) (omega arith) (omega arith),
  differ-le (suc a % 2) (b % 2) (omega arith) (omega arith),
)

bit_xor-lt :
    (a b : ℕ)
    → a < 18446744073709551616
    → b < 18446744073709551616
    → bit_xor a b < 18446744073709551616
bit_xor-lt a b h k =
    subst (λ x. x < 18446744073709551616) (sym (bit_xor-bitwise a b)) (digits-lt 64 a a b h k)

make_sid-lt : (time pid random i : ℕ) → make_sid time pid random i < 18446744073709551616
unfolding make_sid
make_sid-lt time pid random i = ground (
  arith,
  bit_xor-lt (u64 (time + i + pid)) (u64 (random * 4294967296)) (omega arith) (omega arith),
)

alloc_from-lt :
    (time seen pid random i : ℕ) (es : List Entry)
    → (alloc_from time seen pid random i es).0 < 18446744073709551616
unfolding alloc_from
alloc_from-lt time seen pid random i [] = omega arith
alloc_from-lt time seen pid random i (e ∷ es) =
    ground (arith, make_sid-lt time pid random i, alloc_from-lt time seen pid random (i + 1) es)

-- Each session id of the table is a `uint64_t`.
abbrev pub AllU64 : List Entry → Type 0
AllU64 es = (k : ℕ) → is_live (game_of es k) ≡ true → k < 18446744073709551616

call-AllU64 : (c : StoreCall) (es : List Entry) → AllU64 es → AllU64 (call c es)
unfolding call ipc_alloc_session
call-AllU64 (Alloc.alloc time seen pid random) es h k live = elim (dec_lt (taken es) (length es)) [
  | yes free ↦
      let g = ipc_alloc_session-IsGrown time seen pid random es free in
      elim (ℕ_discrete k (ipc_alloc_session time seen pid random es).0) [
        | yes same ↦ rw same (alloc_from-lt time seen pid random 0 es)
        | no ne ↦ h k (ap is_live (sym (g.others k ne)) ∙ live)
      ]
  | no full ↦
      let same = ipc_alloc_session-full time seen pid random es (omega (arith, taken-le es)) in
      h k (ap (λ r. is_live (game_of r.1 k)) (sym same) ∙ live)
]
call-AllU64 (Alloc.save sid st g now) es h k live =
    h k (ground (arith, live, game_of-save es sid st g now k))
call-AllU64 (Alloc.load sid now) es h k live =
    h k (ap is_live (sym (game_of-load es sid now k)) ∙ live)
call-AllU64 (Alloc.touch sid now) es h k live =
    h k (ap is_live (sym (game_of-touch es sid now k)) ∙ live)

-- Whatever calls are made.
pub call_all-AllU64 : (cs : List StoreCall) (es : List Entry) → AllU64 es → AllU64 (call_all cs es)
unfolding call_all
call_all-AllU64 [] es h = h
call_all-AllU64 (c ∷ cs) es h = call_all-AllU64 cs (call c es) (call-AllU64 c es h)

pub init-AllU64 : AllU64 ipc_store_init
unfolding ipc_store_init game_of
init-AllU64 k live = absurd (cc live)
