-- ===== src/Proto/Bytes.antt =====
-- Numbers in network byte order, as `htonl`, `htons`, `ntohl` and `ntohs` lay them out in the header of
-- src/common/proto.c, and equations between lists of bytes.
use tcg_final_project.Prelude.{
  ℕ, suc, ◌+◌, ◌*◌, ◌/◌, ◌%◌, ◌≡◌, refl, List, [], ◌∷◌, ◌++◌, get_or, length, arith,
}

-- The four bytes of a `uint32_t`, and the two of a `uint16_t`, in front of a list.
abbrev pub put32 : ℕ → List ℕ → List ℕ
put32 n rest = n / 16777216 % 256 ∷ n / 65536 % 256 ∷ n / 256 % 256 ∷ n % 256 ∷ rest

abbrev pub put16 : ℕ → List ℕ → List ℕ
put16 n rest = n / 256 % 256 ∷ n % 256 ∷ rest

-- The number at a place of a list.
abbrev pub get16 : List ℕ → ℕ → ℕ
get16 bytes i = get_or bytes i 0 * 256 + get_or bytes (suc i) 0

abbrev pub get32 : List ℕ → ℕ → ℕ
get32 bytes i = get16 bytes i * 65536 + get16 bytes (suc (suc i))

pub append-inj {ℓ} :
    {A : Type ℓ} (ps qs rs ts : List A)
    → length ps ≡ length rs
    → ps ++ qs ≡ rs ++ ts
    → (ps ≡ rs) × (qs ≡ ts)
append-inj [] qs [] ts h e = (refl, e)
append-inj [] qs (c ∷ rs) ts h e = absurd (omega arith)
append-inj (a ∷ ps) qs [] ts h e = absurd (omega arith)
append-inj (a ∷ ps) qs (c ∷ rs) ts h e =
    let (p, q) = append-inj ps qs rs ts (omega arith) (cc) in (cc, q)

-- A list of eight has eight entries.
pub eight :
    (xs : List ℕ)
    → length xs ≡ 8
    → xs
      ≡ get_or xs 0 0
        ∷ get_or xs 1 0
        ∷ get_or xs 2 0
        ∷ get_or xs 3 0
        ∷ get_or xs 4 0
        ∷ get_or xs 5 0
        ∷ get_or xs 6 0
        ∷ get_or xs 7 0
        ∷ []
eight (a ∷ b ∷ c ∷ d ∷ e ∷ f ∷ g ∷ h ∷ []) _ = refl
eight _ h = absurd (omega arith)
