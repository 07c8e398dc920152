-- ===== src/Proto/Checksum.antt =====
-- `proto_checksum16` of src/common/proto.c.
use tcg_final_project.Prelude.{ℕ, zero, suc, ◌+◌, ◌-◌, ◌/◌, ◌%◌, List, [], ◌∷◌, true, false, ◌==◌}
use tcg_final_project.Prelude.Words.{u32}

-- The `for` loop over the bytes, in a `uint32_t`.
unfoldable pub add_bytes : ℕ → List ℕ → ℕ
add_bytes sum [] = sum
add_bytes sum (x ∷ xs) = add_bytes (u32 (sum + x)) xs

-- `while (sum >> 16) sum = (sum & 0xFFFF) + (sum >> 16)`, with fuel.
unfoldable pub fold_carries : ℕ → ℕ → ℕ
fold_carries zero sum = sum
fold_carries (suc fuel) sum = elim (sum / 65536 == 0) [
  | true ↦ sum
  | false ↦ fold_carries fuel (u32 (sum % 65536 + sum / 65536))
]

-- Three rounds are enough for a `uint32_t`; `(uint16_t)(~sum)` at the end.
unfoldable pub proto_checksum16 : List ℕ → ℕ
proto_checksum16 bytes = (4294967295 - fold_carries 3 (add_bytes 0 bytes)) % 65536
