-- ===== src/Proto/Packet.antt =====
-- `proto_send` and `proto_recv` of src/common/proto.c. A packet is a header of eight bytes (its whole
-- length, the opcode and the checksum) and the payload.
use tcg_final_project.Prelude.{
  ℕ, ◌+◌, ◌-◌, List, [], ◌∷◌, ◌++◌, Bool, ◌&&◌, Option, some, leb, ltb, ◌==◌, if◌then◌else◌, length,
  take,
}
use tcg_final_project.Prelude.Words.{u32, neg}
use tcg_final_project.Prelude.Monad.{◌>>=◌, ◌>>◌, guard}
use tcg_final_project.Proto.Bytes.{put32, put16, get32, get16}
use tcg_final_project.Proto.Checksum.{proto_checksum16}

-- `pkt_hdr_t` as it lies in the buffer, and the payload behind it.
unfoldable pub layout : ℕ → ℕ → ℕ → List ℕ → List ℕ
layout total opcode cksum payload = put32 total (put16 opcode (put16 cksum payload))

-- `total_len`
abbrev pub total_length : List ℕ → ℕ
total_length payload = u32 (8 + length payload)

-- The buffer that is sent: the checksum is that of the packet with a zero in its place.
unfoldable pub packet : ℕ → List ℕ → List ℕ
packet opcode payload =
    layout (total_length payload) opcode
      (proto_checksum16 (layout (total_length payload) opcode 0 payload)) payload

-- `writen c bytes` is `conn_writen`: true if it wrote them all, and the connection behind it.
unfoldable pub proto_send : {S : Type 0} → (S → List ℕ → Bool × S) → S → ℕ → List ℕ → ℕ × S
proto_send writen c opcode payload =
    if ltb 4096 (total_length payload)
    then (neg 1, c)
    else (let (done, c') = writen c (packet opcode payload) in (if done then 0 else neg 1, c'))

-- The packet as it was received, with the checksum's bytes cleared.
abbrev pub cleared : List ℕ → List ℕ → List ℕ
cleared header payload = take 6 header ++ (0 ∷ 0 ∷ payload)

-- The tests behind the two reads.
unfoldable pub accept : List ℕ → List ℕ → Option ℕ
accept header payload = do
  guard (leb (get32 header 0) 4096)
  guard (proto_checksum16 (cleared header payload) == get16 header 6)
  some (get16 header 4)

-- `readn c n` is `conn_readn`: the `n` bytes and the connection behind them, or none for an error or a
-- short read.
module _ {S : Type 0} (readn : S → ℕ → Option (List ℕ × S)) where
  unfoldable pub read_payload : S → ℕ → Option (List ℕ × S)
  read_payload c n = if n == 0 then some ([], c) else readn c n

  -- What follows the read of the header.
  unfoldable pub recv_body : ℕ → List ℕ × S → Option (ℕ × List ℕ × S)
  recv_body bound (header, c1) = do
    guard (leb 8 (get32 header 0) && leb (get32 header 0) (8 + bound))
    (payload, c2) ← read_payload c1 (get32 header 0 - 8)
    opcode ← accept header payload
    some (opcode, payload, c2)

  -- The opcode, the payload and the connection behind the packet, or none for the result -1.
  unfoldable pub proto_recv : S → ℕ → Option (ℕ × List ℕ × S)
  proto_recv c bound = readn c 8 >>= recv_body bound
