-- ===== src/Net/Sending.antt =====
-- `conn_writen` of src/common/net.c as the `writen` that `proto_send` of src/common/proto.c hands its
-- packets to, and the peer that reads them.
use tcg_final_project.Prelude.{
  ℕ, ◌+◌, ◌≡◌, refl, sym, ap, ◌∙◌, List, [], ◌++◌, length, Bool, true, false, ◌==◌, ==_iff, arith,
  if◌then◌else◌, Option, some, ltb, Bool-cases, inl, inr,
}
use mathlib.Core.List.{append_assoc, append-nil, append_cancel_left}
use tcg_final_project.Prelude.Words.{neg}
use tcg_final_project.Net.{Ret, count, write_loop}
use tcg_final_project.Net.Writing.{Sink, Wrote, whole, part, write_loop_lem}
use tcg_final_project.Proto.Packet.{packet, total_length, proto_send, proto_recv}
use tcg_final_project.Proto.Header.{IsSendable}
use tcg_final_project.Proto.Roundtrip.{Stream, proto_recv-packet}

-- `conn_writen(c, buf, total_len) == (ssize_t)total_len`
unfoldable pub wrote_all : ℕ → Option Ret → Bool
wrote_all n (some (count k)) = k == n
wrote_all n _ = false

module _ {S : Type 0} (c : Sink S) where
  open c use {wr, written, retries}

  -- `conn_writen` with the fuel that is enough.
  abbrev pub write_whole : S → List ℕ → Bool × S
  write_whole s bytes =
      let (r, s') = write_loop wr (length bytes) (length bytes + retries s) s bytes in
      (wrote_all (length bytes) r, s')

  -- What a `proto_send` comes to: the connection has taken the packet, or a first part of it.
  pub data Sent (s : S) (opcode : ℕ) (payload : List ℕ) (r : ℕ × S) : Type 0 where
    taken : r.0 ≡ 0 → written r.1 ≡ written s ++ packet opcode payload → Sent s opcode payload r
    broken :
        (ps qs : List ℕ)
        → r.0 ≡ neg 1
        → packet opcode payload ≡ ps ++ qs
        → written r.1 ≡ written s ++ ps
        → Sent s opcode payload r

  result : ℕ → (Option Ret) × S → ℕ × S
  result n r = (if wrote_all n r.0 then 0 else neg 1, r.1)

  Wrote-Sent :
      (s : S) (opcode : ℕ) (payload : List ℕ) (r : (Option Ret) × S)
      → Wrote written (length (packet opcode payload)) s (packet opcode payload) r
      → Sent s opcode payload (result (length (packet opcode payload)) r)
  unfolding result wrote_all
  Wrote-Sent s opcode payload r (whole e all) =
      let n = length (packet opcode payload) in
      let same : (n == n) ≡ true = (==_iff n n).1 refl in
      let done : wrote_all n r.0 ≡ true = ap (wrote_all n) e ∙ same in
      taken (ap (λ b. if b then 0 else neg 1) done) all
  Wrote-Sent s opcode payload r (part ps qs e split upto) =
      let n = length (packet opcode payload) in
      let undone : wrote_all n r.0 ≡ false = ap (wrote_all n) e in
      broken ps qs (ap (λ b. if b then 0 else neg 1) undone) split upto

  -- Over a connection that behaves as documented, `proto_send` ends: it returns 0 and the
  -- connection has taken the whole packet, or it returns -1 and the connection has taken a first
  -- part of the packet.
  pub proto_send-Sent :
      (s : S) (opcode : ℕ) (payload : List ℕ)
      → Sent s opcode payload (proto_send write_whole s opcode payload)
  unfolding proto_send result
  proto_send-Sent s opcode payload = elim (Bool-cases (ltb 4096 (total_length payload))) [
    | inl long ↦
        rw (long, proto_send)
          (broken [] (packet opcode payload) refl refl (sym (append-nil (written s))))
    | inr fits ↦
        let bytes = packet opcode payload in
        let n = length bytes in
        let w = write_loop_lem c n (n + retries s) s bytes (omega arith) in
        rw (fits, proto_send)
          (Wrote-Sent s opcode payload (write_loop wr n (n + retries s) s bytes) w)
  ]

  -- A packet that `proto_send` has sent with the result 0, through the loop of `conn_writen`, is
  -- what the peer's `proto_recv` returns, if its connection delivers what has been written, the
  -- packet is at most 4096 bytes long, and its payload fits the receiver's buffer; what was written
  -- later is still to come.
  pub proto_recv-proto_send :
      (r : Stream) (s : S) (t : r.Conn) (bound opcode : ℕ) (payload later : List ℕ)
      → IsSendable bound opcode payload
      → (proto_send write_whole s opcode payload).0 ≡ 0
      → written (proto_send write_whole s opcode payload).1 ++ later ≡ written s ++ r.pending t
      → (t' : r.Conn) × (proto_recv r.readn t bound ≡ some (opcode, payload, t'))
        × (r.pending t' ≡ later)
  proto_recv-proto_send r s t bound opcode payload later ok sent link =
      proto_recv-packet r t bound opcode payload later ok
        (arrived (proto_send-Sent s opcode payload))
    where
      arrived :
          Sent s opcode payload (proto_send write_whole s opcode payload)
          → r.pending t ≡ packet opcode payload ++ later
      arrived (taken _ all) = append_cancel_left (written s) _ _ (
          sym link
          ∙ ap (λ b. b ++ later) all
          ∙ append_assoc (written s) (packet opcode payload) later)
      arrived (broken ps qs failed _ _) = absurd (omega (arith, sym sent ∙ failed))
