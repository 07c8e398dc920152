-- ===== src/Session/Bytes.antt =====
-- `run_session` of src/server.c over the bytes of its connection, which `proto_recv` of
-- src/common/proto.c takes apart.
use tcg_final_project.Prelude.{
  ℕ, zero, suc, ◌≡◌, refl, sym, ap, ◌∙◌, List, [], ◌∷◌, ◌++◌, length, Option, none, some,
}
use mathlib.Core.List.{append_assoc}
use tcg_final_project.Proto.Packet.{packet, proto_recv}
use tcg_final_project.Proto.Header.{IsSendable}
use tcg_final_project.Proto.Roundtrip.{Stream, proto_recv-packet}
use tcg_final_project.Session.World.{Libc, World, Received, Stage}
use tcg_final_project.Session.World
use tcg_final_project.Session.Serve.{step, step_at, run}

-- `sizeof(payload)`
abbrev pub payload_size : ℕ
payload_size = 1024

-- The stream of bytes that a client's packets make.
abbrev pub stream_of : List (ℕ × List ℕ) → List ℕ
stream_of [] = []
stream_of ((opcode, payload) ∷ ps) = packet opcode payload ++ stream_of ps

abbrev pub packets_of : List (ℕ × List ℕ) → List Received
packets_of [] = []
packets_of ((opcode, payload) ∷ ps) = World.packet opcode payload ∷ packets_of ps

-- Packets that fit a receiver with room for `size` bytes.
abbrev pub AllSendable : ℕ → List (ℕ × List ℕ) → Type 0
AllSendable size [] = Unit {0}
AllSendable size ((opcode, payload) ∷ ps) = IsSendable size opcode payload × AllSendable size ps

module _ (c : Libc) {S : Type 0} (readn : S → ℕ → Option (List ℕ × S)) where
  -- One call of `proto_recv` and what follows it: `on` is the rest of the session.
  abbrev pub take_packet : Option (ℕ × List ℕ × S) → World → S → (World → S → World × S) → World × S
  take_packet none w s on = (step c w World.broken, s)
  take_packet (some (opcode, payload, s')) w s on = on (step c w (World.packet opcode payload)) s'

  -- A session that has ended takes no more packets.
  abbrev pub unless_closed : Stage → World × S → World × S → World × S
  unless_closed World.closed ended goes_on = ended
  unless_closed _ ended goes_on = goes_on

  -- The session, up to `n` calls of `proto_recv`.
  unfoldable pub run_bytes : ℕ → World → S → World × S
  run_bytes zero w s = (w, s)
  run_bytes (suc n) w s =
      unless_closed w.stage (w, s)
        (take_packet (proto_recv readn s payload_size) w s (λ w' s'. run_bytes n w' s'))

  run-closed : (rs : List Received) (w : World) → w.stage ≡ World.closed → run c w rs ≡ w
  unfolding run step step_at
  run-closed [] w shut = refl
  run-closed (r ∷ rs) w shut =
      let same : step c w r ≡ w = ap (λ s. step_at c s r w) shut in
      ap (λ x. run c x rs) same ∙ run-closed rs w shut

module _ (c : Libc) (r : Stream) where
  open r use {Conn, readn, pending}

  -- Over a connection that delivers bytes, which begin with those that `proto_send` lays out for
  -- some packets: a session's process, in as many calls of `proto_recv` as there are packets, comes
  -- to the same as over the packets themselves, if each opcode is a `uint16_t` and each payload
  -- fits the server's 1024 bytes.
  pub run_bytes-run :
      (ps : List (ℕ × List ℕ)) (rest : List ℕ) (w : World) (s : Conn)
      → AllSendable payload_size ps
      → pending s ≡ stream_of ps ++ rest
      → (run_bytes c readn (length ps) w s).0 ≡ run c w (packets_of ps)
  unfolding run_bytes run
  run_bytes-run [] rest w s ok e = refl
  run_bytes-run ((opcode, payload) ∷ ps) rest w s ok e =
      let (s', got, left) =
        proto_recv-packet r s payload_size opcode payload (stream_of ps ++ rest) ok.0
          (e ∙ append_assoc (packet opcode payload) (stream_of ps) rest) in
      go w.stage refl (
        ap (λ x. (take_packet c readn x w s (λ w' t. run_bytes c readn (length ps) w' t)).0) got
        ∙ run_bytes-run ps rest (step c w (World.packet opcode payload)) s' ok.1 left)
    where
      go :
          (st : Stage)
          → w.stage ≡ st
          → (take_packet c readn
              (proto_recv readn s payload_size)
              w
              s
              (λ w' t. run_bytes c readn (length ps) w' t)).0
            ≡ run c w (packets_of ((opcode, payload) ∷ ps))
          → (unless_closed c readn st
              (w, s)
              (take_packet c readn
                (proto_recv readn s payload_size)
                w
                s
                (λ w' t. run_bytes c readn (length ps) w' t))).0
            ≡ run c w (packets_of ((opcode, payload) ∷ ps))
      go World.closed shut taken =
          sym (run-closed c readn (packets_of ((opcode, payload) ∷ ps)) w shut)
      go World.handshake at taken = taken
      go World.playing at taken = taken
