-- ===== src/Client/Bytes.antt =====
-- A play and the end of a turn in src/client_app.c, and their answers by src/server.c, as bytes on a
-- connection.
use tcg_final_project.Prelude.{
  ℕ, zero, suc, ◌≡◌, ◌≤◌, ◌<◌, refl, sym, ap, ◌∙◌, List, [], ◌∷◌, ◌++◌, map, length, length-map,
  drop, drop-append, true, false, ◌&&◌, Option, none, some, if◌then◌else◌, Bool-cases, inl, inr,
  arith,
}
use mathlib.Core.List.{append_assoc, append-nil}
use tcg_final_project.Prelude.Words.{neg}
use tcg_final_project.Proto.Packet.{packet, proto_recv}
use tcg_final_project.Proto.Header.{IsSendable}
use tcg_final_project.Proto.Roundtrip.{Stream, proto_recv-packet}
use mathlib.Core.Path.{subst}
use tcg_final_project.Proto.Opcode.{
  op_pong, op_login_resp, op_resume_resp, op_state, op_hand, op_error, op_play_card, op_end_turn,
}
use tcg_final_project.Session.World.{Libc, World, Reply, Received, touch}
use tcg_final_project.Session.Serve.{step, run}
use tcg_final_project.Session.Duty.{IsServing, my_turn}
use tcg_final_project.Session.Waiting.{counted, step-play, step-on_end_turn}
use tcg_final_project.Client.Answers.{Layout, wire, Answered, on_end_turn-Answered, play-Answered}
use tcg_final_project.Session.World
use tcg_final_project.Session.Bytes.{
  payload_size, run_bytes, run_bytes-run, stream_of, packets_of, AllSendable,
}
use tcg_final_project.Client.{Heard, note_packet, recv_loop, recv_until}

-- `sizeof(buf)`
abbrev pub buf_size : ℕ
buf_size = 2048

module _ {S : Type 0} (readn : S → ℕ → Option (List ℕ × S)) where
  -- What follows one call of `proto_recv`: `on` is the rest of the loop.
  abbrev pub hear :
      Option (ℕ × List ℕ × S) → Heard → (Heard → S → Option ℕ × Heard) → Option ℕ × Heard
  hear none h on = (some (neg 1), h)
  hear (some (opcode, payload, s)) h on = on (note_packet opcode payload h) s

  -- The loop of `recv_until` over the bytes of the connection, up to `n` calls of `proto_recv`.
  unfoldable pub recv_bytes : ℕ → Heard → S → Option ℕ × Heard
  recv_bytes zero h s = (if h.got_state && h.got_hand then some 0 else none, h)
  recv_bytes (suc n) h s =
      let rest = hear (proto_recv readn s buf_size) h (λ h' t. recv_bytes n h' t) in
      if h.got_state && h.got_hand then (some 0, h) else rest

module _ (r : Stream) where
  open r use {Conn, readn, pending}

  recv_bytes-recv_loop :
      (ps : List (ℕ × List ℕ)) (rest : List ℕ) (h : Heard) (s : Conn)
      → AllSendable buf_size ps
      → pending s ≡ stream_of ps ++ rest
      → let (rc, heard, _) = recv_loop (packets_of ps) h in
        recv_bytes readn (length ps) h s ≡ (rc, heard)
  unfolding recv_bytes recv_loop
  recv_bytes-recv_loop [] rest h s ok e = refl
  recv_bytes-recv_loop ((opcode, payload) ∷ ps) rest h s ok e =
      let (s', got, left) =
        proto_recv-packet r s buf_size opcode payload (stream_of ps ++ rest) ok.0
          (e ∙ append_assoc (packet opcode payload) (stream_of ps) rest) in
      let h' = note_packet opcode payload h in
      elim (Bool-cases (h.got_state && h.got_hand)) [
        | inl both ↦ rw both refl
        | inr more ↦ rw more (
            ap (λ x. hear readn x h (λ h' t. recv_bytes readn (length ps) h' t)) got
            ∙ recv_bytes-recv_loop ps rest h' s' ok.1 left)
      ]

module _ (l : Layout) where
  open l use {state_bytes, hand_bytes, login_bytes, resume_bytes, error_bytes}

  -- The opcode and the payload of a reply.
  unfoldable pub sent_as : Reply → ℕ × List ℕ
  sent_as World.pong = (op_pong, [])
  sent_as World.login_resp = (op_login_resp, login_bytes)
  sent_as (World.resume_resp ok sid) = (op_resume_resp, resume_bytes ok sid)
  sent_as (World.state st) = (op_state, state_bytes st)
  sent_as (World.hand h) = (op_hand, hand_bytes h)
  sent_as (World.error code msg) = (op_error, error_bytes code msg)

  packets_of-sent_as : (rs : List Reply) → packets_of (map sent_as rs) ≡ map (wire l) rs
  unfolding sent_as wire
  packets_of-sent_as [] = refl
  packets_of-sent_as (r ∷ rs) = go r (packets_of-sent_as rs)
    where
      go :
          (r : Reply)
          → packets_of (map sent_as rs) ≡ map (wire l) rs
          → packets_of (map sent_as (r ∷ rs)) ≡ map (wire l) (r ∷ rs)
      go World.pong h = ap (λ x. World.packet op_pong [] ∷ x) h
      go World.login_resp h = ap (λ x. World.packet op_login_resp login_bytes ∷ x) h
      go (World.resume_resp ok sid) h =
          ap (λ x. World.packet op_resume_resp (resume_bytes ok sid) ∷ x) h
      go (World.state st) h = ap (λ x. World.packet op_state (state_bytes st) ∷ x) h
      go (World.hand hd) h = ap (λ x. World.packet op_hand (hand_bytes hd) ∷ x) h
      go (World.error code msg) h = ap (λ x. World.packet op_error (error_bytes code msg) ∷ x) h

  -- Every payload of a reply fits the client's buffer.
  abbrev pub IsRoomy : Type 0
  IsRoomy = (r : Reply) → length (sent_as r).1 ≤ buf_size

  sent_as-IsSendable : IsRoomy → (r : Reply) → IsSendable buf_size (sent_as r).0 (sent_as r).1
  unfolding sent_as
  sent_as-IsSendable roomy r = record {
    opcode_lt = opcode_lt r;
    fits = omega (arith, roomy r);
    room = roomy r;
  }
    where
      opcode_lt : (r : Reply) → (sent_as r).0 < 65536
      opcode_lt World.pong = omega arith
      opcode_lt World.login_resp = omega arith
      opcode_lt (World.resume_resp ok sid) = omega arith
      opcode_lt (World.state st) = omega arith
      opcode_lt (World.hand h) = omega arith
      opcode_lt (World.error code msg) = omega arith

  sent_as-AllSendable : IsRoomy → (rs : List Reply) → AllSendable buf_size (map sent_as rs)
  sent_as-AllSendable roomy [] = tt
  sent_as-AllSendable roomy (r ∷ rs) = (sent_as-IsSendable roomy r, sent_as-AllSendable roomy rs)

  -- What the server has sent between `w` and `w'`.
  abbrev pub told : World → World → List Reply
  told w w' = drop (length w.sent) w'.sent

  -- The client's locals before and behind an answer.
  abbrev pub unheard : List ℕ → List ℕ → Heard
  unheard st hand = record { got_state = false; got_hand = false; st = st; hand = hand }

  abbrev pub heard_game : World → Heard
  heard_game w = record {
    got_state = true;
    got_hand = true;
    st = state_bytes w.game.st;
    hand = hand_bytes w.game.hand;
  }

  -- An answer that `recv_until` takes as packets it takes as bytes.
  Answered-recv_bytes :
      (client : Stream) (w w' : World) (t : client.Conn) (more st0 hand0 : List ℕ)
      → IsRoomy
      → Answered l w w' [] st0 hand0
      → client.pending t ≡ stream_of (map sent_as (told w w')) ++ more
      → recv_bytes client.readn (length (told w w')) (unheard st0 hand0) t ≡ (some 0, heard_game w')
  unfolding recv_until
  Answered-recv_bytes client w w' t more st0 hand0 roomy (rs, sent, heard) there =
      let fresh : told w w' ≡ rs = ap (drop (length w.sent)) sent ∙ drop-append w.sent rs in
      let ps = map sent_as (told w w') in
      let as_packets =
        packets_of-sent_as (told w w')
        ∙ ap (map (wire l)) fresh
        ∙ sym (append-nil (map (wire l) rs)) in
      ap (λ k. recv_bytes client.readn k (unheard st0 hand0) t)
        (sym (length-map (told w w') sent_as))
      ∙ recv_bytes-recv_loop client ps more (unheard st0 hand0) t
          (sent_as-AllSendable roomy (told w w')) there
      ∙ ap (λ x. (x.0, x.1)) (ap (λ b. recv_loop b (unheard st0 hand0)) as_packets ∙ heard)

  module _ (c : Libc) (server client : Stream) where
    -- The server takes one packet off the connection.
    served :
        (opcode : ℕ) (payload : List ℕ) (w : World) (s : server.Conn) (rest : List ℕ)
        → IsSendable payload_size opcode payload
        → server.pending s ≡ packet opcode payload ++ rest
        → (run_bytes c server.readn 1 w s).0 ≡ step c w (World.packet opcode payload)
    unfolding run
    served opcode payload w s rest fits e =
        run_bytes-run c server ((opcode, payload) ∷ []) rest w s (fits, tt)
          (e ∙ ap (λ x. x ++ rest) (sym (append-nil (packet opcode payload))))

    -- The whole way of a play, in a game that goes on and waits for the player. The server's
    -- connection delivers the bytes of the request, and the client's the bytes of the packets that
    -- the server has sent then, each within the client's 2048 bytes: in as many calls of
    -- `proto_recv` as there are such packets, the client's loop returns 0, with the bytes of the
    -- state and the hand that the server has.
    pub play-recv_bytes :
        (idx : ℕ) (w : World) (s : server.Conn) (t : client.Conn) (rest more st0 hand0 : List ℕ)
        → IsRoomy
        → IsServing w
        → w.game.st.game_over ≡ 0
        → server.pending s ≡ packet op_play_card (idx ∷ []) ++ rest
        → let w' = (run_bytes c server.readn 1 w s).0 in
          client.pending t ≡ stream_of (map sent_as (told w w')) ++ more
          → recv_bytes client.readn (length (told w w')) (unheard st0 hand0) t
            ≡ (some 0, heard_game w')
    unfolding touch
    play-recv_bytes idx w s t rest more st0 hand0 roomy v on e =
        let same =
          served op_play_card (idx ∷ []) w s rest
            (record { opcode_lt = omega arith; fits = omega arith; room = omega arith }) e
          ∙ step-play c idx w v on in
        Answered-recv_bytes client w (run_bytes c server.readn 1 w s).0 t more st0 hand0 roomy (
          subst (λ w'. Answered l w w' [] st0 hand0) (sym same)
            (play-Answered l c idx (counted c w) [] st0 hand0))

    -- The whole way of the end of a turn, in a game that goes on and waits for the player. The
    -- server's connection delivers the bytes of the request, and the client's the bytes of the
    -- packets that the server has sent then, behind the AI's whole turn, each within the client's
    -- 2048 bytes: in as many calls of `proto_recv` as there are such packets, the client's loop
    -- returns 0, with the bytes of the state and the hand that the server has.
    pub on_end_turn-recv_bytes :
        (w : World) (s : server.Conn) (t : client.Conn) (rest more st0 hand0 : List ℕ)
        → IsRoomy
        → IsServing w
        → w.game.st.game_over ≡ 0
        → server.pending s ≡ packet op_end_turn [] ++ rest
        → let w' = (run_bytes c server.readn 1 w s).0 in
          client.pending t ≡ stream_of (map sent_as (told w w')) ++ more
          → recv_bytes client.readn (length (told w w')) (unheard st0 hand0) t
            ≡ (some 0, heard_game w')
    unfolding touch
    on_end_turn-recv_bytes w s t rest more st0 hand0 roomy v on e =
        let same =
          served op_end_turn [] w s rest
            (record { opcode_lt = omega arith; fits = omega arith; room = omega arith }) e
          ∙ step-on_end_turn c w v on in
        let (turn, _) = my_turn w.game.st v.players on in
        Answered-recv_bytes client w (run_bytes c server.readn 1 w s).0 t more st0 hand0 roomy (
          subst (λ w'. Answered l w w' [] st0 hand0) (sym same)
            (on_end_turn-Answered l c (counted c w) [] st0 hand0 turn))
