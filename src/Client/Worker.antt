-- ===== src/Client/Worker.antt =====
-- `worker` of src/client.c, the thread of the stress client: the login, the rounds, and the latency
-- that it reports; and the statistics of `main`.
use tcg_final_project.Prelude.{
  ℕ, zero, suc, ◌+◌, ◌-◌, ◌^◌, List, [], ◌∷◌, ◌++◌, Bool, false, not, Option, none, some, ◌==◌, ltb,
  if◌then◌else◌,
}
use tcg_final_project.Proto.Opcode.{
  op_login_req, op_login_resp, op_play_card, op_end_turn, op_state,
}
use tcg_final_project.Session.World.{Received}
use tcg_final_project.Session.World
use tcg_final_project.Client.Stress.{Waited, both, hung_up, over, waiting, wait_loop}

-- What `lat_ns_out` has behind the thread: -1, or the sum of the latencies; or the thread waits for a
-- packet.
pub data Ended : Type 0 where
  failed stuck : Ended
  summed : ℕ → Ended

-- The login: the state has come, with what is not read yet; `proto_recv` has failed; or it waits.
pub data Login : Type 0 where
  seated : List Received → Login
  lost awaits : Login

-- The loop `while (!got_state)`, at a packet that is not the state.
unfoldable pub state_loop : List Received → Login
state_loop [] = awaits
state_loop (World.broken ∷ rs) = lost
state_loop (World.packet op payload ∷ rs) =
    let rest = state_loop rs in if op == op_state then seated rs else rest

-- The reads behind the login. An `OP_LOGIN_RESP` is read past, and so is what is not the state.
unfoldable pub read_login : List Received → Login
read_login [] = awaits
read_login (World.broken ∷ rs) = lost
read_login (World.packet op payload ∷ rs) =
    if op == op_login_resp
    then state_loop rs
    else if op == op_state
    then seated rs
    else state_loop rs

abbrev pub play_first : Received
play_first = World.packet op_play_card (0 ∷ [])

abbrev pub turn_end : Received
turn_end = World.packet op_end_turn []

-- A connection and what is behind it, `C`: `proto_send` fails, or is followed by packets. `clock` are
-- the nanoseconds at each call of `now_ns`.
module _ {C : Type 0} (send : Received → C → Option (List Received × C)) (clock : ℕ → ℕ)
    (first : Bool) where
  -- What follows a wait: `on` is the rest of the round.
  abbrev pub after_wait : Waited × List Received → ℕ → (List Received → Ended) → Ended
  after_wait (both, rs) sum on = on rs
  after_wait (hung_up, rs) sum on = on rs
  after_wait (over, rs) sum on = summed sum
  after_wait (waiting, rs) sum on = stuck

  -- A request, the wait for its answer, and the rest of the round.
  abbrev pub ask : Received → List Received → C → ℕ → (List Received → C → Ended) → Ended
  ask r rs s sum on = elim (send r s) [
    | none ↦ summed sum
    | some (more, t) ↦ after_wait (wait_loop first false false (rs ++ more)) sum (λ rest. on rest t)
  ]

  -- The rounds still to play, the calls of `now_ns` so far, and the sum.
  unfoldable pub play_rounds : ℕ → ℕ → ℕ → List Received → C → Ended
  play_rounds zero k sum rs s = summed sum
  play_rounds (suc n) k sum rs s = ask play_first rs s sum (λ rs1 s1.
      ask turn_end rs1 s1 sum
        (λ rs2 s2. play_rounds n (k + 2) (sum + (clock (k + 1) - clock k)) rs2 s2))

  abbrev pub after_login : Login → ℕ → C → Ended
  after_login lost rounds s = failed
  after_login awaits rounds s = stuck
  after_login (seated rs) rounds s = play_rounds rounds 2 (clock 1 - clock 0) rs s

  -- The whole thread: whether the connection and the TLS handshake succeed.
  unfoldable pub worker : Bool → Bool → ℕ → C → Ended
  worker fd tls rounds s =
      if not fd
      then failed
      else if not tls
      then failed
      else elim (send (World.packet op_login_req []) s) [
        | none ↦ failed
        | some (more, t) ↦ after_login (read_login more) rounds t
      ]

-- `ok`, `sum`, `min` and `max`.
pub record Tally : Type 0 where
  pub ok : ℕ
  pub sum : ℕ
  pub min : ℕ
  pub max : ℕ

-- The latency of one thread: -1 and 0 are passed over. A thread that waits for ever is never joined.
unfoldable pub count_thread : Ended → Tally → Tally
count_thread (summed (suc x)) t = record {
  ok = t.ok + 1;
  sum = t.sum + suc x;
  min = if ltb (suc x) t.min then suc x else t.min;
  max = if ltb t.max (suc x) then suc x else t.max;
}
count_thread _ t = t

unfoldable pub count_threads : List Ended → Tally → Tally
count_threads [] t = t
count_threads (e ∷ es) t = count_threads es (count_thread e t)

unfoldable pub tally : List Ended → Tally
tally es = count_threads es (record { ok = 0; sum = 0; min = 2 ^ 62; max = 0 })
