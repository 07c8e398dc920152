-- ===== src/Client/Reconnecting.antt =====
-- The connections of `net_thread` in src/client_gui.c, one behind the other.
use tcg_final_project.Prelude.{
  ℕ, ◌-◌, ◌<◌, ◌≡◌, refl, sym, ap, ◌∙◌, List, [], ◌∷◌, Bool, true, false, Option, none, some, arith,
  Bool-cases, inl, inr,
}
use mathlib.Core.Path.{subst}
use tcg_final_project.Session.World.{Received}
use tcg_final_project.Session.World
use tcg_final_project.Client.{Gui}
use tcg_final_project.Client.NetThread.{
  Command, Selected, error, idle, ready, Turn, Net, on_command, on_socket, on_select, heartbeat,
  turn, Attempt, no_connection, no_tls, no_send, connected, attempt, net_thread,
}

heartbeat-last_ping :
    (now : ℕ) (ok : Bool) (n : Net)
    → (heartbeat now ok n).0 ≡ false
    → now - (heartbeat now ok n).1.last_ping < 2
unfolding heartbeat
heartbeat-last_ping now ok n h = ground (arith, h)

on_command-last_ping : (cmd : Command) (n : Net) → (on_command cmd n).last_ping ≡ n.last_ping
unfolding on_command
on_command-last_ping cmd n = ground arith

on_socket-last_ping : (r : Option Received) (n : Net) → (on_socket r n).1.last_ping ≡ n.last_ping
unfolding on_socket
on_socket-last_ping none n = refl
on_socket-last_ping (some World.broken) n = refl
on_socket-last_ping (some (World.packet op payload)) n = refl

on_select-last_ping : (s : Selected) (n : Net) → (on_select s n).1.last_ping ≡ n.last_ping
unfolding on_select
on_select-last_ping error n = refl
on_select-last_ping idle n = refl
on_select-last_ping (ready none r) n = on_socket-last_ping r n
on_select-last_ping (ready (some cmd) r) n =
    on_socket-last_ping r (on_command cmd n) ∙ on_command-last_ping cmd n

-- A round of the receive loop that goes on leaves the last heartbeat less than two seconds behind
-- the round's time, whatever the pipe and the socket have.
pub turn-last_ping :
    (t : Turn) (n : Net) → (turn t n).0 ≡ false → t.now - (turn t n).1.last_ping < 2
unfolding turn
turn-last_ping t n h = elim (Bool-cases (heartbeat t.now t.ping_sent n).0) [
  | inl left ↦ absurd (ground (arith, left, h))
  | inr beats ↦
      let n' = (heartbeat t.now t.ping_sent n).1 in
      let same : turn t n ≡ on_select t.found n' = rw (beats, turn) refl in
      subst (λ r. t.now - r.1.last_ping < 2) (sym same)
        (subst (λ p. t.now - p < 2) (sym (on_select-last_ping t.found n'))
          (heartbeat-last_ping t.now t.ping_sent n beats))
]

attempt-connected :
    (put_u64 : ℕ → List ℕ) (a : Attempt) (g : Gui)
    → g.connected ≡ false
    → (attempt put_u64 a g).0 ≡ true
    → (attempt put_u64 a g).1.gui.connected ≡ false
unfolding attempt
attempt-connected put_u64 no_connection g down h = refl
attempt-connected put_u64 no_tls g down h = down
attempt-connected put_u64 no_send g down h = down
attempt-connected put_u64 (connected now ts) g down h = ground (arith, h)

-- Whatever becomes of its connections, a thread that starts as not connected shows the client as
-- not connected whenever it is between two connections.
pub net_thread-connected :
    (put_u64 : ℕ → List ℕ) (attempts : List Attempt) (g : Gui)
    → g.connected ≡ false
    → (net_thread put_u64 attempts g).0 ≡ true
    → (net_thread put_u64 attempts g).1.connected ≡ false
unfolding net_thread
net_thread-connected put_u64 [] g down h = down
net_thread-connected put_u64 (a ∷ more) g down h = elim (Bool-cases (attempt put_u64 a g).0) [
  | inl ended ↦
      let g' = (attempt put_u64 a g).1.gui in
      let same : net_thread put_u64 (a ∷ more) g ≡ net_thread put_u64 more g' =
        rw (ended, net_thread) refl in
      ap (λ r. r.1.connected) same
      ∙ net_thread-connected put_u64 more g' (attempt-connected put_u64 a g down ended)
          (sym (ap (λ r. r.0) same) ∙ h)
  | inr stands ↦ absurd (ground (arith, stands, h))
]
