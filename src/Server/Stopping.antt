-- ===== src/Server/Stopping.antt =====
-- How the server of src/server.c ends.
use tcg_final_project.Prelude.{
  ◌≡◌, refl, sym, ap, ◌∙◌, List, [], ◌∷◌, ◌++◌, Bool, true, false, not, ◌||◌, none, some,
  if◌then◌else◌, arith, Bool-cases, inl, inr,
}
use mathlib.Core.Path.{subst}
use tcg_final_project.Server.{System, Accepted, accept_round, created}
use tcg_final_project.Server.Main.{
  Main, Signal, usable, start_up, is_over, on_signals, accept_loop, shut_down, server_main,
}
use tcg_final_project.Server.Signals.{
  asks, calm, survives, on_signals-append, on_signals-Same, on_signals-dead, on_signals-alive,
  on_signals-stop, on_signals-Unasked,
}

-- The system when some rounds are over.
unfoldable pub accept_rounds : List (Accepted × List Signal) → System → System
accept_rounds [] s = s
accept_rounds ((a, ss) ∷ rs) s = accept_rounds rs (accept_round a s)

-- The server accepts connections, with the system `s` so far.
pub record Waits (s : System) (m : Main) : Type 0 where
  pub alive_eq : m.alive ≡ true
  pub result_eq : m.result ≡ none
  pub int_eq : m.int_set ≡ true
  pub term_eq : m.term_set ≡ true
  pub stop_eq : m.stop ≡ false
  pub ctx_eq : m.ctx ≡ true
  pub stats_eq : m.stats_name ≡ true
  pub store_eq : m.store_name ≡ true
  pub listener_eq : m.listener ≡ true
  pub system_eq : m.system ≡ s

-- The server has not returned, and has what it has opened.
record Holds (s : System) (m : Main) : Type 0 where
  result_eq : m.result ≡ none
  ctx_eq : m.ctx ≡ true
  stats_eq : m.stats_name ≡ true
  store_eq : m.store_name ≡ true
  listener_eq : m.listener ≡ true
  system_eq : m.system ≡ s

-- The server has ended, with the system `s`: by itself, with the result 0, and all that it had is
-- closed and unlinked; or killed, with the names of the shared memories still there.
pub record Ends (by_itself : Bool) (s : System) (m : Main) : Type 0 where
  pub alive_eq : m.alive ≡ by_itself
  pub result_eq : m.result ≡ (if by_itself then some 0 else none)
  pub ctx_eq : m.ctx ≡ not by_itself
  pub stats_eq : m.stats_name ≡ not by_itself
  pub store_eq : m.store_name ≡ not by_itself
  pub listener_eq : m.listener ≡ not by_itself
  pub system_eq : m.system ≡ s

module _ (one_shot : Bool) where
  pub round-Waits :
      (a : Accepted) (ss : List Signal) (s : System) (m : Main)
      → asks ss ≡ false
      → Waits s m
      → Waits
          (accept_round a s)
          (on_signals one_shot ss (record m { system = accept_round a m.system }))
  round-Waits a ss s m quiet w =
      let served = record m { system = accept_round a m.system } in
      let u = on_signals-Unasked one_shot ss served quiet in
      let k = on_signals-Same one_shot ss served in
      record {
        alive_eq = u.alive_eq ∙ w.alive_eq;
        result_eq = k.result_eq ∙ w.result_eq;
        int_eq = u.int_eq ∙ w.int_eq;
        term_eq = u.term_eq ∙ w.term_eq;
        stop_eq = u.stop_eq ∙ w.stop_eq;
        ctx_eq = k.ctx_eq ∙ w.ctx_eq;
        stats_eq = k.stats_eq ∙ w.stats_eq;
        store_eq = k.store_eq ∙ w.store_eq;
        listener_eq = k.listener_eq ∙ w.listener_eq;
        system_eq = k.system_eq ∙ ap (accept_round a) w.system_eq;
      }

  Waits-on : (s : System) (m : Main) → Waits s m → (is_over m || m.stop) ≡ false
  Waits-on s m w = ground (arith, w.alive_eq, w.result_eq, w.stop_eq)

  -- A round that begins.
  pub loop-round :
      (a : Accepted) (ss : List Signal) (rs : List (Accepted × List Signal)) (s : System) (m : Main)
      → Waits s m
      → accept_loop one_shot ((a, ss) ∷ rs) m
        ≡ accept_loop one_shot rs
            (on_signals one_shot ss (record m { system = accept_round a m.system }))
  unfolding accept_loop
  loop-round a ss rs s m w = rw (Waits-on s m w) refl

  loop-over :
      (rs : List (Accepted × List Signal)) (m : Main)
      → (is_over m || m.stop) ≡ true
      → accept_loop one_shot rs m ≡ m
  unfolding accept_loop
  loop-over [] m over = refl
  loop-over ((a, ss) ∷ rs) m over = rw over refl

  -- The loop behind some rounds that do not ask it to stop.
  record Reaches (rs rest : List (Accepted × List Signal)) (s : System) (m : Main) : Type 0 where
    state : Main
    waits : Waits (accept_rounds rs s) state
    same : accept_loop one_shot (rs ++ rest) m ≡ accept_loop one_shot rest state

  loop-Reaches :
      (rs rest : List (Accepted × List Signal)) (s : System) (m : Main)
      → calm rs ≡ true
      → Waits s m
      → Reaches rs rest s m
  unfolding calm accept_rounds
  loop-Reaches [] rest s m quiet w = record { state = m; waits = w; same = refl }
  loop-Reaches ((a, ss) ∷ rs) rest s m quiet w =
      let next = on_signals one_shot ss (record m { system = accept_round a m.system }) in
      let r =
        loop-Reaches rs rest (accept_round a s) next (ground (arith, quiet))
          (round-Waits a ss s m (ground (arith, quiet)) w) in
      record {
        state = r.state;
        waits = r.waits;
        same = loop-round a ss (rs ++ rest) s m w ∙ r.same;
      }

  killed-Ends : (s : System) (y : Main) → y.alive ≡ false → Holds s y → Ends false s y
  killed-Ends s y dead h = record {
    alive_eq = dead;
    result_eq = h.result_eq;
    ctx_eq = h.ctx_eq;
    stats_eq = h.stats_eq;
    store_eq = h.store_eq;
    listener_eq = h.listener_eq;
    system_eq = h.system_eq;
  }

  -- The end of a process that is killed before or behind the loop, and of one that is not.
  shut_down-killed :
      (late : List Signal) (x : Main)
      → (x.alive ≡ true → x.stop ≡ true)
      → (on_signals one_shot late x).alive ≡ false
      → shut_down one_shot late x ≡ on_signals one_shot late x
  unfolding shut_down
  shut_down-killed late x told dead = elim (Bool-cases x.stop) [
    | inl stop ↦ simp (stop, dead) refl
    | inr on ↦
        let gone : x.alive ≡ false = elim (Bool-cases x.alive) [
          | inl up ↦ absurd (cc (told up, on))
          | inr no_more ↦ no_more
        ] in
        simp on (sym (on_signals-dead one_shot late x gone))
  ]

  shut_down-returns :
      (late : List Signal) (s : System) (x : Main)
      → x.stop ≡ true
      → (on_signals one_shot late x).alive ≡ true
      → Holds s (on_signals one_shot late x)
      → Ends true s (shut_down one_shot late x)
  unfolding shut_down
  shut_down-returns late s x stop up h =
      let on : is_over (on_signals one_shot late x) ≡ false = ground (arith, up, h.result_eq) in
      simp (stop, on)
        (record {
          alive_eq = up;
          result_eq = refl;
          ctx_eq = refl;
          stats_eq = refl;
          store_eq = refl;
          listener_eq = refl;
          system_eq = h.system_eq;
        })

  shut_down-Ends :
      (late : List Signal) (s : System) (x : Main)
      → (x.alive ≡ true → x.stop ≡ true)
      → Holds s (on_signals one_shot late x)
      → Ends (on_signals one_shot late x).alive s (shut_down one_shot late x)
  shut_down-Ends late s x told h = elim (Bool-cases (on_signals one_shot late x).alive) [
    | inr dead ↦
        rw (dead, shut_down-killed late x told dead)
          (killed-Ends s (on_signals one_shot late x) dead h)
    | inl up ↦
        let was_up : x.alive ≡ true = elim (Bool-cases x.alive) [
          | inl now ↦ now
          | inr gone ↦
              absurd (cc (ap (λ y. y.alive) (on_signals-dead one_shot late x gone), gone, up))
        ] in
        rw up (shut_down-returns late s x (told was_up) up h)
  ]

  -- What comes of the round in which the server is asked to stop.
  last-Ends :
      (a : Accepted) (ss : List Signal) (rs : List (Accepted × List Signal)) (late : List Signal)
      (s : System) (m : Main)
      → asks ss ≡ true
      → Waits s m
      → Ends
          (survives one_shot (ss ++ late))
          (accept_round a s)
          (shut_down one_shot late (accept_loop one_shot ((a, ss) ∷ rs) m))
  unfolding survives
  last-Ends a ss rs late s m asked w =
      let served = record m { system = accept_round a m.system } in
      let x = on_signals one_shot ss served in
      let on : is_over served ≡ false = ground (arith, w.alive_eq, w.result_eq) in
      let told : x.alive ≡ true → x.stop ≡ true =
        λ up. on_signals-stop one_shot ss served on up ∙ ground (arith, asked) in
      let over : (is_over x || x.stop) ≡ true = elim (Bool-cases x.alive) [
        | inl up ↦ ground (arith, told up)
        | inr dead ↦ ground (arith, dead)
      ] in
      let joined = on_signals-append one_shot ss late served in
      let k = on_signals-Same one_shot (ss ++ late) served in
      let holds : Holds (accept_round a s) (on_signals one_shot (ss ++ late) served) = record {
        result_eq = k.result_eq ∙ w.result_eq;
        ctx_eq = k.ctx_eq ∙ w.ctx_eq;
        stats_eq = k.stats_eq ∙ w.stats_eq;
        store_eq = k.store_eq ∙ w.store_eq;
        listener_eq = k.listener_eq ∙ w.listener_eq;
        system_eq = k.system_eq ∙ ap (accept_round a) w.system_eq;
      } in
      let lives : (on_signals one_shot late x).alive ≡ survives one_shot (ss ++ late) =
        ap (λ y. y.alive) (sym joined)
        ∙ on_signals-alive one_shot (ss ++ late) served on
        ∙ ground (arith, w.int_eq, w.term_eq) in
      let ended = loop-round a ss rs s m w ∙ loop-over rs x over in
      subst
        (λ b.
          Ends b (accept_round a s)
            (shut_down one_shot late (accept_loop one_shot ((a, ss) ∷ rs) m)))
        lives
        (subst
          (λ z.
            Ends (on_signals one_shot late x).alive (accept_round a s) (shut_down one_shot late z))
          (sym ended)
          (shut_down-Ends late (accept_round a s) x told
            (subst (Holds (accept_round a s)) joined holds)))

accept_rounds-append :
    (rs : List (Accepted × List Signal)) (a : Accepted) (ss : List Signal) (s : System)
    → accept_rounds (rs ++ (a, ss) ∷ []) s ≡ accept_round a (accept_rounds rs s)
unfolding accept_rounds
accept_rounds-append [] a ss s = refl
accept_rounds-append ((b, ts) ∷ rs) a ss s = accept_rounds-append rs a ss (accept_round b s)

pub started-Waits : Waits created (start_up true usable usable true)
unfolding start_up
started-Waits = ground arith

-- The start gets all that it asks for, and the first SIGINT or SIGTERM comes in a round of the
-- accept loop, and more may follow, in that round or behind the loop. The server finishes that
-- round and takes no connection behind it. If neither signal comes twice, or handlers stay set, it
-- then returns 0, with its socket and its context closed and the names of both shared memories
-- unlinked; otherwise it is killed, returns nothing, and leaves both names.
pub server_main-stops :
    (one_shot : Bool) (before : List (Accepted × List Signal)) (a : Accepted) (ss : List Signal)
    (after : List (Accepted × List Signal)) (late : List Signal)
    → calm before ≡ true
    → asks ss ≡ true
    → Ends
        (survives one_shot (ss ++ late))
        (accept_rounds (before ++ (a, ss) ∷ []) created)
        (server_main one_shot true usable usable true (before ++ (a, ss) ∷ after) late)
unfolding server_main
server_main-stops one_shot before a ss after late quiet asked =
    let r =
      loop-Reaches one_shot before ((a, ss) ∷ after) created (start_up true usable usable true)
        quiet started-Waits in
    rw (accept_rounds-append before a ss created, r.same)
      (last-Ends one_shot a ss after late (accept_rounds before created) r.state asked r.waits)
