-- ===== src/Server/Signals.antt =====
-- What signals do to the process of `main` of src/server.c.
use tcg_final_project.Prelude.{
  ℕ, suc, ◌+◌, ◌≡◌, refl, sym, ap, ◌∙◌, List, [], ◌∷◌, ◌++◌, Bool, true, false, not, ◌||◌, ◌&&◌,
  ◌==◌, leb, if◌then◌else◌, arith, Bool-cases, inl, inr,
}
use tcg_final_project.Server.{Accepted}
use tcg_final_project.Server.Main.{
  Main, Signal, sigint, sigterm, sigchld, is_over, on_signal, on_signals,
}

-- How often SIGINT and SIGTERM are among some signals.
unfoldable pub ints : List Signal → ℕ
ints [] = 0
ints (sigint ∷ ss) = suc (ints ss)
ints (sigterm ∷ ss) = ints ss
ints (sigchld n ∷ ss) = ints ss

unfoldable pub terms : List Signal → ℕ
terms [] = 0
terms (sigint ∷ ss) = terms ss
terms (sigterm ∷ ss) = suc (terms ss)
terms (sigchld n ∷ ss) = terms ss

-- The signals ask the server to stop.
unfoldable pub asks : List Signal → Bool
asks ss = not (ints ss + terms ss == 0)

-- No signal of some rounds does.
unfoldable pub calm : List (Accepted × List Signal) → Bool
calm [] = true
calm ((a, ss) ∷ rs) = not (asks ss) && calm rs

-- How many deliveries of a signal the process survives: `set` says that it has a handler.
abbrev bears : Bool → Bool → ℕ → Bool
bears one_shot set n = if set then not one_shot || leb n 1 else n == 0

-- Neither SIGINT nor SIGTERM comes twice, or their handlers stay set.
unfoldable pub survives : Bool → List Signal → Bool
survives one_shot ss = not one_shot || (leb (ints ss) 1 && leb (terms ss) 1)

-- What no signal changes.
pub record Same (m m' : Main) : Type 0 where
  pub result_eq : m'.result ≡ m.result
  pub ctx_eq : m'.ctx ≡ m.ctx
  pub stats_eq : m'.stats_name ≡ m.stats_name
  pub store_eq : m'.store_name ≡ m.store_name
  pub listener_eq : m'.listener ≡ m.listener
  pub system_eq : m'.system ≡ m.system

-- What a SIGCHLD does not change.
pub record Unasked (m m' : Main) : Type 0 where
  pub alive_eq : m'.alive ≡ m.alive
  pub int_eq : m'.int_set ≡ m.int_set
  pub term_eq : m'.term_set ≡ m.term_set
  pub stop_eq : m'.stop ≡ m.stop

module _ (one_shot : Bool) where
  pub on_signals-append :
      (xs ys : List Signal) (m : Main)
      → on_signals one_shot (xs ++ ys) m ≡ on_signals one_shot ys (on_signals one_shot xs m)
  unfolding on_signals
  on_signals-append [] ys m = refl
  on_signals-append (x ∷ xs) ys m = on_signals-append xs ys (on_signal one_shot x m)

  on_signal-Same : (s : Signal) (m : Main) → Same m (on_signal one_shot s m)
  unfolding on_signal
  on_signal-Same sigint m = ground arith
  on_signal-Same sigterm m = ground arith
  on_signal-Same (sigchld n) m = ground arith

  pub on_signals-Same : (ss : List Signal) (m : Main) → Same m (on_signals one_shot ss m)
  unfolding on_signals
  on_signals-Same [] m = ground arith
  on_signals-Same (s ∷ ss) m =
      let a = on_signal-Same s m in
      let b = on_signals-Same ss (on_signal one_shot s m) in
      record {
        result_eq = b.result_eq ∙ a.result_eq;
        ctx_eq = b.ctx_eq ∙ a.ctx_eq;
        stats_eq = b.stats_eq ∙ a.stats_eq;
        store_eq = b.store_eq ∙ a.store_eq;
        listener_eq = b.listener_eq ∙ a.listener_eq;
        system_eq = b.system_eq ∙ a.system_eq;
      }

  on_signal-dead : (s : Signal) (m : Main) → m.alive ≡ false → on_signal one_shot s m ≡ m
  unfolding on_signal
  on_signal-dead sigint m dead = rw dead refl
  on_signal-dead sigterm m dead = rw dead refl
  on_signal-dead (sigchld n) m dead = rw dead refl

  pub on_signals-dead :
      (ss : List Signal) (m : Main) → m.alive ≡ false → on_signals one_shot ss m ≡ m
  unfolding on_signals
  on_signals-dead [] m dead = refl
  on_signals-dead (s ∷ ss) m dead =
      ap (on_signals one_shot ss) (on_signal-dead s m dead) ∙ on_signals-dead ss m dead

  int-told :
      (m : Main)
      → is_over m ≡ false
      → m.int_set ≡ true
      → on_signal one_shot sigint m ≡ record m { stop = true; int_set = not one_shot }
  unfolding on_signal
  int-told m on set = rw (on, set) refl

  int-kills :
      (m : Main)
      → is_over m ≡ false
      → m.int_set ≡ false
      → on_signal one_shot sigint m ≡ record m { alive = false }
  unfolding on_signal
  int-kills m on unset = rw (on, unset) refl

  term-told :
      (m : Main)
      → is_over m ≡ false
      → m.term_set ≡ true
      → on_signal one_shot sigterm m ≡ record m { stop = true; term_set = not one_shot }
  unfolding on_signal
  term-told m on set = rw (on, set) refl

  term-kills :
      (m : Main)
      → is_over m ≡ false
      → m.term_set ≡ false
      → on_signal one_shot sigterm m ≡ record m { alive = false }
  unfolding on_signal
  term-kills m on unset = rw (on, unset) refl

  killed :
      (ss : List Signal) (m m' : Main)
      → m ≡ record m' { alive = false }
      → (on_signals one_shot ss m).alive ≡ false
  killed ss m m' e =
      ap (λ x. (on_signals one_shot ss x).alive) e
      ∙ ap (λ x. x.alive) (on_signals-dead ss (record m' { alive = false }) refl)

  chld-Unasked : (n : ℕ) (m : Main) → Unasked m (on_signal one_shot (sigchld n) m)
  unfolding on_signal
  chld-Unasked n m = ground arith

  still_on :
      (n : ℕ) (m : Main) → is_over m ≡ false → is_over (on_signal one_shot (sigchld n) m) ≡ false
  unfolding on_signal
  still_on n m on = ground (arith, on)

  -- A process lives on exactly as long as it bears the signals.
  pub on_signals-alive :
      (ss : List Signal) (m : Main)
      → is_over m ≡ false
      → (on_signals one_shot ss m).alive
        ≡ (bears one_shot m.int_set (ints ss) && bears one_shot m.term_set (terms ss))
  unfolding on_signals ints terms
  on_signals-alive [] m on = ground (arith, on)
  on_signals-alive (sigint ∷ ss) m on = elim (Bool-cases m.int_set) [
    | inl set ↦
        ap (λ x. (on_signals one_shot ss x).alive) (int-told m on set)
        ∙ on_signals-alive ss (record m { stop = true; int_set = not one_shot }) on
        ∙ ground (arith, set)
    | inr unset ↦ killed ss _ m (int-kills m on unset) ∙ ground (arith, unset)
  ]
  on_signals-alive (sigterm ∷ ss) m on = elim (Bool-cases m.term_set) [
    | inl set ↦
        ap (λ x. (on_signals one_shot ss x).alive) (term-told m on set)
        ∙ on_signals-alive ss (record m { stop = true; term_set = not one_shot }) on
        ∙ ground (arith, set)
    | inr unset ↦ killed ss _ m (term-kills m on unset) ∙ ground (arith, unset)
  ]
  on_signals-alive (sigchld n ∷ ss) m on =
      let u = chld-Unasked n m in
      on_signals-alive ss (on_signal one_shot (sigchld n) m) (still_on n m on)
      ∙ ap
          (λ b.
            bears one_shot b (ints ss)
            && bears one_shot (on_signal one_shot (sigchld n) m).term_set (terms ss))
          u.int_eq
      ∙ ap (λ b. bears one_shot m.int_set (ints ss) && bears one_shot b (terms ss)) u.term_eq

  -- A process that lives on behind signals that ask it to stop has been told so.
  pub on_signals-stop :
      (ss : List Signal) (m : Main)
      → is_over m ≡ false
      → (on_signals one_shot ss m).alive ≡ true
      → (on_signals one_shot ss m).stop ≡ (m.stop || asks ss)
  unfolding on_signals asks ints terms
  on_signals-stop [] m on up = ground arith
  on_signals-stop (sigint ∷ ss) m on up = elim (Bool-cases m.int_set) [
    | inl set ↦
        ap (λ x. (on_signals one_shot ss x).stop) (int-told m on set)
        ∙ on_signals-stop ss (record m { stop = true; int_set = not one_shot }) on
            (ap (λ x. (on_signals one_shot ss x).alive) (sym (int-told m on set)) ∙ up)
        ∙ ground arith
    | inr unset ↦ absurd (cc (killed ss _ m (int-kills m on unset), up))
  ]
  on_signals-stop (sigterm ∷ ss) m on up = elim (Bool-cases m.term_set) [
    | inl set ↦
        ap (λ x. (on_signals one_shot ss x).stop) (term-told m on set)
        ∙ on_signals-stop ss (record m { stop = true; term_set = not one_shot }) on
            (ap (λ x. (on_signals one_shot ss x).alive) (sym (term-told m on set)) ∙ up)
        ∙ ground arith
    | inr unset ↦ absurd (cc (killed ss _ m (term-kills m on unset), up))
  ]
  on_signals-stop (sigchld n ∷ ss) m on up =
      on_signals-stop ss (on_signal one_shot (sigchld n) m) (still_on n m on) up
      ∙ ap (λ b. b || asks ss) (chld-Unasked n m).stop_eq

  pub on_signals-Unasked :
      (ss : List Signal) (m : Main) → asks ss ≡ false → Unasked m (on_signals one_shot ss m)
  unfolding on_signals asks ints terms
  on_signals-Unasked [] m quiet = ground arith
  on_signals-Unasked (sigint ∷ ss) m quiet = absurd (ground (arith, quiet))
  on_signals-Unasked (sigterm ∷ ss) m quiet = absurd (ground (arith, quiet))
  on_signals-Unasked (sigchld n ∷ ss) m quiet =
      let a = chld-Unasked n m in
      let b = on_signals-Unasked ss (on_signal one_shot (sigchld n) m) quiet in
      record {
        alive_eq = b.alive_eq ∙ a.alive_eq;
        int_eq = b.int_eq ∙ a.int_eq;
        term_eq = b.term_eq ∙ a.term_eq;
        stop_eq = b.stop_eq ∙ a.stop_eq;
      }
