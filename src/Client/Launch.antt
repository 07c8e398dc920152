-- ===== src/Client/Launch.antt =====
-- The arguments of the programs, and how `main` of src/client.c and src/client_gui.c starts.
use tcg_final_project.Prelude.{
  ℕ, zero, suc, ◌%◌, List, [], ◌∷◌, get_elem?, Bool, true, false, not, ltb, ◌+◌, ◌-◌, ◌^◌, Option,
  none, some, if◌then◌else◌,
}
use tcg_final_project.Client.Worker.{Ended, stuck, Tally, tally}
use tcg_final_project.Prelude.Words.{ltb_int, sext64}
use Prim.Native.String.{String}

-- `if (argc > i) x = f(argv[i])`, with `x` as it was before: `args` are the arguments behind the
-- program's name, so that `argv[i]` is `args[i - 1]`.
unfoldable pub argument {ℓ} : {A : Type ℓ} → List String → ℕ → (String → A) → A → A
argument args i f before = elim (get_elem? args i) [ none ↦ before | some a ↦ f a ]

abbrev itself : String → String
itself a = a

-- What src/client.c is asked for: the terminal client, or the stress client with its threads and rounds.
pub data Launched : Type 0 where
  app : String → ℕ → Launched
  bench : ℕ → ℕ → String → ℕ → Launched

-- `atoi`, and whether `strcmp(arg, "--app")` is 0, are parameters.
module _ (atoi : String → ℕ) where
  -- `(uint16_t)atoi(arg)`
  abbrev port_of : String → ℕ
  port_of a = atoi a % 65536

  -- `main` of src/server.c
  unfoldable pub server_port : List String → ℕ
  server_port args = argument args 0 port_of 9000

  -- `main` of src/client_gui.c
  unfoldable pub gui_address : List String → String × ℕ
  gui_address args = (argument args 0 itself "127.0.0.1", argument args 1 port_of 9000)

  abbrev in_bench : List String → Launched
  in_bench args =
      bench (argument args 0 atoi 100) (argument args 1 atoi 5) (argument args 2 itself "127.0.0.1")
        (argument args 3 port_of 9000)

  unfoldable pub client_mode : (String → Bool) → List String → Launched
  client_mode is_app [] = in_bench []
  client_mode is_app (a ∷ args) =
      if is_app a
      then app (argument args 0 itself "127.0.0.1") (argument args 1 port_of 9000)
      else in_bench (a ∷ args)

-- The threads from the `i`-th on, `k` of them, and what each leaves in `lats`.
unfoldable pub threads_from : ℕ → ℕ → (ℕ → Ended) → List Ended
threads_from zero i worker = []
threads_from (suc k) i worker = worker i ∷ threads_from k (suc i) worker

-- How often a loop runs that counts from 0 up to an `int`.
abbrev pub times : ℕ → ℕ
times n = if ltb_int 0 n then n else 0

-- A thread that waits for ever is never joined.
unfoldable pub any_stuck : List Ended → Bool
any_stuck [] = false
any_stuck (stuck ∷ es) = true
any_stuck (_ ∷ es) = any_stuck es

-- What is printed of the latencies: the sum and the count that the average is made of, the least and
-- the greatest.
pub record Latency : Type 0 where
  pub sum : ℕ
  pub count : ℕ
  pub least : ℕ
  pub greatest : ℕ

-- The report; `fail` is `threads - ok` in 64 bits.
pub record Report : Type 0 where
  pub threads : ℕ
  pub rounds : ℕ
  pub ok : ℕ
  pub fail : ℕ
  pub latency : Option Latency

unfoldable pub report : ℕ → ℕ → Tally → Report
report threads rounds t = record {
  threads = threads;
  rounds = rounds;
  ok = t.ok;
  fail = (sext64 threads + 2 ^ 64 - t.ok) % 2 ^ 64;
  latency =
      if ltb 0 t.ok
      then some (record { sum = t.sum; count = t.ok; least = t.min; greatest = t.max })
      else none;
}

-- The stress client: without a context its result is 1.
pub data Benched : Type 0 where
  no_context joins : Benched
  reports : Report → Benched

unfoldable pub run_bench : Bool → ℕ → ℕ → (ℕ → ℕ → Ended) → Benched
run_bench ctx threads rounds worker =
    let ended = threads_from (times threads) 0 (worker (times rounds)) in
    if not ctx
    then no_context
    else if any_stuck ended
    then joins
    else reports (report threads rounds (tally ended))

-- The graphical client up to its loop, over whether the pipe, the context and the window can be had: none
-- is the loop.
unfoldable pub start_gui : Bool → Bool → Bool → Option ℕ
start_gui pipe ctx window =
    if not pipe then some 1 else if not ctx then some 1 else if not window then some 1 else none
