-- ===== src/Client/Flight/Settling.antt =====
-- The moves that let all arrive that is under way between the graphical client of src/client_gui.c and
-- the server.
use tcg_final_project.Prelude.{◌≡◌, refl, ap, ◌∙◌, List, [], ◌∷◌, ◌++◌, length, replicate}
use tcg_final_project.Session.World.{Libc, Received}
use tcg_final_project.Client.Answers.{Layout}
use tcg_final_project.Client.Flight.{
  Flight, Move, serves, hears, serve_next, hear_next, move, moves,
}

module _ (c : Libc) (l : Layout) where
  moves-append :
      (ms ns : List Move) (f : Flight) → moves c l (ms ++ ns) f ≡ moves c l ns (moves c l ms f)
  unfolding moves
  moves-append [] ns f = refl
  moves-append (m ∷ ms) ns f = moves-append ms ns (move c l m f)

  serve_all :
      (rs : List Received) (f : Flight)
      → f.requests ≡ rs
      → (moves c l (replicate (length rs) serves) f).requests ≡ []
  unfolding moves move serve_next
  serve_all [] f e = e
  serve_all (r ∷ rs) f e =
      serve_all rs (move c l serves f) (ap (λ x. (serve_next c l x f).requests) e)

  hear_next-requests :
      (rs : List Received) (f : Flight) → (hear_next c l rs f).requests ≡ f.requests
  unfolding hear_next
  hear_next-requests [] f = refl
  hear_next-requests (r ∷ rs) f = refl

  hear_all :
      (rs : List Received) (f : Flight)
      → f.replies ≡ rs
      → f.requests ≡ []
      → let t = moves c l (replicate (length rs) hears) f in (t.replies ≡ []) × (t.requests ≡ [])
  unfolding moves move hear_next
  hear_all [] f e done = (e, done)
  hear_all (r ∷ rs) f e done =
      hear_all rs (move c l hears f) (ap (λ x. (hear_next c l x f).replies) e)
        (hear_next-requests f.replies f ∙ done)

  -- The server takes all requests, and then the client all replies.
  abbrev pub arriving : Flight → List Move
  arriving f =
      let served = moves c l (replicate (length f.requests) serves) f in
      replicate (length f.requests) serves ++ replicate (length served.replies) hears

  -- Behind these moves no reply is under way.
  pub arriving-replies : (f : Flight) → (moves c l (arriving f) f).replies ≡ []
  arriving-replies f =
      let first = replicate (length f.requests) serves in
      let u = moves c l first f in
      ap (λ x. x.replies) (moves-append first (replicate (length u.replies) hears) f)
      ∙ (hear_all u.replies u refl (serve_all f.requests f refl)).0
