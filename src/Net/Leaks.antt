-- ===== src/Net/Leaks.antt =====
-- The set-up of connections in src/common/net.c gives back what it has made and does not hand on.
use tcg_final_project.Prelude.{
  ℕ, ◌≡◌, refl, ap, ◌∙◌, List, [], ◌∷◌, ◌++◌, Bool, true, Option, none, some, ◌==◌, ==_iff, arith,
}
use tcg_final_project.Prelude.Resources.{
  frees, give_back, held_after, handed, held_after-append, give_back-first, give_back-second,
}
use tcg_final_project.Net.Setup.{
  Address, no_socket, refuses, connects, connect_loop, tcp_connect, tcp_listen, ssl_init_server_ctx,
  Handles, conn_close, free_if, Method, net_create_context,
}

connect_loop-held :
    (found : List Address) (held : List ℕ)
    → held_after (connect_loop found).1 (some held) ≡ some (handed (connect_loop found).0 ++ held)
unfolding connect_loop held_after
connect_loop-held [] held = refl
connect_loop-held (no_socket ∷ more) held = connect_loop-held more held
connect_loop-held (refuses fd ∷ more) held =
    ap (held_after (connect_loop more).1) (give_back-first fd held) ∙ connect_loop-held more held
connect_loop-held (connects fd ∷ more) held = refl

tcp_connect-held :
    (res : ℕ) (found : Option (List Address))
    → held_after (tcp_connect res found).1 (some []) ≡ some (handed (tcp_connect res found).0)
unfolding tcp_connect held_after
tcp_connect-held res none = refl
tcp_connect-held res (some found) =
    held_after-append (connect_loop found).1 (frees res ∷ []) (some (res ∷ []))
    ∙ ap (held_after (frees res ∷ [])) (connect_loop-held found (res ∷ []))
    ∙ ap (held_after []) (give_back-second res (connect_loop found).0)

server-held :
    (made : Option ℕ) (a b d : Bool)
    → (held_after (tcp_listen made a b).1 (some []) ≡ some (handed (tcp_listen made a b).0))
      × (held_after (ssl_init_server_ctx made a b d).1 (some [])
          ≡ some (handed (ssl_init_server_ctx made a b d).0))
unfolding tcp_listen ssl_init_server_ctx held_after give_back
server-held none a b d = (refl, refl)
server-held (some x) a b d =
    let same : (x == x) ≡ true = (==_iff x x).1 refl in ground (arith, same)

conn_close-held :
    (c : Handles)
    → (held_after (conn_close c).1 (some (handed c.ssl ++ handed c.fd)) ≡ some [])
      × ((conn_close (conn_close c).0).1 ≡ [])
unfolding conn_close held_after
conn_close-held c = (go c.ssl c.fd, refl)
  where
    go :
        (s f : Option ℕ)
        → held_after (free_if s ++ free_if f) (some (handed s ++ handed f)) ≡ some []
    go none none = refl
    go none (some x) = ap (held_after []) (give_back-first x [])
    go (some x) none = ap (held_after []) (give_back-first x [])
    go (some x) (some y) =
        ap (held_after (frees y ∷ [])) (give_back-first x (y ∷ []))
        ∙ ap (held_after []) (give_back-first y [])

context-held :
    (new_ctx : Method → Option ℕ) (is_server : ℕ)
    → held_after (net_create_context new_ctx is_server).1 (some [])
      ≡ some (handed (net_create_context new_ctx is_server).0)
unfolding net_create_context held_after
context-held new_ctx is_server = ground arith

-- Whatever the system and OpenSSL answer: `tcp_connect`, `tcp_listen`, `ssl_init_server_ctx` and
-- `net_create_context` give back each resource that they make, once, but for the one that they
-- return; and `conn_close` gives back the descriptor and the TLS structure of a connection, once,
-- and nothing when it is called again.
pub set_up-held :
    (res : ℕ) (found : Option (List Address)) (made : Option ℕ) (a b d : Bool) (c : Handles)
    (new_ctx : Method → Option ℕ) (is_server : ℕ)
    → (held_after (tcp_connect res found).1 (some []) ≡ some (handed (tcp_connect res found).0))
      × (held_after (tcp_listen made a b).1 (some []) ≡ some (handed (tcp_listen made a b).0))
      × (held_after (ssl_init_server_ctx made a b d).1 (some [])
          ≡ some (handed (ssl_init_server_ctx made a b d).0))
      × (held_after (net_create_context new_ctx is_server).1 (some [])
          ≡ some (handed (net_create_context new_ctx is_server).0))
      × (held_after (conn_close c).1 (some (handed c.ssl ++ handed c.fd)) ≡ some [])
      × ((conn_close (conn_close c).0).1 ≡ [])
set_up-held res found made a b d c new_ctx is_server =
    let (listens, context) = server-held made a b d in
    let (closed, again) = conn_close-held c in
    (tcp_connect-held res found, listens, context, context-held new_ctx is_server, closed, again)
