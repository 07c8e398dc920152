-- ===== src/Net/Setup.antt =====
-- The set-up and the end of connections in src/common/net.c, over what the system and OpenSSL answer.
use tcg_final_project.Prelude.{
  ℕ, List, [], ◌∷◌, ◌++◌, Bool, true, false, not, Option, none, some, ◌==◌, if◌then◌else◌,
}
use tcg_final_project.Prelude.Words.{neg}
use tcg_final_project.Prelude.Resources.{Call, makes, frees}

-- What an address of `getaddrinfo` comes to: no socket, a socket that does not connect, or one that
-- does.
pub data Address : Type 0 where
  no_socket : Address
  refuses connects : ℕ → Address

-- The loop over the addresses: the descriptor, if any, and the calls.
unfoldable pub connect_loop : List Address → Option ℕ × List Call
connect_loop [] = (none, [])
connect_loop (no_socket ∷ more) = connect_loop more
connect_loop (refuses fd ∷ more) =
    let (r, calls) = connect_loop more in (r, makes fd ∷ frees fd ∷ calls)
connect_loop (connects fd ∷ more) = (some fd, makes fd ∷ [])

-- None is the result -1. `getaddrinfo` may fail; `res` is the resource that its list is.
unfoldable pub tcp_connect : ℕ → Option (List Address) → Option ℕ × List Call
tcp_connect res none = (none, [])
tcp_connect res (some found) =
    let (r, calls) = connect_loop found in (r, makes res ∷ (calls ++ frees res ∷ []))

unfoldable pub tcp_listen : Option ℕ → Bool → Bool → Option ℕ × List Call
tcp_listen none bound listens = (none, [])
tcp_listen (some fd) bound listens =
    if not bound
    then (none, makes fd ∷ frees fd ∷ [])
    else if not listens
    then (none, makes fd ∷ frees fd ∷ [])
    else (some fd, makes fd ∷ [])

unfoldable pub ssl_init_client_ctx : Option ℕ → Option ℕ × List Call
ssl_init_client_ctx none = (none, [])
ssl_init_client_ctx (some ctx) = (some ctx, makes ctx ∷ [])

-- The context, and whether its certificate, its key, and the two together are in order.
unfoldable pub ssl_init_server_ctx : Option ℕ → Bool → Bool → Bool → Option ℕ × List Call
ssl_init_server_ctx none cert key fits = (none, [])
ssl_init_server_ctx (some ctx) cert key fits =
    if not cert
    then (none, makes ctx ∷ frees ctx ∷ [])
    else if not key
    then (none, makes ctx ∷ frees ctx ∷ [])
    else if not fits
    then (none, makes ctx ∷ frees ctx ∷ [])
    else (some ctx, makes ctx ∷ [])

-- `net_set_timeout`, as it stands twice: whether the two options are set. The first one tests its
-- arguments, of which `valid` says that they are not negative.
unfoldable pub net_set_timeout : Bool → Bool → ℕ
net_set_timeout received sent = if not received then neg 1 else if not sent then neg 1 else 0

unfoldable pub net_set_timeout_checked : Bool → Bool → Bool → ℕ
net_set_timeout_checked valid received sent =
    if not valid then neg 1 else if not received then neg 1 else if not sent then neg 1 else 0

-- The descriptor and the TLS structure of a `connection_t`; none is -1 and NULL.
pub record Handles : Type 0 where
  pub fd : Option ℕ
  pub ssl : Option ℕ

unfoldable pub conn_init : ℕ → Option ℕ → Handles
conn_init fd ssl = record { fd = some fd; ssl = ssl }

abbrev pub free_if : Option ℕ → List Call
free_if none = []
free_if (some x) = frees x ∷ []

unfoldable pub conn_close : Handles → Handles × List Call
conn_close c = (record { fd = none; ssl = none }, free_if c.ssl ++ free_if c.fd)

-- `TLS_server_method()` and `TLS_client_method()`
pub data Method : Type 0 where
  tls_server tls_client : Method

-- What `SSL_CTX_new` gives for a method is a parameter.
unfoldable pub net_create_context : (Method → Option ℕ) → ℕ → Option ℕ × List Call
net_create_context ctx_new is_server =
    elim (ctx_new (if is_server == 0 then tls_client else tls_server)) [
      | none ↦ (none, [])
      | some ctx ↦ (some ctx, makes ctx ∷ [])
    ]

-- Whether the certificate and the key can be used: false is `exit(EXIT_FAILURE)`.
unfoldable pub net_configure_context : Bool → Bool → Bool
net_configure_context cert key = if not cert then false else if not key then false else true

-- The calls that set OpenSSL up, in their order.
pub data SetUp : Type 0 where
  load_error_strings add_ssl_algorithms library_init add_all_algorithms : SetUp

abbrev pub net_init_ssl : List SetUp
net_init_ssl = load_error_strings ∷ add_ssl_algorithms ∷ []

abbrev pub ssl_msg_init : List SetUp
ssl_msg_init = library_init ∷ add_all_algorithms ∷ load_error_strings ∷ []
