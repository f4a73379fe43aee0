-- ===== src/Server/Dialling.antt =====
-- How a client gets its destination without a name.
use nsu_net_course.Prelude.{ℤ, true, false, [], ◌∷◌, ◌++◌, ◌≡◌, refl}
use nsu_net_course.Kernel.{
  Kernel, Trace, pure, SockAddr, dialled, made_nonblocking, opened_tcp, allocated,
}
use nsu_net_course.Kernel.Returns.{Returns, Returns-bind}
use nsu_net_course.Connection.{Connection, new_connection, raw_connection}
use nsu_net_course.Socks5.{Connecter}
use nsu_net_course.Resolver.{htons}
use nsu_net_course.Server.{Server, promote, c_str, add_connection}

-- What the constructor of a connection leaves: the client's socket and a new one, a connection that
-- counts as made whatever `connect` answers, and sizes that are what the memory held.
pub record Dials (k : Kernel) (t : Trace) (client : ℤ) (c : Connection) : Type 0 where
  pub on_client : c.client_socket ≡ client
  pub on_new_socket : c.forwarding_socket ≡ k.new_tcp (allocated (k.heap_address t) ∷ t)
  pub counts_as_made : c.connected ≡ true
  pub stays : c.to_disconnect ≡ false
  pub stale_cf :
      c.data_cf ≡ k.stale_size (opened_tcp c.forwarding_socket ∷ allocated (k.heap_address t) ∷ t) 0
  pub stale_fc :
      c.data_fc ≡ k.stale_size (opened_tcp c.forwarding_socket ∷ allocated (k.heap_address t) ∷ t) 1

-- The server with a new connection at the end; `fd_max` is that of before, and the last event is a
-- `connect` to `addr`.
pub record Promotes (k : Kernel) (t : Trace) (client : ℤ) (addr : SockAddr) (s s' : Server)
    (u : Trace) : Type 0 where
  pub connection : Connection
  pub joined : s'.connection_list ≡ s.connection_list ++ (connection ∷ [])
  pub dials : Dials k t client connection
  pub same_fd_max : s'.fd_max ≡ s.fd_max
  pub same_resolving : s'.waiting_for_resolving_list ≡ s.waiting_for_resolving_list
  pub past : Trace
  pub answer : ℤ
  pub last_event : u ≡ dialled connection.forwarding_socket addr answer ∷ past

-- A connection to `addr` that is made for a client and joins the server's.
pub new_connection-Promotes :
    (k : Kernel) (t : Trace) (client : ℤ) (addr : SockAddr) (s : Server)
    → Returns
        (new_connection client addr k t)
        (λ c u. Promotes k t client addr s (add_connection s c) u)
unfolding new_connection
new_connection-Promotes k t client addr s =
    let at = k.heap_address t in
    let fd = k.new_tcp (allocated at ∷ t) in
    let opened = opened_tcp fd ∷ allocated at ∷ t in
    let before = made_nonblocking fd ∷ opened in
    record {
      connection = record (raw_connection k opened client addr at fd) { connected = true };
      joined = refl;
      dials = record {
        on_client = refl;
        on_new_socket = refl;
        counts_as_made = refl;
        stays = refl;
        stale_cf = refl;
        stale_fc = refl;
      };
      same_fd_max = refl;
      same_resolving = refl;
      past = before;
      answer = k.connect_to before fd addr;
      last_event = refl;
    }

-- A client whose handshake ended without a domain gets a connection at once: `connect` is called
-- with the address family 0 (not AF_INET), the parsed host and the port, and its answer is ignored.
-- The sizes of what the buffers hold are not set, and `fd_max` does not count the new socket.
pub promote-Promotes :
    (k : Kernel) (t : Trace) (client : ℤ) (c : Connecter) (s : Server)
    → c.domain ≡ false
    → Returns (promote client c s k t) (
        Promotes k t client
          (record { family = 0; addr = k.parse_address (c_str c.addr); port = htons c.port })
          s)
unfolding promote
promote-Promotes k t client c s e =
    let addr : SockAddr = record {
      family = 0;
      addr = k.parse_address (c_str c.addr);
      port = htons c.port;
    } in
    let join = λ (d : Connection). pure (add_connection s d) in
    rw (e, promote)
      (Returns-bind (new_connection client addr) join _ (Promotes k t client addr s) k t
        (new_connection-Promotes k t client addr s) (λ d u p. p))
