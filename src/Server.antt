-- ===== src/Server.antt =====
-- net_lab7/Server: the event loop. A round fills the descriptor sets, waits in `select`, accepts a
-- client, and moves each client from the handshake to the resolver, or straight to a connection.
-- Lists of pointers hold the objects. Lines written to std::cout are left out.
pub mod Clients
pub mod Dialling
pub mod Handover
pub mod Asking
pub mod Refusing
pub mod Answering
pub mod Accept
pub mod Starting
pub mod Prepare
pub mod Progress
pub mod Members
pub mod Rounds
pub mod History
pub mod Filling
pub mod Watching
pub mod Legacy
use nsu_net_course.Prelude.{
  ℕ, zero, suc, ◌-◌, ◌%◌, ◌^◌, ℤ, pos, negsuc, true, false, List, [], ◌∷◌, ◌++◌, ◌==◌, is_zero,
  is_negative, if◌then◌else◌,
}
use nsu_net_course.Exceptions.{connection_exception, port_forwarder_exception}
use nsu_net_course.Kernel.{
  M, pure, throw, ◌>>=◌, ◌>>◌, emit, SockAddr, FdSet, made_nonblocking, reused_address,
  ignored_sigpipe, listened, socket_tcp, bind, accept, select, Bytes, ok,
}
use nsu_net_course.FdSet.{fd_zero, fd_set, fd_isset}
use nsu_net_course.Utils.{check_socket}
use nsu_net_course.Connection.{Connection, new_connection, delete_connection}
use nsu_net_course.Connection
use nsu_net_course.Socks5.{Connecter, new_connecter}
use nsu_net_course.Socks5
use nsu_net_course.Resolver.{Resolver, new_resolver, delete_resolver, htons, af_inet}
use nsu_net_course.Resolver

pub record Server : Type 0 where
  pub listen_sockfd : ℤ
  pub listen_port : ℤ
  pub fd_max : ℤ
  pub connection_list : List Connection
  pub waiting_for_handshake_list : List (ℤ × Connecter)
  pub waiting_for_resolving_list : List ((ℤ × ℕ) × Resolver)
  pub readset : FdSet
  pub writeset : FdSet

-- The constructor; the sets hold what the memory held, and are cleared before they are read.
unfoldable pub new_server : ℤ → M Server
new_server listen_port = do
  fd ← socket_tcp
  pure (record {
    listen_sockfd = fd;
    listen_port = listen_port;
    fd_max = pos 0;
    connection_list = [];
    waiting_for_handshake_list = [];
    waiting_for_resolving_list = [];
    readset = fd_zero;
    writeset = fd_zero;
  })

-- An `int` passed as a `uint16_t`.
abbrev pub low_word : ℤ → ℕ
low_word (pos n) = n % 65536
low_word (negsuc n) = 65535 - n % 65536

-- `htonl(0x7f000001)` in the memory of the machine.
abbrev pub loopback : ℕ
loopback = 0x0100007f

unfoldable pub listen_for : Server → M Server
unfolding check_socket
listen_for s = do
  n ← check_socket s.listen_sockfd s.fd_max
  r ←
      bind s.listen_sockfd
        (record { family = af_inet; addr = loopback; port = htons (low_word s.listen_port) })
  if is_zero r
      then (do emit (listened s.listen_sockfd); pure (record s { fd_max = n }))
      else throw (connection_exception "Error while connecting")

-- The loop of `prepareSets` over the connections: those to disconnect are deleted and taken out.
unfoldable pub prepare_connections :
    List Connection → FdSet × FdSet → M (List Connection × FdSet × FdSet)
prepare_connections [] sets = pure ([], sets.0, sets.1)
prepare_connections (c ∷ cs) sets = elim c.to_disconnect [
  | true ↦ do delete_connection c; prepare_connections cs sets
  | false ↦ do
    sets' ← Connection.fill_sets c sets
    r ← prepare_connections cs sets'
    pure (c ∷ r.0, r.1, r.2)
]

unfoldable pub prepare_handshakes : List (ℤ × Connecter) → FdSet × FdSet → M (FdSet × FdSet)
prepare_handshakes [] sets = pure sets
prepare_handshakes ((fd, c) ∷ cs) sets = do
  sets' ← Socks5.fill_fd_set c sets
  prepare_handshakes cs sets'

-- Also passes on `fd_max`.
unfoldable pub prepare_resolvers :
    List ((ℤ × ℕ) × Resolver) → ℤ → FdSet × FdSet → M (ℤ × FdSet × FdSet)
prepare_resolvers [] n sets = pure (n, sets.0, sets.1)
prepare_resolvers ((p, r) ∷ rs) n sets = do
  sets' ← Resolver.fill_fd_set r sets
  n' ← check_socket r.sockfd n
  prepare_resolvers rs n' sets'

unfoldable pub prepare_sets : Server → M Server
prepare_sets s = do
  rd ← fd_set s.listen_sockfd fd_zero
  a ← prepare_connections s.connection_list (rd, fd_zero)
  b ← prepare_handshakes s.waiting_for_handshake_list (a.1, a.2)
  d ← prepare_resolvers s.waiting_for_resolving_list s.fd_max b
  pure (record s { connection_list = a.0; fd_max = d.0; readset = d.1; writeset = d.2 })

unfoldable pub forward_select : Server → M (Server × ℤ)
forward_select s = do
  r ← select s.fd_max s.readset s.writeset
  pure (record s { readset = r.readable; writeset = r.writable }, r.count)

unfoldable pub process_pending_connections : Server → M Server
process_pending_connections s = do
  set ← fd_isset s.listen_sockfd s.readset
  if set
      then (do
        client ← accept s.listen_sockfd
        if is_negative client then throw port_forwarder_exception else (do
          n ← check_socket client s.fd_max
          c ← new_connecter client
          pure (record s {
            fd_max = n;
            waiting_for_handshake_list = s.waiting_for_handshake_list ++ ((client, c) ∷ []);
          })))
      else pure s

-- A `std::string` up to its first zero, as `c_str` is read.
unfoldable pub c_str : Bytes → Bytes
c_str [] = []
c_str (x ∷ xs) = elim (x == 0) [ true ↦ [] | false ↦ x ∷ c_str xs ]

-- The address of an IPv4 request; `sin_family` stays 0.
abbrev pub request_address : Bytes → ℕ → M SockAddr
request_address host port k t =
    ok (record { family = 0; addr = k.parse_address (c_str host); port = htons port }) t

abbrev pub add_resolver : ℤ → ℕ → Server → Resolver → Server
add_resolver client port s r = record s {
  waiting_for_resolving_list = s.waiting_for_resolving_list ++ (((client, port), r) ∷ []);
}

abbrev pub add_connection : Server → Connection → Server
add_connection s conn = record s { connection_list = s.connection_list ++ (conn ∷ []) }

-- A client whose handshake is over goes to the resolver or gets its connection.
unfoldable pub promote : ℤ → Connecter → Server → M Server
promote client c s =
    if c.domain
    then (do r ← new_resolver (c_str c.addr); pure (add_resolver client c.port s r))
    else (do
      addr ← request_address c.addr c.port
      conn ← new_connection client addr
      pure (add_connection s conn))

-- The loop over the handshakes `todo`; the `done` ones stay.
unfoldable pub process_handshakes : List (ℤ × Connecter) → List (ℤ × Connecter) → Server → M Server
process_handshakes done [] s = pure (record s { waiting_for_handshake_list = done })
process_handshakes done ((fd, c) ∷ todo) s = do
  r ← Socks5.exchange_data s.readset s.writeset c
  elim (r.1 == 1) [
    | true ↦ promote fd r.0 s >>= λ s'. process_handshakes done todo s'
    | false ↦ process_handshakes (done ++ ((fd, r.0) ∷ [])) todo s
  ]

unfoldable pub process_waiting_for_handshake : Server → M Server
process_waiting_for_handshake s = process_handshakes [] s.waiting_for_handshake_list s

-- `s_addr` is a `long`, of which `sin_addr` takes 32 bits.
abbrev pub resolved_address : Resolver → ℕ → SockAddr
resolved_address r port = record { family = af_inet; addr = r.s_addr % 2 ^ 32; port = htons port }

unfoldable pub process_resolvers :
    List ((ℤ × ℕ) × Resolver) → List ((ℤ × ℕ) × Resolver) → Server → M Server
process_resolvers done [] s = pure (record s { waiting_for_resolving_list = done })
process_resolvers done (((client, port), r) ∷ todo) s = do
  x ← Resolver.exchange_data s.readset s.writeset r
  elim x.1 [
    | true ↦ do
      conn ← new_connection client (resolved_address x.0 port)
      delete_resolver x.0
      process_resolvers done todo (add_connection s conn)
    | false ↦ do
      n ← check_socket x.0.sockfd s.fd_max
      process_resolvers (done ++ (((client, port), x.0) ∷ [])) todo (record s { fd_max = n })
  ]

unfoldable pub process_waiting_for_resolving : Server → M Server
process_waiting_for_resolving s = process_resolvers [] s.waiting_for_resolving_list s

unfoldable pub process_list : FdSet → FdSet → List Connection → M (List Connection)
process_list rd wr [] = pure []
process_list rd wr (c ∷ cs) = do
  c' ← Connection.exchange_data rd wr c
  cs' ← process_list rd wr cs
  pure (c' ∷ cs')

unfoldable pub process_connections : Server → M Server
process_connections s = do
  cs ← process_list s.readset s.writeset s.connection_list
  pure (record s { connection_list = cs })

-- The body of `while (true)`.
unfoldable pub round : Server → M Server
round s = do
  s1 ← prepare_sets s
  r ← forward_select s1
  if is_negative r.1 then throw port_forwarder_exception else if is_zero r.1 then pure r.0 else (do
    s2 ← process_pending_connections r.0
    s3 ← process_waiting_for_handshake s2
    s4 ← process_waiting_for_resolving s3
    process_connections s4)

-- The first `n` rounds of the loop, which has no end of its own.
unfoldable pub rounds : ℕ → Server → M Server
rounds zero s = pure s
rounds (suc n) s = do s' ← round s; rounds n s'

-- What `run` does before its loop.
unfoldable pub start : Server → M Server
start s = do
  emit ignored_sigpipe
  s' ← listen_for s
  emit (made_nonblocking s'.listen_sockfd)
  emit (reused_address s'.listen_sockfd)
  pure s'

unfoldable pub run : ℕ → Server → M Server
run n s = do s' ← start s; rounds n s'
