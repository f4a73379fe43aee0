-- ===== src/Server/Accept.antt =====
-- `processPendingConnections` on each of its branches.
use nsu_net_course.Prelude.{
  ℤ, pos, true, false, [], ◌∷◌, ◌++◌, ◌≡◌, refl, is_negative, ltb_ℤ, suc_ℤ, arith, max_ℤ, ltb_ℤ-max,
  max_ℤ-ge_right, Bool-cases,
}
use nsu_net_course.Exceptions.{connection_exception, port_forwarder_exception}
use nsu_net_course.Kernel.{Kernel, Trace, ok, stop, accepted}
use nsu_net_course.FdSet.{in_range, fd_isset, fd_setsize}
use nsu_net_course.Utils.{check_socket}
use nsu_net_course.Socks5.{Connecter, new_connecter, fresh_connecter}
use nsu_net_course.Server.{Server, process_pending_connections}

-- The server that has taken `client` in: the client waits for its handshake behind the others, with
-- a connecter in its first step, and `select` will look below the new `fd_max`, which does not fall.
pub record TakesIn (client : ℤ) (s s' : Server) : Type 0 where
  pub connecter : Connecter
  pub joined :
      s'.waiting_for_handshake_list ≡ s.waiting_for_handshake_list ++ ((client, connecter) ∷ [])
  pub on_client : connecter.client_sock ≡ client
  pub first_step : connecter.first_step_completed ≡ false
  pub not_dropped : connecter.drop ≡ false
  pub watched : ltb_ℤ client s'.fd_max ≡ true
  pub grows : ltb_ℤ s'.fd_max s.fd_max ≡ false
  pub same_resolving : s'.waiting_for_resolving_list ≡ s.waiting_for_resolving_list
  pub same_connections : s'.connection_list ≡ s.connection_list

-- `checkSocket` raises the counter above a descriptor in range, and never lowers it.
pub check_socket-watches :
    (k : Kernel) (t : Trace) (socket nfds : ℤ)
    → ltb_ℤ socket (pos fd_setsize) ≡ true
    → (n : ℤ) × (check_socket socket nfds k t ≡ ok n t)
      × (ltb_ℤ socket n ≡ true)
      × (ltb_ℤ n nfds ≡ false)
unfolding check_socket
check_socket-watches k t socket nfds h = (
  max_ℤ (suc_ℤ socket) nfds,
  ground (arith, Bool-cases (ltb_ℤ nfds (suc_ℤ socket))),
  ltb_ℤ-max socket nfds,
  max_ℤ-ge_right (suc_ℤ socket) nfds,
)

-- `processPendingConnections` on each branch, for a listening socket in range. If `select` did not
-- report it, nothing happens. A failed `accept` throws PortForwarderException, and a client's socket
-- that the sets have no bit for throws ConnectionException; any other client is taken in.
pub process_pending_connections_lem :
    (k : Kernel) (t : Trace) (s : Server)
    → in_range s.listen_sockfd ≡ true
    → let client = k.accept_on t s.listen_sockfd in
      let u = accepted s.listen_sockfd client ∷ t in
      let result = process_pending_connections s k t in
      (s.readset s.listen_sockfd ≡ false → result ≡ ok s t)
      × (s.readset s.listen_sockfd ≡ true
          → is_negative client ≡ true
          → result ≡ stop port_forwarder_exception u)
      × (s.readset s.listen_sockfd ≡ true
          → is_negative client ≡ false
          → ltb_ℤ client (pos fd_setsize) ≡ false
          → result ≡ stop (connection_exception "Socket number out of range") u)
      × (s.readset s.listen_sockfd ≡ true
          → is_negative client ≡ false
          → ltb_ℤ client (pos fd_setsize) ≡ true
          → (s' : Server) × (result ≡ ok s' u) × TakesIn client s s')
unfolding process_pending_connections fd_isset
process_pending_connections_lem k t s i = (
  λ quiet. ground arith,
  λ ready bad. ground arith,
  λ ready good big. unfold check_socket in ground arith,
  λ ready good small.
      let client = k.accept_on t s.listen_sockfd in
      let u = accepted s.listen_sockfd client ∷ t in
      let (n, e, l, g) = check_socket-watches k u client s.fd_max small in
      let c = fresh_connecter client (k.stale_byte u) in
      (
        record s {
          fd_max = n;
          waiting_for_handshake_list = s.waiting_for_handshake_list ++ ((client, c) ∷ []);
        },
        unfold new_connecter in ground arith,
        record {
          connecter = c;
          joined = refl;
          on_client = refl;
          first_step = refl;
          not_dropped = refl;
          watched = l;
          grows = g;
          same_resolving = refl;
          same_connections = refl;
        },
      ),
)
