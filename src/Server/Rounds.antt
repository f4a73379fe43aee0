-- ===== src/Server/Rounds.antt =====
-- The clients of the server over one round of its loop.
use mathlib.Core.List.{Perm, perm_middle, perm_append_comm, map-append}
use mathlib.Core.List.Perm
use nsu_net_course.Prelude.{
  ℤ, Bool, List, [], ◌∷◌, ◌++◌, ◌≡◌, ◌⊎◌, refl, inl, inr, append_assoc, is_zero, is_negative,
  if◌then◌else◌, arith,
}
use nsu_net_course.Exceptions.{port_forwarder_exception}
use nsu_net_course.Kernel.{Kernel, Trace, pure, throw, ◌>>=◌, accepted, M, accept}
use nsu_net_course.Kernel.Ensures.{Ensures, Ensures-bind, Ensures-if, Ensures-any, Ensures-map}
use nsu_net_course.FdSet.{fd_isset}
use nsu_net_course.Utils.{check_socket}
use nsu_net_course.Socks5.{Connecter, new_connecter}
use nsu_net_course.Server.{
  Server, prepare_sets, forward_select, process_pending_connections, process_waiting_for_handshake,
  process_waiting_for_resolving, process_list, process_connections, round,
}
use nsu_net_course.Server.Prepare.{live}
use nsu_net_course.Server.Clients.{
  handshaking, resolving, connected, past_handshake, clients, process_waiting_for_handshake-clients,
  process_waiting_for_resolving-clients,
}
use nsu_net_course.Server.Members.{
  process_list-clients, marked, marked-live, Prepares, prepare_sets-Prepares,
}

-- What `processPendingConnections` does: at most one client joins, the last that `accept` gave.
abbrev pub Joins : Kernel → ℤ → List ℤ → Type 0
Joins k listenfd joined = (joined ≡ []) ⊎ ((t : Trace) × (joined ≡ k.accept_on t listenfd ∷ []))

join_clients :
    (s : Server) (client : ℤ) (c : Connecter)
    → Perm
        (handshaking (s.waiting_for_handshake_list ++ ((client, c) ∷ [])) ++ past_handshake s)
        (client ∷ clients s)
join_clients s client c =
    rw (map-append, append_assoc)
      (perm_middle (handshaking s.waiting_for_handshake_list) (past_handshake s))

abbrev Accepts : Kernel → Server → Server → Type 0
Accepts k s s' =
    (joined : List ℤ) × Joins k s.listen_sockfd joined × Perm (clients s') (joined ++ clients s)

process_pending_connections-Accepts :
    (k : Kernel) (t : Trace) (s : Server)
    → Ensures (process_pending_connections s k t) (λ s' _. Accepts k s s')
unfolding process_pending_connections
process_pending_connections-Accepts k t s =
    let P = λ (s' : Server) (u : Trace). Accepts k s s' in
    let join = λ (client n : ℤ) (c : Connecter).
      let s' : Server = record s {
        fd_max = n;
        waiting_for_handshake_list = s.waiting_for_handshake_list ++ ((client, c) ∷ []);
      } in
      s' in
    let connect = λ (client n : ℤ). new_connecter client >>= λ c. pure (join client n c) in
    let check = λ (client : ℤ). check_socket client s.fd_max >>= connect client in
    let take =
      λ (client : ℤ). if is_negative client then throw port_forwarder_exception else check client in
    let react = λ (b : Bool). if b then accept s.listen_sockfd >>= take else pure s in
    let client = k.accept_on t s.listen_sockfd in
    let u = accepted s.listen_sockfd client ∷ t in
    Ensures-bind (fd_isset s.listen_sockfd s.readset) react (λ _ w. w ≡ t) P k t
      (unfold fd_isset in ground arith)
      λ b w same. rw same (
        Ensures-if b (accept s.listen_sockfd >>= take) (pure s) P k t
          (Ensures-if (is_negative client) (throw port_forwarder_exception) (check client) P k u tt
            (Ensures-bind (check_socket client s.fd_max) (connect client) (λ _ _. Unit) P k u
              (Ensures-any _ (λ _ _. Unit) (λ _ _. tt))
              λ n v _.
                Ensures-bind (new_connecter client) (λ c. pure (join client n c)) (λ _ _. Unit) P k
                  v (Ensures-any _ (λ _ _. Unit) (λ _ _. tt))
                  λ c x _. (client ∷ [], inr (t, refl), join_clients s client c)))
          ([], inl refl, Perm.refl (clients s)))

pub swap_front : (a b c : List ℤ) → Perm (a ++ (b ++ c)) (b ++ (a ++ c))
swap_front a b c =
    rw (← append_assoc a b c, ← append_assoc b a c) (Perm.append_right c (perm_append_comm a b))

-- Those that leave and those that stay are those of before.
Prepares-clients :
    (s s' : Server)
    → Prepares s s'
    → Perm (connected (marked s.connection_list) ++ clients s') (clients s)
Prepares-clients s s' h =
    let gone = connected (marked s.connection_list) in
    let waiting = handshaking s.waiting_for_handshake_list in
    let names = resolving s.waiting_for_resolving_list in
    let stay = connected (live s.connection_list) in
    rw (h.0, h.1, h.2)
      (Perm.trans (swap_front gone waiting (names ++ stay)) (
        Perm.append_left waiting (
          Perm.trans (swap_front gone names stay)
            (Perm.append_left names (marked-live s.connection_list)))))

-- The clients of a round: those of before and the one that joined are those of after and those that
-- were marked to be disconnected.
abbrev pub Accounts : Kernel → Server → Server → Type 0
Accounts k s s' =
    (joined : List ℤ) × Joins k s.listen_sockfd joined
    × Perm (connected (marked s.connection_list) ++ clients s') (joined ++ clients s)

process_connections-clients :
    (k : Kernel) (t : Trace) (s : Server)
    → Ensures (process_connections s k t) (λ s' _. Perm (clients s') (clients s))
unfolding process_connections
process_connections-clients k t s =
    Ensures-bind (process_list s.readset s.writeset s.connection_list)
      (λ cs. let s' : Server = record s { connection_list = cs } in pure s') _
      (λ s' _. Perm (clients s') (clients s)) k t
      (process_list-clients k t s.readset s.writeset s.connection_list)
      (λ cs u e. rw e (Perm.refl (clients s)))

-- The steps behind `select`.
serve : Server → M Server
serve s = do
  s2 ← process_pending_connections s
  s3 ← process_waiting_for_handshake s2
  s4 ← process_waiting_for_resolving s3
  process_connections s4

serve-Accepts :
    (k : Kernel) (t : Trace) (s : Server) → Ensures (serve s k t) (λ s' _. Accepts k s s')
unfolding serve
serve-Accepts k t s =
    let P = λ (s' : Server) (u : Trace). Accepts k s s' in
    let last = λ (s3 : Server). process_waiting_for_resolving s3 >>= process_connections in
    Ensures-bind (process_pending_connections s) (λ s2. process_waiting_for_handshake s2 >>= last) P
      P k t (process_pending_connections-Accepts k t s)
      λ s2 u2 (joined, j, p).
        Ensures-bind (process_waiting_for_handshake s2) last _ P k u2
          (process_waiting_for_handshake-clients k u2 s2)
          λ s3 u3 p3.
            Ensures-bind (process_waiting_for_resolving s3) process_connections _ P k u3
              (process_waiting_for_resolving-clients k u3 s3)
              λ s4 u4 p4.
                Ensures-map (process_connections s4 k u4) _ P (process_connections-clients k u4 s4)
                  λ s5 u5 p5. (joined, j, Perm.trans p5 (Perm.trans p4 (Perm.trans p3 p)))

-- What was accounted for before `select` and behind it.
Prepares-Accounts :
    (k : Kernel) (s s1 s' : Server) → Prepares s s1 → Accepts k s1 s' → Accounts k s s'
Prepares-Accounts k s s1 s' h (joined, j, p) =
    let gone = connected (marked s.connection_list) in
    (
      joined,
      rw h.3 at j,
      Perm.trans (Perm.append_left gone p) (
          Perm.trans (swap_front gone joined (clients s1))
            (Perm.append_left joined (Prepares-clients s s1 h))),
    )

-- Whenever a round of the loop in `run` returns, the clients that the server had, with at most one that
-- `accept` gave for the listening socket, are those that it has now and those whose connection was
-- marked to be disconnected, each as often: nobody else is lost, and nobody else is made up.
pub round-Accounts :
    (k : Kernel) (t : Trace) (s : Server) → Ensures (round s k t) (λ s' _. Accounts k s s')
unfolding round serve
round-Accounts k t s =
    let P = λ (s' : Server) (u : Trace). Accounts k s s' in
    let after = λ (r : Server × ℤ).
      if is_negative r.1
      then throw port_forwarder_exception
      else if is_zero r.1
      then pure r.0
      else serve r.0 in
    Ensures-bind (prepare_sets s) (λ s1. forward_select s1 >>= after) _ P k t
      (prepare_sets-Prepares k t s)
      λ s1 u h.
        Ensures-bind (forward_select s1) after (λ r _. Prepares s r.0) P k u
          (unfold forward_select in h)
          λ r w g.
            Ensures-if (is_negative r.1) (throw port_forwarder_exception)
              (if is_zero r.1 then pure r.0 else serve r.0) P k w tt
              (Ensures-if (is_zero r.1) (pure r.0) (serve r.0) P k w
                (Prepares-Accounts k s r.0 r.0 g ([], inl refl, Perm.refl (clients r.0)))
                (Ensures-map (serve r.0 k w) _ P (serve-Accepts k w r.0)
                  (λ s' x a. Prepares-Accounts k s r.0 s' g a)))
