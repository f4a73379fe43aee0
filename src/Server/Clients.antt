-- ===== src/Server/Clients.antt =====
-- Which clients the server serves, before and after each step of a round.
use mathlib.Core.List.{Perm, perm_middle, map-append}
use mathlib.Core.List.Perm
use nsu_net_course.Prelude.{
  ℕ, ℤ, Bool, true, false, Bool-cases, List, [], ◌∷◌, ◌++◌, ◌≡◌, refl, ap, ◌∙◌, map, append-nil,
  append_assoc, ◌==◌, inl, inr,
}
use nsu_net_course.Kernel.{Kernel, Trace, pure, ◌>>=◌, ◌>>◌, SockAddr}
use nsu_net_course.Kernel.Ensures.{Ensures, Ensures-bind, Ensures-if, Ensures-any, Ensures-map}
use nsu_net_course.Connection.{Connection, new_connection}
use nsu_net_course.Socks5.{Connecter}
use nsu_net_course.Socks5
use nsu_net_course.Resolver.{Resolver, new_resolver, delete_resolver}
use nsu_net_course.Resolver
use nsu_net_course.Utils.{check_socket}
use nsu_net_course.Server.{
  Server, promote, add_connection, add_resolver, process_handshakes, process_waiting_for_handshake,
  process_resolvers, process_waiting_for_resolving, c_str, request_address, resolved_address,
}

abbrev pub handshaking : List (ℤ × Connecter) → List ℤ
handshaking = map (λ p. p.0)

abbrev pub resolving : List ((ℤ × ℕ) × Resolver) → List ℤ
resolving = map (λ p. p.0.0)

abbrev pub connected : List Connection → List ℤ
connected = map (λ c. c.client_socket)

abbrev pub past_handshake : Server → List ℤ
past_handshake s = resolving s.waiting_for_resolving_list ++ connected s.connection_list

-- The sockets of all clients.
abbrev pub clients : Server → List ℤ
clients s = handshaking s.waiting_for_handshake_list ++ past_handshake s

pub new_connection-client :
    (k : Kernel) (t : Trace) (client : ℤ) (addr : SockAddr)
    → Ensures (new_connection client addr k t) (λ c _. c.client_socket ≡ client)
unfolding new_connection
new_connection-client k t client addr = refl

-- `connected` after a `push_back`.
connected-concat :
    (cs : List Connection) (c : Connection) (fd : ℤ)
    → c.client_socket ≡ fd
    → Perm (connected (cs ++ (c ∷ []))) (fd ∷ connected cs)
connected-concat cs c fd e =
    rw (map-append, e)
      (Perm.trans (perm_middle (connected cs) []) (Perm.cons fd (rw append-nil Perm.rfl)))

-- A new connection at the end of the list.
add_connection-clients :
    (s : Server) (conn : Connection) (fd : ℤ)
    → conn.client_socket ≡ fd
    → Perm (past_handshake (add_connection s conn)) (fd ∷ past_handshake s)
add_connection-clients s conn fd e =
    let waiting = resolving s.waiting_for_resolving_list in
    Perm.trans (Perm.append_left waiting (connected-concat s.connection_list conn fd e))
      (perm_middle waiting (connected s.connection_list))

add_resolver-clients :
    (s : Server) (r : Resolver) (fd : ℤ) (port : ℕ)
    → Perm (past_handshake (add_resolver fd port s r)) (fd ∷ past_handshake s)
add_resolver-clients s r fd port =
    rw (map-append, append_assoc)
      (perm_middle (resolving s.waiting_for_resolving_list) (connected s.connection_list))

promote-clients :
    (k : Kernel) (t : Trace) (fd : ℤ) (c : Connecter) (s : Server)
    → Ensures (promote fd c s k t) (λ s' _. Perm (past_handshake s') (fd ∷ past_handshake s))
unfolding promote
promote-clients k t fd c s =
    let P = λ (s' : Server) (u : Trace). Perm (past_handshake s') (fd ∷ past_handshake s) in
    let add = λ (d : Connection). pure (add_connection s d) in
    let dial = λ (a : SockAddr). new_connection fd a >>= add in
    Ensures-if c.domain _ _ P k t
      (Ensures-bind (new_resolver (c_str c.addr)) (λ r. pure (add_resolver fd c.port s r))
        (λ _ _. Unit) P k t
        (Ensures-any (new_resolver (c_str c.addr) k t) (λ _ _. Unit) (λ _ _. tt))
        (λ r u _. add_resolver-clients s r fd c.port))
      (Ensures-bind (request_address c.addr c.port) dial (λ _ _. Unit) P k t tt
        λ a u _.
          Ensures-bind (new_connection fd a) add (λ d _. d.client_socket ≡ fd) P k u
            (new_connection-client k u fd a) (λ d w e. add_connection-clients s d fd e))

-- A client moves from the middle of a list of waiting ones to the front of those behind.
move_client :
    (xs ys past past' : List ℤ) (fd : ℤ)
    → Perm past' (fd ∷ past)
    → Perm ((xs ++ ys) ++ past') ((xs ++ (fd ∷ ys)) ++ past)
move_client xs ys past past' fd p = Perm.trans (Perm.append_left (xs ++ ys) p) (
    Perm.trans (perm_middle (xs ++ ys) past)
      (Perm.append_right past (Perm.symm (perm_middle xs ys))))

-- An entry passes from the waiting ones to those that are done.
pub map-concat :
    {A : Type 0} (f : A → ℤ) (xs : List A) (x : A) (ys : List ℤ)
    → map f (xs ++ (x ∷ [])) ++ ys ≡ map f xs ++ (f x ∷ ys)
map-concat f xs x ys =
    ap (λ z. z ++ ys) (map-append f xs (x ∷ [])) ∙ append_assoc (map f xs) (f x ∷ []) ys

process_handshakes-clients :
    (k : Kernel) (t : Trace) (done todo : List (ℤ × Connecter)) (s : Server)
    → Ensures
        (process_handshakes done todo s k t)
        (λ s' _. Perm (clients s') ((handshaking done ++ handshaking todo) ++ past_handshake s))
unfolding process_handshakes
process_handshakes-clients k t done [] s = rw append-nil Perm.rfl
process_handshakes-clients k t done ((fd, c) ∷ todo) s =
    let P = λ (s' : Server) (u : Trace).
      Perm (clients s') ((handshaking done ++ (fd ∷ handshaking todo)) ++ past_handshake s) in
    let exchange = Socks5.exchange_data s.readset s.writeset c in
    let finished =
      λ (r : Connecter × ℕ). promote fd r.0 s >>= λ s'. process_handshakes done todo s' in
    let waiting = λ (r : Connecter × ℕ). process_handshakes (done ++ ((fd, r.0) ∷ [])) todo s in
    Ensures-bind exchange (λ r. elim (r.1 == 1) [ true ↦ finished r | false ↦ waiting r ])
      (λ _ _. Unit) P k t (Ensures-any (exchange k t) (λ _ _. Unit) (λ _ _. tt))
      λ r u _. elim (Bool-cases (r.1 == 1)) [
        | inl e ↦ rw e (
            Ensures-bind (promote fd r.0 s) (process_handshakes done todo)
              (λ s' _. Perm (past_handshake s') (fd ∷ past_handshake s)) P k u
              (promote-clients k u fd r.0 s)
              λ s' w p.
                Ensures-map (process_handshakes done todo s' k w) _ P
                  (process_handshakes-clients k w done todo s')
                  λ s'' x q.
                    Perm.trans q (move_client (handshaking done) (handshaking todo) _ _ fd p))
        | inr e ↦ rw e (
            rw (map-concat (λ p. p.0) done (fd, r.0) (handshaking todo)) at
              (process_handshakes-clients k u (done ++ ((fd, r.0) ∷ [])) todo s))
      ]

process_resolvers-clients :
    (k : Kernel) (t : Trace) (done todo : List ((ℤ × ℕ) × Resolver)) (s : Server)
    → Ensures (process_resolvers done todo s k t) (λ s' _.
      (s'.waiting_for_handshake_list ≡ s.waiting_for_handshake_list)
      × Perm
          (past_handshake s')
          ((resolving done ++ resolving todo) ++ connected s.connection_list))
unfolding process_resolvers
process_resolvers-clients k t done [] s = (refl, rw append-nil Perm.rfl)
process_resolvers-clients k t done (((fd, port), r) ∷ todo) s =
    let P = λ (s' : Server) (u : Trace).
      (s'.waiting_for_handshake_list ≡ s.waiting_for_handshake_list)
      × Perm (past_handshake s')
          ((resolving done ++ (fd ∷ resolving todo)) ++ connected s.connection_list) in
    let exchange = Resolver.exchange_data s.readset s.writeset r in
    let close = λ (x : Resolver × Bool) (d : Connection).
      delete_resolver x.0 >> process_resolvers done todo (add_connection s d) in
    let resolved =
      λ (x : Resolver × Bool). new_connection fd (resolved_address x.0 port) >>= close x in
    let check = λ (x : Resolver × Bool) (n : ℤ).
      process_resolvers (done ++ (((fd, port), x.0) ∷ [])) todo (record s { fd_max = n }) in
    let waiting = λ (x : Resolver × Bool). check_socket x.0.sockfd s.fd_max >>= check x in
    Ensures-bind exchange (λ x. elim x.1 [ true ↦ resolved x | false ↦ waiting x ]) (λ _ _. Unit) P
      k t (Ensures-any (exchange k t) (λ _ _. Unit) (λ _ _. tt))
      λ x u _. elim (Bool-cases x.1) [
        | inl e ↦ rw e (
            Ensures-bind (new_connection fd (resolved_address x.0 port)) (close x)
              (λ d _. d.client_socket ≡ fd) P k u
              (new_connection-client k u fd (resolved_address x.0 port))
              λ d w g.
                Ensures-bind (delete_resolver x.0)
                  (λ _. process_resolvers done todo (add_connection s d)) (λ _ _. Unit) P k w
                  (Ensures-any (delete_resolver x.0 k w) (λ _ _. Unit) (λ _ _. tt))
                  λ _ v _.
                    Ensures-map (process_resolvers done todo (add_connection s d) k v) _ P
                      (process_resolvers-clients k v done todo (add_connection s d))
                      λ s' z q. (
                        q.0,
                        Perm.trans q.1 (
                            move_client (resolving done) (resolving todo) _ _ fd
                              (connected-concat s.connection_list d fd g)),
                      ))
        | inr e ↦ rw e (
            Ensures-bind (check_socket x.0.sockfd s.fd_max) (check x) (λ _ _. Unit) P k u
              (Ensures-any (check_socket x.0.sockfd s.fd_max k u) (λ _ _. Unit) (λ _ _. tt))
              λ n w _. rw (map-concat (λ p. p.0.0) done ((fd, port), x.0) (resolving todo)) at (
                process_resolvers-clients k w (done ++ (((fd, port), x.0) ∷ [])) todo
                  (record s { fd_max = n })))
      ]

-- `processWaitingForHandshake` moves clients between the lists: whenever it returns, the sockets of
-- all clients are the same as before, each as often, in some order.
pub process_waiting_for_handshake-clients :
    (k : Kernel) (t : Trace) (s : Server)
    → Ensures (process_waiting_for_handshake s k t) (λ s' _. Perm (clients s') (clients s))
unfolding process_waiting_for_handshake
process_waiting_for_handshake-clients k t s =
    process_handshakes-clients k t [] s.waiting_for_handshake_list s

-- `processWaitingForResolving` moves clients between the lists: whenever it returns, the sockets of
-- all clients are the same as before, each as often, in some order.
pub process_waiting_for_resolving-clients :
    (k : Kernel) (t : Trace) (s : Server)
    → Ensures (process_waiting_for_resolving s k t) (λ s' _. Perm (clients s') (clients s))
unfolding process_waiting_for_resolving
process_waiting_for_resolving-clients k t s =
    Ensures-map (process_waiting_for_resolving s k t) _ _
      (process_resolvers-clients k t [] s.waiting_for_resolving_list s)
      λ s' u q. rw q.0 (Perm.append_left (handshaking s.waiting_for_handshake_list) q.1)
