-- ===== src/Server/Members.antt =====
-- The lists behind `prepareSets` and `processConnections`.
use mathlib.Core.List.{Perm, perm_middle}
use mathlib.Core.List.Perm
use nsu_net_course.Prelude.{
  ℤ, Bool-cases, List, [], ◌∷◌, ◌++◌, ◌≡◌, refl, sym, ap, ◌∙◌, inl, inr, if◌then◌else◌, arith,
}
use nsu_net_course.Kernel.{Kernel, Trace, FdSet, pure, ◌>>=◌, ◌>>◌, ignored_sigpipe, closed, M}
use nsu_net_course.Kernel.Ensures.{Ensures, Ensures-bind, Ensures-any, Ensures-map, Ensures-elim}
use nsu_net_course.FdSet.{fd_zero, fd_set, fd_isset}
use nsu_net_course.Connection.{
  Connection, Sets, delete_connection, fill_sets, after_recv_cf, after_recv_fc, after_send_cf,
  after_send_fc, pull_cf, pull_fc, push_cf, push_fc, exchange_data,
}
use nsu_net_course.Server.{
  Server, prepare_connections, prepare_handshakes, prepare_resolvers, prepare_sets, process_list,
}
use nsu_net_course.Server.Prepare.{live, one_gone, one_stays}
use nsu_net_course.Server.Clients.{connected}

-- A step on a connection that keeps its client.
abbrev Keeps : Connection → M Connection → Type 0
Keeps c m = (k : Kernel) (t : Trace) → Ensures (m k t) (λ d _. d.client_socket ≡ c.client_socket)

pull_cf-Keeps : (rd : FdSet) (c : Connection) → Keeps c (pull_cf rd c)
unfolding pull_cf after_recv_cf fd_isset
pull_cf-Keeps rd c k t = ground arith

pull_fc-Keeps : (rd : FdSet) (c : Connection) → Keeps c (pull_fc rd c)
unfolding pull_fc after_recv_fc fd_isset
pull_fc-Keeps rd c k t = ground arith

push_cf-Keeps : (wr : FdSet) (c : Connection) → Keeps c (push_cf wr c)
unfolding push_cf after_send_cf fd_isset
push_cf-Keeps wr c k t = ground arith

push_fc-Keeps : (wr : FdSet) (c : Connection) → Keeps c (push_fc wr c)
unfolding push_fc after_send_fc fd_isset
push_fc-Keeps wr c k t = ground arith

exchange_data-Keeps : (rd wr : FdSet) (c : Connection) → Keeps c (exchange_data rd wr c)
unfolding exchange_data
exchange_data-Keeps rd wr c k t =
    let P = λ (d : Connection) (u : Trace). d.client_socket ≡ c.client_socket in
    let u = ignored_sigpipe ∷ t in
    let third = λ (c2 : Connection). push_cf wr c2 >>= push_fc wr in
    let second = λ (c1 : Connection). pull_fc rd c1 >>= third in
    Ensures-bind (pull_cf rd c) second P P k u (pull_cf-Keeps rd c k u) λ c1 u1 e1.
      Ensures-bind (pull_fc rd c1) third P P k u1
        (Ensures-map (pull_fc rd c1 k u1) _ P (pull_fc-Keeps rd c1 k u1) (λ d w e. e ∙ e1))
        λ c2 u2 e2.
          Ensures-bind (push_cf wr c2) (push_fc wr) P P k u2
            (Ensures-map (push_cf wr c2 k u2) _ P (push_cf-Keeps wr c2 k u2) (λ d w e. e ∙ e2))
            λ c3 u3 e3.
              Ensures-map (push_fc wr c3 k u3) _ P (push_fc-Keeps wr c3 k u3) (λ d w e. e ∙ e3)

pub process_list-clients :
    (k : Kernel) (t : Trace) (rd wr : FdSet) (cs : List Connection)
    → Ensures (process_list rd wr cs k t) (λ ds _. connected ds ≡ connected cs)
unfolding process_list
process_list-clients k t rd wr [] = refl
process_list-clients k t rd wr (c ∷ cs) =
    let P = λ (ds : List Connection) (u : Trace). connected ds ≡ c.client_socket ∷ connected cs in
    Ensures-bind (exchange_data rd wr c) (λ d. process_list rd wr cs >>= λ ds. pure (d ∷ ds)) _ P k
      t (exchange_data-Keeps rd wr c k t)
      λ d u e.
        Ensures-bind (process_list rd wr cs) (λ ds. pure (d ∷ ds)) _ P k u
          (process_list-clients k u rd wr cs) λ ds w f. rw (e, f) refl

-- The connections that `prepareSets` takes out.
unfoldable pub marked : List Connection → List Connection
marked [] = []
marked (c ∷ cs) = if c.to_disconnect then c ∷ marked cs else marked cs

pub marked-live :
    (cs : List Connection) → Perm (connected (marked cs) ++ connected (live cs)) (connected cs)
unfolding marked live
marked-live [] = Perm.refl []
marked-live (c ∷ cs) = elim (Bool-cases c.to_disconnect) [
  | inl e ↦ rw e (Perm.cons c.client_socket (marked-live cs))
  | inr e ↦ rw e (
      Perm.trans (perm_middle (connected (marked cs)) (connected (live cs)))
        (Perm.cons c.client_socket (marked-live cs)))
]

prepare_connections-live :
    (k : Kernel) (t : Trace) (cs : List Connection) (s : Sets)
    → Ensures (prepare_connections cs s k t) (λ r _. r.0 ≡ live cs)
unfolding prepare_connections delete_connection
prepare_connections-live k t [] s = unfold live in refl
prepare_connections-live k t (c ∷ cs) s =
    let P = λ (r : List Connection × FdSet × FdSet) (u : Trace). r.0 ≡ live (c ∷ cs) in
    let more = λ (s' : Sets). prepare_connections cs s' >>= λ r. pure (c ∷ r.0, r.1, r.2) in
    let u = closed c.forwarding_socket ∷ closed c.client_socket ∷ t in
    Ensures-elim c.to_disconnect (delete_connection c >> prepare_connections cs s)
      (fill_sets c s >>= more) P k t
      (λ gone.
        Ensures-map (prepare_connections cs s k u) _ P (prepare_connections-live k u cs s)
          (λ r w e. e ∙ sym (one_gone c cs t gone).0))
      (λ stays.
        Ensures-bind (fill_sets c s) more (λ _ _. Unit) P k t
          (Ensures-any (fill_sets c s k t) (λ _ _. Unit) (λ _ _. tt))
          λ s' u' _.
            Ensures-bind (prepare_connections cs s') (λ r. pure (c ∷ r.0, r.1, r.2)) _ P k u'
              (prepare_connections-live k u' cs s')
              (λ r w e. ap (◌∷◌ c) e ∙ sym (one_stays c cs t stays).0))

-- What `prepareSets` does to the lists.
abbrev pub Prepares : Server → Server → Type 0
Prepares s s' =
    (s'.connection_list ≡ live s.connection_list)
    × (s'.waiting_for_handshake_list ≡ s.waiting_for_handshake_list)
    × (s'.waiting_for_resolving_list ≡ s.waiting_for_resolving_list)
    × (s'.listen_sockfd ≡ s.listen_sockfd)

pub prepare_sets-Prepares :
    (k : Kernel) (t : Trace) (s : Server) → Ensures (prepare_sets s k t) (λ s' _. Prepares s s')
unfolding prepare_sets
prepare_sets-Prepares k t s =
    let P = λ (s' : Server) (u : Trace). Prepares s s' in
    let L = s.connection_list in
    let H = s.waiting_for_handshake_list in
    let R = s.waiting_for_resolving_list in
    let Found = List Connection × FdSet × FdSet in
    let finish = λ (a : Found) (d : ℤ × FdSet × FdSet).
      let s' : Server = record s {
        connection_list = a.0;
        fd_max = d.0;
        readset = d.1;
        writeset = d.2;
      } in
      pure s' in
    let resolvers =
      λ (a : Found) (b : FdSet × FdSet). prepare_resolvers R s.fd_max b >>= finish a in
    let handshakes = λ (a : Found). prepare_handshakes H (a.1, a.2) >>= resolvers a in
    let connections = λ (rd : FdSet). prepare_connections L (rd, fd_zero) >>= handshakes in
    Ensures-bind (fd_set s.listen_sockfd fd_zero) connections (λ _ _. Unit) P k t
      (Ensures-any _ (λ _ _. Unit) (λ _ _. tt))
      λ rd t1 _.
        Ensures-bind (prepare_connections L (rd, fd_zero)) handshakes _ P k t1
          (prepare_connections-live k t1 L (rd, fd_zero))
          λ a t2 e.
            Ensures-bind (prepare_handshakes H (a.1, a.2)) (resolvers a) (λ _ _. Unit) P k t2
              (Ensures-any _ (λ _ _. Unit) (λ _ _. tt))
              λ b t3 _.
                Ensures-bind (prepare_resolvers R s.fd_max b) (finish a) (λ _ _. Unit) P k t3
                  (Ensures-any _ (λ _ _. Unit) (λ _ _. tt)) λ d t4 _. (e, refl, refl, refl)
