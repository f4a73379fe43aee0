-- ===== src/Server/Watching.antt =====
-- What `prepareSets` asks `select` to watch, as a whole.
use nsu_net_course.Prelude.{ℕ, ℤ, Bool, true, false, ◌||◌, List, ◌≡◌, refl, ◌∙◌, All, same}
use nsu_net_course.Kernel.{Kernel, Trace, FdSet, pure, ◌>>=◌}
use nsu_net_course.Kernel.Returns.{Returns, Returns-bind, Returns-step}
use nsu_net_course.FdSet.{in_range, fd_set, fd_zero, with_fd}
use nsu_net_course.Connection.{Connection}
use nsu_net_course.Connection.Watching.{reads, writes}
use nsu_net_course.Socks5.{Connecter}
use nsu_net_course.Resolver.{Resolver}
use nsu_net_course.Server.{
  Server, prepare_connections, prepare_handshakes, prepare_resolvers, prepare_sets,
}
use nsu_net_course.Server.Prepare.{live, closing, InRange, any_of, prepare_connections-Prepared}
use nsu_net_course.Server.Filling.{
  handshake_reads, handshake_writes, resolver_reads, resolver_writes, Counts,
  prepare_handshakes-FillsAll, prepare_resolvers-FillsAll,
}

-- The sockets of all that the server waits for have a bit in the sets.
pub record IsInRange (s : Server) : Type 0 where
  pub listens : in_range s.listen_sockfd ≡ true
  pub connections : All InRange s.connection_list
  pub handshakes :
      All (λ (h : ℤ × Connecter). in_range h.1.client_sock ≡ true) s.waiting_for_handshake_list
  pub resolvers :
      All (λ (r : (ℤ × ℕ) × Resolver). in_range r.1.sockfd ≡ true) s.waiting_for_resolving_list

-- What the server will read from and write to.
abbrev pub wants_read : Server → ℤ → Bool
wants_read s fd =
    any_of resolver_reads s.waiting_for_resolving_list fd
    || (any_of handshake_reads s.waiting_for_handshake_list fd
        || (any_of reads (live s.connection_list) fd || same s.listen_sockfd fd))

abbrev pub wants_write : Server → ℤ → Bool
wants_write s fd =
    any_of resolver_writes s.waiting_for_resolving_list fd
    || (any_of handshake_writes s.waiting_for_handshake_list fd
        || any_of writes (live s.connection_list) fd)

pub record Watches (s : Server) (t : Trace) (s' : Server) (u : Trace) : Type 0 where
  pub stay : s'.connection_list ≡ live s.connection_list
  pub closes : u ≡ closing s.connection_list t
  pub same_handshakes : s'.waiting_for_handshake_list ≡ s.waiting_for_handshake_list
  pub same_resolving : s'.waiting_for_resolving_list ≡ s.waiting_for_resolving_list
  pub same_listen : s'.listen_sockfd ≡ s.listen_sockfd
  pub counts : Counts s.waiting_for_resolving_list s.fd_max s'.fd_max
  pub read : (fd : ℤ) → s'.readset fd ≡ wants_read s fd
  pub written : (fd : ℤ) → s'.writeset fd ≡ wants_write s fd

or_false : (b : Bool) → b || false ≡ b
or_false true = refl
or_false false = refl

-- `prepareSets` on a server whose sockets are in range returns. The connections marked to be
-- disconnected are taken out and their sockets closed, and nothing else is. `select` is asked to
-- read from the listening socket, from each side of a connection whose buffer is empty, from each
-- client in its first step or with no reply waiting, and from each resolver with its query sent and
-- no response; to write to each side of a connection for which bytes wait, to each client in its
-- handshake and to each resolver with its query not sent; and nothing else. `fd_max` counts
-- the resolvers' sockets and does not fall.
pub prepare_sets-Watches :
    (k : Kernel) (t : Trace) (s : Server) → IsInRange s → Returns (prepare_sets s k t) (Watches s t)
unfolding prepare_sets fd_set
prepare_sets-Watches k t s v =
    let L = s.connection_list in
    let H = s.waiting_for_handshake_list in
    let R = s.waiting_for_resolving_list in
    let rd = with_fd s.listen_sockfd fd_zero in
    let Found = List Connection × FdSet × FdSet in
    let finish = λ (a : Found) (d : ℤ × FdSet × FdSet).
      let s' : Server = record s {
        connection_list = a.0;
        fd_max = d.0;
        readset = d.1;
        writeset = d.2;
      } in
      pure s' in
    let resolvers =
      λ (a : Found) (b : FdSet × FdSet). prepare_resolvers R s.fd_max b >>= finish a in
    let handshakes = λ (a : Found). prepare_handshakes H (a.1, a.2) >>= resolvers a in
    let connections = λ (r : FdSet). prepare_connections L (r, fd_zero) >>= handshakes in
    Returns-step (fd_set s.listen_sockfd fd_zero) connections (Watches s t) k t {a = rd} {u = t}
      (rw v.listens refl)
      (Returns-bind (prepare_connections L (rd, fd_zero)) handshakes _ (Watches s t) k t
        (prepare_connections-Prepared k t L (rd, fd_zero) v.connections)
        λ a t1 p.
          Returns-bind (prepare_handshakes H (a.1, a.2)) (resolvers a) _ (Watches s t) k t1
            (prepare_handshakes-FillsAll k t1 H (a.1, a.2) v.handshakes)
            λ b t2 q.
              Returns-bind (prepare_resolvers R s.fd_max b) (finish a) _ (Watches s t) k t2
                (prepare_resolvers-FillsAll k t2 R s.fd_max b v.resolvers)
                λ d t3 z. record {
                  stay = p.0;
                  closes = z.1.0 ∙ q.0 ∙ p.1;
                  same_handshakes = refl;
                  same_resolving = refl;
                  same_listen = refl;
                  counts = z.0;
                  read =
                      λ fd. rw (z.1.1 fd, q.1 fd, p.2 fd, or_false (same s.listen_sockfd fd)) refl;
                  written = λ fd.
                      rw (z.1.2 fd, q.2 fd, p.3 fd, or_false (any_of writes (live L) fd)) refl;
                })
