-- ===== src/Server/Answering.antt =====
-- From the response of the name server to the connection of a client: `exchangeData` of a resolver
-- inside the loop of `processWaitingForResolving`.
use nsu_net_course.Prelude.{ℕ, ℤ, ◌≤◌, ◌+◌, ◌%◌, ◌^◌, true, false, List, ◌∷◌, ◌≡◌, ap, ◌∙◌, arith}
use nsu_net_course.Kernel.{Kernel, Trace, FdSet, Bytes, ok, got, received, closed}
use nsu_net_course.Kernel.Returns.{Returns-result}
use nsu_net_course.FdSet.{in_range, fd_isset}
use nsu_net_course.Buffer.{overwrite, AreBytes}
use nsu_net_course.Dns.Name.{buf_size}
use nsu_net_course.Dns.Name.RoundTrip.{Stands}
use nsu_net_course.Dns.Answers.{header_size}
use nsu_net_course.Dns.Answers.Addresses.{Answer, first_record, count_of, address, Finds}
use nsu_net_course.Connection.{Connection, new_connection}
use nsu_net_course.Resolver.{
  Resolver, exchange_data, receive_and_parse, delete_resolver, htons, af_inet,
}
use nsu_net_course.Resolver.Address.{receive_and_parse-Finds}
use nsu_net_course.Server.{Server, process_resolvers, resolved_address, add_connection}
use nsu_net_course.Server.Dialling.{Promotes, new_connection-Promotes}

-- A resolver that has sent its query and has no response yet, at a socket that `select` reports.
pub record Awaits (r : Resolver) (rd wr : FdSet) : Type 0 where
  pub in_sets : in_range r.sockfd ≡ true
  pub readable : rd r.sockfd ≡ true
  pub was_sent : r.request_sended ≡ true
  pub not_answered : r.response_recived ≡ false

exchange_data-answered :
    (k : Kernel) (t u : Trace) (rd wr : FdSet) (r r' : Resolver)
    → Awaits r rd wr
    → receive_and_parse r k t ≡ ok r' u
    → exchange_data rd wr r k t ≡ ok (r', true) u
unfolding exchange_data fd_isset
exchange_data-answered k t u rd wr r r' w e = ground arith

process_resolvers-ends :
    (k : Kernel) (t u v : Trace) (client : ℤ) (port : ℕ) (r r' : Resolver) (c : Connection)
    (done todo : List ((ℤ × ℕ) × Resolver)) (s : Server)
    → exchange_data s.readset s.writeset r k t ≡ ok (r', true) u
    → new_connection client (resolved_address r' port) k u ≡ ok c v
    → process_resolvers done (((client, port), r) ∷ todo) s k t
      ≡ process_resolvers done todo (add_connection s c) k (closed r'.sockfd ∷ v)
unfolding process_resolvers delete_resolver
process_resolvers-ends k t u v client port r r' c done todo s e f = ground arith

-- In the loop of `processWaitingForResolving`, a client whose name server answers has a connection at
-- once, and the loop goes on with the others: `connect` was called with AF_INET, the client's port
-- and the address of the first record if the header counts one answer, that of the second if it
-- counts more, and the old `s_addr` if it counts none; then the resolver's socket was closed. The
-- query was sent, no response has come before, and `select` reports the resolver's socket as
-- readable; the message has the name of the question in place behind its header, and behind the
-- question two records of type A whose names are pointers to it; the bytes of the buffer are bytes;
-- and of a block of five bytes, which is what an address gets, eight can be read.
pub process_resolvers-dials :
    (k : Kernel) (t : Trace) (client : ℤ) (port : ℕ) (r : Resolver)
    (done todo : List ((ℤ × ℕ) × Resolver)) (s : Server) (msg : ℕ × Bytes) (l : Bytes)
    (ls : List Bytes) (a b c d a' b' c' d' : ℕ)
    → Awaits r s.readset s.writeset
    → k.receive_from t r.sockfd buf_size ≡ got (msg.0 ∷ msg.1)
    → let buf = overwrite (msg.0 ∷ msg.1) r.buf in
      let u = received r.sockfd (got (msg.0 ∷ msg.1)) ∷ t in
      8 ≤ k.heap_room 5
      → AreBytes buf
      → Stands l ls header_size buf
      → Answer a b c d (first_record l ls) buf
      → Answer a' b' c' d' (first_record l ls + 16) buf
      → (x : ℕ) × (s' : Server) × (v : Trace) × (process_resolvers done
            (((client, port), r) ∷ todo)
            s
            k
            t
          ≡ process_resolvers done todo s' k (closed r.sockfd ∷ v))
        × Finds (count_of buf) (address a b c d) (address a' b' c' d') r.s_addr x
        × Promotes k u client
            (record { family = af_inet; addr = x % 2 ^ 32; port = htons port })
            s
            s'
            v
process_resolvers-dials k t client port r done todo s msg l ls a b c d a' b' c' d' w e eight bytes v
      h h' =
    let u = received r.sockfd (got (msg.0 ∷ msg.1)) ∷ t in
    let (r', parsed, _, same, finds) =
      receive_and_parse-Finds k t r msg l ls a b c d a' b' c' d' e eight bytes v h h' in
    let (conn, v, made, p) =
      Returns-result (new_connection client (resolved_address r' port) k u) _
        (new_connection-Promotes k u client (resolved_address r' port) s) in
    (
      r'.s_addr,
      add_connection s conn,
      v,
      process_resolvers-ends k t u v client port r r' conn done todo s
            (exchange_data-answered k t u s.readset s.writeset r r' w parsed) made
          ∙ ap (λ fd. process_resolvers done todo (add_connection s conn) k (closed fd ∷ v)) same,
      finds,
      p,
    )
