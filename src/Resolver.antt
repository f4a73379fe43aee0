-- ===== src/Resolver.antt =====
-- net_lab7/DNSResolver: one query to a name server over a UDP socket, for one client.
pub mod Query
pub mod Making
pub mod Address
use nsu_net_course.Prelude.{
  ℕ, ◌+◌, ◌*◌, ◌/◌, ◌%◌, ◌^◌, length, ℤ, Bool, true, false, not, ◌&&◌, [], ◌∷◌, if◌then◌else◌,
}
use nsu_net_course.Exceptions.{undefined_behaviour, endless_loop}
use nsu_net_course.Kernel.{
  M, pure, throw, ◌>>=◌, ◌>>◌, emit, or_undefined, SockAddr, Received, got, no_data, read_error,
  Sent, took, no_room, write_error, FdSet, made_nonblocking, socket_udp, recv, send, close, Bytes,
  ok, Kernel, Trace,
}
use nsu_net_course.Kernel
use nsu_net_course.FdSet.{fd_set, fd_isset}
use nsu_net_course.Buffer.{Buffer, overwrite, overwrite_at, cells}
use nsu_net_course.Dns.Name.{
  Ended, done, out_of_bounds, out_of_fuel, buf_size, change_to_dns_name_format,
}
use nsu_net_course.Dns.Answers.{header_size, question_size, qname_end, long_of, parse_response}

pub record Resolver : Type 0 where
  pub buf : Buffer
  pub sockfd : ℤ
  pub request_sended : Bool
  pub response_recived : Bool
  pub drop : Bool
  pub s_addr : ℕ

-- The DNS_HEADER of the query, as it lies in memory: `id`, the flags (`rd` alone is set), and one
-- question.
abbrev pub query_header : ℕ → Bytes
query_header pid = (pid / 256 % 256) ∷ (pid % 256) ∷ 1 ∷ 0 ∷ 0 ∷ 1 ∷ 0 ∷ 0 ∷ 0 ∷ 0 ∷ 0 ∷ 0 ∷ []

-- `qtype` and `qclass`: A and IN.
abbrev pub question : Bytes
question = 0 ∷ 1 ∷ 0 ∷ 1 ∷ []

-- `htons(53)` in the memory of the machine.
abbrev pub htons : ℕ → ℕ
htons x = x % 256 * 256 + x / 256 % 256

abbrev pub af_inet : ℕ
af_inet = 2

-- "8.8.8.8"
abbrev pub name_server : Bytes
name_server = 56 ∷ 46 ∷ 56 ∷ 46 ∷ 56 ∷ 46 ∷ 56 ∷ []

-- The `buf` that the constructor leaves: header, name, and the question where `strlen` ends.
-- `room` tells how many bytes of a local array can be used.
unfoldable pub query : (ℕ → ℕ) → ℕ → Bytes → Buffer → M Buffer
unfolding qname_end change_to_dns_name_format
query room pid host stale = do
  name ← or_undefined (change_to_dns_name_format (room (length host + 1)) host)
  let named = overwrite_at header_size name (overwrite (query_header pid) stale)
  n ← or_undefined (qname_end named)
  pure (overwrite_at n question named)

-- `new DNSResolver(host)`, with `host` up to its terminator
unfoldable pub new_resolver : Bytes → M Resolver
unfolding query
new_resolver host k t =
    (do
      fd ← socket_udp
      emit (made_nonblocking fd)
      _ ←
          Kernel.connect fd
            (record { family = af_inet; addr = k.parse_address name_server; port = htons 53 })
      buf ← query k.array_room k.pid host (k.stale_byte t)
      pure (record {
        buf = buf;
        sockfd = fd;
        request_sended = false;
        response_recived = false;
        drop = false;
        s_addr = long_of (λ i. k.stale_byte t (buf_size + i));
      }))
      k t

-- `delete resolver`
unfoldable pub delete_resolver : Resolver → M (Unit {0})
delete_resolver r = close r.sockfd

abbrev pub need_to_drop : Resolver → Bool
need_to_drop r = r.drop

abbrev pub get_addr : Resolver → ℕ
get_addr r = r.s_addr

abbrev pub get_fd : Resolver → ℤ
get_fd r = r.sockfd

abbrev pub after_send : Sent → Resolver → Resolver
after_send (took n) r = record r { request_sended = true }
after_send no_room r = r
after_send write_error r = record r { drop = true }

-- `DNSResolver::send`
unfoldable pub send_query : Resolver → M Resolver
unfolding qname_end
send_query r = do
  n ← or_undefined (qname_end r.buf)
  bs ← or_undefined (cells buf_size r.buf (n + question_size))
  res ← send r.sockfd bs
  pure (after_send res r)

abbrev pub or_loops {ℓ} : {A : Type ℓ} → Ended A → M A
or_loops (done a) = pure a
or_loops out_of_bounds = throw undefined_behaviour
or_loops out_of_fuel = throw endless_loop

-- What the memory of the n-th block of a parse held, for blocks of at most 65536 bytes and what the
-- allocator adds.
abbrev pub stale_block : Kernel → Trace → ℕ → Buffer
stale_block k t n i = k.stale_byte t (n * 2 ^ 17 + i)

-- `receiveAndParse` behind its `recv`.
unfoldable pub after_recv : Received → Resolver → M Resolver
unfolding parse_response
after_recv (got []) r k t = ok (record r { drop = if k.stale_errno t then r.drop else true }) t
after_recv (got (x ∷ xs)) r k t =
    let buf = overwrite (x ∷ xs) r.buf in
    (do
      addr ← or_loops (parse_response k.heap_room buf (stale_block k t) r.s_addr)
      pure (record r { buf = buf; response_recived = true; s_addr = addr }))
      k t
after_recv no_data r k t = ok r t
after_recv read_error r k t = ok (record r { drop = true }) t

unfoldable pub receive_and_parse : Resolver → M Resolver
unfolding after_recv
receive_and_parse r = do answer ← recv r.sockfd buf_size; after_recv answer r

-- The flag is the C++ function's result.
unfoldable pub exchange_data : FdSet → FdSet → Resolver → M (Resolver × Bool)
unfolding send_query receive_and_parse fd_isset
exchange_data rd wr r = do
  writable ← fd_isset r.sockfd wr
  r1 ← (if writable && not r.request_sended then send_query r else pure r)
  readable ← fd_isset r.sockfd rd
  if readable && not r1.response_recived
      then (do r2 ← receive_and_parse r1; pure (r2, true))
      else pure (r1, false)

unfoldable pub fill_fd_set : Resolver → FdSet × FdSet → M (FdSet × FdSet)
unfolding fd_set
fill_fd_set r (rd, wr) =
    if not r.request_sended
    then (do wr' ← fd_set r.sockfd wr; pure (rd, wr'))
    else if not r.response_recived
    then (do rd' ← fd_set r.sockfd rd; pure (rd', wr))
    else pure (rd, wr)
