-- ===== src/Connection.antt =====
-- net_lab7/Connection.h: a pair of sockets with a buffer for each direction, `cf` from the client
-- to the forwarding socket and `fc` back. A size of -1 marks a direction that has failed. Lines
-- written to std::cout are left out. `serveraddr` is read in the constructor only: the record keeps
-- the address that it pointed to then.
pub mod Transfer
pub mod Receiving
pub mod Relay
pub mod Watching
pub mod Sending
pub mod Pipe
pub mod Flows
pub mod Steps
pub mod Refinement
use nsu_net_course.Prelude.{
  ℕ, ℤ, pos, negsuc, Bool, true, false, Option, none, leb, is_zero, is_positive, magnitude,
  if◌then◌else◌, length, ◌+◌,
}
use nsu_net_course.Exceptions.{runtime_error, undefined_behaviour}
use nsu_net_course.Kernel.{
  M, pure, throw, ◌>>=◌, ◌>>◌, emit, or_undefined, SockAddr, Received, got, no_data, read_error,
  Sent, took, no_room, write_error, FdSet, made_nonblocking, ignored_sigpipe, socket_tcp, recv,
  send, close, allocate, Bytes, Kernel, Trace, ok,
}
use nsu_net_course.Kernel.Output.{write_cells}
use nsu_net_course.Kernel
use nsu_net_course.FdSet.{fd_set, fd_isset}
use nsu_net_course.Buffer.{Buffer, overwrite, cells}

abbrev pub bufsize : ℕ
bufsize = 4096

pub record Connection : Type 0 where
  pub address : ℕ
  pub client_socket : ℤ
  pub forwarding_socket : ℤ
  pub max_timeout : ℕ
  pub server_addr : SockAddr
  pub prev : Option ℕ
  pub next : Option ℕ
  pub buffer_cf : Buffer
  pub buffer_fc : Buffer
  pub data_cf : ℤ
  pub data_fc : ℤ
  pub to_disconnect : Bool
  pub connected : Bool

-- The loop returns in its first round, whatever `::connect` answers.
unfoldable pub connect : Connection → M Connection
connect c =
    if leb 1 c.max_timeout
    then (do
      _ ← Kernel.connect c.forwarding_socket c.server_addr
      pure (record c { connected = true }))
    else throw (runtime_error "connect: ")

-- The object before `connect`: the constructor sets neither the sizes nor the buffers, which hold
-- what the memory held.
abbrev pub raw_connection : Kernel → Trace → ℤ → SockAddr → ℕ → ℤ → Connection
raw_connection k t client addr this fd = record {
  address = this;
  client_socket = client;
  forwarding_socket = fd;
  max_timeout = 64;
  server_addr = addr;
  prev = none;
  next = none;
  buffer_cf = k.stale_byte t;
  buffer_fc = λ i. k.stale_byte t (bufsize + i);
  data_cf = k.stale_size t 0;
  data_fc = k.stale_size t 1;
  to_disconnect = false;
  connected = false;
}

abbrev pub raw_memory : ℤ → SockAddr → ℕ → ℤ → M Connection
raw_memory client addr this fd k t = ok (raw_connection k t client addr this fd) t

-- `new Connection(clientSocket, serveraddr)`
unfoldable pub new_connection : ℤ → SockAddr → M Connection
unfolding connect
new_connection client addr = do
  this ← allocate
  fd ← socket_tcp
  c ← raw_memory client addr this fd
  emit (made_nonblocking fd)
  connect c

-- `delete connection`
unfoldable pub delete_connection : Connection → M (Unit {0})
delete_connection c = do close c.client_socket; close c.forwarding_socket

abbrev pub to_disconn : Connection → Bool
to_disconn c = c.to_disconnect

abbrev pub get_prev_connection : Connection → Option ℕ
get_prev_connection c = c.prev

abbrev pub get_next_connection : Connection → Option ℕ
get_next_connection c = c.next

abbrev pub get_client_socket : Connection → ℤ
get_client_socket c = c.client_socket

abbrev pub get_forwarding_socket : Connection → ℤ
get_forwarding_socket c = c.forwarding_socket

abbrev pub get_data_cf : Connection → ℤ
get_data_cf c = c.data_cf

abbrev pub get_data_fc : Connection → ℤ
get_data_fc c = c.data_fc

abbrev pub set_disconnect : Bool → Connection → Connection
set_disconnect b c = record c { to_disconnect = b }

abbrev pub set_prev_connection : Option ℕ → Connection → Connection
set_prev_connection p c = record c { prev = p }

abbrev pub set_next_connection : Option ℕ → Connection → Connection
set_next_connection p c = record c { next = p }

abbrev pub set_data_cf : ℤ → Connection → Connection
set_data_cf x c = record c { data_cf = x }

abbrev pub set_data_fc : ℤ → Connection → Connection
set_data_fc x c = record c { data_fc = x }

unfoldable pub reset_buffers : Connection → Connection
reset_buffers c = record c {
  data_cf = pos 0;
  data_fc = pos 0;
  buffer_cf = λ _. 0;
  buffer_fc = λ _. 0;
}

-- The number that a read returns, or -1.
abbrev pub result_of : Received → ℤ
result_of (got bs) = pos (length bs)
result_of no_data = negsuc 0
result_of read_error = negsuc 0

abbrev pub filled : Received → Buffer → Buffer
filled (got bs) b = overwrite bs b
filled no_data b = b
filled read_error b = b

-- The size that a read leaves behind in `readFromClient` and `readFromForward`: 0 becomes -1.
abbrev pub size_after : Received → ℤ
size_after r = if is_zero (result_of r) then negsuc 0 else result_of r

unfoldable pub read_from_client : Connection → M Connection
read_from_client c = do
  r ← recv c.client_socket bufsize
  pure (record c { buffer_cf = filled r c.buffer_cf; data_cf = size_after r })

unfoldable pub read_from_forward : Connection → M Connection
read_from_forward c = do
  r ← recv c.forwarding_socket bufsize
  pure (record c { buffer_fc = filled r c.buffer_fc; data_fc = size_after r })

-- `writeToClient` and `writeToForward` come to their ends without a `return` of their results, which
-- has no meaning: they write, and end so.
unfoldable pub write_to_client : Connection → M Connection
write_to_client c = do
  bs ← write_cells bufsize c.buffer_fc c.data_fc
  res ← send c.client_socket bs
  throw undefined_behaviour

unfoldable pub write_to_forward : Connection → M Connection
write_to_forward c = do
  bs ← write_cells bufsize c.buffer_cf c.data_cf
  res ← send c.forwarding_socket bs
  throw undefined_behaviour

abbrev pub Sets : Type 0
Sets = FdSet × FdSet

abbrev pub set_readable : Bool → ℤ → Sets → M Sets
set_readable b fd (rd, wr) = if b then (do rd' ← fd_set fd rd; pure (rd', wr)) else pure (rd, wr)

abbrev pub set_writable : Bool → ℤ → Sets → M Sets
set_writable b fd (rd, wr) = if b then (do wr' ← fd_set fd wr; pure (rd, wr')) else pure (rd, wr)

unfoldable pub fill_sets : Connection → Sets → M Sets
unfolding fd_set
fill_sets c s = do
  s1 ← set_readable (is_zero c.data_cf) c.client_socket s
  s2 ← set_readable (is_zero c.data_fc) c.forwarding_socket s1
  s3 ← set_writable (is_positive c.data_cf) c.forwarding_socket s2
  set_writable (is_positive c.data_fc) c.client_socket s3

-- `b && FD_ISSET(fd, &s)`
abbrev pub and_isset : Bool → ℤ → FdSet → M Bool
and_isset b fd s = if b then fd_isset fd s else pure false

-- What `exchangeData` makes of the answer of a `recv` into the `cf` buffer, and into the other.
unfoldable pub after_recv_cf : Received → Connection → Connection
after_recv_cf (got bs) c = record c {
  buffer_cf = overwrite bs c.buffer_cf;
  data_cf = pos (length bs);
  to_disconnect = if is_zero (pos (length bs)) then true else c.to_disconnect;
}
after_recv_cf no_data c = record c { data_cf = pos 0 }
after_recv_cf read_error c = record c { data_cf = negsuc 0; to_disconnect = true }

unfoldable pub after_recv_fc : Received → Connection → Connection
after_recv_fc (got bs) c = record c {
  buffer_fc = overwrite bs c.buffer_fc;
  data_fc = pos (length bs);
  to_disconnect = if is_zero (pos (length bs)) then true else c.to_disconnect;
}
after_recv_fc no_data c = record c { data_fc = pos 0 }
after_recv_fc read_error c = record c { data_fc = negsuc 0; to_disconnect = true }

unfoldable pub after_send_cf : Sent → Connection → Connection
after_send_cf (took n) c = record c { data_cf = pos 0 }
after_send_cf no_room c = c
after_send_cf write_error c = record c { to_disconnect = true }

unfoldable pub after_send_fc : Sent → Connection → Connection
after_send_fc (took n) c = record c { data_fc = pos 0 }
after_send_fc no_room c = c
after_send_fc write_error c = record c { to_disconnect = true }

-- The four `if` statements of `exchangeData`, in order.
unfoldable pub pull_cf : FdSet → Connection → M Connection
unfolding after_recv_cf fd_isset
pull_cf rd c = do
  ready ← and_isset (is_zero c.data_cf) c.client_socket rd
  if ready then (do r ← recv c.client_socket bufsize; pure (after_recv_cf r c)) else pure c

unfoldable pub pull_fc : FdSet → Connection → M Connection
unfolding after_recv_fc fd_isset
pull_fc rd c = do
  ready ← and_isset (is_zero c.data_fc) c.forwarding_socket rd
  if ready then (do r ← recv c.forwarding_socket bufsize; pure (after_recv_fc r c)) else pure c

unfoldable pub push_cf : FdSet → Connection → M Connection
unfolding after_send_cf fd_isset
push_cf wr c = do
  ready ← and_isset (is_positive c.data_cf) c.forwarding_socket wr
  if ready
      then (do
        bs ← or_undefined (cells bufsize c.buffer_cf (magnitude c.data_cf))
        res ← send c.forwarding_socket bs
        pure (after_send_cf res c))
      else pure c

unfoldable pub push_fc : FdSet → Connection → M Connection
unfolding after_send_fc fd_isset
push_fc wr c = do
  ready ← and_isset (is_positive c.data_fc) c.client_socket wr
  if ready
      then (do
        bs ← or_undefined (cells bufsize c.buffer_fc (magnitude c.data_fc))
        res ← send c.client_socket bs
        pure (after_send_fc res c))
      else pure c

unfoldable pub exchange_data : FdSet → FdSet → Connection → M Connection
exchange_data rd wr c = do
  emit ignored_sigpipe
  c1 ← pull_cf rd c
  c2 ← pull_fc rd c1
  c3 ← push_cf wr c2
  push_fc wr c3
