-- ===== src/Kernel.antt =====
-- The operating system and the C library as the proxy meets them. What they answer is a parameter:
-- a `Kernel` is a function of what has happened so far, the trace, newest event first. Each call
-- stands in the trace with its answer.
pub mod Returns
pub mod Ensures
pub mod Runs
pub mod Traffic
pub mod Output
use nsu_net_course.Prelude.{
  ℕ, ℤ, Bool, List, [], ◌∷◌, ◌++◌, ◌≡◌, ◌≤◌, ◌<◌, Option, none, some, length, All, same,
  if◌then◌else◌,
}
use nsu_net_course.Exceptions.{Failure, undefined_behaviour}

abbrev pub Bytes : Type 0
Bytes = List ℕ

-- `struct sockaddr_in`; `addr` and `port` are in network byte order.
pub record SockAddr : Type 0 where
  pub family : ℕ
  pub addr : ℕ
  pub port : ℕ

-- The answer of `recv` and `read`: the bytes (none at the end of the stream), or -1 with `errno`
-- equal to EWOULDBLOCK, or -1 with another `errno`.
pub data Received : Type 0 where
  got : Bytes → Received
  no_data : Received
  read_error : Received

-- The answer of `send` and `write`: how many bytes were taken, or -1 as above.
pub data Sent : Type 0 where
  took : ℕ → Sent
  no_room : Sent
  write_error : Sent

abbrev pub FdSet : Type 0
FdSet = ℤ → Bool

pub data Event : Type 0 where
  opened_tcp : ℤ → Event
  opened_udp : ℤ → Event
  made_nonblocking : ℤ → Event
  reused_address : ℤ → Event
  ignored_sigpipe : Event
  bound : ℤ → SockAddr → ℤ → Event
  listened : ℤ → Event
  accepted : ℤ → ℤ → Event
  dialled : ℤ → SockAddr → ℤ → Event
  selected : ℤ → FdSet → FdSet → ℤ → Event
  received : ℤ → Received → Event
  sent : ℤ → Bytes → Sent → Event
  closed : ℤ → Event
  allocated : ℕ → Event
  looked_up : Bytes → Event

abbrev pub Trace : Type 0
Trace = List Event

-- The answer of `select`: its result, and the two sets as it leaves them.
pub record Selected : Type 0 where
  pub count : ℤ
  pub readable : FdSet
  pub writable : FdSet

pub record Kernel : Type 0 where
  pub new_tcp : Trace → ℤ
  pub new_udp : Trace → ℤ
  pub bind_to : Trace → ℤ → SockAddr → ℤ
  pub accept_on : Trace → ℤ → ℤ
  pub connect_to : Trace → ℤ → SockAddr → ℤ
  pub poll : Trace → ℤ → FdSet → FdSet → Selected
  pub receive_from : Trace → ℤ → ℕ → Received
  pub send_to : Trace → ℤ → Bytes → Sent
  -- where `new` puts an object, and what its memory holds before it is written
  pub heap_address : Trace → ℕ
  pub stale_size : Trace → ℕ → ℤ
  pub stale_byte : Trace → ℕ → ℕ
  -- how many bytes from the start of a local array, and of a block of `malloc`, of so many bytes hold
  -- nothing else, and can be read and written: the compiler and the allocator may round up
  pub array_room : ℕ → ℕ
  pub heap_room : ℕ → ℕ
  -- whether `errno` is EWOULDBLOCK after a call that did not fail
  pub stale_errno : Trace → Bool
  pub pid : ℕ
  -- the C library's `inet_addr` on the text's bytes
  pub parse_address : Bytes → ℕ
  -- the first answer of `getaddrinfo` for a name, or none for an error code
  pub look_up : Trace → Bytes → Option SockAddr
  -- the C library's `atoi`
  pub parse_int : Bytes → ℤ

pub data Outcome {ℓ} (A : Type ℓ) : Type ℓ where
  ok : A → Trace → Outcome A
  stop : Failure → Trace → Outcome A

-- A computation against a kernel, from a trace.
abbrev pub M {ℓ} : Type ℓ → Type ℓ
M A = Kernel → Trace → Outcome A

abbrev pub pure {ℓ} : {A : Type ℓ} → A → M A
pure a k t = ok a t

abbrev pub throw {ℓ} : {A : Type ℓ} → Failure → M A
throw e k t = stop e t

infixl 5 ◌>>=◌ ◌>>◌
abbrev pub ◌>>=◌ {ℓ κ} : {A : Type ℓ} {B : Type κ} → M A → (A → M B) → M B
◌>>=◌ m f k t = elim (m k t) [ ok a t' ↦ f a k t' | stop e t' ↦ stop e t' ]

abbrev pub ◌>>◌ {κ} : {B : Type κ} → M (Unit {0}) → M B → M B
m >> n = m >>= λ _. n

-- What has no meaning in C++ ends the computation.
abbrev pub or_undefined {ℓ} : {A : Type ℓ} → Option A → M A
or_undefined none = throw undefined_behaviour
or_undefined (some a) = pure a

abbrev pub emit : Event → M (Unit {0})
emit e k t = ok tt (e ∷ t)

-- The calls.
abbrev pub socket_tcp : M ℤ
socket_tcp k t = let fd = k.new_tcp t in ok fd (opened_tcp fd ∷ t)

abbrev pub socket_udp : M ℤ
socket_udp k t = let fd = k.new_udp t in ok fd (opened_udp fd ∷ t)

abbrev pub bind : ℤ → SockAddr → M ℤ
bind fd a k t = let r = k.bind_to t fd a in ok r (bound fd a r ∷ t)

abbrev pub accept : ℤ → M ℤ
accept fd k t = let r = k.accept_on t fd in ok r (accepted fd r ∷ t)

abbrev pub connect : ℤ → SockAddr → M ℤ
connect fd a k t = let r = k.connect_to t fd a in ok r (dialled fd a r ∷ t)

abbrev pub select : ℤ → FdSet → FdSet → M Selected
select n rd wr k t = let r = k.poll t n rd wr in ok r (selected n rd wr r.count ∷ t)

abbrev pub recv : ℤ → ℕ → M Received
recv fd n k t = let r = k.receive_from t fd n in ok r (received fd r ∷ t)

abbrev pub send : ℤ → Bytes → M Sent
send fd bs k t = let r = k.send_to t fd bs in ok r (sent fd bs r ∷ t)

abbrev pub close : ℤ → M (Unit {0})
close fd = emit (closed fd)

abbrev pub allocate : M ℕ
allocate k t = let p = k.heap_address t in ok p (allocated p ∷ t)

-- Documented behaviour that some theorems rely on.
-- A read never returns more than the room that it was given, and returns bytes.
abbrev pub ReadsFit : Kernel → Type 0
ReadsFit k =
    (t : Trace) (fd : ℤ) (n : ℕ) (bs : Bytes)
    → k.receive_from t fd n ≡ got bs
    → (length bs ≤ n) × All (λ b. b < 256) bs
