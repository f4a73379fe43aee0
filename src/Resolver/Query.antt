-- ===== src/Resolver/Query.antt =====
-- The query that the constructor of DNSResolver writes and `send` sends.
use nsu_net_course.Kernel.Returns.{after_ok}
use nsu_net_course.Prelude.{
  ℕ, ◌+◌, ◌/◌, ◌%◌, ◌<◌, ◌≤◌, List, [], ◌∷◌, ◌++◌, ◌≡◌, refl, ap, ◌∙◌, sym, length, All, arith,
  some, append_assoc, append-nil, length-append, false,
}
use nsu_net_course.Kernel.{
  Kernel, Trace, SockAddr, Bytes, sent, ok, pure, opened_udp, made_nonblocking, dialled, ◌>>=◌,
}
use nsu_net_course.Buffer.{Buffer, overwrite, overwrite_at, cells, prefix-overwrite}
use nsu_net_course.Buffer.Appends.{overwrite_at-overwrite, strlen-behind}
use nsu_net_course.Dns.Name.{buf_size}
use nsu_net_course.Dns.Name.Wire.{body, wire, host, NoDot, change_to_dns_name_format-wire}
use nsu_net_course.Dns.Name.Dotted.{IsLabel, body-NoZero}
use nsu_net_course.Dns.Answers.{question_size, qname_end, long_of}
use nsu_net_course.Resolver.{
  Resolver, after_send, htons, af_inet, name_server, query_header, question, query, new_resolver,
  send_query,
}

-- A label that a name can hold: not empty, shorter than 256 bytes, with no zero and no dot.
abbrev pub IsName : List Bytes → Type 0
IsName ls = All (λ l. IsLabel l × NoDot l × (length l < 256)) ls

-- The message of a query (RFC 1035): the id, the flag that asks for recursion, one question and no
-- records; the name; type A and class IN.
abbrev pub message : ℕ → List Bytes → Bytes
message pid ls =
    (pid / 256 % 256)
    ∷ (pid % 256)
    ∷ 1
    ∷ 0
    ∷ 0
    ∷ 1
    ∷ 0
    ∷ 0
    ∷ 0
    ∷ 0
    ∷ 0
    ∷ 0
    ∷ (wire ls ++ (0 ∷ 1 ∷ 0 ∷ 1 ∷ []))

pub labels_of : (ls : List Bytes) → IsName ls → All IsLabel ls
labels_of [] h = tt
labels_of (l ∷ ls) h = (h.0.0, labels_of ls h.1)

short_of : (ls : List Bytes) → IsName ls → All (λ l. NoDot l × (length l < 256)) ls
short_of [] h = tt
short_of (l ∷ ls) h = ((h.0.1, h.0.2), short_of ls h.1)

-- The end of the question's name in a buffer with a header and a name.
qname_end-message :
    (pid : ℕ) (ls : List Bytes) (zs : Bytes) (b : Buffer)
    → IsName ls
    → 16 + length (wire ls) ≤ buf_size
    → qname_end (overwrite (query_header pid ++ (wire ls ++ zs)) b) ≡ some (12 + length (wire ls))
unfolding qname_end
qname_end-message pid ls zs b h l =
    let len = length-append (body ls) (0 ∷ []) in
    let found =
      strlen-behind (query_header pid) (body ls) zs 65524 b (body-NoZero ls (labels_of ls h))
        (omega (arith, l, len)) in
    rw (append_assoc (body ls) (0 ∷ []) zs, found, len) refl

query-message :
    (room : ℕ → ℕ) (k : Kernel) (t : Trace) (pid : ℕ) (l : Bytes) (ls : List Bytes) (b : Buffer)
    → IsName (l ∷ ls)
    → 16 + length (wire (l ∷ ls)) ≤ buf_size
    → length (host l ls) + 2 ≤ room (length (host l ls) + 1)
    → query room pid (host l ls) b k t ≡ ok (overwrite (message pid (l ∷ ls)) b) t
unfolding query
query-message room k t pid l ls b h s fits =
    let name = wire (l ∷ ls) in
    let start = query_header pid ++ name in
    let named = overwrite_at-overwrite (query_header pid) name b in
    let ends =
      ap (λ m. qname_end (overwrite (query_header pid ++ m) b)) (sym (append-nil name))
      ∙ qname_end-message pid (l ∷ ls) [] b h s in
    let asked =
      ap (λ n. overwrite_at n question (overwrite start b))
        (sym (length-append (query_header pid) name))
      ∙ overwrite_at-overwrite start question b in
    let written =
      (change_to_dns_name_format-wire (room (length (host l ls) + 1)) l ls (short_of (l ∷ ls) h)).0
        fits in
    rw (written, named, ends, asked) refl

-- The cells that `send` hands on.
cells-message :
    (pid : ℕ) (ls : List Bytes) (b : Buffer)
    → 16 + length (wire ls) ≤ buf_size
    → cells buf_size (overwrite (message pid ls) b) (12 + length (wire ls) + question_size)
      ≡ some (message pid ls)
cells-message pid ls b s =
    let len = length-append (wire ls) question in
    let all = prefix-overwrite (message pid ls) b in ground (arith, len, all)

abbrev pub asked : Kernel → Trace → List Bytes → Resolver
asked k t ls = record {
  buf = overwrite (message k.pid ls) (k.stale_byte t);
  sockfd = k.new_udp t;
  request_sended = false;
  response_recived = false;
  drop = false;
  s_addr = long_of (λ i. k.stale_byte t (buf_size + i));
}

-- The events of the constructor.
abbrev pub opening : Kernel → Trace → Trace
opening k t =
    let fd = k.new_udp t in
    let addr : SockAddr = record {
      family = af_inet;
      addr = k.parse_address name_server;
      port = htons 53;
    } in
    let u = made_nonblocking fd ∷ opened_udp fd ∷ t in dialled fd addr (k.connect_to u fd addr) ∷ u

-- The byte behind the array of a host's text is free, so that `strcat` does no harm.
abbrev pub HasRoom : Kernel → Bytes → Type 0
HasRoom k text = length text + 2 ≤ k.array_room (length text + 1)

pub new_resolver_lem :
    (k : Kernel) (t : Trace) (l : Bytes) (ls : List Bytes)
    → IsName (l ∷ ls)
    → 16 + length (wire (l ∷ ls)) ≤ buf_size
    → HasRoom k (host l ls)
    → new_resolver (host l ls) k t ≡ ok (asked k t (l ∷ ls)) (opening k t)
unfolding new_resolver
new_resolver_lem k t l ls h s fits =
    let finish = λ (b : Buffer). pure (record (asked k t []) { buf = b }) in
    after_ok (query k.array_room k.pid (host l ls) (k.stale_byte t)) finish k (opening k t)
      (query-message k.array_room k (opening k t) k.pid l ls (k.stale_byte t) h s fits)

send_query-asked :
    (k : Kernel) (u : Trace) (l : Bytes) (ls : List Bytes) (r : Resolver) (b : Buffer)
    → r.buf ≡ overwrite (message k.pid (l ∷ ls)) b
    → IsName (l ∷ ls)
    → 16 + length (wire (l ∷ ls)) ≤ buf_size
    → let bytes = message k.pid (l ∷ ls) in
      let answer = k.send_to u r.sockfd bytes in
      send_query r k u ≡ ok (after_send answer r) (sent r.sockfd bytes answer ∷ u)
unfolding send_query
send_query-asked k u l ls r b e h s =
    let ends = qname_end-message k.pid (l ∷ ls) question b h s in
    let found = ap qname_end e ∙ ends in
    let taken =
      ap (λ m. cells buf_size m (12 + length (wire (l ∷ ls)) + question_size)) e
      ∙ cells-message k.pid (l ∷ ls) b s in
    rw (found, taken) refl

-- A resolver for a host whose labels are neither empty nor longer than 255 bytes, hold no zero and no
-- dot, and fit the buffer with 16 bytes more, is made, and its `send` sends one message on the new
-- socket, after this was connected to 8.8.8.8: the header, the labels each with its length before
-- it, a zero, and the question. It counts as sent if the kernel took any of it, and the resolver is
-- to be dropped if the kernel reports an error other than EWOULDBLOCK. The byte behind the array
-- `tmp` of the host's text, in which `strcat` writes, is free.
pub new_resolver-send_query :
    (k : Kernel) (t : Trace) (l : Bytes) (ls : List Bytes)
    → IsName (l ∷ ls)
    → 16 + length (wire (l ∷ ls)) ≤ buf_size
    → HasRoom k (host l ls)
    → let fd = k.new_udp t in
      let u = opening k t in
      let bytes = message k.pid (l ∷ ls) in
      let answer = k.send_to u fd bytes in
      (new_resolver (host l ls) >>= send_query) k t
      ≡ ok (after_send answer (asked k t (l ∷ ls))) (sent fd bytes answer ∷ u)
new_resolver-send_query k t l ls h s fits =
    after_ok (new_resolver (host l ls)) send_query k t (new_resolver_lem k t l ls h s fits)
    ∙ send_query-asked k (opening k t) l ls (asked k t (l ∷ ls)) (k.stale_byte t) refl h s
