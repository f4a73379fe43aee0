-- ===== src/Server/Asking.antt =====
-- From the request of a client for a domain to the resolver that asks for it: `exchangeData` of a
-- handshake and the constructor of a resolver inside the loop of `processWaitingForHandshake`.
use nsu_net_course.Kernel.Returns.{after_ok}
use nsu_net_course.Prelude.{
  ℕ, ℤ, ◌<◌, ◌≤◌, ◌+◌, true, [], ◌∷◌, ◌≡◌, ◌++◌, refl, List, All, arith, ◌∙◌, ap, length,
  length-append,
}
use nsu_net_course.Kernel.{Kernel, Trace, Bytes, ok, got, pure}
use nsu_net_course.Buffer.Writes.{NoZero}
use nsu_net_course.Dns.Name.{buf_size}
use nsu_net_course.Dns.Name.Wire.{host, host-dots, wire, body}
use nsu_net_course.Dns.Name.Dotted.{IsLabel, NoZero-append, length-dots}
use nsu_net_course.Resolver.Query.{HasRoom, IsName, labels_of, asked, opening, new_resolver_lem}
use nsu_net_course.Resolver.{Resolver, new_resolver}
use nsu_net_course.Socks5.{Connecter, max_buf_size}
use nsu_net_course.Socks5.Wire.{connect_to_domain}
use nsu_net_course.Socks5.Calls.{Waits, exchange_data-connect_to_domain}
use nsu_net_course.Server.{Server, promote, process_handshakes, add_resolver, c_str}
use nsu_net_course.Server.Handover.{granted, process_handshakes-ends}

host-NoZero : (l : Bytes) (ls : List Bytes) → All IsLabel (l ∷ ls) → NoZero (host l ls)
host-NoZero l [] h = h.0.1
host-NoZero l (m ∷ ms) h =
    NoZero-append l (b'.' ∷ host m ms) h.0.1 (omega arith, host-NoZero m ms h.1)

c_str-NoZero : (xs : Bytes) → NoZero xs → c_str xs ≡ xs
unfolding c_str
c_str-NoZero [] h = refl
c_str-NoZero (x ∷ xs) h = ground (arith, c_str-NoZero xs h.1)

length-wire :
    (l : Bytes) (ls : List Bytes)
    → length (host l ls) < 256
    → 16 + length (wire (l ∷ ls)) ≤ buf_size
length-wire l ls h = omega (
  arith,
  length-append (body (l ∷ ls)) (0 ∷ []),
  length-dots (l ∷ ls),
  ap length (host-dots l ls),
  length-append (host l ls) (b'.' ∷ []),
)

promote-asks :
    (k : Kernel) (t : Trace) (client : ℤ) (d : Connecter) (s : Server) (l : Bytes) (ls : List Bytes)
    → IsName (l ∷ ls)
    → length (host l ls) < 256
    → HasRoom k (host l ls)
    → d.domain ≡ true
    → d.addr ≡ host l ls
    → promote client d s k t ≡ ok (add_resolver client d.port s (asked k t (l ∷ ls))) (opening k t)
unfolding promote
promote-asks k t client d s l ls name short fits dom addr =
    let text =
      ap c_str addr ∙ c_str-NoZero (host l ls) (host-NoZero l ls (labels_of (l ∷ ls) name)) in
    let finish = λ (r : Resolver). pure (add_resolver client d.port s r) in
    rw (dom, text)
      (after_ok (new_resolver (host l ls)) finish k t
        (new_resolver_lem k t l ls name (length-wire l ls short) fits))

-- The server with a resolver for a client at the end of those that wait.
abbrev pub queued : Server → ℤ → ℕ → Resolver → Server
queued s client port r = record s {
  waiting_for_resolving_list = s.waiting_for_resolving_list ++ (((client, port), r) ∷ []);
}

-- In the loop of `processWaitingForHandshake`, a client that asks for a domain is sent the reply 0
-- and waits for the resolver of that domain at the end of the list; the resolver holds the query
-- for it, and its socket was connected to the name server. The loop goes on with the others. The
-- client waits in the second step and is ready both ways, its request has a host of labels that a
-- name can hold, below 256 bytes in all, and a 16-bit port; the byte behind the
-- array `tmp` of the host's text, in which `strcat` writes, is free.
pub process_handshakes-asks :
    (k : Kernel) (t : Trace) (client : ℤ) (c : Connecter) (done todo : List (ℤ × Connecter))
    (s : Server) (l : Bytes) (ls : List Bytes) (port : ℕ)
    → Waits c s.readset s.writeset
    → k.receive_from t c.client_sock max_buf_size ≡ got (connect_to_domain (host l ls) port)
    → IsName (l ∷ ls)
    → length (host l ls) < 256
    → HasRoom k (host l ls)
    → port < 65536
    → let u = granted k t c.client_sock (connect_to_domain (host l ls) port) in
      process_handshakes done ((client, c) ∷ todo) s k t
      ≡ process_handshakes done todo (queued s client port (asked k u (l ∷ ls))) k (opening k u)
process_handshakes-asks k t client c done todo s l ls port w r name short fits p =
    let u = granted k t c.client_sock (connect_to_domain (host l ls) port) in
    let (d, call, dom, addr, prt) =
      exchange_data-connect_to_domain k t s.readset s.writeset c (host l ls) port w r short p in
    process_handshakes-ends k t u (opening k u) client c d done todo s _ call
      (promote-asks k u client d s l ls name short fits dom addr)
    ∙ ap
        (λ q. process_handshakes done todo (queued s client q (asked k u (l ∷ ls))) k (opening k u))
        prt
