-- ===== src/Server/Handover.antt =====
-- From the request of a client to its connection: `exchangeData` of a handshake inside the loop of
-- `processWaitingForHandshake`.
use nsu_net_course.Prelude.{ℕ, ℤ, ◌<◌, false, ◌∷◌, ◌++◌, ◌≡◌, subst, List, arith, ◌∙◌, ap}
use nsu_net_course.Kernel.{Kernel, Trace, Bytes, SockAddr, ok, got, received, sent}
use nsu_net_course.Kernel.Returns.{Returns, Returns-result}
use nsu_net_course.Socks5.{Connecter, max_buf_size, exchange_data, to_string}
use nsu_net_course.Socks5.Wire.{connect_to_ipv4, reply}
use nsu_net_course.Socks5.Requests.{dotted_quad}
use nsu_net_course.Socks5.Calls.{Waits, exchange_data-connect_to_ipv4}
use nsu_net_course.Resolver.{htons}
use nsu_net_course.Server.{Server, promote, process_handshakes, c_str}
use nsu_net_course.Server.Dialling.{Promotes, promote-Promotes}

-- The text of an address holds no zero.
c_str-to_string : (n : ℕ) (xs : Bytes) → c_str (to_string n ++ xs) ≡ to_string n ++ c_str xs
unfolding c_str to_string
c_str-to_string n xs = ground arith

c_str-last : (n : ℕ) → c_str (to_string n) ≡ to_string n
unfolding c_str to_string
c_str-last n = ground arith

c_str-dotted_quad : (a b c d : ℕ) → c_str (dotted_quad a b c d) ≡ dotted_quad a b c d
unfolding c_str
c_str-dotted_quad a b c d = simp (c_str-to_string, c_str-last)

-- What the kernel has done when the handshake has read `msg` and sent the reply 0.
abbrev pub granted : Kernel → Trace → ℤ → Bytes → Trace
granted k t fd msg =
    let read = received fd (got msg) ∷ t in sent fd (reply 0) (k.send_to read fd (reply 0)) ∷ read

abbrev pub ipv4_address : Kernel → Bytes → ℕ → SockAddr
ipv4_address k host port = record { family = 0; addr = k.parse_address host; port = htons port }

pub promote-Dials :
    (k : Kernel) (t : Trace) (client : ℤ) (d : Connecter) (s : Server) (host : Bytes) (port : ℕ)
    → d.domain ≡ false
    → c_str d.addr ≡ host
    → d.port ≡ port
    → Returns (promote client d s k t) (Promotes k t client (ipv4_address k host port) s)
promote-Dials k t client d s host port dom addr prt =
    subst (λ h. Returns (promote client d s k t) (Promotes k t client (ipv4_address k h port) s))
      addr
      (subst
        (λ p.
          Returns (promote client d s k t)
            (Promotes k t client (ipv4_address k (c_str d.addr) p) s))
        prt (promote-Promotes k t client d s dom))

pub process_handshakes-ends :
    (k : Kernel) (t u v : Trace) (client : ℤ) (c d : Connecter) (done todo : List (ℤ × Connecter))
    (s s' : Server)
    → exchange_data s.readset s.writeset c k t ≡ ok (d, 1) u
    → promote client d s k u ≡ ok s' v
    → process_handshakes done ((client, c) ∷ todo) s k t ≡ process_handshakes done todo s' k v
unfolding process_handshakes
process_handshakes-ends k t u v client c d done todo s s' e f = ground arith

-- In the loop of `processWaitingForHandshake`, a client that asks for an IPv4 address and a port is
-- sent the reply 0 and has a connection at once, and the loop goes on with the others: `connect` was
-- called last, with the family 0 (not AF_INET), what inet_addr makes of the dotted text of the
-- address, and the port; its answer is ignored. The sizes of what the buffers hold are not set, and
-- `fd_max` does not count the new socket. The client waits in the second step and is ready both
-- ways, and the port has 16 bits.
pub process_handshakes-dials :
    (k : Kernel) (t : Trace) (client : ℤ) (c : Connecter) (done todo : List (ℤ × Connecter))
    (s : Server) (i j m n port : ℕ)
    → Waits c s.readset s.writeset
    → k.receive_from t c.client_sock max_buf_size ≡ got (connect_to_ipv4 i j m n port)
    → port < 65536
    → (s' : Server) × (u : Trace) × (process_handshakes done ((client, c) ∷ todo) s k t
        ≡ process_handshakes done todo s' k u)
      × Promotes k
          (granted k t c.client_sock (connect_to_ipv4 i j m n port))
          client
          (ipv4_address k (dotted_quad i j m n) port)
          s
          s'
          u
process_handshakes-dials k t client c done todo s i j m n port w r p =
    let msg = connect_to_ipv4 i j m n port in
    let (d, call, dom, addr, prt) =
      exchange_data-connect_to_ipv4 k t s.readset s.writeset c i j m n port w r p in
    let (s', u, e, q) = Returns-result (promote client d s k (granted k t c.client_sock msg)) _ (
      promote-Dials k (granted k t c.client_sock msg) client d s (dotted_quad i j m n) port dom
        (ap c_str addr ∙ c_str-dotted_quad i j m n) prt) in
    (
      s',
      u,
      process_handshakes-ends k t (granted k t c.client_sock msg) u client c d done todo s s' call
          e,
      q,
    )
