-- ===== src/Socks5/Calls.antt =====
-- Whole calls of `SOCKS5Connecter::exchangeData` in the second step.
use nsu_net_course.Prelude.{
  ℕ, ◌<◌, pos, true, false, none, some, [], ◌∷◌, ◌≡◌, ◌≢◌, length, arith, ◌==◌, if◌then◌else◌, ◌∙◌,
}
use nsu_net_course.Kernel.{Bytes, got, Sent, Kernel, Trace, FdSet, ok, received, sent}
use nsu_net_course.FdSet.{in_range, fd_isset}
use nsu_net_course.Socks5.{
  Connecter, max_buf_size, after_recv, after_send, take_input, give_output, exchange_data,
}
use nsu_net_course.Socks5.Wire.{connect_to_domain, connect_to_ipv4, reply}
use nsu_net_course.Socks5.Requests.{
  dotted_quad, after_recv-connect_to_domain, after_recv-connect_to_ipv4, after_recv-refused,
  Replied,
}

-- A handshake that waits for the request, at a client that `select` reports both ways.
pub record Waits (c : Connecter) (rd wr : FdSet) : Type 0 where
  pub in_sets : in_range c.client_sock ≡ true
  pub readable : rd c.client_sock ≡ true
  pub writable : wr c.client_sock ≡ true
  pub going : c.drop ≡ false
  pub first : c.first_step_completed ≡ true
  pub no_output : c.outputbuf_size ≡ pos 0
  pub no_addr : c.addr ≡ []
  pub no_port : c.port ≡ 0

-- The call reads `msg`, sends `bytes`, and ends the handshake as `d`.
abbrev pub Answers : Kernel → Trace → FdSet → FdSet → Connecter → Bytes → Bytes → Connecter → Type 0
Answers k t rd wr c msg bytes d =
    let read = received c.client_sock (got msg) ∷ t in
    exchange_data rd wr c k t
    ≡ ok (d, 1) (sent c.client_sock bytes (k.send_to read c.client_sock bytes) ∷ read)

call_lem :
    (k : Kernel) (t : Trace) (rd wr : FdSet) (c d : Connecter) (msg : Bytes) (code : ℕ)
    → Waits c rd wr
    → k.receive_from t c.client_sock max_buf_size ≡ got msg
    → after_recv (got msg) c ≡ some (d, none)
    → Replied c d code
    → Answers k t rd wr c msg
        (reply code)
        (after_send
          (k.send_to (received c.client_sock (got msg) ∷ t) c.client_sock (reply code))
          d).0
unfolding exchange_data take_input give_output fd_isset after_send
call_lem k t rd wr c d msg code w r a p = ground arith

-- `after_send` leaves the destination alone.
after_send-keeps :
    (res : Sent) (d : Connecter)
    → ((after_send res d).0.domain ≡ d.domain)
      × ((after_send res d).0.addr ≡ d.addr)
      × ((after_send res d).0.port ≡ d.port)
unfolding after_send
after_send-keeps res d = ground arith

-- One call reads a request to connect to a domain, sends the reply 0 and ends the handshake; the
-- host, of up to 255 bytes, and the 16-bit port of the request are then the destination. The client
-- waits in the second step, and `select` reports it both ways; what the send answers is free.
pub exchange_data-connect_to_domain :
    (k : Kernel) (t : Trace) (rd wr : FdSet) (c : Connecter) (host : Bytes) (port : ℕ)
    → Waits c rd wr
    → k.receive_from t c.client_sock max_buf_size ≡ got (connect_to_domain host port)
    → length host < 256
    → port < 65536
    → (d : Connecter) × Answers k t rd wr c (connect_to_domain host port) (reply 0) d
      × (d.domain ≡ true)
      × (d.addr ≡ host)
      × (d.port ≡ port)
exchange_data-connect_to_domain k t rd wr c host port w r h p =
    let (e, a, x, dom, addr, prt) =
      after_recv-connect_to_domain c host port w.first w.no_addr w.no_port h p in
    let msg = connect_to_domain host port in
    let res = k.send_to (received c.client_sock (got msg) ∷ t) c.client_sock (reply 0) in
    let kept = after_send-keeps res e in
    (
      (after_send res e).0,
      call_lem k t rd wr c e msg 0 w r a x,
      kept.0 ∙ dom,
      kept.1 ∙ addr,
      kept.2 ∙ prt,
    )

-- One call reads a request to connect to an IPv4 address, sends the reply 0 and ends the handshake;
-- the address as a text and the 16-bit port are then the destination. The client waits in the second
-- step, and `select` reports it both ways; what the send answers is free.
pub exchange_data-connect_to_ipv4 :
    (k : Kernel) (t : Trace) (rd wr : FdSet) (c : Connecter) (i j m n port : ℕ)
    → Waits c rd wr
    → k.receive_from t c.client_sock max_buf_size ≡ got (connect_to_ipv4 i j m n port)
    → port < 65536
    → (d : Connecter) × Answers k t rd wr c (connect_to_ipv4 i j m n port) (reply 0) d
      × (d.domain ≡ false)
      × (d.addr ≡ dotted_quad i j m n)
      × (d.port ≡ port)
exchange_data-connect_to_ipv4 k t rd wr c i j m n port w r p =
    let (e, a, x, dom, addr, prt) =
      after_recv-connect_to_ipv4 c i j m n port w.first w.no_addr w.no_port p in
    let msg = connect_to_ipv4 i j m n port in
    let res = k.send_to (received c.client_sock (got msg) ∷ t) c.client_sock (reply 0) in
    let kept = after_send-keeps res e in
    (
      (after_send res e).0,
      call_lem k t rd wr c e msg 0 w r a x,
      kept.0 ∙ dom,
      kept.1 ∙ addr,
      kept.2 ∙ prt,
    )

-- A request that is refused ends the handshake with the same code 1 as one that is granted: for a
-- command other than 1 and an address type that is neither 1 nor 3, one call sends the reply 7 (8 for
-- the type 4) and returns 1, with no host. The client waits in the second step, and `select`
-- reports it both ways.
pub exchange_data-refused :
    (k : Kernel) (t : Trace) (rd wr : FdSet) (c : Connecter) (command kind : ℕ) (rest : Bytes)
    → Waits c rd wr
    → k.receive_from t c.client_sock max_buf_size ≡ got (5 ∷ command ∷ 0 ∷ kind ∷ rest)
    → command ≢ 1
    → kind ≢ 1
    → kind ≢ 3
    → (d : Connecter) × Answers k t rd wr c
        (5 ∷ command ∷ 0 ∷ kind ∷ rest)
        (reply (if kind == 4 then 8 else 7))
        d
      × (d.domain ≡ c.domain)
      × (d.addr ≡ [])
      × (d.port ≡ 0)
exchange_data-refused k t rd wr c command kind rest w r h1 h2 h3 =
    let (e, a, x, dom, addr, prt) =
      after_recv-refused c command kind rest w.first w.no_port h1 h2 h3 in
    let msg = 5 ∷ command ∷ 0 ∷ kind ∷ rest in
    let code = if kind == 4 then 8 else 7 in
    let res = k.send_to (received c.client_sock (got msg) ∷ t) c.client_sock (reply code) in
    let kept = after_send-keeps res e in
    (
      (after_send res e).0,
      call_lem k t rd wr c e msg code w r a x,
      kept.0 ∙ dom,
      kept.1 ∙ addr ∙ w.no_addr,
      kept.2 ∙ prt ∙ w.no_port,
    )

-- A client that closes its side during the handshake (the read returns 0) ends it with the code 1,
-- as a granted request does: in either step, if no reply waits to be sent and `select` reports the
-- client as readable. The connecter is marked to be dropped and has no new destination.
pub exchange_data-end_of_stream :
    (k : Kernel) (t : Trace) (rd wr : FdSet) (c : Connecter)
    → in_range c.client_sock ≡ true
    → rd c.client_sock ≡ true
    → c.drop ≡ false
    → c.outputbuf_size ≡ pos 0
    → k.receive_from t c.client_sock max_buf_size ≡ got []
    → exchange_data rd wr c k t
      ≡ ok
          (record c { inputbuf_size = pos 0; drop = true }, 1)
          (received c.client_sock (got []) ∷ t)
unfolding exchange_data take_input after_recv fd_isset
exchange_data-end_of_stream k t rd wr c i r g o e = ground arith
