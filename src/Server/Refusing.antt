-- ===== src/Server/Refusing.antt =====
-- What the server does for a client whose handshake came to nothing: `exchangeData` returns the same
-- code 1 as for a request that was granted.
use nsu_net_course.Prelude.{
  ℕ, ℤ, pos, true, false, List, [], ◌∷◌, ◌≡◌, ◌≢◌, refl, ap, ◌∙◌, ◌==◌, if◌then◌else◌,
}
use nsu_net_course.Kernel.{Kernel, Trace, Bytes, got, received, sent}
use nsu_net_course.Kernel.Returns.{Returns-result}
use nsu_net_course.FdSet.{in_range}
use nsu_net_course.Socks5.{Connecter, max_buf_size}
use nsu_net_course.Socks5.Wire.{reply}
use nsu_net_course.Socks5.Calls.{Waits, exchange_data-refused, exchange_data-end_of_stream}
use nsu_net_course.Server.{Server, promote, process_handshakes, c_str}
use nsu_net_course.Server.Dialling.{Promotes}
use nsu_net_course.Server.Handover.{ipv4_address, promote-Dials, process_handshakes-ends}

c_str_empty : c_str [] ≡ []
unfolding c_str
c_str_empty = refl

-- The loop over the handshakes makes a connection to `host` and `port` for the client that it meets
-- first, whose handshake has led to the trace `u`.
abbrev pub ConnectsFirst :
    Kernel
    → Trace
    → Trace
    → ℤ
    → Connecter
    → List (ℤ × Connecter)
    → List (ℤ × Connecter)
    → Server
    → Bytes
    → ℕ
    → Type 0
ConnectsFirst k t u client c done todo s host port =
    (s' : Server) × (v : Trace) × (process_handshakes done ((client, c) ∷ todo) s k t
      ≡ process_handshakes done todo s' k v)
    × Promotes k u client (ipv4_address k host port) s s' v

-- In the loop of `processWaitingForHandshake`, a client whose request is refused (the command is not 1,
-- and the address type neither 1 nor 3) is sent the reply 7, or 8 for the type 4, and has a
-- connection all the same, to what inet_addr makes of an empty text, at port 0; the loop goes on with
-- the others. The client waits in the second step and is ready both ways, and has asked for no domain
-- before.
pub process_handshakes-refused :
    (k : Kernel) (t : Trace) (client : ℤ) (c : Connecter) (done todo : List (ℤ × Connecter))
    (s : Server) (command kind : ℕ) (rest : Bytes)
    → Waits c s.readset s.writeset
    → c.domain ≡ false
    → k.receive_from t c.client_sock max_buf_size ≡ got (5 ∷ command ∷ 0 ∷ kind ∷ rest)
    → command ≢ 1
    → kind ≢ 1
    → kind ≢ 3
    → let read = received c.client_sock (got (5 ∷ command ∷ 0 ∷ kind ∷ rest)) ∷ t in
      let bytes = reply (if kind == 4 then 8 else 7) in
      ConnectsFirst k t
        (sent c.client_sock bytes (k.send_to read c.client_sock bytes) ∷ read)
        client
        c
        done
        todo
        s
        []
        0
process_handshakes-refused k t client c done todo s command kind rest w nodomain r h1 h2 h3 =
    let (d, call, dom, addr, prt) =
      exchange_data-refused k t s.readset s.writeset c command kind rest w r h1 h2 h3 in
    let read = received c.client_sock (got (5 ∷ command ∷ 0 ∷ kind ∷ rest)) ∷ t in
    let bytes = reply (if kind == 4 then 8 else 7) in
    let u = sent c.client_sock bytes (k.send_to read c.client_sock bytes) ∷ read in
    let (s', v, e, q) =
      Returns-result (promote client d s k u) _
        (promote-Dials k u client d s [] 0 (dom ∙ nodomain) (ap c_str addr ∙ c_str_empty) prt) in
    (s', v, process_handshakes-ends k t u v client c d done todo s s' call e, q)

-- In the loop of `processWaitingForHandshake`, a client that closes its side during the handshake has a
-- connection all the same, to what inet_addr makes of an empty text; the loop goes on with the others.
-- No reply waits, the handshake is in either step and has no destination yet, and `select` reports
-- the client as readable.
pub process_handshakes-closed :
    (k : Kernel) (t : Trace) (client : ℤ) (c : Connecter) (done todo : List (ℤ × Connecter))
    (s : Server)
    → in_range c.client_sock ≡ true
    → s.readset c.client_sock ≡ true
    → c.drop ≡ false
    → c.outputbuf_size ≡ pos 0
    → c.domain ≡ false
    → c.addr ≡ []
    → k.receive_from t c.client_sock max_buf_size ≡ got []
    → ConnectsFirst k t (received c.client_sock (got []) ∷ t) client c done todo s [] c.port
process_handshakes-closed k t client c done todo s i rd g o dom addr r =
    let d : Connecter = record c { inputbuf_size = pos 0; drop = true } in
    let u = received c.client_sock (got []) ∷ t in
    let (s', v, e, q) =
      Returns-result (promote client d s k u) _
        (promote-Dials k u client d s [] c.port dom (ap c_str addr ∙ c_str_empty) refl) in
    (
      s',
      v,
      process_handshakes-ends k t u v client c d done todo s s'
          (exchange_data-end_of_stream k t s.readset s.writeset c i rd g o r) e,
      q,
    )
