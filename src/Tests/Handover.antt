-- ===== src/Tests/Handover.antt =====
-- Requests of a client that a busy server hands over.
use nsu_net_course.Prelude.{pos, [], ◌∷◌, ◌≡◌, refl, true, false, arith}
use nsu_net_course.Kernel.{Kernel, Trace, Bytes, got, received, sent, took}
use nsu_net_course.Dns.Name.Wire.{host}
use nsu_net_course.Resolver.Query.{asked, opening}
use nsu_net_course.Socks5.Wire.{connect_to_domain, connect_to_ipv4, reply}
use nsu_net_course.Socks5.Requests.{dotted_quad}
use nsu_net_course.Server.{Server, process_handshakes}
use nsu_net_course.Server.Dialling.{Promotes}
use nsu_net_course.Server.Handover.{granted, ipv4_address, process_handshakes-dials}
use nsu_net_course.Server.Asking.{queued, process_handshakes-asks}
use nsu_net_course.Server.Refusing.{
  ConnectsFirst, process_handshakes-refused, process_handshakes-closed,
}
use nsu_net_course.Tests.Sample.{replying}
use nsu_net_course.Tests.Names.{www, nsu_ru}
use nsu_net_course.Tests.Servers.{busy}
use nsu_net_course.Tests.Handshakes.{at_step, waiting}

abbrev by_address : Kernel
by_address = replying (connect_to_ipv4 10 0 0 1 8080)

process_handshakes-dials_example :
    (s' : Server) × (u : Trace) × (process_handshakes []
        ((pos 5, at_step true) ∷ [])
        busy
        by_address
        []
      ≡ process_handshakes [] [] s' by_address u)
    × Promotes by_address
        (granted by_address [] (pos 5) (connect_to_ipv4 10 0 0 1 8080))
        (pos 5)
        (ipv4_address by_address (dotted_quad 10 0 0 1) 8080)
        busy
        s'
        u
process_handshakes-dials_example =
    process_handshakes-dials by_address [] (pos 5) (at_step true) [] [] busy 10 0 0 1 8080 waiting
      refl (omega arith)

abbrev by_name : Kernel
by_name = replying (connect_to_domain (host www nsu_ru) 80)

abbrev after_request : Trace
after_request = granted by_name [] (pos 5) (connect_to_domain (host www nsu_ru) 80)

process_handshakes-asks_example :
    process_handshakes [] ((pos 5, at_step true) ∷ []) busy by_name []
    ≡ process_handshakes [] []
        (queued busy (pos 5) 80 (asked by_name after_request (www ∷ nsu_ru)))
        by_name
        (opening by_name after_request)
process_handshakes-asks_example =
    process_handshakes-asks by_name [] (pos 5) (at_step true) [] [] busy www nsu_ru 80 waiting
      (ground arith) (omega arith) (omega arith) (omega arith) (omega arith)

abbrev bind_request : Bytes
bind_request = 5 ∷ 2 ∷ 0 ∷ 4 ∷ []

abbrev after_refusal : Trace
after_refusal =
    let read = received (pos 5) (got bind_request) ∷ [] in sent (pos 5) (reply 8) (took 10) ∷ read

process_handshakes-refused_example :
    ConnectsFirst (replying bind_request) [] after_refusal (pos 5) (at_step true) [] [] busy [] 0
process_handshakes-refused_example =
    process_handshakes-refused (replying bind_request) [] (pos 5) (at_step true) [] [] busy 2 4 []
      waiting refl refl (omega arith) (omega arith) (omega arith)

process_handshakes-closed_example :
    ConnectsFirst
      (replying [])
      []
      (received (pos 5) (got []) ∷ [])
      (pos 5)
      (at_step false)
      []
      []
      busy
      []
      0
process_handshakes-closed_example =
    process_handshakes-closed (replying []) [] (pos 5) (at_step false) [] [] busy refl refl refl
      refl refl refl refl
