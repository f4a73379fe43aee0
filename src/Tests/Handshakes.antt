-- ===== src/Tests/Handshakes.antt =====
-- A handshake with the client at the socket 5.
use nsu_net_course.Prelude.{pos, [], ◌∷◌, ◌≡◌, refl, true, false, arith, Bool, some, none}
use nsu_net_course.Kernel.{Bytes, Kernel, got}
use nsu_net_course.Kernel.Returns.{Returns}
use nsu_net_course.Socks5.{Connecter, exchange_data, after_recv}
use nsu_net_course.Socks5.Wire.{greeting, connect_to_domain, connect_to_ipv4, reply}
use nsu_net_course.Socks5.Requests.{after_recv-greeting, dotted_quad, output}
use nsu_net_course.Socks5.Calls.{
  Waits, Answers, exchange_data-connect_to_domain, exchange_data-connect_to_ipv4,
}
use nsu_net_course.Socks5.Safety.{IsSound, Finishes, exchange_data-Finishes}
use nsu_net_course.Tests.Sample.{replying, replying-ReadsFit, all_ready}

abbrev pub at_step : Bool → Connecter
at_step first = record {
  drop = false;
  client_sock = pos 5;
  inputbuf = λ _. 0;
  outputbuf = λ _. 0;
  inputbuf_size = pos 0;
  outputbuf_size = pos 0;
  first_step_completed = first;
  domain = false;
  port = 0;
  addr = [];
}

abbrev host : Bytes
host = b'a' ∷ b'.' ∷ b'b' ∷ []

pub waiting : Waits (at_step true) all_ready all_ready
waiting = record {
  in_sets = refl;
  readable = refl;
  writable = refl;
  going = refl;
  first = refl;
  no_output = refl;
  no_addr = refl;
  no_port = refl;
}

fresh-IsSound : IsSound (at_step false)
fresh-IsSound = record {
  client_in_range = refl;
  input_bytes = λ i. omega arith;
  output_fits = omega arith;
  output_size = refl;
}

after_recv-greeting_example :
    (d : Connecter) × (after_recv (got (greeting (2 ∷ 0 ∷ []))) (at_step false) ≡ some (d, none))
    × (output d ≡ 5 ∷ 0 ∷ [])
    × (d.first_step_completed ≡ false)
after_recv-greeting_example = after_recv-greeting (at_step false) (2 ∷ 0 ∷ []) refl (omega arith)

exchange_data-Finishes_example :
    Returns
      (exchange_data all_ready all_ready (at_step false) (replying (5 ∷ 200 ∷ [])) [])
      (λ r _. Finishes (at_step false) r.0 r.1)
exchange_data-Finishes_example =
    exchange_data-Finishes (replying (5 ∷ 200 ∷ [])) [] all_ready all_ready (at_step false)
      (replying-ReadsFit (5 ∷ 200 ∷ []) (omega arith)) fresh-IsSound

abbrev asking : Bytes → Kernel
asking msg = replying msg

exchange_data-connect_to_domain_example :
    (d : Connecter) × Answers
      (asking (connect_to_domain host 80))
      []
      all_ready
      all_ready
      (at_step true)
      (connect_to_domain host 80)
      (reply 0)
      d
    × (d.domain ≡ true)
    × (d.addr ≡ host)
    × (d.port ≡ 80)
exchange_data-connect_to_domain_example =
    exchange_data-connect_to_domain (asking (connect_to_domain host 80)) [] all_ready all_ready
      (at_step true) host 80 waiting refl (omega arith) (omega arith)

exchange_data-connect_to_ipv4_example :
    (d : Connecter) × Answers
      (asking (connect_to_ipv4 93 184 216 34 80))
      []
      all_ready
      all_ready
      (at_step true)
      (connect_to_ipv4 93 184 216 34 80)
      (reply 0)
      d
    × (d.domain ≡ false)
    × (d.addr ≡ dotted_quad 93 184 216 34)
    × (d.port ≡ 80)
exchange_data-connect_to_ipv4_example =
    exchange_data-connect_to_ipv4 (asking (connect_to_ipv4 93 184 216 34 80)) [] all_ready all_ready
      (at_step true) 93 184 216 34 80 waiting refl (omega arith)
