-- ===== src/Tests/Connections.antt =====
-- A connection between the sockets 5 and 7.
use nsu_net_course.Prelude.{ℤ, pos, negsuc, ◌≡◌, [], ◌∷◌, ◌≢◌, refl, none, true, false, arith, List}
use nsu_net_course.Kernel.{Bytes, FdSet}
use nsu_net_course.Kernel.Returns.{Returns}
use nsu_net_course.Connection.{Connection}
use nsu_net_course.Connection.Transfer.{IsSound}
use nsu_net_course.Connection.Receiving.{Advances}
use nsu_net_course.Connection.Relay.{exchange_all, exchange_all-Advances}
use nsu_net_course.Connection.Refinement.{Refines, exchange_all-Refines, exchange_all-StaysMarked}
use nsu_net_course.Tests.Sample.{replying, replying-ReadsFit, all_ready}

abbrev hello : Bytes
hello = 72 ∷ 105 ∷ []

abbrev pub idle : Connection
idle = record {
  address = 4096;
  client_socket = pos 5;
  forwarding_socket = pos 7;
  max_timeout = 64;
  server_addr = record { family = 2; addr = 0; port = 0 };
  prev = none;
  next = none;
  buffer_cf = λ _. 0;
  buffer_fc = λ _. 0;
  data_cf = pos 0;
  data_fc = pos 0;
  to_disconnect = false;
  connected = true;
}

pub idle-IsSound : IsSound idle
idle-IsSound = record {
  client_in_range = refl;
  forward_in_range = refl;
  cf_fits = omega arith;
  fc_fits = omega arith;
  cf_failed = λ e. cc;
  fc_failed = λ e. cc;
}

different : ◌≢◌ {A = ℤ} (pos 5) (pos 7)
different e = cc

abbrev two_rounds : List (FdSet × FdSet)
two_rounds = (all_ready, all_ready) ∷ (all_ready, all_ready) ∷ []

exchange_all-Advances_example :
    Returns (exchange_all two_rounds idle (replying hello) []) (Advances idle [])
exchange_all-Advances_example =
    exchange_all-Advances (replying hello) two_rounds idle []
      (replying-ReadsFit hello (omega arith)) different idle-IsSound

exchange_all-Refines_example :
    Returns (exchange_all two_rounds idle (replying hello) []) (Refines idle [])
exchange_all-Refines_example =
    exchange_all-Refines (replying hello) two_rounds idle [] (replying-ReadsFit hello (omega arith))
      idle-IsSound

-- A connection whose client has failed, with two bytes for it.
abbrev broken : Connection
broken = record idle { data_cf = negsuc 0; data_fc = pos 2; to_disconnect = true }

broken-IsSound : IsSound broken
broken-IsSound = record {
  client_in_range = refl;
  forward_in_range = refl;
  cf_fits = omega arith;
  fc_fits = omega arith;
  cf_failed = λ e. refl;
  fc_failed = λ e. refl;
}

exchange_all-StaysMarked_example :
    Returns (exchange_all two_rounds broken (replying hello) []) (λ c _. c.to_disconnect ≡ true)
exchange_all-StaysMarked_example =
    exchange_all-StaysMarked (replying hello) two_rounds broken []
      (replying-ReadsFit hello (omega arith)) broken-IsSound refl
