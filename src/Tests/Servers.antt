-- ===== src/Tests/Servers.antt =====
-- A server with a client in each of its lists.
use mathlib.Core.List.{Perm}
use nsu_net_course.Prelude.{pos, [], ◌∷◌, ◌≡◌, refl, true, false}
use nsu_net_course.Kernel.{ok, accepted}
use nsu_net_course.Kernel.Ensures.{Ensures}
use nsu_net_course.Resolver.{Resolver}
use nsu_net_course.Server.{Server, process_waiting_for_resolving, process_pending_connections}
use nsu_net_course.Server.Accept.{TakesIn, process_pending_connections_lem}
use nsu_net_course.Server.Clients.{clients, process_waiting_for_resolving-clients}
use nsu_net_course.Tests.Sample.{replying, all_ready}
use nsu_net_course.Tests.Connections.{idle}
use nsu_net_course.Tests.Handshakes.{at_step}

abbrev pub asking_name : Resolver
asking_name = record {
  buf = λ _. 0;
  sockfd = pos 9;
  request_sended = true;
  response_recived = false;
  drop = false;
  s_addr = 0;
}

abbrev pub busy : Server
busy = record {
  listen_sockfd = pos 3;
  listen_port = pos 1080;
  fd_max = pos 10;
  connection_list = idle ∷ [];
  waiting_for_handshake_list = (pos 4, at_step true) ∷ (pos 6, at_step false) ∷ [];
  waiting_for_resolving_list = ((pos 8, 80), asking_name) ∷ [];
  readset = all_ready;
  writeset = all_ready;
}

process_waiting_for_resolving-clients_example :
    Ensures
      (process_waiting_for_resolving busy (replying []) [])
      (λ s' _. Perm (clients s') (clients busy))
process_waiting_for_resolving-clients_example =
    process_waiting_for_resolving-clients (replying []) [] busy

process_pending_connections_lem_example :
    (s' : Server) × (process_pending_connections busy (replying []) []
      ≡ ok s' (accepted (pos 3) (pos 5) ∷ []))
    × TakesIn (pos 5) busy s'
process_pending_connections_lem_example =
    (process_pending_connections_lem (replying []) [] busy refl).3 refl refl refl
