-- ===== src/Tests/Starts.antt =====
-- Starting the proxy, and what a server with a client in each of its lists watches.
use nsu_net_course.Prelude.{ℤ, pos, [], ◌∷◌, ◌≡◌, refl, some, true, false, ltb_ℤ, is_zero}
use nsu_net_course.Exceptions.{connection_exception}
use nsu_net_course.Kernel.{
  Bytes, Trace, opened_tcp, ok, stop, ignored_sigpipe, listened, made_nonblocking, reused_address,
}
use nsu_net_course.Kernel.Returns.{Returns}
use nsu_net_course.FdSet.{fd_setsize}
use nsu_net_course.Server.{Server, start, rounds, prepare_sets}
use nsu_net_course.Server.Starting.{bind_answer, tried, start_lem}
use nsu_net_course.Server.Watching.{IsInRange, Watches, prepare_sets-Watches}
use nsu_net_course.Main.{main, try_catch}
use nsu_net_course.Main.Listening.{fresh, main_lem}
use nsu_net_course.Tests.Sample.{replying}
use nsu_net_course.Tests.Servers.{busy}

start_lem_example :
    let fd = busy.listen_sockfd in
    let k = replying [] in
    (ltb_ℤ fd (pos fd_setsize) ≡ false
      → start busy k []
        ≡ stop (connection_exception "Socket number out of range") (ignored_sigpipe ∷ []))
    × (ltb_ℤ fd (pos fd_setsize) ≡ true
        → is_zero (bind_answer k [] busy) ≡ false
        → start busy k [] ≡ stop (connection_exception "Error while connecting") (tried k [] busy))
    × (ltb_ℤ fd (pos fd_setsize) ≡ true
        → is_zero (bind_answer k [] busy) ≡ true
        → (n : ℤ) × (ltb_ℤ fd n ≡ true)
          × (ltb_ℤ n busy.fd_max ≡ false)
          × (start busy k []
              ≡ ok
                  (record busy { fd_max = n })
                  (reused_address fd ∷ made_nonblocking fd ∷ listened fd ∷ tried k [] busy)))
start_lem_example = start_lem (replying []) [] busy

busy-IsInRange : IsInRange busy
busy-IsInRange = record {
  listens = refl;
  connections = ((refl, refl), tt);
  handshakes = (refl, (refl, tt));
  resolvers = (refl, tt);
}

prepare_sets-Watches_example : Returns (prepare_sets busy (replying []) []) (Watches busy [])
prepare_sets-Watches_example = prepare_sets-Watches (replying []) [] busy busy-IsInRange

abbrev port_text : Bytes
port_text = b'8' ∷ b'0' ∷ []

abbrev called : Bytes
called = b'p' ∷ []

abbrev socket_opened : Trace
socket_opened = opened_tcp (pos 7) ∷ []

abbrev idle_server : Server
idle_server = fresh (replying []) [] port_text

main_lem_example :
    let k = replying [] in
    let fd = k.new_tcp [] in
    (ltb_ℤ fd (pos fd_setsize) ≡ false
      → main (called ∷ port_text ∷ []) 2 k []
        ≡ ok (some "Socket number out of range") (ignored_sigpipe ∷ socket_opened))
    × (ltb_ℤ fd (pos fd_setsize) ≡ true
        → is_zero (bind_answer k socket_opened idle_server) ≡ false
        → main (called ∷ port_text ∷ []) 2 k []
          ≡ ok (some "Error while connecting") (tried k socket_opened idle_server))
    × (ltb_ℤ fd (pos fd_setsize) ≡ true
        → is_zero (bind_answer k socket_opened idle_server) ≡ true
        → (nfds : ℤ) × (ltb_ℤ fd nfds ≡ true)
          × (main (called ∷ port_text ∷ []) 2 k []
              ≡ try_catch (rounds 2 (record idle_server { fd_max = nfds })) k (
                  reused_address fd
                  ∷ made_nonblocking fd
                  ∷ listened fd
                  ∷ tried k socket_opened idle_server)))
main_lem_example = main_lem (replying []) [] called port_text 2
