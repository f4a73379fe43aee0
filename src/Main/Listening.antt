-- ===== src/Main/Listening.antt =====
-- What `main` (net_lab7/main.cpp) does with one argument until the server listens.
use Prim.Native.String.{String}
use nsu_net_course.Exceptions.{Failure, connection_exception, what}
use nsu_net_course.Prelude.{
  ℕ, ℤ, true, false, pos, [], ◌∷◌, ◌≡◌, ◌∙◌, ap, refl, none, some, ltb_ℤ, is_zero,
}
use nsu_net_course.Kernel.{
  Kernel, Trace, Bytes, M, throw, ok, stop, ignored_sigpipe, listened, made_nonblocking,
  reused_address, opened_tcp,
}
use nsu_net_course.Kernel.Returns.{after_ok, after_stop}
use nsu_net_course.FdSet.{fd_setsize, fd_zero}
use nsu_net_course.Server.{Server, new_server, start, run, rounds}
use nsu_net_course.Server.Starting.{bind_answer, tried, start_lem}
use nsu_net_course.Main.{main, try_catch, caught}

-- The server at a new socket, for the port that the argument is read as.
abbrev pub fresh : Kernel → Trace → Bytes → Server
fresh k t arg = record {
  listen_sockfd = k.new_tcp t;
  listen_port = k.parse_int arg;
  fd_max = pos 0;
  connection_list = [];
  waiting_for_handshake_list = [];
  waiting_for_resolving_list = [];
  readset = fd_zero;
  writeset = fd_zero;
}

run-stop :
    (k : Kernel) (t u : Trace) (s : Server) (n : ℕ) {e : Failure}
    → start s k t ≡ stop e u
    → run n s k t ≡ stop e u
unfolding run
run-stop k t u s n h = after_stop (start s) (rounds n) k t h

run-ok :
    (k : Kernel) (t u : Trace) (s s' : Server) (n : ℕ)
    → start s k t ≡ ok s' u
    → run n s k t ≡ rounds n s' k u
unfolding run
run-ok k t u s s' n h = after_ok (start s) (rounds n) k t h

-- `main` runs a fresh server, and catches what comes out.
main-fresh :
    (k : Kernel) (t : Trace) (program arg : Bytes) (n : ℕ)
    → main (program ∷ arg ∷ []) n k t
      ≡ try_catch (run n (fresh k t arg)) k (opened_tcp (k.new_tcp t) ∷ t)
unfolding main new_server
main-fresh k t program arg n = refl

-- Equal outcomes are caught alike.
try_catch_cong :
    (m m' : M Server) (k : Kernel) (t t' : Trace)
    → m k t ≡ m' k t'
    → try_catch m k t ≡ try_catch m' k t'
try_catch_cong m m' k t t' h = ap (λ o. elim o [ ok a u ↦ ok none u | stop e u ↦ caught e u ]) h

caught_text :
    (k : Kernel) (t u : Trace) (s : Server) (n : ℕ) (text : String)
    → start s k t ≡ stop (connection_exception text) u
    → try_catch (run n s) k t ≡ ok (some text) u
unfolding caught what
caught_text k t u s n text h =
    try_catch_cong (run n s) (throw (connection_exception text)) k t u (run-stop k t u s n h)

caught_rounds :
    (k : Kernel) (t u : Trace) (s s' : Server) (n : ℕ)
    → start s k t ≡ ok s' u
    → try_catch (run n s) k t ≡ try_catch (rounds n s') k u
caught_rounds k t u s s' n h = try_catch_cong (run n s) (rounds n s') k t u (run-ok k t u s s' n h)

-- `main` with one argument, on each branch of what it does before its loop, however many rounds the
-- loop is to make. It opens a socket for the port that `atoi` reads. If the socket is 1024 or more,
-- nothing is bound, and `main` prints that its number is out of range and ends; if `bind` fails,
-- `main` prints that connecting failed and ends. Else it makes the rounds of a server without
-- clients, which listens, and catches what they throw.
pub main_lem :
    (k : Kernel) (t : Trace) (program arg : Bytes) (n : ℕ)
    → let s = fresh k t arg in
      let fd = k.new_tcp t in
      let u : Trace = opened_tcp fd ∷ t in
      (ltb_ℤ fd (pos fd_setsize) ≡ false
        → main (program ∷ arg ∷ []) n k t
          ≡ ok (some "Socket number out of range") (ignored_sigpipe ∷ u))
      × (ltb_ℤ fd (pos fd_setsize) ≡ true
          → is_zero (bind_answer k u s) ≡ false
          → main (program ∷ arg ∷ []) n k t ≡ ok (some "Error while connecting") (tried k u s))
      × (ltb_ℤ fd (pos fd_setsize) ≡ true
          → is_zero (bind_answer k u s) ≡ true
          → (nfds : ℤ) × (ltb_ℤ fd nfds ≡ true)
            × (main (program ∷ arg ∷ []) n k t
                ≡ try_catch
                    (rounds n (record s { fd_max = nfds }))
                    k
                    (reused_address fd ∷ made_nonblocking fd ∷ listened fd ∷ tried k u s)))
main_lem k t program arg n =
    let s = fresh k t arg in
    let u : Trace = opened_tcp (k.new_tcp t) ∷ t in
    let (big, refused, granted) = start_lem k u s in
    let begins = main-fresh k t program arg n in
    (
      λ a. begins ∙ caught_text k u _ s n "Socket number out of range" (big a),
      λ a b. begins ∙ caught_text k u _ s n "Error while connecting" (refused a b),
      λ a b.
          let (nfds, counted, kept, e) = granted a b in
          (nfds, counted, begins ∙ caught_rounds k u _ s (record s { fd_max = nfds }) n e),
    )
