-- ===== src/Server/Progress.antt =====
-- `processWaitingForHandshake` on handshakes that have kept to their bounds.
use mathlib.Core.List.{Perm}
use nsu_net_course.Prelude.{
  ℕ, ◌≤◌, ℤ, true, false, Bool-cases, List, [], ◌∷◌, ◌++◌, ◌≡◌, ◌≢◌, refl, ◌∙◌, ◌==◌, inl, inr, All,
  All-append, length, arith,
}
use nsu_net_course.Kernel.{Kernel, Trace, Bytes, ReadsFit, pure, ◌>>=◌}
use nsu_net_course.Kernel.Runs.{Runs, Runs-bind, Runs-map, Runs-if, Runs-Returns, Runs-Ensures}
use nsu_net_course.Kernel.Ensures.{Returns-Ensures}
use nsu_net_course.Connection.{Connection, new_connection}
use nsu_net_course.Socks5.{Connecter}
use nsu_net_course.Socks5
use nsu_net_course.Socks5.Safety.{IsSound, Finishes, exchange_data-Finishes}
use nsu_net_course.Socks5.Growth.{IsShort, StaysShort, exchange_data-StaysShort}
use nsu_net_course.Resolver.{new_resolver}
use nsu_net_course.Resolver.Making.{Overflows, new_resolver-Runs}
use nsu_net_course.Server.{
  Server, promote, add_connection, add_resolver, process_handshakes, process_waiting_for_handshake,
  c_str, request_address,
}
use nsu_net_course.Server.Clients.{clients, process_waiting_for_handshake-clients}

-- A handshake that has kept to its buffers and to at most one host for each stage.
abbrev pub IsReady : Connecter → Type 0
IsReady c = IsSound c × IsShort c

abbrev pub AllReady : List (ℤ × Connecter) → Type 0
AllReady hs = All (λ (p : ℤ × Connecter). IsReady p.1) hs

-- The members that the step leaves alone.
pub record Steady (s s' : Server) : Type 0 where
  pub same_listen : s'.listen_sockfd ≡ s.listen_sockfd
  pub same_fd_max : s'.fd_max ≡ s.fd_max
  pub same_readset : s'.readset ≡ s.readset
  pub same_writeset : s'.writeset ≡ s.writeset

Steady-trans : {s s' s'' : Server} → Steady s s' → Steady s' s'' → Steady s s''
Steady-trans p q = record {
  same_listen = q.same_listen ∙ p.same_listen;
  same_fd_max = q.same_fd_max ∙ p.same_fd_max;
  same_readset = q.same_readset ∙ p.same_readset;
  same_writeset = q.same_writeset ∙ p.same_writeset;
}

pub not_one : (n : ℕ) → (n == 1) ≡ false → n ≢ 1
not_one n e = ground arith

pub length-c_str : (bs : Bytes) → length (c_str bs) ≤ length bs
unfolding c_str
length-c_str [] = omega arith
length-c_str (x ∷ xs) = ground (arith, length-c_str xs)

promote-Runs :
    (k : Kernel) (t : Trace) (fd : ℤ) (c : Connecter) (s : Server)
    → length c.addr ≤ 510
    → Runs (Overflows k) (promote fd c s k t) (λ s' _. Steady s s')
unfolding promote new_connection
promote-Runs k t fd c s l =
    let P = λ (s' : Server) (u : Trace). Steady s s' in
    let add = λ (d : Connection). pure (add_connection s d) in
    let host = c_str c.addr in
    Runs-if (Overflows k) c.domain (new_resolver host >>= λ r. pure (add_resolver fd c.port s r))
      (request_address c.addr c.port >>= λ a. new_connection fd a >>= add) P k t
      (λ d.
        Runs-bind (Overflows k) (new_resolver host) (λ r. pure (add_resolver fd c.port s r)) _ P k t
          (new_resolver-Runs k t host (omega (arith, length-c_str c.addr)))
          (λ r u q. record {
            same_listen = refl;
            same_fd_max = refl;
            same_readset = refl;
            same_writeset = refl;
          }))
      (λ d. record {
        same_listen = refl;
        same_fd_max = refl;
        same_readset = refl;
        same_writeset = refl;
      })

process_handshakes-Runs :
    (k : Kernel) (t : Trace) (done todo : List (ℤ × Connecter)) (s : Server)
    → ReadsFit k
    → AllReady done
    → AllReady todo
    → Runs
        (Overflows k)
        (process_handshakes done todo s k t)
        (λ s' _. AllReady s'.waiting_for_handshake_list × Steady s s')
unfolding process_handshakes
process_handshakes-Runs k t done [] s fit d h = (
  d,
  record { same_listen = refl; same_fd_max = refl; same_readset = refl; same_writeset = refl },
)
process_handshakes-Runs k t done ((fd, c) ∷ todo) s fit d h =
    let P = λ (s' : Server) (u : Trace). AllReady s'.waiting_for_handshake_list × Steady s s' in
    let exchange = Socks5.exchange_data s.readset s.writeset c in
    let finished =
      λ (r : Connecter × ℕ). promote fd r.0 s >>= λ s'. process_handshakes done todo s' in
    let waiting = λ (r : Connecter × ℕ). process_handshakes (done ++ ((fd, r.0) ∷ [])) todo s in
    Runs-bind (Overflows k) exchange
      (λ r. elim (r.1 == 1) [ true ↦ finished r | false ↦ waiting r ])
      (λ r _. Finishes c r.0 r.1 × StaysShort r) P k t
      (Runs-Returns (Overflows k) (exchange k t) _ (
        Returns-Ensures (exchange k t) _ _
          (exchange_data-Finishes k t s.readset s.writeset c fit h.0.0)
          (exchange_data-StaysShort k t s.readset s.writeset c fit h.0.0 h.0.1)))
      λ r u q. elim (Bool-cases (r.1 == 1)) [
        | inl e ↦ rw e (
            Runs-bind (Overflows k) (promote fd r.0 s) (process_handshakes done todo)
              (λ s' _. Steady s s') P k u (promote-Runs k u fd r.0 s q.1.1)
              λ s' w st.
                Runs-map (Overflows k) (process_handshakes done todo s' k w) _ P
                  (process_handshakes-Runs k w done todo s' fit d h.1)
                  λ s'' x g. (g.0, Steady-trans st g.1))
        | inr e ↦ rw e (
            process_handshakes-Runs k u (done ++ ((fd, r.0) ∷ [])) todo s fit
              (All-append (λ (p : ℤ × Connecter). IsReady p.1) done ((fd, r.0) ∷ []) d
                ((q.0.sound, q.1.0 (not_one r.1 e)), tt))
              h.1)
      ]

-- `processWaitingForHandshake` returns, or stops in the `strcat` of ChangetoDnsNameFormat for a host
-- for which the byte behind the array `tmp` is not free, if reads keep to their buffers and all
-- handshakes have kept to theirs and to at most one host for each of their stages. When it returns, the handshakes that go on are still of
-- this kind, the listening socket, `fd_max` and the sets are as before, and the sockets of all
-- clients are those of before, each as often, in some order.
pub process_waiting_for_handshake-Runs :
    (k : Kernel) (t : Trace) (s : Server)
    → ReadsFit k
    → AllReady s.waiting_for_handshake_list
    → Runs (Overflows k) (process_waiting_for_handshake s k t) (λ s' _.
      (AllReady s'.waiting_for_handshake_list × Steady s s') × Perm (clients s') (clients s))
unfolding process_waiting_for_handshake
process_waiting_for_handshake-Runs k t s fit h =
    Runs-Ensures (Overflows k) (process_waiting_for_handshake s k t) _ _
      (process_handshakes-Runs k t [] s.waiting_for_handshake_list s fit tt h)
      (process_waiting_for_handshake-clients k t s)
