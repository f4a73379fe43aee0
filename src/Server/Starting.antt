-- ===== src/Server/Starting.antt =====
-- `listenFor`, and what `run` does before its loop.
use nsu_net_course.Prelude.{
  ℤ, pos, ◌∷◌, ◌≡◌, true, false, is_zero, ltb_ℤ, suc_ℤ, max_ℤ, ltb_ℤ-max, max_ℤ-ge_right, arith,
  Bool-cases,
}
use nsu_net_course.Exceptions.{connection_exception}
use nsu_net_course.Kernel.{
  Kernel, Trace, ok, stop, SockAddr, ignored_sigpipe, bound, listened, made_nonblocking,
  reused_address,
}
use nsu_net_course.FdSet.{fd_setsize}
use nsu_net_course.Utils.{check_socket}
use nsu_net_course.Resolver.{htons, af_inet}
use nsu_net_course.Server.{Server, listen_for, start, loopback, low_word}

-- The port at the loopback address.
abbrev pub own_address : Server → SockAddr
own_address s = record { family = af_inet; addr = loopback; port = htons (low_word s.listen_port) }

-- The trace after `bind`, and what it answered.
abbrev pub bind_answer : Kernel → Trace → Server → ℤ
bind_answer k t s = k.bind_to (ignored_sigpipe ∷ t) s.listen_sockfd (own_address s)

abbrev pub tried : Kernel → Trace → Server → Trace
tried k t s = bound s.listen_sockfd (own_address s) (bind_answer k t s) ∷ ignored_sigpipe ∷ t

-- What `run` does before its loop, on each branch. A listening socket of 1024 or more throws
-- ConnectionException before `bind`; with a smaller one (-1 too) `bind` is called, and if it fails
-- ConnectionException is thrown behind it. Else the socket listens at the
-- loopback address, does not block, and may take the address again; `fd_max` counts it and does
-- not fall.
pub start_lem :
    (k : Kernel) (t : Trace) (s : Server)
    → let fd = s.listen_sockfd in
      (ltb_ℤ fd (pos fd_setsize) ≡ false
        → start s k t
          ≡ stop (connection_exception "Socket number out of range") (ignored_sigpipe ∷ t))
      × (ltb_ℤ fd (pos fd_setsize) ≡ true
          → is_zero (bind_answer k t s) ≡ false
          → start s k t ≡ stop (connection_exception "Error while connecting") (tried k t s))
      × (ltb_ℤ fd (pos fd_setsize) ≡ true
          → is_zero (bind_answer k t s) ≡ true
          → (n : ℤ) × (ltb_ℤ fd n ≡ true)
            × (ltb_ℤ n s.fd_max ≡ false)
            × (start s k t
                ≡ ok
                    (record s { fd_max = n })
                    (reused_address fd ∷ made_nonblocking fd ∷ listened fd ∷ tried k t s)))
unfolding start listen_for
start_lem k t s =
    let fd = s.listen_sockfd in
    let counted = Bool-cases (ltb_ℤ s.fd_max (suc_ℤ fd)) in
    (
      λ big. unfold check_socket in ground arith,
      λ small refused. unfold check_socket in ground (arith, counted),
      λ small granted. (
        max_ℤ (suc_ℤ fd) s.fd_max,
        ltb_ℤ-max fd s.fd_max,
        max_ℤ-ge_right (suc_ℤ fd) s.fd_max,
        unfold check_socket in ground (arith, counted),
      ),
    )
