-- ===== src/Connection/Refinement.antt =====
-- `Connection::exchangeData` as steps of a pipe.
use nsu_net_course.Prelude.{
  List, [], ◌∷◌, ◌≡◌, refl, true, is_zero, is_positive, inl, inr, Bool-cases, le→leb,
}
use nsu_net_course.Kernel.{Kernel, Trace, M, ReadsFit, FdSet, ignored_sigpipe, ◌>>=◌}
use nsu_net_course.Kernel.Returns.{Returns, Returns-bind, Returns-map}
use nsu_net_course.FdSet.{fd_isset}
use nsu_net_course.Connection.{
  Connection, bufsize, pull_cf, pull_fc, push_cf, push_fc, exchange_data,
}
use nsu_net_course.Connection.Transfer.{IsSound, pending_cf, pending_fc}
use nsu_net_course.Connection.Receiving.{payload_fits, after_recv_cf-IsSound, after_recv_fc-IsSound}
use nsu_net_course.Connection.Sending.{after_send_cf-IsSound, after_send_fc-IsSound}
use nsu_net_course.Connection.Relay.{exchange_all}
use nsu_net_course.Connection.Pipe.{ignores, Run-closing}
use nsu_net_course.Connection.Steps.{
  pipe_of, Pipes, Pipes-still, Pipes-trans, one_step, after_recv_cf-Pipes, after_recv_fc-Pipes,
  after_send_cf-Pipes, after_send_fc-Pipes,
}

-- The connection is sound, and has come here by steps of the pipe.
abbrev pub Refines : Connection → Trace → Connection → Trace → Type 0
Refines c t c' t' = IsSound c' × Pipes c t c' t'

pull_cf-Refines :
    (k : Kernel) (rd : FdSet) (c : Connection) (t : Trace)
    → ReadsFit k
    → IsSound c
    → Returns (pull_cf rd c k t) (Refines c t)
unfolding pull_cf fd_isset
pull_cf-Refines k rd c t fit v = elim (Bool-cases (is_zero c.data_cf)) [
  | inr busy ↦ rw busy (v, Pipes-still c t)
  | inl idle ↦ elim (Bool-cases (rd c.client_socket)) [
    | inr quiet ↦ rw (idle, v.client_in_range, quiet) (v, Pipes-still c t)
    | inl ready ↦
        let r = k.receive_from t c.client_socket bufsize in
        let room = payload_fits k t c.client_socket r fit refl in
        rw (idle, v.client_in_range, ready)
          (after_recv_cf-IsSound r c room v, after_recv_cf-Pipes t r c idle room)
  ]
]

pull_fc-Refines :
    (k : Kernel) (rd : FdSet) (c : Connection) (t : Trace)
    → ReadsFit k
    → IsSound c
    → Returns (pull_fc rd c k t) (Refines c t)
unfolding pull_fc fd_isset
pull_fc-Refines k rd c t fit v = elim (Bool-cases (is_zero c.data_fc)) [
  | inr busy ↦ rw busy (v, Pipes-still c t)
  | inl idle ↦ elim (Bool-cases (rd c.forwarding_socket)) [
    | inr quiet ↦ rw (idle, v.forward_in_range, quiet) (v, Pipes-still c t)
    | inl ready ↦
        let r = k.receive_from t c.forwarding_socket bufsize in
        let room = payload_fits k t c.forwarding_socket r fit refl in
        rw (idle, v.forward_in_range, ready)
          (after_recv_fc-IsSound r c room v, after_recv_fc-Pipes t r c idle room)
  ]
]

push_cf-Refines :
    (k : Kernel) (wr : FdSet) (c : Connection) (t : Trace)
    → IsSound c
    → Returns (push_cf wr c k t) (Refines c t)
unfolding push_cf fd_isset
push_cf-Refines k wr c t v = elim (Bool-cases (is_positive c.data_cf)) [
  | inr idle ↦ rw idle (v, Pipes-still c t)
  | inl busy ↦ elim (Bool-cases (wr c.forwarding_socket)) [
    | inr full ↦ rw (busy, v.forward_in_range, full) (v, Pipes-still c t)
    | inl ready ↦
        let r = k.send_to t c.forwarding_socket (pending_cf c) in
        rw (busy, v.forward_in_range, ready, le→leb _ _ v.cf_fits)
          (after_send_cf-IsSound r c v, after_send_cf-Pipes t r c busy)
  ]
]

push_fc-Refines :
    (k : Kernel) (wr : FdSet) (c : Connection) (t : Trace)
    → IsSound c
    → Returns (push_fc wr c k t) (Refines c t)
unfolding push_fc fd_isset
push_fc-Refines k wr c t v = elim (Bool-cases (is_positive c.data_fc)) [
  | inr idle ↦ rw idle (v, Pipes-still c t)
  | inl busy ↦ elim (Bool-cases (wr c.client_socket)) [
    | inr full ↦ rw (busy, v.client_in_range, full) (v, Pipes-still c t)
    | inl ready ↦
        let r = k.send_to t c.client_socket (pending_fc c) in
        rw (busy, v.client_in_range, ready, le→leb _ _ v.fc_fits)
          (after_send_fc-IsSound r c v, after_send_fc-Pipes t r c busy)
  ]
]

-- A step that is one of the pipe for every sound connection.
abbrev pub IsPiped : Kernel → (Connection → M Connection) → Type 0
IsPiped k f = (c : Connection) (t : Trace) → IsSound c → Returns (f c k t) (Refines c t)

IsPiped-then :
    (k : Kernel) (f g : Connection → M Connection)
    → IsPiped k f
    → IsPiped k g
    → IsPiped k (λ c. f c >>= g)
IsPiped-then k f g first second c t v =
    Returns-bind (f c) g (Refines c t) (Refines c t) k t (first c t v) λ d u a.
      Returns-map (g d k u) (Refines d u) (Refines c t) (second d u a.0)
        (λ e w b. (b.0, Pipes-trans a.1 b.1))

pub exchange_data-Refines :
    (k : Kernel) (rd wr : FdSet) → ReadsFit k → IsPiped k (exchange_data rd wr)
unfolding exchange_data
exchange_data-Refines k rd wr fit c t v =
    Returns-map (exchange_data rd wr c k t) (Refines c (ignored_sigpipe ∷ t)) (Refines c t)
      (IsPiped-then k (pull_cf rd) (λ c1. pull_fc rd c1 >>= λ c2. push_cf wr c2 >>= push_fc wr)
        (λ d u. pull_cf-Refines k rd d u fit)
        (IsPiped-then k (pull_fc rd) (λ c2. push_cf wr c2 >>= push_fc wr)
          (λ d u. pull_fc-Refines k rd d u fit)
          (IsPiped-then k (push_cf wr) (push_fc wr) (push_cf-Refines k wr) (push_fc-Refines k wr)))
        c (ignored_sigpipe ∷ t) v)
      (λ d w a. (a.0, Pipes-trans (one_step refl refl (ignores (pipe_of c))) a.1))

-- Any number of rounds of `exchangeData` on a sound connection, whatever `select` reports, are steps
-- of a pipe between its two sockets: a flow reads only when nothing waits in it, and at most what a
-- buffer holds; it passes all that waits to one send, keeps it if that finds no room, and forgets it
-- whatever number the send answers; a read that fails breaks it. The rounds return and the connection stays sound. Reads keep to
-- their buffers.
pub exchange_all-Refines :
    (k : Kernel) (rounds : List (FdSet × FdSet)) (c : Connection) (t : Trace)
    → ReadsFit k
    → IsSound c
    → Returns (exchange_all rounds c k t) (Refines c t)
unfolding exchange_all
exchange_all-Refines k [] c t fit v = (v, Pipes-still c t)
exchange_all-Refines k ((rd, wr) ∷ rest) c t fit v =
    IsPiped-then k (exchange_data rd wr) (exchange_all rest) (exchange_data-Refines k rd wr fit)
      (λ d u. exchange_all-Refines k rest d u fit) c t v

-- Once a sound connection is marked to be disconnected it stays so, through any number of rounds,
-- which all return. Reads keep to their buffers.
pub exchange_all-StaysMarked :
    (k : Kernel) (rounds : List (FdSet × FdSet)) (c : Connection) (t : Trace)
    → ReadsFit k
    → IsSound c
    → c.to_disconnect ≡ true
    → Returns (exchange_all rounds c k t) (λ c' _. c'.to_disconnect ≡ true)
exchange_all-StaysMarked k rounds c t fit v marked =
    Returns-map (exchange_all rounds c k t) (Refines c t) _
      (exchange_all-Refines k rounds c t fit v) (λ d u a. Run-closing a.1.run marked)
