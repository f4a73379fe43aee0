-- ===== src/Connection/Relay.antt =====
-- `Connection::exchangeData` as a whole, and any number of its rounds.
use nsu_net_course.Prelude.{List, [], ◌∷◌, ◌≢◌, refl}
use nsu_net_course.Kernel.{Kernel, Trace, M, pure, ◌>>=◌, ReadsFit, FdSet, ignored_sigpipe}
use nsu_net_course.Kernel.Returns.{Returns, Returns-bind, Returns-map}
use nsu_net_course.Connection.{Connection, pull_cf, pull_fc, push_cf, push_fc, exchange_data}
use nsu_net_course.Connection.Transfer.{IsSound, Moves-still, Moves-quiet, Moves-trans}
use nsu_net_course.Connection.Receiving.{Advances, pull_cf_lem, pull_fc_lem}
use nsu_net_course.Connection.Sending.{push_cf_lem, push_fc_lem}

-- A step that is right for every sound connection with different sockets.
abbrev pub IsRight : Kernel → (Connection → M Connection) → Type 0
IsRight k f =
    (c : Connection) (t : Trace)
    → c.client_socket ≢ c.forwarding_socket
    → IsSound c
    → Returns (f c k t) (Advances c t)

IsRight-then :
    (k : Kernel) (f g : Connection → M Connection)
    → IsRight k f
    → IsRight k g
    → IsRight k (λ c. f c >>= g)
IsRight-then k f g first next c t apart v =
    Returns-bind (f c) g (Advances c t) (Advances c t) k t (first c t apart v) λ d u a.
      Returns-map (g d k u) (Advances d u) (Advances c t)
        (next d u (rw (a.1.same_client, a.1.same_forward) apart) a.0)
        (λ e w b. (b.0, Moves-trans a.1 b.1))

-- A round of `exchangeData` on a sound connection returns: it never reads or writes outside a buffer
-- or a descriptor set. The connection stays sound, and in each direction the bytes that waited,
-- and behind them those that the round has read, are those that it gave to sends that did not fail,
-- and behind them those that wait now. The two sockets are different, and reads keep to their
-- buffers.
exchange_data-Advances :
    (k : Kernel) (rd wr : FdSet) (c : Connection) (t : Trace)
    → ReadsFit k
    → c.client_socket ≢ c.forwarding_socket
    → IsSound c
    → Returns (exchange_data rd wr c k t) (Advances c t)
unfolding exchange_data
exchange_data-Advances k rd wr c t fit apart v =
    let u = ignored_sigpipe ∷ t in
    let quiet = Moves-quiet c t u (λ _. refl) (λ _. refl) in
    Returns-map (exchange_data rd wr c k t) (Advances c u) (Advances c t)
      (IsRight-then k (pull_cf rd) (λ c1. pull_fc rd c1 >>= λ c2. push_cf wr c2 >>= push_fc wr)
        (λ d u. pull_cf_lem k u rd d fit)
        (IsRight-then k (pull_fc rd) (λ c2. push_cf wr c2 >>= push_fc wr)
          (λ d u. pull_fc_lem k u rd d fit)
          (IsRight-then k (push_cf wr) (push_fc wr) (λ d u. push_cf_lem k u wr d)
            (λ d u. push_fc_lem k u wr d)))
        c u apart v)
      (λ d w a. (a.0, Moves-trans quiet a.1))

-- `exchangeData` once for each pair of sets.
unfoldable pub exchange_all : List (FdSet × FdSet) → Connection → M Connection
exchange_all [] c = pure c
exchange_all ((rd, wr) ∷ rest) c = do c' ← exchange_data rd wr c; exchange_all rest c'

-- Any number of rounds of `exchangeData`, whatever `select` reports, on a sound connection with
-- different sockets returns without undefined behaviour and stays sound, and in each direction the
-- bytes that waited and those received since are, in order, those given since to sends that did not
-- fail and those that wait in the buffer. A send may have taken only a part of what it was given: the
-- rest is not among those that wait. Reads keep to their buffers.
pub exchange_all-Advances :
    (k : Kernel) (rounds : List (FdSet × FdSet)) (c : Connection) (t : Trace)
    → ReadsFit k
    → c.client_socket ≢ c.forwarding_socket
    → IsSound c
    → Returns (exchange_all rounds c k t) (Advances c t)
unfolding exchange_all
exchange_all-Advances k [] c t fit apart v = (v, Moves-still c t)
exchange_all-Advances k ((rd, wr) ∷ rest) c t fit apart v =
    IsRight-then k (exchange_data rd wr) (exchange_all rest)
      (λ d u. exchange_data-Advances k rd wr d u fit) (λ d u. exchange_all-Advances k rest d u fit)
      c t apart v
