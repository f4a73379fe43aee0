-- ===== src/Connection/Receiving.antt =====
-- The two `if` statements of `exchangeData` that read.
use nsu_net_course.Prelude.{
  ℤ, [], ◌∷◌, ◌≡◌, ◌≢◌, ◌≤◌, refl, sym, ◌∙◌, true, is_zero, length, append-nil, arith, inl, inr,
  Bool-cases,
}
use nsu_net_course.Kernel.{
  Kernel, Trace, Received, got, no_data, read_error, received, ReadsFit, FdSet,
}
use nsu_net_course.Kernel.Returns.{Returns}
use nsu_net_course.Kernel.Traffic.{payload, same_self, same_other}
use nsu_net_course.FdSet.{fd_isset}
use nsu_net_course.Buffer.{prefix, prefix-overwrite}
use nsu_net_course.Connection.{Connection, bufsize, after_recv_cf, after_recv_fc, pull_cf, pull_fc}
use nsu_net_course.Connection.Transfer.{IsSound, Moves, Moves-still, pending_cf, pending_fc}

-- The two sockets are different, and the connection has come from (c, t) to (c', t') in order.
abbrev pub Advances : Connection → Trace → Connection → Trace → Type 0
Advances c t c' t' = IsSound c' × Moves c t c' t'

pub payload_fits :
    (k : Kernel) (t : Trace) (fd : ℤ) (r : Received)
    → ReadsFit k
    → k.receive_from t fd bufsize ≡ r
    → length (payload r) ≤ bufsize
payload_fits k t fd (got bs) fit e = (fit t fd bufsize bs e).0
payload_fits k t fd no_data fit e = omega arith
payload_fits k t fd read_error fit e = omega arith

empty_cf : (c : Connection) → is_zero c.data_cf ≡ true → pending_cf c ≡ []
unfolding prefix
empty_cf c e = ground arith

pub after_recv_cf-IsSound :
    (r : Received) (c : Connection)
    → length (payload r) ≤ bufsize
    → IsSound c
    → IsSound (after_recv_cf r c)
unfolding after_recv_cf
after_recv_cf-IsSound (got bs) c h v = ground arith
after_recv_cf-IsSound no_data c h v = ground arith
after_recv_cf-IsSound read_error c h v = ground arith

pub pending-after_recv_cf :
    (r : Received) (c : Connection)
    → (pending_cf (after_recv_cf r c) ≡ payload r)
      × (pending_fc (after_recv_cf r c) ≡ pending_fc c)
      × ((after_recv_cf r c).client_socket ≡ c.client_socket)
      × ((after_recv_cf r c).forwarding_socket ≡ c.forwarding_socket)
unfolding after_recv_cf prefix
pending-after_recv_cf (got bs) c = (prefix-overwrite bs c.buffer_cf, refl, refl, refl)
pending-after_recv_cf no_data c = (refl, refl, refl, refl)
pending-after_recv_cf read_error c = (refl, refl, refl, refl)

pub after_recv_cf-Moves :
    (r : Received) (c : Connection) (t : Trace)
    → c.client_socket ≢ c.forwarding_socket
    → is_zero c.data_cf ≡ true
    → Moves c t (after_recv_cf r c) (received c.client_socket r ∷ t)
after_recv_cf-Moves r c t apart idle = record {
  same_client = (pending-after_recv_cf r c).2;
  same_forward = (pending-after_recv_cf r c).3;
  in_cf = payload r;
  in_fc = [];
  out_cf = [];
  out_fc = [];
  from_client = rw (same_self c.client_socket);
  from_forward = rw (same_other _ _ apart) (sym (append-nil _));
  to_forward = sym (append-nil _);
  to_client = sym (append-nil _);
  cf_kept = rw (empty_cf c idle) (sym (pending-after_recv_cf r c).0);
  fc_kept = append-nil _ ∙ sym (pending-after_recv_cf r c).1;
}

pub pull_cf_lem :
    (k : Kernel) (t : Trace) (rd : FdSet) (c : Connection)
    → ReadsFit k
    → c.client_socket ≢ c.forwarding_socket
    → IsSound c
    → Returns (pull_cf rd c k t) (Advances c t)
unfolding pull_cf fd_isset
pull_cf_lem k t rd c fit apart v = elim (Bool-cases (is_zero c.data_cf)) [
  | inr busy ↦ rw busy (v, Moves-still c t)
  | inl idle ↦ elim (Bool-cases (rd c.client_socket)) [
    | inr quiet ↦ rw (idle, v.client_in_range, quiet) (v, Moves-still c t)
    | inl ready ↦
        let r = k.receive_from t c.client_socket bufsize in
        rw (idle, v.client_in_range, ready)
          (
            after_recv_cf-IsSound r c (payload_fits k t c.client_socket r fit refl) v,
            after_recv_cf-Moves r c t apart idle,
          )
  ]
]

empty_fc : (c : Connection) → is_zero c.data_fc ≡ true → pending_fc c ≡ []
unfolding prefix
empty_fc c e = ground arith

pub after_recv_fc-IsSound :
    (r : Received) (c : Connection)
    → length (payload r) ≤ bufsize
    → IsSound c
    → IsSound (after_recv_fc r c)
unfolding after_recv_fc
after_recv_fc-IsSound (got bs) c h v = ground arith
after_recv_fc-IsSound no_data c h v = ground arith
after_recv_fc-IsSound read_error c h v = ground arith

pub pending-after_recv_fc :
    (r : Received) (c : Connection)
    → (pending_fc (after_recv_fc r c) ≡ payload r)
      × (pending_cf (after_recv_fc r c) ≡ pending_cf c)
      × ((after_recv_fc r c).forwarding_socket ≡ c.forwarding_socket)
      × ((after_recv_fc r c).client_socket ≡ c.client_socket)
unfolding after_recv_fc prefix
pending-after_recv_fc (got bs) c = (prefix-overwrite bs c.buffer_fc, refl, refl, refl)
pending-after_recv_fc no_data c = (refl, refl, refl, refl)
pending-after_recv_fc read_error c = (refl, refl, refl, refl)

pub after_recv_fc-Moves :
    (r : Received) (c : Connection) (t : Trace)
    → c.client_socket ≢ c.forwarding_socket
    → is_zero c.data_fc ≡ true
    → Moves c t (after_recv_fc r c) (received c.forwarding_socket r ∷ t)
after_recv_fc-Moves r c t apart idle = record {
  same_forward = (pending-after_recv_fc r c).2;
  same_client = (pending-after_recv_fc r c).3;
  in_fc = payload r;
  in_cf = [];
  out_fc = [];
  out_cf = [];
  from_forward = rw (same_self c.forwarding_socket);
  from_client = rw (same_other c.forwarding_socket _ (λ e. apart (sym e))) (sym (append-nil _));
  to_client = sym (append-nil _);
  to_forward = sym (append-nil _);
  fc_kept = rw (empty_fc c idle) (sym (pending-after_recv_fc r c).0);
  cf_kept = append-nil _ ∙ sym (pending-after_recv_fc r c).1;
}

pub pull_fc_lem :
    (k : Kernel) (t : Trace) (rd : FdSet) (c : Connection)
    → ReadsFit k
    → c.client_socket ≢ c.forwarding_socket
    → IsSound c
    → Returns (pull_fc rd c k t) (Advances c t)
unfolding pull_fc fd_isset
pull_fc_lem k t rd c fit apart v = elim (Bool-cases (is_zero c.data_fc)) [
  | inr busy ↦ rw busy (v, Moves-still c t)
  | inl idle ↦ elim (Bool-cases (rd c.forwarding_socket)) [
    | inr quiet ↦ rw (idle, v.forward_in_range, quiet) (v, Moves-still c t)
    | inl ready ↦
        let r = k.receive_from t c.forwarding_socket bufsize in
        rw (idle, v.forward_in_range, ready)
          (
            after_recv_fc-IsSound r c (payload_fits k t c.forwarding_socket r fit refl) v,
            after_recv_fc-Moves r c t apart idle,
          )
  ]
]
