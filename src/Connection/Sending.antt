-- ===== src/Connection/Sending.antt =====
-- The two `if` statements of `exchangeData` that send.
use nsu_net_course.Prelude.{
  [], ◌∷◌, ◌++◌, ◌≡◌, ◌≢◌, refl, sym, ◌∙◌, is_positive, append-nil, arith, inl, inr, Bool-cases,
  le→leb,
}
use nsu_net_course.Kernel.{Kernel, Trace, Sent, took, no_room, write_error, sent, FdSet}
use nsu_net_course.Kernel.Returns.{Returns}
use nsu_net_course.Kernel.Traffic.{handed, same_self, same_other}
use nsu_net_course.FdSet.{fd_isset}
use nsu_net_course.Buffer.{prefix}
use nsu_net_course.Connection.{Connection, after_send_cf, after_send_fc, push_cf, push_fc}
use nsu_net_course.Connection.Transfer.{IsSound, Moves, Moves-still, pending_cf, pending_fc}
use nsu_net_course.Connection.Receiving.{Advances}

pub after_send_cf-IsSound : (r : Sent) (c : Connection) → IsSound c → IsSound (after_send_cf r c)
unfolding after_send_cf
after_send_cf-IsSound (took n) c v = ground arith
after_send_cf-IsSound no_room c v = v
after_send_cf-IsSound write_error c v = ground arith

pending-after_send_cf :
    (r : Sent) (c : Connection)
    → (pending_cf c ≡ handed (pending_cf c) r ++ pending_cf (after_send_cf r c))
      × (pending_fc (after_send_cf r c) ≡ pending_fc c)
      × ((after_send_cf r c).client_socket ≡ c.client_socket)
      × ((after_send_cf r c).forwarding_socket ≡ c.forwarding_socket)
unfolding after_send_cf prefix
pending-after_send_cf (took n) c = (sym (append-nil _), refl, refl, refl)
pending-after_send_cf no_room c = (refl, refl, refl, refl)
pending-after_send_cf write_error c = (refl, refl, refl, refl)

pub after_send_cf-Moves :
    (r : Sent) (c : Connection) (t : Trace)
    → c.client_socket ≢ c.forwarding_socket
    → Moves c t (after_send_cf r c) (sent c.forwarding_socket (pending_cf c) r ∷ t)
after_send_cf-Moves r c t apart = record {
  same_client = (pending-after_send_cf r c).2;
  same_forward = (pending-after_send_cf r c).3;
  in_cf = [];
  in_fc = [];
  out_cf = handed (pending_cf c) r;
  out_fc = [];
  from_client = sym (append-nil _);
  from_forward = sym (append-nil _);
  to_forward = rw (same_self c.forwarding_socket);
  to_client = rw (same_other c.forwarding_socket _ (λ e. apart (sym e))) (sym (append-nil _));
  cf_kept = append-nil _ ∙ (pending-after_send_cf r c).0;
  fc_kept = append-nil _ ∙ sym (pending-after_send_cf r c).1;
}

pub push_cf_lem :
    (k : Kernel) (t : Trace) (wr : FdSet) (c : Connection)
    → c.client_socket ≢ c.forwarding_socket
    → IsSound c
    → Returns (push_cf wr c k t) (Advances c t)
unfolding push_cf fd_isset
push_cf_lem k t wr c apart v = elim (Bool-cases (is_positive c.data_cf)) [
  | inr busy ↦ rw busy (v, Moves-still c t)
  | inl some_data ↦ elim (Bool-cases (wr c.forwarding_socket)) [
    | inr full ↦ rw (some_data, v.forward_in_range, full) (v, Moves-still c t)
    | inl ready ↦
        let r = k.send_to t c.forwarding_socket (pending_cf c) in
        rw (some_data, v.forward_in_range, ready, le→leb _ _ v.cf_fits)
          (after_send_cf-IsSound r c v, after_send_cf-Moves r c t apart)
  ]
]

pub after_send_fc-IsSound : (r : Sent) (c : Connection) → IsSound c → IsSound (after_send_fc r c)
unfolding after_send_fc
after_send_fc-IsSound (took n) c v = ground arith
after_send_fc-IsSound no_room c v = v
after_send_fc-IsSound write_error c v = ground arith

pending-after_send_fc :
    (r : Sent) (c : Connection)
    → (pending_fc c ≡ handed (pending_fc c) r ++ pending_fc (after_send_fc r c))
      × (pending_cf (after_send_fc r c) ≡ pending_cf c)
      × ((after_send_fc r c).forwarding_socket ≡ c.forwarding_socket)
      × ((after_send_fc r c).client_socket ≡ c.client_socket)
unfolding after_send_fc prefix
pending-after_send_fc (took n) c = (sym (append-nil _), refl, refl, refl)
pending-after_send_fc no_room c = (refl, refl, refl, refl)
pending-after_send_fc write_error c = (refl, refl, refl, refl)

pub after_send_fc-Moves :
    (r : Sent) (c : Connection) (t : Trace)
    → c.client_socket ≢ c.forwarding_socket
    → Moves c t (after_send_fc r c) (sent c.client_socket (pending_fc c) r ∷ t)
after_send_fc-Moves r c t apart = record {
  same_forward = (pending-after_send_fc r c).2;
  same_client = (pending-after_send_fc r c).3;
  in_fc = [];
  in_cf = [];
  out_fc = handed (pending_fc c) r;
  out_cf = [];
  from_forward = sym (append-nil _);
  from_client = sym (append-nil _);
  to_client = rw (same_self c.client_socket);
  to_forward = rw (same_other _ _ apart) (sym (append-nil _));
  fc_kept = append-nil _ ∙ (pending-after_send_fc r c).0;
  cf_kept = append-nil _ ∙ sym (pending-after_send_fc r c).1;
}

pub push_fc_lem :
    (k : Kernel) (t : Trace) (wr : FdSet) (c : Connection)
    → c.client_socket ≢ c.forwarding_socket
    → IsSound c
    → Returns (push_fc wr c k t) (Advances c t)
unfolding push_fc fd_isset
push_fc_lem k t wr c apart v = elim (Bool-cases (is_positive c.data_fc)) [
  | inr busy ↦ rw busy (v, Moves-still c t)
  | inl some_data ↦ elim (Bool-cases (wr c.client_socket)) [
    | inr full ↦ rw (some_data, v.client_in_range, full) (v, Moves-still c t)
    | inl ready ↦
        let r = k.send_to t c.client_socket (pending_fc c) in
        rw (some_data, v.client_in_range, ready, le→leb _ _ v.fc_fits)
          (after_send_fc-IsSound r c v, after_send_fc-Moves r c t apart)
  ]
]
