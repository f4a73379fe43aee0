-- ===== src/Connection/Transfer.antt =====
-- What one round of `Connection::exchangeData` does to the bytes in flight.
use nsu_net_course.Prelude.{
  ℤ, [], ◌++◌, ◌≡◌, ◌≤◌, refl, sym, ap, ◌∙◌, true, magnitude, append-nil, append_assoc, is_negative,
}
use nsu_net_course.Kernel.{Trace, Bytes}
use nsu_net_course.Kernel.Traffic.{received_from, handed_to}
use nsu_net_course.FdSet.{in_range}
use nsu_net_course.Buffer.{prefix}
use nsu_net_course.Connection.{Connection, bufsize}

-- The bytes that wait in the buffers.
abbrev pub pending_cf : Connection → Bytes
pending_cf c = prefix (magnitude c.data_cf) c.buffer_cf

abbrev pub pending_fc : Connection → Bytes
pending_fc c = prefix (magnitude c.data_fc) c.buffer_fc

-- The sizes fit the buffers, and a failed direction is one that will be disconnected.
pub record IsSound (c : Connection) : Type 0 where
  pub client_in_range : in_range c.client_socket ≡ true
  pub forward_in_range : in_range c.forwarding_socket ≡ true
  pub cf_fits : magnitude c.data_cf ≤ bufsize
  pub fc_fits : magnitude c.data_fc ≤ bufsize
  pub cf_failed : is_negative c.data_cf ≡ true → c.to_disconnect ≡ true
  pub fc_failed : is_negative c.data_fc ≡ true → c.to_disconnect ≡ true

-- From (c, t) to (c', t') the `in` bytes were read and the `out` bytes given to sends that did not
-- fail, and what is left over waits in the buffers.
pub record Moves (c : Connection) (t : Trace) (c' : Connection) (t' : Trace) : Type 0 where
  pub same_client : c'.client_socket ≡ c.client_socket
  pub same_forward : c'.forwarding_socket ≡ c.forwarding_socket
  pub in_cf : Bytes
  pub in_fc : Bytes
  pub out_cf : Bytes
  pub out_fc : Bytes
  pub from_client : received_from c.client_socket t' ≡ received_from c.client_socket t ++ in_cf
  pub from_forward :
      received_from c.forwarding_socket t' ≡ received_from c.forwarding_socket t ++ in_fc
  pub to_forward : handed_to c.forwarding_socket t' ≡ handed_to c.forwarding_socket t ++ out_cf
  pub to_client : handed_to c.client_socket t' ≡ handed_to c.client_socket t ++ out_fc
  pub cf_kept : pending_cf c ++ in_cf ≡ out_cf ++ pending_cf c'
  pub fc_kept : pending_fc c ++ in_fc ≡ out_fc ++ pending_fc c'

-- Events that carry no bytes.
pub Moves-quiet :
    (c : Connection) (t t' : Trace)
    → ((fd : ℤ) → received_from fd t' ≡ received_from fd t)
    → ((fd : ℤ) → handed_to fd t' ≡ handed_to fd t)
    → Moves c t c t'
Moves-quiet c t t' reads sends = record {
  same_client = refl;
  same_forward = refl;
  in_cf = [];
  in_fc = [];
  out_cf = [];
  out_fc = [];
  from_client = reads _ ∙ sym (append-nil _);
  from_forward = reads _ ∙ sym (append-nil _);
  to_forward = sends _ ∙ sym (append-nil _);
  to_client = sends _ ∙ sym (append-nil _);
  cf_kept = append-nil _;
  fc_kept = append-nil _;
}

pub Moves-still : (c : Connection) (t : Trace) → Moves c t c t
Moves-still c t = Moves-quiet c t t (λ _. refl) (λ _. refl)

regroup :
    (p i₁ i₂ o₁ o₂ q r : Bytes)
    → p ++ i₁ ≡ o₁ ++ q
    → q ++ i₂ ≡ o₂ ++ r
    → p ++ (i₁ ++ i₂) ≡ (o₁ ++ o₂) ++ r
regroup p i₁ i₂ o₁ o₂ q r e f =
    sym (append_assoc p i₁ i₂)
    ∙ ap (λ x. x ++ i₂) e
    ∙ append_assoc o₁ q i₂
    ∙ ap (λ x. o₁ ++ x) f
    ∙ sym (append_assoc o₁ o₂ r)

extend : (x y z i₁ i₂ : Bytes) → y ≡ x ++ i₁ → z ≡ y ++ i₂ → z ≡ x ++ (i₁ ++ i₂)
extend x y z i₁ i₂ e f = f ∙ ap (λ w. w ++ i₂) e ∙ append_assoc x i₁ i₂

pub Moves-trans :
    {c d e : Connection} {t u v : Trace} → Moves c t d u → Moves d u e v → Moves c t e v
Moves-trans {v} m n = record {
  same_client = n.same_client ∙ m.same_client;
  same_forward = n.same_forward ∙ m.same_forward;
  in_cf = m.in_cf ++ n.in_cf;
  in_fc = m.in_fc ++ n.in_fc;
  out_cf = m.out_cf ++ n.out_cf;
  out_fc = m.out_fc ++ n.out_fc;
  from_client = extend _ _ _ m.in_cf n.in_cf m.from_client (rw m.same_client at n.from_client);
  from_forward = extend _ _ _ m.in_fc n.in_fc m.from_forward (rw m.same_forward at n.from_forward);
  to_forward = extend _ _ _ m.out_cf n.out_cf m.to_forward (rw m.same_forward at n.to_forward);
  to_client = extend _ _ _ m.out_fc n.out_fc m.to_client (rw m.same_client at n.to_client);
  cf_kept = regroup _ m.in_cf n.in_cf m.out_cf n.out_cf _ _ m.cf_kept n.cf_kept;
  fc_kept = regroup _ m.in_fc n.in_fc m.out_fc n.out_fc _ _ m.fc_kept n.fc_kept;
}
