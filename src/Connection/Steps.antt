-- ===== src/Connection/Steps.antt =====
-- A connection as a pipe, and what the answers of `recv` and `send` do to it.
use nsu_net_course.Prelude.{◌∙◌, ◌≤◌, ◌∷◌, ◌≡◌, refl, true, is_zero, is_positive, length}
use nsu_net_course.Kernel.{
  Trace, Event, Received, got, no_data, read_error, received, Sent, took, no_room, write_error,
  sent,
}
use nsu_net_course.Kernel.Traffic.{payload}
use nsu_net_course.Connection.{
  Connection, bufsize, after_recv_cf, after_recv_fc, after_send_cf, after_send_fc,
}
use nsu_net_course.Connection.Transfer.{pending_cf, pending_fc}
use nsu_net_course.Connection.Flows.{
  waiting, reads-FlowStep, idle-FlowStep, breaks-FlowStep, delivers-FlowStep, waits-FlowStep,
  is_refused-FlowStep,
}
use nsu_net_course.Connection.Pipe.{Pipe, Step, goes_forth, goes_back, Run, here, next, Run-trans}

abbrev pub pipe_of : Connection → Pipe
pipe_of c = record {
  cf = waiting c.data_cf c.buffer_cf;
  fc = waiting c.data_fc c.buffer_fc;
  to_close = c.to_disconnect;
}

-- From (c, t) to (c', t') by steps of the pipe between the two sockets, which stay.
pub record Pipes (c : Connection) (t : Trace) (c' : Connection) (t' : Trace) : Type 0 where
  pub same_client : c'.client_socket ≡ c.client_socket
  pub same_forward : c'.forwarding_socket ≡ c.forwarding_socket
  pub run : Run c.client_socket c.forwarding_socket (pipe_of c) t (pipe_of c') t'

pub Pipes-still : (c : Connection) (t : Trace) → Pipes c t c t
Pipes-still c t = record { same_client = refl; same_forward = refl; run = here }

pub Pipes-trans :
    {c d e : Connection} {t u v : Trace} → Pipes c t d u → Pipes d u e v → Pipes c t e v
Pipes-trans m n = record {
  same_client = n.same_client ∙ m.same_client;
  same_forward = n.same_forward ∙ m.same_forward;
  run = Run-trans m.run (rw (m.same_client, m.same_forward) at n.run);
}

pub one_step :
    {c d : Connection} {t : Trace} {e : Event}
    → d.client_socket ≡ c.client_socket
    → d.forwarding_socket ≡ c.forwarding_socket
    → Step c.client_socket c.forwarding_socket (pipe_of c) e (pipe_of d)
    → Pipes c t d (e ∷ t)
one_step client forward s = record {
  same_client = client;
  same_forward = forward;
  run = next _ here s;
}

pub after_recv_cf-Pipes :
    (t : Trace) (r : Received) (c : Connection)
    → is_zero c.data_cf ≡ true
    → length (payload r) ≤ bufsize
    → Pipes c t (after_recv_cf r c) (received c.client_socket r ∷ t)
unfolding after_recv_cf
after_recv_cf-Pipes t (got bs) c idle fit = one_step refl refl (
    goes_forth _ _ _ refl (
      reads-FlowStep c.client_socket c.forwarding_socket bs c.data_cf c.buffer_cf c.to_disconnect
        idle fit))
after_recv_cf-Pipes t no_data c idle fit = one_step refl refl (
    goes_forth _ _ _ refl (
      idle-FlowStep c.client_socket c.forwarding_socket c.data_cf c.buffer_cf c.to_disconnect idle))
after_recv_cf-Pipes t read_error c idle fit = one_step refl refl (
    goes_forth _ _ _ refl (
      breaks-FlowStep c.client_socket c.forwarding_socket c.data_cf c.buffer_cf c.to_disconnect
        idle))

pub after_send_cf-Pipes :
    (t : Trace) (r : Sent) (c : Connection)
    → is_positive c.data_cf ≡ true
    → Pipes c t (after_send_cf r c) (sent c.forwarding_socket (pending_cf c) r ∷ t)
unfolding after_send_cf
after_send_cf-Pipes t (took n) c busy = one_step refl refl (
    goes_forth _ _ _ refl (
      delivers-FlowStep c.client_socket c.forwarding_socket n c.data_cf c.buffer_cf c.to_disconnect
        busy))
after_send_cf-Pipes t no_room c busy = one_step refl refl (
    goes_forth _ _ _ refl (
      waits-FlowStep c.client_socket c.forwarding_socket c.data_cf c.buffer_cf c.to_disconnect
        busy))
after_send_cf-Pipes t write_error c busy = one_step refl refl (
    goes_forth _ _ _ refl (
      is_refused-FlowStep c.client_socket c.forwarding_socket c.data_cf c.buffer_cf c.to_disconnect
        busy))

pub after_recv_fc-Pipes :
    (t : Trace) (r : Received) (c : Connection)
    → is_zero c.data_fc ≡ true
    → length (payload r) ≤ bufsize
    → Pipes c t (after_recv_fc r c) (received c.forwarding_socket r ∷ t)
unfolding after_recv_fc
after_recv_fc-Pipes t (got bs) c idle fit = one_step refl refl (
    goes_back _ _ _ refl (
      reads-FlowStep c.forwarding_socket c.client_socket bs c.data_fc c.buffer_fc c.to_disconnect
        idle fit))
after_recv_fc-Pipes t no_data c idle fit = one_step refl refl (
    goes_back _ _ _ refl (
      idle-FlowStep c.forwarding_socket c.client_socket c.data_fc c.buffer_fc c.to_disconnect idle))
after_recv_fc-Pipes t read_error c idle fit = one_step refl refl (
    goes_back _ _ _ refl (
      breaks-FlowStep c.forwarding_socket c.client_socket c.data_fc c.buffer_fc c.to_disconnect
        idle))

pub after_send_fc-Pipes :
    (t : Trace) (r : Sent) (c : Connection)
    → is_positive c.data_fc ≡ true
    → Pipes c t (after_send_fc r c) (sent c.client_socket (pending_fc c) r ∷ t)
unfolding after_send_fc
after_send_fc-Pipes t (took n) c busy = one_step refl refl (
    goes_back _ _ _ refl (
      delivers-FlowStep c.forwarding_socket c.client_socket n c.data_fc c.buffer_fc c.to_disconnect
        busy))
after_send_fc-Pipes t no_room c busy = one_step refl refl (
    goes_back _ _ _ refl (
      waits-FlowStep c.forwarding_socket c.client_socket c.data_fc c.buffer_fc c.to_disconnect
        busy))
after_send_fc-Pipes t write_error c busy = one_step refl refl (
    goes_back _ _ _ refl (
      is_refused-FlowStep c.forwarding_socket c.client_socket c.data_fc c.buffer_fc c.to_disconnect
        busy))
