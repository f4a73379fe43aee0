-- ===== src/PortForwarder.antt =====
-- net_lab7/PortForwarder: the older event loop, on one list of connections. The counter behind the
-- pointer `nfds` is a field.
use nsu_net_course.Prelude.{ℤ, List, [], ◌∷◌}
use nsu_net_course.Kernel.{M, pure, ◌>>=◌, ◌>>◌, FdSet, close, select}
use nsu_net_course.FdSet.{fd_zero, fd_isset}
use nsu_net_course.Connection.{Connection, delete_connection}
use nsu_net_course.Masks
use nsu_net_course.Prelude.{Bool}

pub record PortForwarder : Type 0 where
  pub connection_list : List Connection
  pub readset : FdSet
  pub writeset : FdSet
  pub nfds : ℤ
  pub listenfd : ℤ

-- The constructor; the sets are cleared before they are read.
abbrev pub new_port_forwarder : ℤ → ℤ → PortForwarder
new_port_forwarder nfds listenfd = record {
  connection_list = [];
  readset = fd_zero;
  writeset = fd_zero;
  nfds = nfds;
  listenfd = listenfd;
}

unfoldable pub delete_all : List Connection → M (Unit {0})
delete_all [] = pure tt
delete_all (c ∷ cs) = do delete_connection c; delete_all cs

-- The destructor.
unfoldable pub delete_port_forwarder : PortForwarder → M (Unit {0})
unfolding delete_all
delete_port_forwarder p = do close p.listenfd; delete_all p.connection_list

unfoldable pub disconnect : Connection → PortForwarder → M PortForwarder
disconnect c p = do
  parts ← Masks.disconnect c ([], p.connection_list)
  pure (record p { connection_list = parts.1 })

unfoldable pub make_select_masks : PortForwarder → M PortForwarder
make_select_masks p = do
  r ← Masks.make_masks p.listenfd p.connection_list
  pure (record p { connection_list = r.0; readset = r.1; writeset = r.2 })

unfoldable pub process_masks : PortForwarder → M PortForwarder
process_masks p = do
  cs ← Masks.process_all p.readset p.writeset p.connection_list
  pure (record p { connection_list = cs })

abbrev pub get_readset : PortForwarder → FdSet
get_readset p = p.readset

unfoldable pub forward_select : PortForwarder → M (PortForwarder × ℤ)
forward_select p = do
  r ← select p.nfds p.readset p.writeset
  pure (record p { readset = r.readable; writeset = r.writable }, r.count)

abbrev pub listenfd_set : PortForwarder → M Bool
listenfd_set p = fd_isset p.listenfd p.readset
