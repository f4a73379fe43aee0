-- ===== src/Server/Legacy.antt =====
-- The members of net_lab7/Server that `run` does not call: the older event loop on the server's own
-- list.
use nsu_net_course.Prelude.{Bool, []}
use nsu_net_course.Kernel.{M, pure, ◌>>=◌, FdSet}
use nsu_net_course.FdSet.{fd_isset}
use nsu_net_course.Connection.{Connection}
use nsu_net_course.Masks
use nsu_net_course.Server.{Server}

unfoldable pub disconnect : Connection → Server → M Server
disconnect c s = do
  parts ← Masks.disconnect c ([], s.connection_list)
  pure (record s { connection_list = parts.1 })

unfoldable pub make_select_masks : Server → M Server
make_select_masks s = do
  r ← Masks.make_masks s.listen_sockfd s.connection_list
  pure (record s { connection_list = r.0; readset = r.1; writeset = r.2 })

unfoldable pub process_masks : Server → M Server
process_masks s = do
  cs ← Masks.process_all s.readset s.writeset s.connection_list
  pure (record s { connection_list = cs })

abbrev pub get_readset : Server → FdSet
get_readset s = s.readset

abbrev pub listenfd_set : Server → M Bool
listenfd_set s = fd_isset s.listen_sockfd s.readset
