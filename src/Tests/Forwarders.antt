-- ===== src/Tests/Forwarders.antt =====
-- The older event loop on two connections.
use nsu_net_course.Prelude.{pos, negsuc, [], ◌∷◌, refl, arith}
use nsu_net_course.Kernel.Returns.{Returns}
use nsu_net_course.Connection.{Connection}
use nsu_net_course.Masks.{make_masks, is_dead}
use nsu_net_course.Masks.Loop.{Masked, start_sets, make_masks-Masked}
use nsu_net_course.Tests.Sample.{replying}
use nsu_net_course.Tests.Connections.{idle}

-- The client of this connection has closed its side.
abbrev dead : Connection
dead = record idle { address = 7; client_socket = pos 10; data_cf = negsuc 0 }

make_masks-Masked_example :
    Returns
      (make_masks (pos 3) (idle ∷ dead ∷ []) (replying []) [])
      (Masked [] (idle ∷ dead ∷ []) (start_sets (pos 3)) [])
unfolding is_dead
make_masks-Masked_example =
    make_masks-Masked (replying []) [] (pos 3) idle (dead ∷ []) refl refl (omega arith)
      ((refl, refl), ((refl, refl), tt))
