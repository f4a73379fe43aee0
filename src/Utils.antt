-- ===== src/Utils.antt =====
-- net_lab7/Utils.h: `Utils::checkSocket`. The variable behind `nfds` is passed and returned.
use nsu_net_course.Prelude.{ℤ, pos, not, ltb_ℤ, suc_ℤ, if◌then◌else◌}
use nsu_net_course.Exceptions.{connection_exception}
use nsu_net_course.Kernel.{M, pure, throw}
use nsu_net_course.FdSet.{fd_setsize}

unfoldable pub check_socket : ℤ → ℤ → M ℤ
check_socket socket nfds =
    if not (ltb_ℤ socket (pos fd_setsize))
    then throw (connection_exception "Socket number out of range")
    else if ltb_ℤ nfds (suc_ℤ socket)
    then pure (suc_ℤ socket)
    else pure nfds
