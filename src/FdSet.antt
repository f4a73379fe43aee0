-- ===== src/FdSet.antt =====
-- The macros of <sys/select.h> on descriptor sets. Outside 0 to FD_SETSIZE - 1 they touch memory
-- that is not the set's.
use nsu_net_course.Prelude.{ℕ, ℤ, pos, negsuc, Bool, false, ◌||◌, ltb, same, if◌then◌else◌}
use nsu_net_course.Exceptions.{undefined_behaviour}
use nsu_net_course.Kernel.{FdSet, M, pure, throw}

abbrev pub fd_setsize : ℕ
fd_setsize = 1024

-- A descriptor that the sets have a bit for.
abbrev pub in_range : ℤ → Bool
in_range (pos n) = ltb n fd_setsize
in_range (negsuc n) = false

abbrev pub fd_zero : FdSet
fd_zero fd = false

abbrev pub with_fd : ℤ → FdSet → FdSet
with_fd fd s g = same fd g || s g

unfoldable pub fd_set : ℤ → FdSet → M FdSet
fd_set fd s = if in_range fd then pure (with_fd fd s) else throw undefined_behaviour

unfoldable pub fd_isset : ℤ → FdSet → M Bool
fd_isset fd s = if in_range fd then pure (s fd) else throw undefined_behaviour
