-- ===== src/CompilerId/Dialect.antt =====
-- The dialect that the C++ program shows for a value of `__cplusplus`.
use nsu_net_course.Prelude.{ℕ, ◌+◌, ltb, if◌then◌else◌}
use nsu_net_course.Kernel.{Bytes}
use nsu_net_course.CompilerId.Digits.{read_digits}

-- The year that two digits stand for.
abbrev pub year : Bytes → ℕ
year text = let n = read_digits 10 0 text in if ltb n 50 then 2000 + n else 1900 + n
