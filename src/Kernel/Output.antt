-- ===== src/Kernel/Output.antt =====
-- The bytes that `send` and `write` take from an array of `max` bytes.
use nsu_net_course.Prelude.{
  ℕ, ℤ, pos, negsuc, ◌≤◌, false, ◌≡◌, refl, is_negative, magnitude, le→leb,
}
use nsu_net_course.Exceptions.{implementation_defined}
use nsu_net_course.Kernel.{Kernel, Trace, Bytes, M, ok, throw, or_undefined}
use nsu_net_course.Buffer.{Buffer, cells, prefix}

-- A size below 0 becomes a `size_t` of more than SSIZE_MAX, for which the system decides what the
-- call does.
abbrev pub write_cells : ℕ → Buffer → ℤ → M Bytes
write_cells max b (pos n) = or_undefined (cells max b n)
write_cells max b (negsuc n) = throw implementation_defined

pub written :
    (k : Kernel) (t : Trace) (max : ℕ) (b : Buffer) (x : ℤ)
    → magnitude x ≤ max
    → is_negative x ≡ false
    → write_cells max b x k t ≡ ok (prefix (magnitude x) b) t
written k t max b (pos n) h e = rw (le→leb n max h) refl
written k t max b (negsuc n) h e = cc
