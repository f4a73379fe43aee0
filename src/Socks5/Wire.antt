-- ===== src/Socks5/Wire.antt =====
-- The messages of the SOCKS5 protocol, and the loops that read them.
use nsu_net_course.Prelude.{
  ℕ, zero, suc, ◌+◌, ◌/◌, ◌%◌, ◌≤◌, Bool, false, ◌||◌, some, [], ◌∷◌, ◌++◌, ◌==◌, ◌≡◌, refl, length,
  if◌then◌else◌, arith, lt→ltb,
}
use nsu_net_course.Kernel.{Bytes}
use nsu_net_course.Buffer.{Buffer}
use nsu_net_course.Buffer.Window.{window}
use nsu_net_course.Socks5.{max_buf_size, choose_method, copy_host}

-- Whether a client's methods offer `m`.
abbrev pub offers : ℕ → Bytes → Bool
offers m [] = false
offers m (x ∷ xs) = x == m || offers m xs

abbrev pub greeting : Bytes → Bytes
greeting methods = 5 ∷ length methods ∷ methods

abbrev pub connect_to_domain : Bytes → ℕ → Bytes
connect_to_domain host port =
    5 ∷ 1 ∷ 0 ∷ 3 ∷ length host ∷ (host ++ ((port / 256) ∷ (port % 256) ∷ []))

abbrev pub connect_to_ipv4 : ℕ → ℕ → ℕ → ℕ → ℕ → Bytes
connect_to_ipv4 a b c d port = 5 ∷ 1 ∷ 0 ∷ 1 ∷ a ∷ b ∷ c ∷ d ∷ (port / 256) ∷ (port % 256) ∷ []

-- The reply to a request: a code, and 127.0.0.1 with port 0.
abbrev pub reply : ℕ → Bytes
reply code = 5 ∷ code ∷ 0 ∷ 1 ∷ 127 ∷ 0 ∷ 0 ∷ 1 ∷ 0 ∷ 0 ∷ []

-- The loop over the methods looks for the method 0 in its window, and stays in the buffer.
pub choose_method_lem :
    (n i : ℕ) (b : Buffer) (chosen : ℕ)
    → i + n ≤ max_buf_size
    → choose_method n i b chosen ≡ some (if offers 0 (window n i b) then 0 else chosen)
unfolding choose_method
choose_method_lem zero i b chosen h = refl
choose_method_lem (suc n) i b chosen h =
    rw (lt→ltb i max_buf_size (omega arith))
      (ground (arith, choose_method_lem n (suc i) b (if b i == 0 then 0 else chosen)))

pub copy_host_lem :
    (n i : ℕ) (b : Buffer) → i + n ≤ max_buf_size → copy_host n i b ≡ some (window n i b)
unfolding copy_host
copy_host_lem zero i b h = refl
copy_host_lem (suc n) i b h =
    rw (lt→ltb i max_buf_size (omega arith), copy_host_lem n (suc i) b (omega arith))
