-- ===== src/Server/History.antt =====
-- The clients of the server over any number of rounds of the loop in `run` (net_lab7/Server.cpp).
use mathlib.Core.List.{Perm, Memᴰ}
use mathlib.Core.List.Perm
use nsu_net_course.Prelude.{ℕ, ℤ, List, ◌++◌, ◌≡◌, ◌≤◌, ◌<◌, All, length}
use nsu_net_course.Kernel.{Kernel, Trace, ok}
use nsu_net_course.Kernel.Ensures.{Ensures}
use nsu_net_course.Server.{Server, rounds}
use nsu_net_course.Server.Clients.{clients, connected}
use nsu_net_course.Server.Members.{marked}

-- The server, as it is before one of the next `n` rounds, has the property.
abbrev pub Within : Kernel → Trace → Server → ℕ → (Server → Type 0) → Type 0
Within k t s n P = (i : ℕ) × (m : Server) × (u : Trace) × (i < n) × (rounds i s k t ≡ ok m u) × P m

-- The socket is that of a client whose connection was marked to be disconnected before a round.
abbrev pub Left : Kernel → Trace → Server → ℕ → ℤ → Type 0
Left k t s n fd = Within k t s n (λ m. Memᴰ fd (connected (marked m.connection_list)))

-- The socket is what `accept` gave for the listening socket in a round.
abbrev pub Joined : Kernel → Trace → Server → ℕ → ℤ → Type 0
Joined k t s n fd = Within k t s n (λ m. (w : Trace) × (fd ≡ k.accept_on w m.listen_sockfd))

abbrev pub Balances : Kernel → Trace → Server → ℕ → Server → Type 0
Balances k t s n s' =
    (joined : List ℤ) × (left : List ℤ) × (length joined ≤ n)
    × All (Joined k t s n) joined
    × All (Left k t s n) left
    × Perm (left ++ clients s') (joined ++ clients s)
