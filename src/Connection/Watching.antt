-- ===== src/Connection/Watching.antt =====
-- Which descriptors `Connection::fillSets` puts into the sets.
use nsu_net_course.Prelude.{
  ℤ, Bool, true, false, ◌&&◌, ◌||◌, ◌≡◌, refl, is_zero, is_positive, same, if◌then◌else◌, arith,
}
use nsu_net_course.Kernel.{Kernel, Trace, FdSet, ok}
use nsu_net_course.FdSet.{in_range, with_fd}
use nsu_net_course.Connection.{Connection, Sets, fill_sets}

-- A side is read while its buffer is empty, and written while the other side's buffer is not.
abbrev pub reads : Connection → ℤ → Bool
reads c fd =
    is_zero c.data_fc && same c.forwarding_socket fd || is_zero c.data_cf && same c.client_socket fd

abbrev pub writes : Connection → ℤ → Bool
writes c fd =
    is_positive c.data_fc && same c.client_socket fd
    || is_positive c.data_cf && same c.forwarding_socket fd

abbrev added : Bool → ℤ → FdSet → FdSet
added b fd s = if b then with_fd fd s else s

fill_sets_sets :
    (k : Kernel) (t : Trace) (c : Connection) (s : Sets)
    → in_range c.client_socket ≡ true
    → in_range c.forwarding_socket ≡ true
    → fill_sets c s k t
      ≡ ok
          (
            added
                (is_zero c.data_fc)
                c.forwarding_socket
                (added (is_zero c.data_cf) c.client_socket s.0),
            added
                (is_positive c.data_fc)
                c.client_socket
                (added (is_positive c.data_cf) c.forwarding_socket s.1),
          )
          t
unfolding fill_sets
fill_sets_sets k t c s i j = ground arith

added_member : (b : Bool) (fd : ℤ) (s : FdSet) (g : ℤ) → added b fd s g ≡ b && same fd g || s g
added_member true fd s g = refl
added_member false fd s g = refl

-- `fillSets` on a connection with both sockets in range adds to the read set the sockets whose buffer
-- is empty, and to the write set those for which bytes wait, and nothing else.
pub fill_sets_lem :
    (k : Kernel) (t : Trace) (c : Connection) (s : Sets)
    → in_range c.client_socket ≡ true
    → in_range c.forwarding_socket ≡ true
    → (s' : Sets) × (fill_sets c s k t ≡ ok s' t)
      × ((fd : ℤ) → s'.0 fd ≡ reads c fd || s.0 fd)
      × ((fd : ℤ) → s'.1 fd ≡ writes c fd || s.1 fd)
fill_sets_lem k t c s i j = (
  (
    added (is_zero c.data_fc) c.forwarding_socket (added (is_zero c.data_cf) c.client_socket s.0),
    added (is_positive c.data_fc) c.client_socket
        (added (is_positive c.data_cf) c.forwarding_socket s.1),
  ),
  fill_sets_sets k t c s i j,
  λ fd. ground arith,
  λ fd. ground arith,
)
