-- ===== src/Masks.antt =====
-- The older event loop, which PortForwarder and Server both hold: `makeSelectMasks`, `processMasks`
-- and `disconnect` are the same text in the two classes. A `std::list<Connection*>` holds objects
-- that know their address; an iterator splits the list into what lies before it, the nearest
-- first, and the rest.
pub mod Steps
pub mod Loop
use nsu_net_course.Prelude.{
  Bool, true, false, not, ◌&&◌, ◌||◌, List, [], ◌∷◌, ◌==◌, ℕ, zero, suc, ℤ, is_zero, is_positive,
  is_negative, if◌then◌else◌,
}
use mathlib.Core.List.{reverse}
use nsu_net_course.Exceptions.{undefined_behaviour}
use nsu_net_course.Kernel.{M, pure, throw, ◌>>=◌, ◌>>◌, FdSet}
use nsu_net_course.FdSet.{fd_zero, fd_set}
use nsu_net_course.Connection.{
  Connection, delete_connection, fill_sets, and_isset, read_from_client, read_from_forward,
  write_to_client, write_to_forward,
}

-- `list.remove(connection)`
unfoldable pub remove : ℕ → List Connection → List Connection
remove address [] = []
remove address (c ∷ cs) = if c.address == address then remove address cs else c ∷ remove address cs

-- `disconnect` on the two parts of the list.
unfoldable pub disconnect :
    Connection → List Connection × List Connection → M (List Connection × List Connection)
disconnect c (before, rest) = do
  delete_connection c
  pure (remove c.address before, remove c.address rest)

-- The test of `makeSelectMasks`: a direction has failed and nothing waits in the other.
unfoldable pub is_dead : Connection → Bool
is_dead c =
    is_negative c.data_cf && not (is_positive c.data_fc)
    || is_negative c.data_fc && not (is_positive c.data_cf)

-- `connectionIter--`, which has no meaning at the beginning, nor where the connection before is the
-- one that goes.
unfoldable pub step_back : Connection → List Connection → M (Unit {0})
step_back c [] = throw undefined_behaviour
step_back c (b ∷ bs) = if b.address == c.address then throw undefined_behaviour else pure tt

-- The loop; `fuel` is at least the length of the rest. A live connection sets its masks, as in
-- `Connection::fillSets`.
unfoldable pub mask_loop :
    ℕ → List Connection × List Connection → FdSet × FdSet → M (List Connection × FdSet × FdSet)
mask_loop fuel (before, []) sets = pure (reverse before, sets.0, sets.1)
mask_loop zero (before, c ∷ cs) sets = throw undefined_behaviour
mask_loop (suc fuel) (before, c ∷ cs) sets = elim (is_dead c) [
  | true ↦ do step_back c before; parts ← disconnect c (before, cs); mask_loop fuel parts sets
  | false ↦ do sets' ← fill_sets c sets; mask_loop fuel (c ∷ before, cs) sets'
]

abbrev pub size : List Connection → ℕ
size [] = 0
size (c ∷ cs) = suc (size cs)

-- `makeSelectMasks`
unfoldable pub make_masks : ℤ → List Connection → M (List Connection × FdSet × FdSet)
make_masks listenfd cs = do rd ← fd_set listenfd fd_zero; mask_loop (size cs) ([], cs) (rd, fd_zero)

abbrev pub when : Bool → (Connection → M Connection) → Connection → M Connection
when b f c = if b then f c else pure c

-- The body of the loop of `processMasks`; the sizes are those of before, but for a direction that
-- was read.
unfoldable pub process_connection : FdSet → FdSet → Connection → M Connection
process_connection rd wr c = do
  r ← and_isset (is_zero c.data_cf) c.client_socket rd
  c1 ← when r read_from_client c
  let data_cf = c1.data_cf
  w ← and_isset (is_positive data_cf) c.forwarding_socket wr
  c2 ← when w write_to_forward c1
  r' ← and_isset (is_zero c.data_fc) c.forwarding_socket rd
  c3 ← when r' read_from_forward c2
  let data_fc = if r' then c3.data_fc else c.data_fc
  w' ← and_isset (is_positive data_fc) c.client_socket wr
  when w' write_to_client c3

unfoldable pub process_all : FdSet → FdSet → List Connection → M (List Connection)
process_all rd wr [] = pure []
process_all rd wr (c ∷ cs) = do
  c' ← process_connection rd wr c
  cs' ← process_all rd wr cs
  pure (c' ∷ cs')
