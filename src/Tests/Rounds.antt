-- ===== src/Tests/Rounds.antt =====
-- Rounds of the server with a client in each of its lists.
use mathlib.Core.List.{Perm}
use nsu_net_course.Prelude.{[], ◌∷◌, refl, arith}
use nsu_net_course.Kernel.Ensures.{Ensures}
use nsu_net_course.Kernel.Runs.{Runs}
use nsu_net_course.Resolver.Making.{Overflows}
use nsu_net_course.Server.{process_waiting_for_handshake, round}
use nsu_net_course.Server.Clients.{clients}
use nsu_net_course.Server.Progress.{AllReady, Steady, process_waiting_for_handshake-Runs}
use nsu_net_course.Server.Rounds.{Accounts, round-Accounts}
use nsu_net_course.Tests.Sample.{replying, replying-ReadsFit}
use nsu_net_course.Tests.Servers.{busy}

busy-AllReady : AllReady busy.waiting_for_handshake_list
busy-AllReady = (
  (
    record {
      client_in_range = refl;
      input_bytes = λ i. omega arith;
      output_fits = omega arith;
      output_size = refl;
    },
    omega arith,
  ),
  (
    (
      record {
        client_in_range = refl;
        input_bytes = λ i. omega arith;
        output_fits = omega arith;
        output_size = refl;
      },
      omega arith,
    ),
    tt,
  ),
)

process_waiting_for_handshake-Runs_example :
    Runs
      (Overflows (replying (5 ∷ 1 ∷ 0 ∷ [])))
      (process_waiting_for_handshake busy (replying (5 ∷ 1 ∷ 0 ∷ [])) [])
      (λ s' _.
        (AllReady s'.waiting_for_handshake_list × Steady busy s')
        × Perm (clients s') (clients busy))
process_waiting_for_handshake-Runs_example =
    process_waiting_for_handshake-Runs (replying (5 ∷ 1 ∷ 0 ∷ [])) [] busy
      (replying-ReadsFit (5 ∷ 1 ∷ 0 ∷ []) (omega arith)) busy-AllReady

round-Accounts_example :
    Ensures (round busy (replying []) []) (λ s' _. Accounts (replying []) busy s')
round-Accounts_example = round-Accounts (replying []) [] busy
