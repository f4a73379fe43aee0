-- ===== src/Main.antt =====
-- net_lab7/main.cpp. `argv` holds the program's name and its arguments. The block that is commented
-- out at the end of the file is left out.
pub mod Listening
use Prim.Native.String.{String}
use nsu_net_course.Prelude.{ℕ, ℤ, Option, none, some, List, [], ◌∷◌}
use nsu_net_course.Exceptions.{
  Failure, connection_exception, start_up_exception, undefined_behaviour, endless_loop,
  implementation_defined, what,
}
use nsu_net_course.Kernel.{M, Outcome, ok, stop, throw, ◌>>=◌, looked_up, Bytes, SockAddr, Trace}
use nsu_net_course.Resolver.{htons, af_inet}
use nsu_net_course.Server.{new_server, run, low_word}

-- `getForwardAddr`
unfoldable pub get_forward_addr : Bytes → ℤ → M SockAddr
get_forward_addr name port k t = elim (k.look_up t name) [
  | none ↦ stop (connection_exception "Error while connecting") (looked_up name ∷ t)
  | some a ↦ ok (record a { port = htons (low_word port); family = af_inet }) (looked_up name ∷ t)
]

-- `catch (std::exception& e)` ends with the text that is printed; undefined behaviour, an endless
-- loop and what the system decides are no exceptions.
unfoldable pub caught : Failure → Trace → Outcome (Option String)
unfolding what
caught undefined_behaviour t = stop undefined_behaviour t
caught endless_loop t = stop endless_loop t
caught implementation_defined t = stop implementation_defined t
caught e t = ok (some (what e)) t

abbrev pub try_catch {ℓ} : {A : Type ℓ} → M A → M (Option String)
try_catch m k t = elim (m k t) [ ok a u ↦ ok none u | stop e u ↦ caught e u ]

-- `atoi(argv[1])`
abbrev pub port_of : Bytes → M ℤ
port_of arg k t = ok (k.parse_int arg) t

-- `main`, as far as `n` rounds of the server: none while it is still running, else what is printed.
unfoldable pub main : List Bytes → ℕ → M (Option String)
unfolding caught
main (program ∷ arg ∷ []) n = try_catch (do port ← port_of arg; s ← new_server port; run n s)
main argv n = throw start_up_exception
