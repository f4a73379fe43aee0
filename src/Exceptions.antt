-- ===== src/Exceptions.antt =====
-- net_lab7/exceptions: what a function of the proxy may throw, and the text that `what` returns.
use Prim.Native.String.{String}

pub data Failure : Type 0 where
  -- ConnectionException(msg)
  connection_exception : String → Failure
  port_forwarder_exception : Failure
  start_up_exception : Failure
  -- std::runtime_error of Connection::connect
  runtime_error : String → Failure
  -- Not thrown: C++ gives what follows no meaning, such as FD_SET of a descriptor out of range.
  undefined_behaviour : Failure
  -- Not thrown: a loop of the code does not end.
  endless_loop : Failure
  -- Not thrown: what follows is up to the system, such as a write of more than SSIZE_MAX bytes.
  implementation_defined : Failure

unfoldable pub what : Failure → String
what (connection_exception msg) = msg
what port_forwarder_exception = "Error while forwarding"
what start_up_exception = "Usage: listenPort, forwardIP, forwardPort"
what (runtime_error msg) = msg
what undefined_behaviour = ""
what endless_loop = ""
what implementation_defined = ""
