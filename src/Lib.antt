-- ===== src/Lib.antt =====
-- A SOCKS5 proxy in C++ (net_lab7): one process accepts clients on 127.0.0.1, negotiates with each by
-- SOCKS5, resolves a domain by a DNS query of its own, and then copies bytes between the client and
-- the destination. One event loop around `select` drives everything.
--
-- The parts and their files:
--   * Main: net_lab7/main.cpp. It reads the port, makes a Server and runs it.
--   * Server: net_lab7/Server.h and Server.cpp. `round` is one turn of the loop in `Server::run`; it
--     fills the sets for `select`, takes in clients as handshakes, and moves a client whose handshake
--     is over to a connection, or to the resolver and from there to a connection. Server/Legacy holds
--     the members that `run` does not call.
--   * Socks5: net_lab7/SOCKS5Connecter, the handshake with one client.
--   * Resolver: net_lab7/DNSResolver, the query for one domain; Dns has its two routines on names and
--     the records of an answer.
--   * Connection: net_lab7/Connection.h, the copying between one client and one destination.
--   * PortForwarder and Masks: net_lab7/PortForwarder, the older loop, whose text Server repeats.
--   * Utils and Exceptions: net_lab7/Utils.h and net_lab7/exceptions.
--   * CompilerId: net_lab7/cmake-build-debug/CMakeFiles/3.13.2/CompilerIdCXX/CMakeCXXCompilerId.cpp and
--     CompilerIdC/CMakeCCompilerId.c, two programs that CMake generated and that lie in the repository.
--     They tell compilers apart by their predefined macros. A set of macros is a function from a name
--     to a number; an undefined macro in an expression that is compiled is an error, and in a condition
--     it is 0. Compilers, Early, Late, Cases, Cxx and C hold the branches, Platform and Architecture two
--     tables, Digits and Program the arrays and `main`. The copies in 3.12.3 and 3.13.1 are the same
--     text.
-- Prelude has numbers, integers and lists; Buffer has char arrays as functions from an index; FdSet has
-- fd_set as a predicate on descriptors. Tests has runs on concrete inputs.
--
-- A method is a function of the object's state that returns the new state. Its name is the source's, in
-- small letters. Kernel has the rest of the world: a record of the answers of the system calls and of
-- library routines such as inet_addr, each a function of the call's arguments and of the trace of all
-- events so far, so that no answer is fixed beforehand and two calls may get different ones. A
-- computation takes a kernel and a trace and gives a result with the longer trace, or stops with a
-- failure: an exception of the source, undefined behaviour, a result that the implementation defines,
-- or a loop without end. FD_SET and FD_ISSET on a descriptor outside 0..1023, an access beyond an array
-- that is checked, and the end of writeToClient and writeToForward, which have no return, are undefined
-- behaviour. A write of a negative size, which is a size_t above SSIZE_MAX, is implementation-defined.
-- Memory that the source does not set is read from the kernel.
-- What the code relies on from a system call is a named hypothesis where a theorem needs it: ReadsFit
-- for reads that keep to their buffers.
--
-- Two accesses of the resolver pass the end of their memory: strcat in ChangetoDnsNameFormat writes one
-- byte behind the array tmp, and receiveAndParse reads eight bytes of a block of five. How many bytes
-- can be used from the start of a local array or of a block of malloc depends on the compiler and on
-- the allocator, which often round up; the kernel record has it as array_room and heap_room. Where
-- there are too few, the access is undefined behaviour; a theorem on a run behind it states that there
-- are enough, or that it may end there.
--
-- Bounds and fuel. The loop of ReadName runs on fuel, 16842752 = 257 * 65536 rounds: a loop that
-- ends passes at most 256 bytes that fit the name's array and jumps at most once from each of the
-- offsets that 16 bits can hold in between; a longer run is taken as endless. The loop that puts the
-- dots into a name runs on the size of the name's array, 256: it advances in each round and leaves
-- the array then; running out is told apart from leaving the array. The loop of makeSelectMasks gets
-- as much fuel as the list has connections, of which each turn handles one. The endless loop of
-- `Server::run` is modelled as its first n rounds, for any n. Conversions to 8, 16, 32 and 64 bits
-- wrap around where the source's do.
--
-- Not modelled: lines written to std::cout, the member server_port, which is never read, the programs in
-- Java (net_lab1, net_lab5), and the rest of what CMake generated
-- (net_lab7/cmake-build-debug), such as feature_tests.cxx, a table of constant texts.
pub mod Prelude
pub mod Exceptions
pub mod Kernel
pub mod FdSet
pub mod Buffer
pub mod Connection
pub mod Dns
pub mod Resolver
pub mod Server
pub mod Masks
pub mod PortForwarder
pub mod Main
pub mod Socks5
pub mod Utils
mod Tests
pub mod CompilerId
