-- ===== src/Tests/Sample.antt =====
-- An operating system that gives every read the same answer, takes every send whole, and opens the
-- sockets 7 (TCP) and 9 (UDP).
use nsu_net_course.Prelude.{
  ◌+◌, none, pos, negsuc, true, false, ◌<◌, length, leb, if◌then◌else◌, All, Bool-cases, inl, inr,
  arith,
}
use nsu_net_course.Kernel.{Kernel, Bytes, got, no_data, took, ReadsFit, FdSet}

abbrev pub replying : Bytes → Kernel
replying msg = record {
  new_tcp = λ t. pos 7;
  new_udp = λ t. pos 9;
  bind_to = λ t fd a. pos 0;
  accept_on = λ t fd. pos 5;
  connect_to = λ t fd a. negsuc 0;
  poll = λ t n rd wr. record { count = pos 1; readable = rd; writable = wr };
  receive_from = λ t fd n. if leb (length msg) n then got msg else no_data;
  send_to = λ t fd bs. took (length bs);
  heap_address = λ t. 4096;
  stale_size = λ t i. pos 0;
  stale_byte = λ t i. 0;
  array_room = λ n. n + 8;
  heap_room = λ n. n + 8;
  stale_errno = λ t. false;
  pid = 4660;
  parse_address = λ bs. 0x08080808;
  look_up = λ t name. none;
  parse_int = λ bs. pos 1080;
}

pub replying-ReadsFit : (msg : Bytes) → All (λ b. b < 256) msg → ReadsFit (replying msg)
replying-ReadsFit msg h t fd n bs e = elim (Bool-cases (leb (length msg) n)) [
  | inl fits ↦ ground arith
  | inr big ↦ ground arith
]

-- Every descriptor is ready.
abbrev pub all_ready : FdSet
all_ready fd = true
