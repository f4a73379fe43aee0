-- ===== src/Kernel/Traffic.antt =====
-- What a trace says of the bytes that passed a descriptor.
use nsu_net_course.Prelude.{
  ℤ, [], ◌∷◌, ◌++◌, ◌≡◌, refl, same, true, false, if◌then◌else◌, same_iff, ◌≢◌, inl, inr,
  Bool-cases,
}
use nsu_net_course.Kernel.{
  Bytes, Received, got, no_data, read_error, Sent, took, no_room, write_error, received, sent,
  Trace,
}

abbrev pub payload : Received → Bytes
payload (got bs) = bs
payload no_data = []
payload read_error = []

-- The bytes that a send which did not fail was given.
abbrev pub handed : Bytes → Sent → Bytes
handed bs (took n) = bs
handed bs no_room = []
handed bs write_error = []

-- The payload of every read from `fd`, oldest first.
abbrev pub received_from : ℤ → Trace → Bytes
received_from fd [] = []
received_from fd (received g r ∷ t) =
    if same g fd then received_from fd t ++ payload r else received_from fd t
received_from fd (_ ∷ t) = received_from fd t

-- The payload of every send to `fd` that did not fail, oldest first.
abbrev pub handed_to : ℤ → Trace → Bytes
handed_to fd [] = []
handed_to fd (sent g bs r ∷ t) = if same g fd then handed_to fd t ++ handed bs r else handed_to fd t
handed_to fd (_ ∷ t) = handed_to fd t

pub same_self : (a : ℤ) → same a a ≡ true
same_self a = (same_iff a a).1 refl

pub same_other : (a b : ℤ) → a ≢ b → same a b ≡ false
same_other a b h = elim (Bool-cases (same a b)) [
  | inl e ↦ absurd (h ((same_iff a b).0 e))
  | inr e ↦ e
]
