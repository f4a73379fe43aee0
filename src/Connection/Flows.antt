-- ===== src/Connection/Flows.antt =====
-- What a `recv` or a `send` of one direction does to a flow.
use nsu_net_course.Prelude.{
  ℕ, zero, suc, Bool, if◌then◌else◌, ℤ, pos, negsuc, ◌<◌, ◌≤◌, [], ◌∷◌, Option, none, some, ◌≡◌,
  refl, true, false, is_zero, is_positive, magnitude, length, arith,
}
use nsu_net_course.Kernel.{
  Bytes, got, no_data, read_error, received, took, no_room, write_error, sent,
}
use nsu_net_course.Buffer.{Buffer, overwrite, prefix, prefix-overwrite}
use nsu_net_course.Connection.{bufsize}
use nsu_net_course.Connection.Pipe.{
  Flow, FlowStep, reads, finds_nothing, breaks, delivers, waits, is_refused,
}

-- What waits in a buffer of a size, where a negative size is a flow that has broken.
abbrev pub waiting : ℤ → Buffer → Option Bytes
waiting (pos n) b = some (prefix n b)
waiting (negsuc n) b = none

abbrev pub flow : ℤ → Buffer → Bool → Flow
flow x b d = record { waiting = waiting x b; closing = d }

waiting_none : (x : ℤ) (b : Buffer) → is_zero x ≡ true → waiting x b ≡ some []
unfolding prefix
waiting_none (pos zero) b h = refl
waiting_none (pos (suc n)) b h = ground arith
waiting_none (negsuc n) b h = ground arith

waiting_some :
    (x : ℤ) (b : Buffer) → is_positive x ≡ true → waiting x b ≡ some (prefix (magnitude x) b)
waiting_some (pos n) b h = refl
waiting_some (negsuc n) b h = ground arith

prefix-positive : (x : ℤ) (b : Buffer) → is_positive x ≡ true → 0 < length (prefix (magnitude x) b)
unfolding prefix
prefix-positive (pos zero) b h = ground arith
prefix-positive (pos (suc n)) b h = omega arith
prefix-positive (negsuc n) b h = ground arith

not_empty : (n : ℕ) → is_zero (pos (suc n)) ≡ false
not_empty n = ground arith

module _ (source target : ℤ) where
  pub reads-FlowStep :
      (bs : Bytes) (x : ℤ) (b : Buffer) (d : Bool)
      → is_zero x ≡ true
      → length bs ≤ bufsize
      → FlowStep source target
          (flow x b d)
          (received source (got bs))
          (flow (pos (length bs)) (overwrite bs b) (if is_zero (pos (length bs)) then true else d))
  reads-FlowStep [] x b d h fit = rw (waiting_none x b h, prefix-overwrite [] b) (reads [] d fit)
  reads-FlowStep (y ∷ ys) x b d h fit =
      rw (waiting_none x b h, prefix-overwrite (y ∷ ys) b, not_empty (length ys))
        (reads (y ∷ ys) d fit)

  pub idle-FlowStep :
      (x : ℤ) (b : Buffer) (d : Bool)
      → is_zero x ≡ true
      → FlowStep source target (flow x b d) (received source no_data) (flow (pos 0) b d)
  idle-FlowStep x b d h = rw (waiting_none x b h, waiting_none (pos 0) b refl) (finds_nothing d)

  pub breaks-FlowStep :
      (x : ℤ) (b : Buffer) (d : Bool)
      → is_zero x ≡ true
      → FlowStep source target (flow x b d) (received source read_error) (flow (negsuc 0) b true)
  breaks-FlowStep x b d h = rw (waiting_none x b h) (breaks d)

  pub delivers-FlowStep :
      (n : ℕ) (x : ℤ) (b : Buffer) (d : Bool)
      → is_positive x ≡ true
      → FlowStep source target
          (flow x b d)
          (sent target (prefix (magnitude x) b) (took n))
          (flow (pos 0) b d)
  delivers-FlowStep n x b d h =
      rw (waiting_some x b h, waiting_none (pos 0) b refl)
        (delivers (prefix (magnitude x) b) n d (prefix-positive x b h))

  pub waits-FlowStep :
      (x : ℤ) (b : Buffer) (d : Bool)
      → is_positive x ≡ true
      → FlowStep source target
          (flow x b d)
          (sent target (prefix (magnitude x) b) no_room)
          (flow x b d)
  waits-FlowStep x b d h =
      rw (waiting_some x b h) (waits (prefix (magnitude x) b) d (prefix-positive x b h))

  pub is_refused-FlowStep :
      (x : ℤ) (b : Buffer) (d : Bool)
      → is_positive x ≡ true
      → FlowStep source target
          (flow x b d)
          (sent target (prefix (magnitude x) b) write_error)
          (flow x b true)
  is_refused-FlowStep x b d h =
      rw (waiting_some x b h) (is_refused (prefix (magnitude x) b) d (prefix-positive x b h))
