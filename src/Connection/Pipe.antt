-- ===== src/Connection/Pipe.antt =====
-- What a connection is to promise, without its buffers: two flows of bytes, each of which either holds
-- the bytes that wait or has broken, and whether the connection is to be closed.
use nsu_net_course.Prelude.{
  ℕ, ℤ, Bool, true, ◌<◌, ◌≤◌, Option, none, some, [], ◌∷◌, length, ◌≡◌, refl,
}
use nsu_net_course.Kernel.{
  Trace, Event, Bytes, received, sent, ignored_sigpipe, got, no_data, read_error, took, no_room,
  write_error,
}
use nsu_net_course.Connection.{bufsize}

pub record Flow : Type 0 where
  pub waiting : Option Bytes
  pub closing : Bool

-- The end of the stream is a read of no bytes.
abbrev pub ends : Bytes → Bool → Bool
ends [] b = true
ends (x ∷ xs) b = b

-- What may happen to the flow from `source` to `target`. It reads only when nothing waits, and no more
-- than a buffer holds. What it sends is all that waits, and however much of it the send takes, nothing
-- waits behind it.
pub data FlowStep (source target : ℤ) : Flow → Event → Flow → Type 0 where
  reads :
      (bs : Bytes) (b : Bool)
      → length bs ≤ bufsize
      → FlowStep source target
          (record { waiting = some []; closing = b })
          (received source (got bs))
          (record { waiting = some bs; closing = ends bs b })
  finds_nothing :
      (b : Bool)
      → FlowStep source target
          (record { waiting = some []; closing = b })
          (received source no_data)
          (record { waiting = some []; closing = b })
  breaks :
      (b : Bool)
      → FlowStep source target
          (record { waiting = some []; closing = b })
          (received source read_error)
          (record { waiting = none; closing = true })
  delivers :
      (bs : Bytes) (n : ℕ) (b : Bool)
      → 0 < length bs
      → FlowStep source target
          (record { waiting = some bs; closing = b })
          (sent target bs (took n))
          (record { waiting = some []; closing = b })
  waits :
      (bs : Bytes) (b : Bool)
      → 0 < length bs
      → FlowStep source target
          (record { waiting = some bs; closing = b })
          (sent target bs no_room)
          (record { waiting = some bs; closing = b })
  is_refused :
      (bs : Bytes) (b : Bool)
      → 0 < length bs
      → FlowStep source target
          (record { waiting = some bs; closing = b })
          (sent target bs write_error)
          (record { waiting = some bs; closing = true })

pub record Pipe : Type 0 where
  pub cf : Option Bytes
  pub fc : Option Bytes
  pub to_close : Bool

abbrev pub forth : Pipe → Flow
forth p = record { waiting = p.cf; closing = p.to_close }

abbrev pub back : Pipe → Flow
back p = record { waiting = p.fc; closing = p.to_close }

-- A step of one of the two flows between the sockets, or SIGPIPE ignored.
pub data Step (client forward : ℤ) : Pipe → Event → Pipe → Type 0 where
  goes_forth :
      (p q : Pipe) (e : Event)
      → q.fc ≡ p.fc
      → FlowStep client forward (forth p) e (forth q)
      → Step client forward p e q
  goes_back :
      (p q : Pipe) (e : Event)
      → q.cf ≡ p.cf
      → FlowStep forward client (back p) e (back q)
      → Step client forward p e q
  ignores : (p : Pipe) → Step client forward p ignored_sigpipe p

-- Steps with the trace that they leave.
pub data Run (client forward : ℤ) (p : Pipe) (t : Trace) : Pipe → Trace → Type 0 where
  here : Run client forward p t p t
  next :
      {q r : Pipe} {u : Trace} (e : Event)
      → Run client forward p t q u
      → Step client forward q e r
      → Run client forward p t r (e ∷ u)

pub Run-trans :
    {client forward : ℤ} {p q : Pipe} {t u : Trace} {r : Pipe} {v : Trace}
    → Run client forward p t q u
    → Run client forward q u r v
    → Run client forward p t r v
Run-trans m here = m
Run-trans m (next e n s) = next e (Run-trans m n) s

-- A pipe that is to be closed never ceases to be.
FlowStep-closing :
    {source target : ℤ} {f g : Flow} {e : Event}
    → FlowStep source target f e g
    → f.closing ≡ true
    → g.closing ≡ true
FlowStep-closing (reads [] b h) c = refl
FlowStep-closing (reads (x ∷ xs) b h) c = c
FlowStep-closing (finds_nothing b) c = c
FlowStep-closing (breaks b) c = refl
FlowStep-closing (delivers bs n b h) c = c
FlowStep-closing (waits bs b h) c = c
FlowStep-closing (is_refused bs b h) c = refl

Step-closing :
    {client forward : ℤ} {p q : Pipe} {e : Event}
    → Step client forward p e q
    → p.to_close ≡ true
    → q.to_close ≡ true
Step-closing (goes_forth p q e same s) c = FlowStep-closing s c
Step-closing (goes_back p q e same s) c = FlowStep-closing s c
Step-closing (ignores p) c = c

pub Run-closing :
    {client forward : ℤ} {p : Pipe} {t : Trace} {q : Pipe} {u : Trace}
    → Run client forward p t q u
    → p.to_close ≡ true
    → q.to_close ≡ true
Run-closing here c = c
Run-closing (next e m s) c = Step-closing s (Run-closing m c)
