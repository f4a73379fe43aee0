-- ===== src/Dns/Name/Termination.antt =====
-- The loops of `ReadName` on names whose pointers go back.
use nsu_net_course.Prelude.{
  ℕ, Bool, zero, suc, ◌+◌, ◌-◌, ◌*◌, ◌<◌, ◌≤◌, true, false, Bool-cases, Option, none, some, inl,
  inr, ◌≡◌, refl, if◌then◌else◌, ◌==◌, ltb, leb, arith, ◌>>=?◌,
}
use nsu_net_course.Buffer.{Buffer, cell, write_at, strlen}
use nsu_net_course.Buffer.Writes.{strlen_rest}
use nsu_net_course.Dns.Name.{
  Scan, Ended, done, out_of_bounds, out_of_fuel, to_ended, ◌>>=!◌, advance, scan_byte, scan_name,
  scan_fuel, end_name, shift_label, dotted, without_last_dot, read_name, buf_size, name_size,
}

-- A loop on fuel has come to an end, or left its array: its fuel was enough.
abbrev pub IsOver {ℓ} : {A : Type ℓ} → Ended A → Type 0
IsOver (done a) = Unit
IsOver out_of_bounds = Unit
IsOver out_of_fuel = ⊥

-- What holds of the result, if there is one.
abbrev Gives {ℓ} : {A : Type ℓ} → Option A → (A → Type 0) → Type 0
Gives none P = Unit
Gives (some a) P = P a

Gives-map {ℓ} :
    {A : Type ℓ} (o : Option A) (P Q : A → Type 0) → Gives o P → ((a : A) → P a → Q a) → Gives o Q
Gives-map none P Q h g = tt
Gives-map (some a) P Q h g = g a h

Gives-any {ℓ} : {A : Type ℓ} (o : Option A) (P : A → Type 0) → ((a : A) → P a) → Gives o P
Gives-any none P h = tt
Gives-any (some a) P h = h a

Gives-known {ℓ} :
    {A : Type ℓ} (o : Option A) (P : A → Type 0) → ((a : A) → o ≡ some a → P a) → Gives o P
Gives-known none P h = tt
Gives-known (some a) P h = h a refl

IsOver-then {ℓ κ} :
    {A : Type ℓ} {B : Type κ} (o : Option A) (f : A → Ended B)
    → Gives o (λ a. IsOver (f a))
    → IsOver (to_ended o >>=! f)
IsOver-then none f h = tt
IsOver-then (some a) f h = h

IsOver-bind {ℓ κ} :
    {A : Type ℓ} {B : Type κ} (e : Ended A) (f : A → Ended B)
    → IsOver e
    → ((a : A) → IsOver (f a))
    → IsOver (e >>=! f)
IsOver-bind (done a) f h g = g a
IsOver-bind out_of_bounds f h g = tt
IsOver-bind out_of_fuel f h g = h

IsOver-if :
    (b : Bool) (e f : Ended Scan) → IsOver e → IsOver f → IsOver (elim b [ true ↦ e | false ↦ f ])
IsOver-if true e f h g = h
IsOver-if false e f h g = g

-- Where the pointer at a place points to.
abbrev pub target : Buffer → ℕ → ℕ
target buffer i = buffer i * 256 + buffer (i + 1) - 49152

-- A part of the buffer that names do not leave, in which every pointer points to a place before it.
pub record PointsBack (buffer : Buffer) (Part : ℕ → Type 0) : Type 1 where
  pub goes_on : (i : ℕ) → Part i → buffer i < 192 → Part (suc i)
  pub goes_back : (i : ℕ) → Part i → 192 ≤ buffer i → Part (target buffer i) × (target buffer i < i)

-- The rounds that the loop can still make: those that write, each with a jump from the last place
-- that it can come to, and the places before `reader`.
abbrev rounds_left : Scan → ℕ
rounds_left s = (name_size - s.p) * buf_size + s.reader

-- What a round leaves: a place in the same part, and fewer rounds.
abbrev Nears : (ℕ → Type 0) → Scan → Scan → Type 0
Nears Part s s' = Part s'.reader × (rounds_left s' < rounds_left s)

jump-Nears :
    (buffer : Buffer) (Part : ℕ → Type 0) (s : Scan)
    → PointsBack buffer Part
    → Part s.reader
    → 192 ≤ buffer s.reader
    → Gives
        (cell buf_size buffer (s.reader + 1) >>=? λ y.
          some (record s { reader = buffer s.reader * 256 + y - 49152; jumped = 1 }))
        (Nears Part s)
jump-Nears buffer Part s back m h =
    let (there, before) = back.goes_back s.reader m h in
    elim (Bool-cases (ltb (s.reader + 1) buf_size)) [
      | inl e ↦ rw e (there, omega arith)
      | inr e ↦ rw e tt
    ]

write-rounds_left :
    (x : ℕ) (s : Scan)
    → s.p < name_size
    → rounds_left (advance (record s { p = suc s.p; name = write_at s.p x s.name })) < rounds_left s
write-rounds_left x s h =
    let same : name_size - s.p ≡ suc (name_size - suc s.p) = omega arith in omega (arith, same)

scan_byte-Nears :
    (buffer : Buffer) (Part : ℕ → Type 0) (s : Scan)
    → PointsBack buffer Part
    → Part s.reader
    → Gives (scan_byte buffer (buffer s.reader) s) (Nears Part s)
unfolding scan_byte
scan_byte-Nears buffer Part s back m = elim (Bool-cases (leb 192 (buffer s.reader))) [
  | inl e ↦ rw e (jump-Nears buffer Part s back m (ground arith))
  | inr e ↦ rw e (elim (Bool-cases (ltb s.p name_size)) [
    | inl l ↦ rw l (
      back.goes_on s.reader m (ground arith),
      write-rounds_left (buffer s.reader) s (ground arith),
    )
    | inr l ↦ rw l tt
  ])
]

scan_name-IsOver :
    (fuel : ℕ) (buffer : Buffer) (Part : ℕ → Type 0) (s : Scan)
    → PointsBack buffer Part
    → Part s.reader
    → rounds_left s < fuel
    → IsOver (scan_name fuel buffer s)
unfolding scan_name
scan_name-IsOver zero buffer Part s back m h = elim h [ ]
scan_name-IsOver (suc fuel) buffer Part s back m h =
    let more = λ (x : ℕ). to_ended (scan_byte buffer x s) >>=! λ s'. scan_name fuel buffer s' in
    let rest : IsOver (more (buffer s.reader)) =
      IsOver-then (scan_byte buffer (buffer s.reader) s) (scan_name fuel buffer) (
        Gives-map (scan_byte buffer (buffer s.reader) s) _ _ (scan_byte-Nears buffer Part s back m)
          (λ s' d. scan_name-IsOver fuel buffer Part s' back d.0 (omega (arith, d.1)))) in
    let go : ℕ → Ended Scan = λ x. elim (x == 0) [ true ↦ done s | false ↦ more x ] in
    IsOver-then (cell buf_size buffer s.reader) go (elim (Bool-cases (ltb s.reader buf_size)) [
      | inl e ↦ rw e (IsOver-if (buffer s.reader == 0) (done s) (more (buffer s.reader)) tt rest)
      | inr e ↦ rw e tt
    ])

strlen-bound : (n i m : ℕ) (b : Buffer) → strlen n i b ≡ some m → m < n
unfolding strlen
strlen-bound zero i m b e = cc
strlen-bound (suc n) i m b e = elim (Bool-cases (b i == 0)) [
  | inl z ↦ ground arith
  | inr z ↦
      let (x, found, more) = strlen_rest (strlen n (suc i) b) m (rw (z, strlen) at e) in
      omega (arith, more, strlen-bound n (suc i) x b found)
]

-- The inner loop moves forward.
shift_label-Goes : (p i : ℕ) (name : Buffer) → Gives (shift_label p i name) (λ r. i ≤ r.0)
unfolding shift_label
shift_label-Goes zero i name = omega arith
shift_label-Goes (suc p) i name = elim (Bool-cases (ltb (i + 1) name_size)) [
  | inl e ↦ rw e (
      Gives-map (shift_label p (i + 1) (write_at i (name (i + 1)) name)) _ _
        (shift_label-Goes p (i + 1) (write_at i (name (i + 1)) name)) (λ r h. omega (arith, h)))
  | inr e ↦ rw e tt
]

-- The conversion ends: each round goes on behind the place of the last one, and the text ends in
-- the array.
dotted-IsOver :
    (fuel i : ℕ) (name : Buffer) → 0 < fuel → name_size ≤ fuel + i → IsOver (dotted fuel i name)
unfolding dotted
dotted-IsOver zero i name h m = absurd (omega arith)
dotted-IsOver (suc fuel) i name h m =
    let round : ℕ × Buffer → Ended (ℕ × Buffer) = λ r.
      if ltb r.0 name_size then dotted fuel (suc r.0) (write_at r.0 b'.' r.1) else out_of_bounds in
    let next = to_ended (shift_label (name i) i name) >>=! round in
    let go : ℕ → Ended (ℕ × Buffer) =
      λ n. elim (ltb i n) [ true ↦ next | false ↦ done (i, name) ] in
    IsOver-then (strlen name_size 0 name) go (
      Gives-known (strlen name_size 0 name) _ λ n e.
        let short = strlen-bound name_size 0 n name e in
        elim (Bool-cases (ltb i n)) [
          | inr l ↦ rw l tt
          | inl l ↦ rw l (
              IsOver-then (shift_label (name i) i name) round (
                Gives-map (shift_label (name i) i name) _ _ (shift_label-Goes (name i) i name)
                  λ r g. elim (Bool-cases (ltb r.0 name_size)) [
                    | inr big ↦ rw big tt
                    | inl small ↦ rw small (
                        dotted-IsOver fuel (suc r.0) (write_at r.0 b'.' r.1)
                          (ground (arith, short, l, m)) (omega (arith, g, m)))
                  ]))
        ])

-- `ReadName` does not go on for ever, from any place of a part of the buffer that names do not
-- leave and in which every pointer points to a place before it: it gives a name, or leaves one of
-- its arrays.
pub read_name-IsOver :
    (reader : ℕ) (buffer stale : Buffer) (Part : ℕ → Type 0)
    → PointsBack buffer Part
    → Part reader
    → reader < buf_size
    → IsOver (read_name reader buffer stale)
unfolding read_name
read_name-IsOver reader buffer stale Part back m h =
    let start : Scan = record {
      p = 0;
      jumped = 0;
      count = 1;
      name = write_at 0 0 stale;
      reader = reader;
    } in
    let undotted : ℕ → ℕ × Buffer → Ended (Buffer × ℕ) =
      λ c r. to_ended (without_last_dot r) >>=! λ name. done (name, c) in
    let named : Scan → Ended (Buffer × ℕ) = λ e. dotted name_size 0 e.name >>=! undotted e.count in
    IsOver-bind (scan_name scan_fuel buffer start) (λ s. to_ended (end_name s) >>=! named)
      (scan_name-IsOver scan_fuel buffer Part start back m (unfold scan_fuel in omega arith))
      λ s. IsOver-then (end_name s) named (
        Gives-any (end_name s) _ λ e.
          IsOver-bind (dotted name_size 0 e.name) (undotted e.count)
            (dotted-IsOver name_size 0 e.name (omega arith) (omega arith))
            λ r.
              IsOver-then (without_last_dot r) (λ name. done (name, e.count))
                (Gives-any (without_last_dot r) _ (λ n. tt)))
