-- ===== src/Dns/Name/Dotted.antt =====
-- The conversion of `ReadName`, in place, from lengths to dots.
use nsu_net_course.Prelude.{
  ℕ, zero, suc, ◌+◌, ◌<◌, List, [], ◌∷◌, ◌++◌, ◌≡◌, refl, ap, ◌∙◌, sym, length, All, arith,
  append-nil, append_assoc, length-append, some,
}
use nsu_net_course.Kernel.{Bytes}
use nsu_net_course.Buffer.{Buffer, overwrite}
use nsu_net_course.Buffer.Writes.{NoZero, overwrite-at_length, write_at-overwrite, strlen-text}
use nsu_net_course.Dns.Name.{
  done, to_ended, ◌>>=!◌, shift_label, dotted, without_last_dot, name_size,
}
use nsu_net_course.Dns.Name.Wire.{body, dots, host, host-dots}

length-concat : (pre : Bytes) (x : ℕ) → length (pre ++ (x ∷ [])) ≡ length pre + 1
length-concat pre x = length-append pre (x ∷ [])

second_cell :
    (pre : Bytes) (y x : ℕ) (rest : Bytes) (b : Buffer)
    → overwrite (pre ++ (y ∷ x ∷ rest)) b (length pre + 1) ≡ x
second_cell pre y x rest b =
    rw (append_assoc pre (y ∷ []) (x ∷ rest), length-concat pre y) at
      (overwrite-at_length (pre ++ (y ∷ [])) x rest b)

shift_step :
    (p : ℕ) (pre : Bytes) (y x : ℕ) (rest : Bytes) (b : Buffer)
    → length pre + 1 < name_size
    → shift_label (suc p) (length pre) (overwrite (pre ++ (y ∷ x ∷ rest)) b)
      ≡ shift_label p (length (pre ++ (x ∷ []))) (overwrite ((pre ++ (x ∷ [])) ++ (x ∷ rest)) b)
unfolding shift_label
shift_step p pre y x rest b h =
    rw (append_assoc pre (x ∷ []) (x ∷ rest), length-concat pre x)
      (ground (arith, second_cell pre y x rest b, write_at-overwrite pre y x (x ∷ rest) b))

-- Behind what is done, the bytes of a label move back by one over its length.
shift_label_lem :
    (pre : Bytes) (y : ℕ) (l tail : Bytes) (b : Buffer)
    → length pre + length l < name_size
    → (z : ℕ) × (shift_label (length l) (length pre) (overwrite (pre ++ (y ∷ (l ++ tail))) b)
        ≡ some (length pre + length l, overwrite ((pre ++ l) ++ (z ∷ tail)) b))
shift_label_lem pre y [] tail b h = (y, rw append-nil (unfold shift_label in ground arith))
shift_label_lem pre y (x ∷ l) tail b h =
    let (z, ih) =
      shift_label_lem (pre ++ (x ∷ [])) x l tail b (omega (arith, length-concat pre x)) in
    (
      z,
      shift_step (length l) pre y x (l ++ tail) b (omega arith)
          ∙ ih
          ∙ ground (arith, length-concat pre x, append_assoc pre (x ∷ []) l),
    )

-- A label fits a length byte and has no zero.
abbrev pub IsLabel : Bytes → Type 0
IsLabel l = (0 < length l) × NoZero l

pub NoZero-append : (xs ys : Bytes) → NoZero xs → NoZero ys → NoZero (xs ++ ys)
NoZero-append [] ys h g = g
NoZero-append (x ∷ xs) ys h g = (h.0, NoZero-append xs ys h.1 g)

pub body-NoZero : (ls : List Bytes) → All IsLabel ls → NoZero (body ls)
body-NoZero [] h = tt
body-NoZero (l ∷ ls) h = (h.0.0, NoZero-append l (body ls) h.0.1 (body-NoZero ls h.1))

dots-NoZero : (ls : List Bytes) → All IsLabel ls → NoZero (dots ls)
dots-NoZero [] h = tt
dots-NoZero (l ∷ ls) h = NoZero-append l (b'.' ∷ dots ls) h.0.1 (omega arith, dots-NoZero ls h.1)

pub length-dots : (ls : List Bytes) → length (dots ls) ≡ length (body ls)
length-dots [] = refl
length-dots (l ∷ ls) =
    omega (arith, length-append l (b'.' ∷ dots ls), length-append l (body ls), length-dots ls)

-- A round of the loop: `rest` is what follows the label.
dotted_step :
    (fuel : ℕ) (pre l rest : Bytes) (b : Buffer)
    → NoZero pre
    → IsLabel l
    → NoZero rest
    → length pre + suc (length l + length rest) < name_size
    → dotted (suc fuel) (length pre) (overwrite (pre ++ (length l ∷ (l ++ (rest ++ (0 ∷ []))))) b)
      ≡ dotted fuel
          (length ((pre ++ l) ++ (b'.' ∷ [])))
          (overwrite (((pre ++ l) ++ (b'.' ∷ [])) ++ (rest ++ (0 ∷ []))) b)
unfolding dotted
dotted_step fuel pre l rest b h g r m =
    let tail = rest ++ (0 ∷ []) in
    let text = pre ++ (length l ∷ (l ++ rest)) in
    let whole : text ++ (0 ∷ []) ≡ pre ++ (length l ∷ (l ++ tail)) = simp append_assoc in
    let len : length text ≡ length pre + suc (length l + length rest) =
      omega (arith, length-append pre (length l ∷ (l ++ rest)), length-append l rest) in
    let size =
      strlen-text text [] name_size b (NoZero-append pre _ h (g.0, NoZero-append l rest g.1 r))
        (omega (arith, len)) in
    let (z, shifted) = shift_label_lem pre (length l) l tail b (omega arith) in
    let dot = write_at-overwrite (pre ++ l) z b'.' tail b in
    ground (
      arith,
      rw whole at size,
      shifted,
      overwrite-at_length pre (length l) (l ++ tail) b,
      dot,
      length-append pre l,
      length-concat (pre ++ l) b'.',
      append_assoc (pre ++ l) (b'.' ∷ []) tail,
    )

dotted_end :
    (fuel : ℕ) (pre : Bytes) (b : Buffer)
    → NoZero pre
    → length pre < name_size
    → dotted (suc fuel) (length pre) (overwrite (pre ++ (0 ∷ [])) b)
      ≡ done (length pre, overwrite (pre ++ (0 ∷ [])) b)
unfolding dotted
dotted_end fuel pre b h m = ground (arith, strlen-text pre [] name_size b h m)

-- The loop turns the labels that are left, behind the text that is done, into labels with dots.
dotted_lem :
    (fuel : ℕ) (ls : List Bytes) (pre : Bytes) (b : Buffer)
    → NoZero pre
    → All IsLabel ls
    → length pre + length (body ls) < name_size
    → length (body ls) < fuel
    → dotted fuel (length pre) (overwrite (pre ++ (body ls ++ (0 ∷ []))) b)
      ≡ done (length pre + length (body ls), overwrite (pre ++ (dots ls ++ (0 ∷ []))) b)
dotted_lem zero ls pre b h g m f = elim f [ ]
dotted_lem (suc fuel) [] pre b h g m f = dotted_end fuel pre b h (omega arith) ∙ ground arith
dotted_lem (suc fuel) (l ∷ ls) pre b h g m f =
    let next = (pre ++ l) ++ (b'.' ∷ []) in
    let len : length next ≡ length pre + suc (length l) =
      omega (arith, length-concat (pre ++ l) b'.', length-append pre l) in
    let inner : length (l ++ body ls) ≡ length l + length (body ls) = length-append l (body ls) in
    let text : next ++ (dots ls ++ (0 ∷ [])) ≡ pre ++ ((l ++ (b'.' ∷ dots ls)) ++ (0 ∷ [])) =
      simp append_assoc in
    let clean =
      NoZero-append (pre ++ l) (b'.' ∷ []) (NoZero-append pre l h g.0.1) (omega arith, tt) in
    ap (λ x. dotted (suc fuel) (length pre) (overwrite (pre ++ (length l ∷ x)) b))
      (append_assoc l (body ls) (0 ∷ []))
    ∙ dotted_step fuel pre l (body ls) b h g.0 (body-NoZero ls g.1) (omega (arith, inner))
    ∙ dotted_lem fuel ls next b clean g.1 (omega (arith, inner, len)) (omega (arith, inner))
    ∙ ground (arith, len, inner, text)

-- The conversion of a whole name: the labels with dots between them, and two zeros.
pub dotted-without_last_dot :
    (l : Bytes) (ls : List Bytes) (b : Buffer)
    → All IsLabel (l ∷ ls)
    → length (body (l ∷ ls)) < name_size
    → (dotted name_size 0 (overwrite (body (l ∷ ls) ++ (0 ∷ [])) b) >>=! λ r.
        to_ended (without_last_dot r))
      ≡ done (overwrite (host l ls ++ (0 ∷ 0 ∷ [])) b)
unfolding without_last_dot
dotted-without_last_dot l ls b g m =
    let text = host l ls in
    let same : dots (l ∷ ls) ++ (0 ∷ []) ≡ text ++ (b'.' ∷ 0 ∷ []) =
      ap (λ x. x ++ (0 ∷ [])) (sym (host-dots l ls)) ∙ append_assoc text (b'.' ∷ []) (0 ∷ []) in
    let len : length (dots (l ∷ ls)) ≡ length text + 1 =
      ap length (sym (host-dots l ls)) ∙ length-concat text b'.' in
    ground (
      arith,
      dotted_lem name_size (l ∷ ls) [] b,
      length-dots (l ∷ ls),
      strlen-text (dots (l ∷ ls)) [] name_size b (dots-NoZero (l ∷ ls) g),
      same,
      len,
      write_at-overwrite text b'.' 0 (0 ∷ []) b,
    )
