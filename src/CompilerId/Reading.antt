-- ===== src/CompilerId/Reading.antt =====
-- How CMake's side reads a version out of the array that stands in the compiled program.
use nsu_net_course.Prelude.{
  ℕ, ◌%◌, ◌^◌, ◌<◌, true, false, Option, none, some, List, [], ◌∷◌, ◌++◌, map, append-nil,
  append_assoc, ◌≡◌, refl, ap, ◌∙◌, ◌==◌, All, ◌>>=?◌, if◌then◌else◌, arith,
}
use nsu_net_course.Kernel.{Bytes}
use nsu_net_course.CompilerId.{or_zero, Number, dec, hex, Identity, codes}
use nsu_net_course.CompilerId.Digits.{
  dec_digits, hex_digits, read_digits, read-dec_digits, read-hex_digits,
}
use nsu_net_course.CompilerId.Program.{digits, parts, dotted, info, version_array, info_version}

-- What stands behind the first opening bracket.
abbrev pub after_bracket : Bytes → Bytes
after_bracket [] = []
after_bracket (c ∷ cs) = if c == b'[' then cs else after_bracket cs

-- The texts between dots, up to the closing bracket.
abbrev pub fields : Bytes → Bytes → List Bytes
fields field [] = field ∷ []
fields field (c ∷ cs) = elim (c == b']') [
  | true ↦ field ∷ []
  | false ↦ elim (c == b'.') [ true ↦ field ∷ fields [] cs | false ↦ fields (field ++ (c ∷ [])) cs ]
]

abbrev pub base : Number → ℕ
base (dec v) = 10
base (hex v) = 16

-- The fields, each in the base of its number.
abbrev pub read_fields : List Number → List Bytes → List ℕ
read_fields [] fs = []
read_fields (n ∷ ns) [] = []
read_fields (n ∷ ns) (f ∷ fs) = read_digits (base n) 0 f ∷ read_fields ns fs

-- What eight digits can hold of a number.
abbrev pub held : Number → ℕ
held (dec v) = or_zero v % 100000000
held (hex v) = or_zero v % 2 ^ 32

abbrev pub shown : Identity → List Number
shown i = parts i.version_major i.version_minor i.version_patch i.version_tweak

abbrev text_of : Number → Bytes
text_of (dec v) = dec_digits (or_zero v)
text_of (hex v) = hex_digits (or_zero v)

-- A character of a number: neither a dot nor a bracket.
abbrev IsDigit : ℕ → Type 0
IsDigit c = (47 < c) × (c < 64)

text_of-IsDigit : (n : Number) → All IsDigit (text_of n)
unfolding dec_digits hex_digits
text_of-IsDigit (dec v) = omega arith
text_of-IsDigit (hex v) = omega arith

digits_text : (n : Number) (x : Bytes) → digits n ≡ some x → x ≡ text_of n
unfolding digits
digits_text (dec none) x h = cc
digits_text (dec (some v)) x h = cc
digits_text (hex none) x h = cc
digits_text (hex (some v)) x h = cc

read-text_of : (n : Number) → read_digits (base n) 0 (text_of n) ≡ held n
read-text_of (dec v) = read-dec_digits (or_zero v)
read-text_of (hex v) = read-hex_digits (or_zero v)

fields_step :
    (field cs : Bytes) (x : ℕ) → IsDigit x → fields field (x ∷ cs) ≡ fields (field ++ (x ∷ [])) cs
fields_step field cs x h = ground arith

fields_dot :
    (field xs rest : Bytes)
    → All IsDigit xs
    → fields field (xs ++ (b'.' ∷ rest)) ≡ (field ++ xs) ∷ fields [] rest
fields_dot field [] rest h = rw append-nil
fields_dot field (x ∷ xs) rest h =
    fields_step field (xs ++ (b'.' ∷ rest)) x h.0
    ∙ fields_dot (field ++ (x ∷ [])) xs rest h.1
    ∙ ap (λ y. y ∷ fields [] rest) (append_assoc field (x ∷ []) xs)

fields_end :
    (field xs rest : Bytes)
    → All IsDigit xs
    → fields field (xs ++ (b']' ∷ rest)) ≡ (field ++ xs) ∷ []
fields_end field [] rest h = rw append-nil
fields_end field (x ∷ xs) rest h =
    fields_step field (xs ++ (b']' ∷ rest)) x h.0
    ∙ fields_end (field ++ (x ∷ [])) xs rest h.1
    ∙ ap (λ y. y ∷ []) (append_assoc field (x ∷ []) xs)

module _ {A B : Type 0} where
  pub >>=?-some :
      (o : Option A) (f : A → Option B) {b : B}
      → (o >>=? f) ≡ some b
      → (a : A) × (o ≡ some a) × (f a ≡ some b)
  >>=?-some none f h = cc
  >>=?-some (some a) f h = (a, refl, h)

some_eq : {x y : Bytes} → some x ≡ some y → x ≡ y
some_eq h = cc

dotted-fields :
    (n : Number) (ns : List Number) (text rest : Bytes)
    → dotted (n ∷ ns) ≡ some text
    → fields [] (text ++ (b']' ∷ rest)) ≡ map text_of (n ∷ ns)
unfolding dotted
dotted-fields n [] text rest h =
    rw (digits_text n text h) (fields_end [] (text_of n) rest (text_of-IsDigit n))
dotted-fields n (m ∷ ns) text rest h =
    let (x, ex, more) = >>=?-some (digits n) _ h in
    let (y, ey, ends) = >>=?-some (dotted (m ∷ ns)) _ more in
    let tail = dotted-fields m ns y rest ey in
    rw (← some_eq ends, append_assoc x (b'.' ∷ y) (b']' ∷ rest), digits_text n x ex)
      (fields_dot [] (text_of n) (y ++ (b']' ∷ rest)) (text_of-IsDigit n)
        ∙ ap (λ fs. text_of n ∷ fs) tail)

read_fields-map : (ns : List Number) → read_fields ns (map text_of ns) ≡ map held ns
read_fields-map [] = refl
read_fields-map (n ∷ ns) = rw (read-text_of n, read_fields-map ns) refl

version_array-read :
    (ns : List Number) (array : Bytes)
    → version_array (codes "compiler_version") ns ≡ some (some array)
    → read_fields ns (fields [] (after_bracket array)) ≡ map held ns
unfolding version_array info
version_array-read [] array h = cc
version_array-read (n ∷ ns) array h =
    let (text, et, ends) = >>=?-some (dotted (n ∷ ns)) _ h in
    let same : info (codes "compiler_version") text ≡ array = cc in
    rw (← same)
      (ap (read_fields (n ∷ ns)) (dotted-fields n ns text (0 ∷ []) et) ∙ read_fields-map (n ∷ ns))

-- The version array of any compiler, if the program compiles with one, reads back as the numbers of
-- the parts that it shows, as far as eight digits can hold them: a DEC part by its last eight decimal
-- digits, a HEX part by its last eight hexadecimal ones.
pub info_version-read :
    (i : Identity) (array : Bytes)
    → info_version i ≡ some (some array)
    → read_fields (shown i) (fields [] (after_bracket array)) ≡ map held (shown i)
unfolding info_version
info_version-read i array h = version_array-read (shown i) array h
