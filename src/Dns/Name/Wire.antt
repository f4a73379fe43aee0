-- ===== src/Dns/Name/Wire.antt =====
-- Host names as lists of labels, and `ChangetoDnsNameFormat`.
use nsu_net_course.Prelude.{
  ℕ, ◌%◌, ◌<◌, List, [], ◌∷◌, ◌++◌, ◌≡◌, ◌≢◌, refl, ap, ◌∙◌, length, All, arith, append-nil,
  append_assoc, ◌≤◌, ◌+◌, some, none, le→leb,
}
use nsu_net_course.Kernel.{Bytes}
use nsu_net_course.Dns.Name.{labels, change_to_dns_name_format}

-- a.b.c from its labels; a host has at least one.
abbrev pub host : Bytes → List Bytes → Bytes
host l [] = l
host l (m ∷ ms) = l ++ (b'.' ∷ host m ms)

-- Each label with its length before it.
abbrev pub body : List Bytes → Bytes
body [] = []
body (l ∷ ls) = length l ∷ (l ++ body ls)

abbrev pub wire : List Bytes → Bytes
wire ls = body ls ++ (0 ∷ [])

-- Each label with a dot behind it.
abbrev pub dots : List Bytes → Bytes
dots [] = []
dots (l ∷ ls) = l ++ (b'.' ∷ dots ls)

pub host-dots : (l : Bytes) (ls : List Bytes) → host l ls ++ (b'.' ∷ []) ≡ dots (l ∷ ls)
host-dots l [] = refl
host-dots l (m ∷ ms) =
    append_assoc l (b'.' ∷ host m ms) (b'.' ∷ []) ∙ ap (λ x. l ++ (b'.' ∷ x)) (host-dots m ms)

abbrev pub NoDot : Bytes → Type 0
NoDot = All (λ x. x ≢ b'.')

labels-other :
    (acc : Bytes) (x : ℕ) (xs : Bytes)
    → x ≢ b'.'
    → labels acc (x ∷ xs) ≡ labels (acc ++ (x ∷ [])) xs
unfolding labels
labels-other acc x xs h = ground arith

labels-label :
    (acc l rest : Bytes)
    → NoDot l
    → labels acc (l ++ (b'.' ∷ rest)) ≡ (length (acc ++ l) % 256) ∷ ((acc ++ l) ++ labels [] rest)
unfolding labels
labels-label acc [] rest h = rw append-nil
labels-label acc (x ∷ l) rest h =
    labels-other acc x (l ++ (b'.' ∷ rest)) h.0
    ∙ labels-label (acc ++ (x ∷ [])) l rest h.1
    ∙ ap (λ m. (length m % 256) ∷ (m ++ labels [] rest)) (append_assoc acc (x ∷ []) l)

labels-dots :
    (ls : List Bytes) → All (λ l. NoDot l × (length l < 256)) ls → labels [] (dots ls) ≡ wire ls
unfolding labels
labels-dots [] h = refl
labels-dots (l ∷ ls) h =
    labels-label [] l (dots ls) h.0.0
    ∙ ground (arith, labels-dots ls h.1, append_assoc l (body ls) (0 ∷ []))

-- `ChangetoDnsNameFormat` writes each label of a host with its length before it, and a zero, if no
-- label has more than 255 bytes (or holds a dot), and if the byte behind the array `tmp` is free; if
-- it is not, for any host, `strcat` leaves the array.
pub change_to_dns_name_format-wire :
    (room : ℕ) (l : Bytes) (ls : List Bytes)
    → All (λ m. NoDot m × (length m < 256)) (l ∷ ls)
    → (length (host l ls) + 2 ≤ room
        → change_to_dns_name_format room (host l ls) ≡ some (wire (l ∷ ls)))
      × (room < length (host l ls) + 2 → change_to_dns_name_format room (host l ls) ≡ none)
unfolding change_to_dns_name_format
change_to_dns_name_format-wire room l ls h =
    let text : labels [] (host l ls ++ (b'.' ∷ [])) ≡ wire (l ∷ ls) =
      rw host-dots (labels-dots (l ∷ ls) h) in
    (λ fits. rw (le→leb (length (host l ls) + 2) room fits) (ap some text), λ short. ground arith)
