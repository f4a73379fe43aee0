-- ===== src/CompilerId/Equivalence.antt =====
-- The two programs on a compiler family that has both languages.
use nsu_net_course.Prelude.{
  Bool, true, false, List, [], ◌∷◌, ◌++◌, ◌≡◌, refl, sym, ap, ◌∙◌, arith, if◌then◌else◌,
}
use nsu_net_course.CompilerId.{Macros, defined, any_defined, Identity, named, first}
use nsu_net_course.CompilerId.Cases.{
  Cases, early_cases, middle_cases, clang_cases, late_cases, last_cases,
}
use nsu_net_course.CompilerId.Cxx
use nsu_net_course.CompilerId.C

-- A case whose condition fails is passed over, wherever it stands.
first-append {ℓ} :
    {A : Type ℓ} (xs : List (Bool × A)) (ys zs : List (Bool × A)) (other : A)
    → first ys other ≡ first zs other
    → first (xs ++ ys) other ≡ first (xs ++ zs) other
unfolding first
first-append [] ys zs other h = h
first-append ((b, x) ∷ xs) ys zs other h =
    ap (λ y. if b then x else y) (first-append xs ys zs other h)

first-false {ℓ} :
    {A : Type ℓ} (b : Bool) (x : A) (xs : List (Bool × A)) (other : A)
    → b ≡ false
    → first ((b, x) ∷ xs) other ≡ first xs other
unfolding first
first-false b x xs other h = rw h refl

-- A family of compilers: its names for the two languages agree, the one for C++ defines __GNUC__
-- where it defines __GNUG__, and it is none of those that only one of the programs knows.
pub record IsFamily (e : Macros) : Type 0 where
  pub same_vendors : Cxx.vendors e ≡ C.vendors e
  pub gnuc : defined e "__GNUG__" ≡ true → defined e "__GNUC__" ≡ true
  pub no_comeau : defined e "__COMO__" ≡ false
  pub no_tinycc : defined e "__TINYC__" ≡ false
  pub no_bruce : defined e "__BCC__" ≡ false
  pub no_sdcc : any_defined e ("__SDCC_VERSION_MAJOR" ∷ "SDCC" ∷ []) ≡ false

gnu_case :
    (e : Macros) (rest : Cases) (other : Identity)
    → IsFamily e
    → first ((any_defined e ("__GNUC__" ∷ "__GNUG__" ∷ []), Cxx.gnu e) ∷ rest) other
      ≡ first ((defined e "__GNUC__", C.gnu e) ∷ rest) other
unfolding first Cxx.gnu C.gnu
gnu_case e rest other h = ground arith

-- The programs for C and for C++ find the same compiler and the same versions for a family of
-- compilers as above.
pub identify-eq : (e : Macros) → IsFamily e → Cxx.identify e ≡ C.identify e
unfolding Cxx.identify Cxx.cases C.identify C.later_cases
identify-eq e h =
    let other = named "" in
    let late = late_cases e in
    let with_sdcc =
      late ++ ((any_defined e ("__SDCC_VERSION_MAJOR" ∷ "SDCC" ∷ []), C.sdcc e) ∷ last_cases e) in
    let sdcc =
      first-append late _ _ other (sym (first-false _ (C.sdcc e) (last_cases e) other h.no_sdcc)) in
    let gnu =
      gnu_case e (late ++ last_cases e) other h
      ∙ first-append ((defined e "__GNUC__", C.gnu e) ∷ []) _ with_sdcc other sdcc in
    let clang = first-append (clang_cases e) _ _ other gnu in
    let bruce = clang ∙ sym (first-false _ (named "Bruce") _ other h.no_bruce) in
    let tinycc = bruce ∙ sym (first-false _ (named "TinyCC") _ other h.no_tinycc) in
    let middle = first-append (middle_cases e) _ _ other tinycc in
    let early = first-append (early_cases e (Cxx.vendors e)) _ _ other middle in
    first-false _ _ _ other h.no_comeau
    ∙ early
    ∙ ap (λ v. first (early_cases e v ++ C.later_cases e) other) h.same_vendors
