-- ===== src/CompilerId/Sound.antt =====
-- Which parts of the versions stand together, whatever the compiler.
use nsu_net_course.Prelude.{Bool, true, false, [], ◌∷◌, ◌≡◌, All, All-append, arith}
use nsu_net_course.CompilerId.{Macros, defined, is_some, Identity, named, first}
use nsu_net_course.CompilerId.Compilers.{Vendors}
use nsu_net_course.CompilerId.Early.{
  comeau, intel, pathscale, embarcadero, borland, watcom, open_watcom, sunpro, hp, compaq, ibm,
}
use nsu_net_course.CompilerId.Late.{
  pgi, cray, ti, apple_clang, clang, msvc, adsp, iar, armcc, mipspro,
}
use nsu_net_course.CompilerId.Cases.{
  Cases, early_cases, middle_cases, clang_cases, late_cases, last_cases,
}
use nsu_net_course.CompilerId.Cxx
use nsu_net_course.CompilerId.C

-- The documented companions of two macros that the programs do not ask for together.
pub record AreConsistent (e : Macros) : Type 0 where
  pub gnu : defined e "__GNUC_PATCHLEVEL__" ≡ true → defined e "__GNUC_MINOR__" ≡ true
  pub msvc : defined e "_MSC_BUILD" ≡ true → defined e "_MSC_FULL_VER" ≡ true

-- The compiler that is simulated comes with its version, and only under MSVC's macros. A part of a
-- version comes with all the parts before it, so that the arrays show all parts that are defined.
pub record IsSound (e : Macros) (i : Identity) : Type 0 where
  pub simulated_major : is_some i.simulate_version_major ≡ is_some i.simulate_id
  pub simulated_minor : is_some i.simulate_version_minor ≡ is_some i.simulate_id
  pub under_msvc : is_some i.simulate_id ≡ true → defined e "_MSC_VER" ≡ true
  pub minor_major : is_some i.version_minor ≡ true → is_some i.version_major ≡ true
  pub patch_minor : is_some i.version_patch ≡ true → is_some i.version_minor ≡ true
  pub tweak_patch : is_some i.version_tweak ≡ true → is_some i.version_patch ≡ true

abbrev AllSound : Macros → Cases → Type 0
AllSound e cs = All (λ (c : Bool × Identity). IsSound e c.1) cs

first-IsSound :
    (e : Macros) (cs : Cases) (other : Identity)
    → AllSound e cs
    → IsSound e other
    → IsSound e (first cs other)
unfolding first
first-IsSound e [] other h o = o
first-IsSound e ((true, i) ∷ cs) other h o = h.0
first-IsSound e ((false, i) ∷ cs) other h o = first-IsSound e cs other h.1 o

early_cases-AllSound : (e : Macros) (v : Vendors) → AllSound e (early_cases e v)
unfolding early_cases intel pathscale embarcadero borland watcom open_watcom sunpro hp compaq ibm
early_cases-AllSound e v = ground arith

middle_cases-AllSound : (e : Macros) → AllSound e (middle_cases e)
unfolding middle_cases pgi cray ti
middle_cases-AllSound e = ground arith

clang_cases-AllSound : (e : Macros) → AllSound e (clang_cases e)
unfolding clang_cases apple_clang clang
clang_cases-AllSound e = ground arith

late_cases-AllSound : (e : Macros) → AreConsistent e → AllSound e (late_cases e)
unfolding late_cases msvc adsp iar armcc
late_cases-AllSound e h = ground arith

last_cases-AllSound : (e : Macros) → AllSound e (last_cases e)
unfolding last_cases mipspro
last_cases-AllSound e = ground arith

-- The parts of the version that the C++ program finds come without gaps, and SIMULATE_ID comes with
-- its version, and only where _MSC_VER is defined, for every compiler that defines __GNUC_MINOR__
-- with __GNUC_PATCHLEVEL__ and _MSC_FULL_VER with _MSC_BUILD.
pub cxx_identify-IsSound : (e : Macros) → AreConsistent e → IsSound e (Cxx.identify e)
unfolding Cxx.identify Cxx.cases Cxx.gnu comeau
cxx_identify-IsSound e h =
    let P = λ (c : Bool × Identity). IsSound e c.1 in
    let late =
      All-append P (late_cases e) (last_cases e) (late_cases-AllSound e h)
        (last_cases-AllSound e) in
    let gnu : IsSound e (Cxx.gnu e) = ground arith in
    let clang = All-append P (clang_cases e) _ (clang_cases-AllSound e) (gnu, late) in
    let middle = All-append P (middle_cases e) _ (middle_cases-AllSound e) clang in
    let early =
      All-append P (early_cases e (Cxx.vendors e)) _ (early_cases-AllSound e (Cxx.vendors e))
        middle in
    first-IsSound e _ (named "") (ground arith, early) (ground arith)

-- The parts of the version that the C program finds come without gaps, and SIMULATE_ID comes with its
-- version, and only where _MSC_VER is defined, for every compiler that defines __GNUC_MINOR__ with
-- __GNUC_PATCHLEVEL__ and _MSC_FULL_VER with _MSC_BUILD.
pub c_identify-IsSound : (e : Macros) → AreConsistent e → IsSound e (C.identify e)
unfolding C.identify C.later_cases C.gnu C.sdcc
c_identify-IsSound e h =
    let P = λ (c : Bool × Identity). IsSound e c.1 in
    let sdcc : IsSound e (C.sdcc e) = ground arith in
    let gnu : IsSound e (C.gnu e) = ground arith in
    let bare : IsSound e (named "TinyCC") × IsSound e (named "Bruce") = ground arith in
    let late =
      All-append P (late_cases e) _ (late_cases-AllSound e h) (sdcc, last_cases-AllSound e) in
    let clang = All-append P (clang_cases e) _ (clang_cases-AllSound e) (gnu, late) in
    let middle =
      All-append P (middle_cases e) _ (middle_cases-AllSound e) (bare.0, (bare.1, clang)) in
    let early =
      All-append P (early_cases e (C.vendors e)) _ (early_cases-AllSound e (C.vendors e)) middle in
    first-IsSound e _ (named "") early (ground arith)
