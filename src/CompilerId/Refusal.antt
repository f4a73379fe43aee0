-- ===== src/CompilerId/Refusal.antt =====
-- A compiler with which the C++ program does not compile.
use nsu_net_course.Prelude.{true, false, Option, none, some, ◌≡◌, refl, ap, ◌∙◌, arith}
use nsu_net_course.Kernel.{Bytes}
use nsu_net_course.CompilerId.{Macros, defined, Number, Identity, codes, first, dec}
use nsu_net_course.CompilerId.Early.{intel}
use nsu_net_course.CompilerId.Cases.{early_cases}
use nsu_net_course.CompilerId.Cxx
use nsu_net_course.CompilerId.Program.{
  parts, digits, dotted, version_array, info_version, cxx_program,
}

identify-intel :
    (e : Macros)
    → defined e "__COMO__" ≡ false
    → defined e "__ICC" ≡ true
    → e.value "__INTEL_COMPILER" ≡ none
    → Cxx.identify e ≡ intel e
unfolding Cxx.identify Cxx.cases early_cases first
identify-intel e c i n = rw (c, n, i) refl

no_major :
    (key : Bytes) (minor patch tweak : Option Number)
    → version_array key (parts (some (dec none)) minor patch tweak) ≡ none
unfolding parts version_array dotted digits
no_major key none patch tweak = refl
no_major key (some b) none tweak = refl
no_major key (some b) (some c) none = refl
no_major key (some b) (some c) (some d) = refl

intel_major :
    (e : Macros) → e.value "__INTEL_COMPILER" ≡ none → (intel e).version_major ≡ some (dec none)
unfolding intel
intel_major e n = ground (arith, n)

info_version-none : (i : Identity) → i.version_major ≡ some (dec none) → info_version i ≡ none
unfolding info_version
info_version-none i h =
    rw h (no_major (codes "compiler_version") i.version_minor i.version_patch i.version_tweak)

intel-compiler_id : (e : Macros) → (intel e).compiler_id ≡ "Intel"
unfolding intel
intel-compiler_id e = ground arith

-- A C++ compiler that defines __ICC and not __INTEL_COMPILER (and is not Comeau's) is taken for
-- Intel's; the major version found for it is an expression in an undefined macro, so that the array of
-- the version cannot be made, and the C++ program does not compile with it.
pub cxx_program-icc :
    (e : Macros)
    → defined e "__COMO__" ≡ false
    → defined e "__ICC" ≡ true
    → e.value "__INTEL_COMPILER" ≡ none
    → defined e "__cplusplus" ≡ true
    → let found = Cxx.identify e in
      (found.compiler_id ≡ "Intel")
      × (found.version_major ≡ some (dec none))
      × (info_version found ≡ none)
      × (cxx_program e ≡ none)
unfolding cxx_program
cxx_program-icc e c i n p =
    let same = identify-intel e c i n in
    let missing = info_version-none (intel e) (intel_major e n) in
    (
      ap (λ d. d.compiler_id) same ∙ intel-compiler_id e,
      ap (λ d. d.version_major) same ∙ intel_major e n,
      ap info_version same ∙ missing,
      rw (same, missing) (ground arith),
    )
