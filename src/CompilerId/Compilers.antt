-- ===== src/CompilerId/Compilers.antt =====
-- What the branches that tell compilers apart share. Each defines COMPILER_ID, SIMULATE_ID and the
-- versions; the programs for C and for C++ have nearly the same, under other names for some macros.
use Prim.Native.String.{String}
use nsu_net_course.Prelude.{ℕ, ◌/◌, ◌%◌, Option, none, some, ltb, if◌then◌else◌}
use nsu_net_course.CompilerId.{Macros, defined, is_some, or_zero, Number, dec_of, Identity, named}

-- The macros that are called differently for the two languages.
pub record Vendors : Type 0 where
  pub sunpro : Option ℕ
  pub hp : Option ℕ
  pub compaq : Option ℕ
  pub compaq_version : Option ℕ
  pub ibm : Option ℕ

-- Under MSVC's macros a compiler says that it acts as MSVC.
abbrev pub as_msvc : Macros → Identity → Identity
as_msvc e i =
    let v = e.value "_MSC_VER" in
    if is_some v
    then (record i {
      simulate_id = some "MSVC";
      simulate_version_major = some (dec_of v (λ n. n / 100));
      simulate_version_minor = some (dec_of v (λ n. n % 100));
    })
    else i

-- `# if defined(m)`, then DEC(m)
abbrev pub if_defined : Macros → String → Option Number
if_defined e m = if defined e m then some (dec_of (e.value m) (λ n. n)) else none

abbrev pub plain : Macros → String → Option Number
plain e m = some (dec_of (e.value m) (λ n. n))

-- `# if (__WATCOMC__ % 10) > 0`
abbrev pub watcom_patch : Option ℕ → Option Number
watcom_patch v = if ltb 0 (or_zero v % 10) then some (dec_of v (λ n. n % 10)) else none

abbrev pub clang_version : String → Macros → Identity
clang_version id e = as_msvc e (record (named id) {
  version_major = plain e "__clang_major__";
  version_minor = plain e "__clang_minor__";
  version_patch = plain e "__clang_patchlevel__";
})

-- The minor version and the patch level of GNU, for either language.
abbrev pub gnu_version : Macros → Option Number → Identity
gnu_version e major = record (named "GNU") {
  version_major = major;
  version_minor = if_defined e "__GNUC_MINOR__";
  version_patch = if_defined e "__GNUC_PATCHLEVEL__";
}

-- `VRP`, in three decimal digits and more
abbrev pub in_tens : String → Option ℕ → Identity
in_tens id v = record (named id) {
  version_major = some (dec_of v (λ n. n / 100));
  version_minor = some (dec_of v (λ n. n / 10 % 10));
  version_patch = some (dec_of v (λ n. n % 10));
}
