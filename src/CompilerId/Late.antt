-- ===== src/CompilerId/Late.antt =====
-- The branches for the other compilers, from PGI's to MIPSpro, in the order of the programs.
use nsu_net_course.Prelude.{◌/◌, ◌%◌, ◌^◌, none, some, leb, if◌then◌else◌}
use nsu_net_course.CompilerId.{Macros, defined, is_some, or_zero, dec_of, hex_of, Identity, named}
use nsu_net_course.CompilerId.Compilers.{if_defined, plain, clang_version, in_tens}

unfoldable pub pgi : Macros → Identity
pgi e = record (named "PGI") {
  version_major = plain e "__PGIC__";
  version_minor = plain e "__PGIC_MINOR__";
  version_patch = if_defined e "__PGIC_PATCHLEVEL__";
}

unfoldable pub cray : Macros → Identity
cray e = record (named "Cray") {
  version_major = plain e "_RELEASE_MAJOR";
  version_minor = plain e "_RELEASE_MINOR";
}

unfoldable pub ti : Macros → Identity
ti e =
    let v = e.value "__TI_COMPILER_VERSION__" in
    record (named "TI") {
      version_major = some (dec_of v (λ n. n / 1000000));
      version_minor = some (dec_of v (λ n. n / 1000 % 1000));
      version_patch = some (dec_of v (λ n. n % 1000));
    }

unfoldable pub apple_clang : Macros → Identity
apple_clang e = record (clang_version "AppleClang" e) {
  version_tweak = plain e "__apple_build_version__";
}

unfoldable pub clang : Macros → Identity
clang e = clang_version "Clang" e

unfoldable pub msvc : Macros → Identity
msvc e =
    let v = e.value "_MSC_VER" in
    let full = e.value "_MSC_FULL_VER" in
    record (named "MSVC") {
      version_major = some (dec_of v (λ n. n / 100));
      version_minor = some (dec_of v (λ n. n % 100));
      version_patch =
          if is_some full
          then (if leb 1400 (or_zero v)
              then some (dec_of full (λ n. n % 100000))
              else some (dec_of full (λ n. n % 10000)))
          else none;
      version_tweak = if_defined e "_MSC_BUILD";
    }

unfoldable pub adsp : Macros → Identity
adsp e =
    let v = e.value "__VISUALDSPVERSION__" in
    if is_some v
    then (record (named "ADSP") {
      version_major = some (hex_of v (λ n. n / 2 ^ 24));
      version_minor = some (hex_of v (λ n. n / 2 ^ 16 % 2 ^ 8));
      version_patch = some (hex_of v (λ n. n / 2 ^ 8 % 2 ^ 8));
    })
    else named "ADSP"

unfoldable pub iar : Macros → Identity
iar e =
    let v = e.value "__VER__" in
    if is_some v
    then (record (named "IAR") {
      version_major = some (dec_of v (λ n. n / 1000000));
      version_minor = some (dec_of v (λ n. n / 1000 % 1000));
      version_patch = some (dec_of v (λ n. n % 1000));
      version_internal = plain e "__IAR_SYSTEMS_ICC__";
    })
    else named "IAR"

unfoldable pub armcc : Macros → Identity
armcc e =
    let v = e.value "__ARMCC_VERSION" in
    if leb 1000000 (or_zero v)
    then (record (named "ARMCC") {
      version_major = some (dec_of v (λ n. n / 1000000));
      version_minor = some (dec_of v (λ n. n / 10000 % 100));
      version_patch = some (dec_of v (λ n. n % 10000));
    })
    else (record (named "ARMCC") {
      version_major = some (dec_of v (λ n. n / 100000));
      version_minor = some (dec_of v (λ n. n / 10000 % 10));
      version_patch = some (dec_of v (λ n. n % 10000));
    })

unfoldable pub mipspro : Macros → Identity
mipspro e = in_tens "MIPSpro" (
    if defined e "_SGI_COMPILER_VERSION"
    then e.value "_SGI_COMPILER_VERSION"
    else e.value "_COMPILER_VERSION")
