-- ===== src/CompilerId/Early.antt =====
-- The branches for the compilers that are asked for first, from Comeau to IBM's, in the order of the
-- programs.
use Prim.Native.String.{String}
use nsu_net_course.Prelude.{◌-◌, ◌/◌, ◌%◌, ◌^◌, some, leb, if◌then◌else◌}
use nsu_net_course.CompilerId.{Macros, defined, or_zero, dec_of, hex_of, Identity, named}
use nsu_net_course.CompilerId.Compilers.{Vendors, as_msvc, if_defined, plain, watcom_patch}

unfoldable pub comeau : Macros → Identity
comeau e = record (named "Comeau") {
  version_major = some (dec_of (e.value "__COMO_VERSION__") (λ n. n / 100));
  version_minor = some (dec_of (e.value "__COMO_VERSION__") (λ n. n % 100));
}

unfoldable pub intel : Macros → Identity
intel e =
    let v = e.value "__INTEL_COMPILER" in
    as_msvc e (record (named "Intel") {
      version_major = some (dec_of v (λ n. n / 100));
      version_minor = some (dec_of v (λ n. n / 10 % 10));
      version_patch =
          if defined e "__INTEL_COMPILER_UPDATE"
          then plain e "__INTEL_COMPILER_UPDATE"
          else some (dec_of v (λ n. n % 10));
      version_tweak = if_defined e "__INTEL_COMPILER_BUILD_DATE";
    })

unfoldable pub pathscale : Macros → Identity
pathscale e = record (named "PathScale") {
  version_major = plain e "__PATHCC__";
  version_minor = plain e "__PATHCC_MINOR__";
  version_patch = if_defined e "__PATHCC_PATCHLEVEL__";
}

unfoldable pub embarcadero : Macros → Identity
embarcadero e =
    let v = e.value "__CODEGEARC_VERSION__" in
    record (named "Embarcadero") {
      version_major = some (hex_of v (λ n. n / 2 ^ 24 % 2 ^ 8));
      version_minor = some (hex_of v (λ n. n / 2 ^ 16 % 2 ^ 8));
      version_patch = some (dec_of v (λ n. n % 2 ^ 16));
    }

unfoldable pub borland : Macros → Identity
borland e =
    let v = e.value "__BORLANDC__" in
    record (named "Borland") {
      version_major = some (hex_of v (λ n. n / 2 ^ 8));
      version_minor = some (hex_of v (λ n. n % 2 ^ 8));
    }

unfoldable pub watcom : Macros → Identity
watcom e =
    let v = e.value "__WATCOMC__" in
    record (named "Watcom") {
      version_major = some (dec_of v (λ n. n / 100));
      version_minor = some (dec_of v (λ n. n / 10 % 10));
      version_patch = watcom_patch v;
    }

-- The branch is taken from 1200 on, so the difference is none of a smaller from a larger number.
unfoldable pub open_watcom : Macros → Identity
open_watcom e =
    let v = e.value "__WATCOMC__" in
    record (named "OpenWatcom") {
      version_major = some (dec_of v (λ n. (n - 1100) / 100));
      version_minor = some (dec_of v (λ n. n / 10 % 10));
      version_patch = watcom_patch v;
    }

unfoldable pub sunpro : Vendors → Identity
sunpro v =
    let s = v.sunpro in
    if leb 0x5100 (or_zero s)
    then (record (named "SunPro") {
      version_major = some (hex_of s (λ n. n / 2 ^ 12));
      version_minor = some (hex_of s (λ n. n / 2 ^ 4 % 2 ^ 8));
      version_patch = some (hex_of s (λ n. n % 2 ^ 4));
    })
    else (record (named "SunPro") {
      version_major = some (hex_of s (λ n. n / 2 ^ 8));
      version_minor = some (hex_of s (λ n. n / 2 ^ 4 % 2 ^ 4));
      version_patch = some (hex_of s (λ n. n % 2 ^ 4));
    })

unfoldable pub hp : Vendors → Identity
hp v = record (named "HP") {
  version_major = some (dec_of v.hp (λ n. n / 10000));
  version_minor = some (dec_of v.hp (λ n. n / 100 % 100));
  version_patch = some (dec_of v.hp (λ n. n % 100));
}

unfoldable pub compaq : Vendors → Identity
compaq v = record (named "Compaq") {
  version_major = some (dec_of v.compaq_version (λ n. n / 10000000));
  version_minor = some (dec_of v.compaq_version (λ n. n / 100000 % 100));
  version_patch = some (dec_of v.compaq_version (λ n. n % 10000));
}

-- The versions of IBM's compilers: zOS, XL and VisualAge.
unfoldable pub ibm : String → Macros → Vendors → Identity
ibm id e v =
    if defined e "__ibmxl__"
    then (record (named id) {
      version_major = plain e "__ibmxl_version__";
      version_minor = plain e "__ibmxl_release__";
      version_patch = plain e "__ibmxl_modification__";
      version_tweak = plain e "__ibmxl_ptf_fix_level__";
    })
    else (record (named id) {
      version_major = some (dec_of v.ibm (λ n. n / 100));
      version_minor = some (dec_of v.ibm (λ n. n / 10 % 10));
      version_patch = some (dec_of v.ibm (λ n. n % 10));
    })
