-- ===== src/CompilerId.antt =====
-- net_lab7/cmake-build-debug/CMakeFiles: the programs CompilerIdC and CompilerIdCXX, which CMake
-- wrote into the repository to learn which compiler it was given. Nearly all they do, the
-- preprocessor does: they are functions of the macros that the compiler predefines. The copies in
-- 3.12.3, 3.13.1 and 3.13.2 are the same text.
pub mod Digits
pub mod Compilers
pub mod Early
pub mod Late
pub mod Cases
pub mod Cxx
pub mod C
pub mod Platform
pub mod Architecture
pub mod Program
pub mod Reading
pub mod Equivalence
pub mod Dialect
pub mod Sound
pub mod Bounds
pub mod Refusal
use Prim.Native.Char.{code}
use Prim.Native.String.{String}
use mathlib.Core.Option
use nsu_net_course.Prelude.{
  ℕ, Bool, true, false, ◌||◌, Option, none, some, List, [], ◌∷◌, if◌then◌else◌,
}
use nsu_net_course.Kernel.{Bytes}

-- The macros that are defined, with the numbers that they stand for. The number of a macro that has
-- none, such as an empty one, is never read. `spelling` is the text that a macro stands for.
pub record Macros : Type 0 where
  pub value : String → Option ℕ
  pub spelling : String → Bytes

abbrev pub is_some {ℓ} : {A : Type ℓ} → Option A → Bool
is_some none = false
is_some (some x) = true

-- `defined(m)`
abbrev pub defined : Macros → String → Bool
defined e m = is_some (e.value m)

-- A value in a condition: an identifier that is no macro counts as 0.
abbrev pub or_zero : Option ℕ → ℕ
or_zero none = 0
or_zero (some n) = n

-- `defined(m1) || defined(m2) || ...`
abbrev pub any_defined : Macros → List String → Bool
any_defined e [] = false
any_defined e (m ∷ ms) = defined e m || any_defined e ms

-- DEC(...) or HEX(...) of an expression over a macro; `none` is an expression that names an
-- identifier which is no macro, and does not compile.
pub data Number : Type 0 where
  dec : Option ℕ → Number
  hex : Option ℕ → Number

abbrev pub dec_of : Option ℕ → (ℕ → ℕ) → Number
dec_of v f = dec (Option.map f v)

abbrev pub hex_of : Option ℕ → (ℕ → ℕ) → Number
hex_of v f = hex (Option.map f v)

-- COMPILER_ID, SIMULATE_ID and the macros for the parts of the versions, where they are defined.
pub record Identity : Type 0 where
  pub compiler_id : String
  pub simulate_id : Option String
  pub version_major : Option Number
  pub version_minor : Option Number
  pub version_patch : Option Number
  pub version_tweak : Option Number
  pub version_internal : Option Number
  pub simulate_version_major : Option Number
  pub simulate_version_minor : Option Number

abbrev pub named : String → Identity
named s = record {
  compiler_id = s;
  simulate_id = none;
  version_major = none;
  version_minor = none;
  version_patch = none;
  version_tweak = none;
  version_internal = none;
  simulate_version_major = none;
  simulate_version_minor = none;
}

-- `#if ... #elif ... #else`, on the pairs of a condition and what its branch gives.
unfoldable pub first {ℓ} : {A : Type ℓ} → List (Bool × A) → A → A
first [] other = other
first ((b, x) ∷ cases) other = if b then x else first cases other

abbrev pub codes : String → Bytes
codes String.[] = []
codes (String.◌∷◌ c s) = code c ∷ codes s
