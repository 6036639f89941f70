-- ===== src/Build.antt =====
-- btstack-sys/build.rs: the build script. What it prints is a list of directives; the machine on which
-- it runs (environment, files, programs, the crates cmake and cc) is a record. A path is the list of
-- its components, the last one first.
pub mod Cmake
pub mod Settings
pub mod Outcome
mod Tests
use text.Mathlib.Text.{◌==◌ as str_eq}
use btstack_rs.Common.{
  String, Bool, true, false, not, Option, none, some, List, [], ◌∷◌, ◌++◌, map, if◌then◌else◌,
}

abbrev pub FilePath : Type 0
FilePath = List String

-- `Path::join` with one component.
abbrev pub join : FilePath → String → FilePath
join path name = name ∷ path

pub data Directive : Type 0 where
  rerun_if_changed rerun_if_env_changed rustc_cfg warning rustc_link_lib : String → Directive
  rustc_link_search : FilePath → Directive
  -- the warning "Expected CMakeLists.txt at … but it is missing" with this path
  missing_cmake_lists : FilePath → Directive

-- The settings of `cmake::Config`.
pub record Config : Type 0 where
  pub source_dir : FilePath
  pub out_dir : FilePath
  pub profile : String
  pub defines : List (String × String)
  pub btstack_root : FilePath
  pub target : String

pub record Machine : Type 0 where
  -- `env::var` and `env::var_os`; what a variable holds is read as a path
  pub var : String → Option FilePath
  pub exists : FilePath → Bool
  -- whether a program, run with one argument, succeeds; `none` where it cannot be started
  pub status : FilePath → String → Option Bool
  -- `cmake::Config::build` with the program in CMAKE: where it has installed, and which files there
  -- are then; `none` where it panics
  pub build : FilePath → Config → Option (FilePath × (FilePath → Bool))
  pub windows : Bool
  -- the compiler that the crate cc finds, and `Path::canonicalize`
  pub compiler : FilePath
  pub canonicalize : FilePath → Option FilePath

-- A run prints and returns, or panics.
pub data Result (A : Type 0) : Type 0 where
  ok : A → Result A
  panic : String → Result A

abbrev pub Script : Type 0 → Type 0
Script A = List Directive × Result A

-- What follows a step, after what the step has printed.
abbrev pub and_then : {A B : Type 0} → List Directive → Result A → (A → Script B) → Script B
and_then printed (panic message) f = (printed, panic message)
and_then printed (ok a) f = let (more, result) = f a in (printed ++ more, result)

infixl 5 ◌>>=◌ ◌>>◌
abbrev pub ◌>>=◌ : {A B : Type 0} → Script A → (A → Script B) → Script B
◌>>=◌ (printed, result) f = and_then printed result f

abbrev pub ◌>>◌ : {A B : Type 0} → Script A → Script B → Script B
m >> k = m >>= λ _. k

abbrev pub pure : {A : Type 0} → A → Script A
pure a = ([], ok a)

abbrev pub print : Directive → Script (Unit {0})
print d = (d ∷ [], ok tt)

abbrev pub expect : {A : Type 0} → Option A → String → Script A
expect none message = ([], panic message)
expect (some a) message = pure a

module _ (m : Machine) where
  unfoldable pub command_works : FilePath → String → Bool
  command_works program arg = elim (m.status program arg) [ none ↦ false | some success ↦ success ]

  -- The first ancestor, the path itself included, whose last component is "VC".
  pub find_vc : FilePath → Option FilePath
  find_vc [] = none
  find_vc (name ∷ path) = if str_eq name "VC" then some (name ∷ path) else find_vc path

  bundled : FilePath → Option FilePath
  bundled [] = none
  bundled (vc ∷ parent) = m.canonicalize (
      "cmake.exe" ∷ "bin" ∷ "CMake" ∷ "CMake" ∷ "Microsoft" ∷ "CommonExtensions" ∷ "IDE" ∷ "Common7"
      ∷ parent)

  unfoldable pub find_visual_studio_bundled_cmake_from_compiler : Option FilePath
  unfolding find_vc bundled
  find_visual_studio_bundled_cmake_from_compiler = elim (find_vc m.compiler) [
    | none ↦ none
    | some vc_dir ↦ bundled vc_dir
  ]

  -- `var_os("BTSTACK_CMAKE").or_else(|| var_os("CMAKE"))`
  unfoldable pub explicit_cmake : Option FilePath
  explicit_cmake = elim (m.var "BTSTACK_CMAKE") [ some path ↦ some path | none ↦ m.var "CMAKE" ]

  abbrev pub if_works : Option FilePath → Option FilePath
  if_works none = none
  if_works (some program) = if command_works program "--version" then some program else none

  abbrev pub or_else : Option FilePath → Option FilePath → Option FilePath
  or_else (some path) other = some path
  or_else none other = other

  unfoldable pub resolve_cmake_executable : Option FilePath
  resolve_cmake_executable = or_else (if_works explicit_cmake) (
      or_else (if_works (some ("cmake" ∷ [])))
        (if m.windows then if_works find_visual_studio_bundled_cmake_from_compiler else none))

-- `exists` is asked after the build.
abbrev pub search_dirs : FilePath → FilePath → List FilePath
search_dirs install_dir build_dir =
    install_dir
    ∷ join install_dir "lib"
    ∷ build_dir
    ∷ join build_dir "Release"
    ∷ join build_dir "Debug"
    ∷ []

pub link_search : (FilePath → Bool) → List FilePath → List Directive
link_search exists [] = []
link_search exists (dir ∷ dirs) =
    let rest = link_search exists dirs in if exists dir then rustc_link_search dir ∷ rest else rest

unfoldable pub emit_btstack_link_settings : (FilePath → Bool) → FilePath → FilePath → List Directive
unfolding link_search
emit_btstack_link_settings exists install_dir build_dir =
    rustc_link_lib "static=btstack" ∷ link_search exists (search_dirs install_dir build_dir)

abbrev pub core_config : FilePath → FilePath → FilePath → Config
core_config source_dir cmake_out_dir vendor_dir = record {
  source_dir = source_dir;
  out_dir = cmake_out_dir;
  profile = "Release";
  defines = ("BUILD_SHARED_LIBS", "OFF") ∷ ("CMAKE_POSITION_INDEPENDENT_CODE", "ON") ∷ [];
  btstack_root = vendor_dir;
  target = "btstack";
}

abbrev pub fail : Directive → Script Bool
fail reason = do print reason; pure false

-- After the `match` on the result of the build.
unfoldable pub link_built : FilePath → Option (FilePath × (FilePath → Bool)) → Script Bool
unfolding emit_btstack_link_settings
link_built cmake_out_dir none =
    fail (warning "Failed to configure/build BTstack core via cmake crate")
link_built cmake_out_dir (some (install_dir, exists)) =
    (emit_btstack_link_settings exists install_dir (join cmake_out_dir "build"), ok true)

-- With a program for CMake at hand, or none.
unfoldable pub build_with : Machine → FilePath → FilePath → Option FilePath → Script Bool
unfolding link_built
build_with m manifest_dir vendor_dir none = fail (warning "CMake is not available")
build_with m manifest_dir vendor_dir (some cmake) =
    let source_dir = join (join manifest_dir "cmake") "btstack-core-only" in
    let cmake_lists = join source_dir "CMakeLists.txt" in
    if m.exists cmake_lists
    then (do
      out_dir ← expect (m.var "OUT_DIR") "OUT_DIR is set by Cargo"
      let cmake_out_dir = join out_dir "btstack-cmake"
      link_built cmake_out_dir (m.build cmake (core_config source_dir cmake_out_dir vendor_dir)))
    else fail (missing_cmake_lists cmake_lists)

unfoldable pub try_build_vendor_btstack_core : Machine → FilePath → FilePath → Script Bool
unfolding build_with
try_build_vendor_btstack_core m manifest_dir vendor_dir =
    if m.exists vendor_dir
    then build_with m manifest_dir vendor_dir (resolve_cmake_executable m)
    else fail (warning "BTstack submodule is not initialized")

abbrev pub rerun : List Directive
rerun =
    rerun_if_changed "cmake/btstack-core-only/CMakeLists.txt"
    ∷ rerun_if_changed "cmake/btstack-core-only/btstack_config.h"
    ∷ rerun_if_changed "vendor/btstack"
    ∷ rerun_if_env_changed "CMAKE"
    ∷ rerun_if_env_changed "BTSTACK_CMAKE"
    ∷ []

unfoldable pub finish : Bool → Script (Unit {0})
finish true = print (rustc_cfg "btstack_vendor_build")
finish false = (
  [],
  panic
      "Failed to build BTstack core from vendor directory. Please initialize the BTstack submodule and ensure CMake is available.",
)

unfoldable pub main : Machine → Script (Unit {0})
unfolding try_build_vendor_btstack_core finish
main m = do
  (rerun, ok tt)
  manifest_dir ← expect (m.var "CARGO_MANIFEST_DIR") "CARGO_MANIFEST_DIR is set by Cargo"
  built ← try_build_vendor_btstack_core m manifest_dir (join (join manifest_dir "vendor") "btstack")
  finish built
