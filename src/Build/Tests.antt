-- ===== src/Build/Tests.antt =====
-- A machine on which the build succeeds, and one without CMake.
use text.Mathlib.Text.{◌==◌ as str_eq}
use btstack_rs.Common.{◌≡◌, refl, true, false, none, some, [], ◌∷◌, ◌++◌, if◌then◌else◌}
use btstack_rs.Build.{
  rustc_cfg, rustc_link_lib, rustc_link_search, Machine, ok, rerun, main, resolve_cmake_executable,
  command_works, explicit_cmake, find_visual_studio_bundled_cmake_from_compiler,
}
use btstack_rs.Build.Outcome.{Ends, main-Ends}

-- Cargo's variables are set; only the installation directory exists after the build.
abbrev machine : Machine
machine = record {
  var = λ name.
      if str_eq name "CARGO_MANIFEST_DIR"
      then some ("sys" ∷ [])
      else if str_eq name "OUT_DIR"
      then some ("out" ∷ [])
      else none;
  exists = λ _. true;
  status = λ _ _. some true;
  build = λ cmake config. some ("installed" ∷ [], λ dir. elim dir [ _ ∷ [] ↦ true | _ ↦ false ]);
  windows = false;
  compiler = "cc" ∷ [];
  canonicalize = λ _. none;
}

linked : main machine ≡ (
  rerun
      ++ (rustc_link_lib "static=btstack"
          ∷ rustc_link_search ("installed" ∷ [])
          ∷ rustc_cfg "btstack_vendor_build"
          ∷ []),
  ok tt,
)
unfolding main resolve_cmake_executable command_works explicit_cmake
linked = refl

-- On Windows, with a CMake only beside the compiler.
abbrev bundled : Machine
bundled = record machine {
  status = λ program arg. elim program [ _ ∷ _ ∷ _ ↦ some true | _ ↦ none ];
  windows = true;
  compiler = "cl.exe" ∷ "bin" ∷ "VC" ∷ "Visual" ∷ [];
  canonicalize = λ path. some path;
}

main-Ends_example : Ends machine (main machine)
main-Ends_example = main-Ends machine

from_compiler :
    resolve_cmake_executable bundled
    ≡ some (
        "cmake.exe" ∷ "bin" ∷ "CMake" ∷ "CMake" ∷ "Microsoft" ∷ "CommonExtensions" ∷ "IDE"
        ∷ "Common7" ∷ "Visual" ∷ [])
unfolding resolve_cmake_executable command_works explicit_cmake
    find_visual_studio_bundled_cmake_from_compiler
from_compiler = refl
