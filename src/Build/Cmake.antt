-- ===== src/Build/Cmake.antt =====
-- Which program the build script takes for CMake.
use btstack_rs.Common.{◌≡◌, true, false, Option, none, some, List, [], ◌∷◌, ◌⊎◌, if◌then◌else◌}
use btstack_rs.Build.{
  FilePath, Machine, command_works, find_visual_studio_bundled_cmake_from_compiler, explicit_cmake,
}

-- The programs that are tried, in order: the one that the environment names, if any; the one on the
-- path; on Windows the one that comes with the compiler.
abbrev pub candidates : Machine → List (Option FilePath)
candidates m =
    explicit_cmake m
    ∷ some ("cmake" ∷ [])
    ∷ (if m.windows then find_visual_studio_bundled_cmake_from_compiler m else none)
    ∷ []

-- The first of some candidates that works.
abbrev pub Chosen : Machine → List (Option FilePath) → Option FilePath → Type 0
Chosen m [] found = found ≡ none
Chosen m (c ∷ cs) found =
    ((program : FilePath) × (c ≡ some program)
      × (command_works m program "--version" ≡ true)
      × (found ≡ some program))
    ⊎ (((program : FilePath) → c ≡ some program → command_works m program "--version" ≡ false)
        × Chosen m cs found)
