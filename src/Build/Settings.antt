-- ===== src/Build/Settings.antt =====
-- What a build has to be: the settings of CMake, the conditions for a rerun and what is linked, written
-- out for btstack-sys/build.rs.
use btstack_rs.Common.{ap, ◌≡◌, ◌∙◌, refl, Bool, true, false, List, [], ◌∷◌, ◌++◌, if◌then◌else◌}
use btstack_rs.Build.{
  FilePath, join, Directive, rustc_link_lib, rustc_link_search, rerun_if_changed,
  rerun_if_env_changed, Config, emit_btstack_link_settings, link_search,
}

abbrev pub core_dir : FilePath → FilePath
core_dir manifest_dir = join (join manifest_dir "cmake") "btstack-core-only"

abbrev pub vendor : FilePath → FilePath
vendor manifest_dir = join (join manifest_dir "vendor") "btstack"

-- The build that is asked of CMake: a static library of position-independent code, in release mode.
abbrev pub config_for : FilePath → FilePath → Config
config_for manifest_dir out_dir = record {
  source_dir = core_dir manifest_dir;
  out_dir = "btstack-cmake" ∷ out_dir;
  profile = "Release";
  defines = ("BUILD_SHARED_LIBS", "OFF") ∷ ("CMAKE_POSITION_INDEPENDENT_CODE", "ON") ∷ [];
  btstack_root = vendor manifest_dir;
  target = "btstack";
}

-- The changes on which Cargo runs the script again.
abbrev pub conditions : List Directive
conditions =
    rerun_if_changed "cmake/btstack-core-only/CMakeLists.txt"
    ∷ rerun_if_changed "cmake/btstack-core-only/btstack_config.h"
    ∷ rerun_if_changed "vendor/btstack"
    ∷ rerun_if_env_changed "CMAKE"
    ∷ rerun_if_env_changed "BTSTACK_CMAKE"
    ∷ []

-- A directory is searched for the library exactly if it exists after the build.
abbrev pub searched : Bool → FilePath → List Directive
searched true dir = rustc_link_search dir ∷ []
searched false dir = []

pub all_searched : (FilePath → Bool) → List FilePath → List Directive
all_searched exists [] = []
all_searched exists (dir ∷ dirs) = searched (exists dir) dir ++ all_searched exists dirs

-- The library to link, and the places where a build may have put it.
abbrev pub link_settings : FilePath → FilePath → (FilePath → Bool) → List Directive
link_settings out_dir install_dir exists =
    let build_dir : FilePath = "build" ∷ "btstack-cmake" ∷ out_dir in
    rustc_link_lib "static=btstack"
    ∷ all_searched exists (
        install_dir
        ∷ ("lib" ∷ install_dir)
        ∷ build_dir
        ∷ ("Release" ∷ build_dir)
        ∷ ("Debug" ∷ build_dir)
        ∷ [])

searched-if :
    (b : Bool) (dir : FilePath) (rest : List Directive)
    → (if b then rustc_link_search dir ∷ rest else rest) ≡ searched b dir ++ rest
searched-if true dir rest = refl
searched-if false dir rest = refl

link_search-all_searched :
    (exists : FilePath → Bool) (dirs : List FilePath)
    → link_search exists dirs ≡ all_searched exists dirs
unfolding link_search all_searched
link_search-all_searched exists [] = refl
link_search-all_searched exists (dir ∷ dirs) =
    searched-if (exists dir) dir (link_search exists dirs)
    ∙ ap (λ l. searched (exists dir) dir ++ l) (link_search-all_searched exists dirs)

pub emit_btstack_link_settings-link_settings :
    (out_dir install_dir : FilePath) (exists : FilePath → Bool)
    → emit_btstack_link_settings exists install_dir ("build" ∷ "btstack-cmake" ∷ out_dir)
      ≡ link_settings out_dir install_dir exists
emit_btstack_link_settings-link_settings out_dir install_dir exists =
    unfold emit_btstack_link_settings in
    ap (λ l. rustc_link_lib "static=btstack" ∷ l) (link_search-all_searched exists _)
