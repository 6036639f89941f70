-- ===== src/Build/Outcome.antt =====
-- When the build script succeeds, and what it then tells Cargo.
use btstack_rs.Common.{
  String, sym, subst, ap₂, ◌≡◌, ◌∙◌, refl, Bool, true, false, Option, none, some, [], ◌∷◌, ◌++◌,
  All, arith, ◌⊎◌, inl, inr, if◌then◌else◌,
}
use btstack_rs.Build.{
  FilePath, join, Directive, rustc_cfg, rustc_link_lib, rustc_link_search, Machine, ok, panic,
  Script, ◌>>=◌, expect, resolve_cmake_executable, link_built, build_with,
  try_build_vendor_btstack_core, rerun, finish, main,
}
use btstack_rs.Build.Settings.{
  core_dir, vendor, config_for, conditions, link_settings, emit_btstack_link_settings-link_settings,
}

-- The machine has all that the build takes: both directories, the vendored sources, a CMake that
-- works, the list file, and a build that succeeds.
pub record Builds (m : Machine) (manifest_dir out_dir cmake install_dir : FilePath)
    (exists : FilePath → Bool) : Type 0 where
  pub vendored : m.exists (vendor manifest_dir) ≡ true
  pub cmake_found : resolve_cmake_executable m ≡ some cmake
  pub listed : m.exists (join (core_dir manifest_dir) "CMakeLists.txt") ≡ true
  pub out_set : m.var "OUT_DIR" ≡ some out_dir
  pub built : m.build cmake (config_for manifest_dir out_dir) ≡ some (install_dir, exists)

-- Something of that is missing.
abbrev pub Lacks : Machine → FilePath → Type 0
Lacks m manifest_dir =
    (out_dir cmake install_dir : FilePath) (exists : FilePath → Bool)
    → Builds m manifest_dir out_dir cmake install_dir exists
    → ⊥

-- Nothing is said about linking.
abbrev pub IsSilent : Directive → Type 0
IsSilent (rustc_link_lib _) = ⊥
IsSilent (rustc_link_search _) = ⊥
IsSilent (rustc_cfg _) = ⊥
IsSilent _ = Unit

-- How an attempt to build ends.
data Tried (m : Machine) (manifest_dir : FilePath) : Script Bool → Type 0 where
  linked :
      (out_dir cmake install_dir : FilePath) (exists : FilePath → Bool)
      → Builds m manifest_dir out_dir cmake install_dir exists
      → Tried m manifest_dir (link_settings out_dir install_dir exists, ok true)
  failed :
      (reason : Directive)
      → IsSilent reason
      → Lacks m manifest_dir
      → Tried m manifest_dir (reason ∷ [], ok false)
  panicked : (message : String) → Lacks m manifest_dir → Tried m manifest_dir ([], panic message)

nowhere : {A : Type 0} {o : Option A} {a : A} → o ≡ none → o ≡ some a → ⊥
nowhere p q = cc

differs : {b : Bool} → b ≡ false → b ≡ true → ⊥
differs p q = cc

some-injective : {A : Type 0} {a b : A} → some a ≡ some b → a ≡ b
some-injective e = cc

module _ (m : Machine) (manifest_dir : FilePath) where
  Tried-if :
      (b : Bool) (x y : Script Bool)
      → (b ≡ true → Tried m manifest_dir x)
      → (b ≡ false → Tried m manifest_dir y)
      → Tried m manifest_dir (if b then x else y)
  Tried-if true x y p q = p refl
  Tried-if false x y p q = q refl

  module _ (cmake : FilePath) (vendored : m.exists (vendor manifest_dir) ≡ true)
      (cmake_found : resolve_cmake_executable m ≡ some cmake)
      (listed : m.exists (join (core_dir manifest_dir) "CMakeLists.txt") ≡ true) where
    link_built-Tried :
        (out_dir : FilePath) (o : Option (FilePath × (FilePath → Bool)))
        → m.var "OUT_DIR" ≡ some out_dir
        → m.build cmake (config_for manifest_dir out_dir) ≡ o
        → Tried m manifest_dir (link_built (join out_dir "btstack-cmake") o)
    unfolding link_built
    link_built-Tried out_dir none out_set built = failed _ tt (λ out' cmake' install' exists b.
        let same_cmake = some-injective (sym cmake_found ∙ b.cmake_found) in
        let same_out = some-injective (sym out_set ∙ b.out_set) in
        nowhere
          (sym (ap₂ (λ c d. m.build c (config_for manifest_dir d)) same_cmake same_out) ∙ built)
          b.built)
    link_built-Tried out_dir (some (install_dir, exists)) out_set built =
        subst (λ l. Tried m manifest_dir (l, ok true))
          (sym (emit_btstack_link_settings-link_settings out_dir install_dir exists))
          (linked out_dir cmake install_dir exists (record {
            vendored = vendored;
            cmake_found = cmake_found;
            listed = listed;
            out_set = out_set;
            built = built;
          }))

    expect-Tried :
        (o : Option FilePath)
        → m.var "OUT_DIR" ≡ o
        → Tried m manifest_dir (
            expect o "OUT_DIR is set by Cargo" >>= λ out_dir.
            link_built
              (join out_dir "btstack-cmake")
              (m.build cmake (config_for manifest_dir out_dir)))
    expect-Tried none out_set = panicked _ (λ o c i x b. nowhere out_set b.out_set)
    expect-Tried (some out_dir) out_set = link_built-Tried out_dir _ out_set refl

  build_with-Tried :
      (o : Option FilePath)
      → m.exists (vendor manifest_dir) ≡ true
      → resolve_cmake_executable m ≡ o
      → Tried m manifest_dir (build_with m manifest_dir (vendor manifest_dir) o)
  unfolding build_with
  build_with-Tried none vendored found = failed _ tt (λ o c i x b. nowhere found b.cmake_found)
  build_with-Tried (some cmake) vendored found =
      Tried-if (m.exists (join (core_dir manifest_dir) "CMakeLists.txt")) _ _
        (λ listed. expect-Tried cmake vendored found listed (m.var "OUT_DIR") refl)
        (λ no_. failed _ tt (λ o c i x b. differs no_ b.listed))

  try_build-Tried :
      Tried m manifest_dir (try_build_vendor_btstack_core m manifest_dir (vendor manifest_dir))
  unfolding try_build_vendor_btstack_core
  try_build-Tried =
      Tried-if (m.exists (vendor manifest_dir)) _ _
        (λ vendored. build_with-Tried (resolve_cmake_executable m) vendored refl)
        (λ no_. failed _ tt (λ o c i x b. differs no_ b.vendored))

-- How a whole run ends.
abbrev pub Ends : Machine → Script (Unit {0}) → Type 0
Ends m s =
    ((manifest_dir : FilePath) × (out_dir : FilePath) × (cmake : FilePath)
      × (install_dir : FilePath) × (exists : FilePath → Bool) × (m.var "CARGO_MANIFEST_DIR"
          ≡ some manifest_dir)
      × Builds m manifest_dir out_dir cmake install_dir exists
      × (s ≡ (
        conditions
            ++ (link_settings out_dir install_dir exists ++ rustc_cfg "btstack_vendor_build" ∷ []),
        ok tt,
      )))
    ⊎ ((message : String) × (s.1 ≡ panic message)
        × All IsSilent s.0
        × ((manifest_dir : FilePath)
            → m.var "CARGO_MANIFEST_DIR" ≡ some manifest_dir
            → Lacks m manifest_dir))

Lacks-all :
    {m : Machine} {manifest_dir : FilePath}
    → m.var "CARGO_MANIFEST_DIR" ≡ some manifest_dir
    → Lacks m manifest_dir
    → (manifest' : FilePath) → m.var "CARGO_MANIFEST_DIR" ≡ some manifest'
    → Lacks m manifest'
Lacks-all {m} set lacks manifest' e = subst (Lacks m) (some-injective (sym set ∙ e)) lacks

finish-Ends :
    (m : Machine) (manifest_dir : FilePath) (s : Script Bool)
    → m.var "CARGO_MANIFEST_DIR" ≡ some manifest_dir
    → Tried m manifest_dir s
    → Ends m ((rerun, ok tt) >>= λ _. s >>= finish)
unfolding finish
finish-Ends m manifest_dir s set (linked out_dir cmake install_dir exists builds) =
    inl (manifest_dir, out_dir, cmake, install_dir, exists, set, builds, refl)
finish-Ends m manifest_dir s set (failed reason silent lacks) =
    inr (_, refl, (tt, (tt, (tt, (tt, (tt, (silent, tt)))))), Lacks-all set lacks)
finish-Ends m manifest_dir s set (panicked message lacks) =
    inr (message, refl, omega arith, Lacks-all set lacks)

main_expect-Ends :
    (m : Machine) (o : Option FilePath)
    → m.var "CARGO_MANIFEST_DIR" ≡ o
    → Ends m (
        (rerun, ok tt) >>= λ _. expect o "CARGO_MANIFEST_DIR is set by Cargo" >>= λ manifest_dir.
        try_build_vendor_btstack_core m manifest_dir (vendor manifest_dir) >>= finish)
main_expect-Ends m none set = inr (_, refl, omega arith, λ manifest_dir e. absurd (nowhere set e))
main_expect-Ends m (some manifest_dir) set =
    finish-Ends m manifest_dir _ set (try_build-Tried m manifest_dir)

-- On every machine the script either succeeds, and then the machine has all that the build takes, the
-- settings of CMake being those written out, and Cargo is told the conditions for a rerun, to link the
-- static library btstack, to search exactly those of five places that exist, and the configuration
-- flag; or it panics, and then nothing has been said about linking, and the machine
-- lacks some of that.
pub main-Ends : (m : Machine) → Ends m (main m)
unfolding main
main-Ends m = main_expect-Ends m (m.var "CARGO_MANIFEST_DIR") refl
