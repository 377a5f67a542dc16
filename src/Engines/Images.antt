-- ===== src/Engines/Images.antt =====
-- src/kitt/engines/image_resolver.py: the Docker image of an engine on the hardware that is found,
-- with its caches, and which engines a CPU architecture can run.
pub mod Resolution
use kitt.Prelude.Exec.{Result, ok, raised}
use kitt.Prelude.{
  ℕ, ◌+◌, String, Bool, true, false, not, Option, none, some, List, [], ◌∷◌, ◌||◌, ◌&&◌, ltb, leb,
  eqb, map, lookup, if◌then◌else◌, ◌==◌,
}

-- _ARCH_ALIASES.get(arch, arch)
unfoldable pub normalize_arch : String → String
normalize_arch arch =
    if arch == "x86_64" then "amd64" else if arch == "aarch64" then "arm64" else arch

-- A row of _IMAGE_OVERRIDES: an architecture, if one is required, the least compute capability, and
-- the image.
pub record ImageOverride : Type 0 where
  pub cpu_arch : Option String
  pub min_cc : ℕ × ℕ
  pub image : String

abbrev image_row : Option String → ℕ × ℕ → String → ImageOverride
image_row cpu_arch min_cc image = record { cpu_arch = cpu_arch; min_cc = min_cc; image = image }

abbrev pub image_overrides : List (String × List ImageOverride)
image_overrides =
    ("vllm", image_row none (10, 0) "nvcr.io/nvidia/vllm:26.01-py3" ∷ [])
    ∷ (
      "llama_cpp",
      image_row (some "arm64") (10, 0) "kitt/llama-cpp:arm64"
          ∷ image_row none (10, 0) "kitt/llama-cpp:spark"
          ∷ [],
    )
    ∷ ("ollama", [])
    ∷ ("exllamav2", [])
    ∷ []

abbrev or_empty : {A : Type 0} → Option (List A) → List A
or_empty none = []
or_empty (some l) = l

abbrev pub overrides_of : String → List ImageOverride
overrides_of engine_name = or_empty (lookup engine_name image_overrides)

-- The value of `image_overrides`: a mapping, `none` for an image that is not a text, or a value of
-- another kind, null among them.
pub data Overrides : Type 0 where
  by_engine : List (String × Option String) → Overrides
  no_mapping : Overrides

-- What ~/.kitt/engines.yaml holds: a mapping, with its `image_overrides` where it has them, or a list
-- or a text. An empty file counts as an empty mapping.
pub data UserConfig : Type 0 where
  mapping : Option Overrides → UserConfig
  unmapped : UserConfig

-- What the host answers: the compute capability of its GPU (none where there is none or the
-- detection fails), platform.machine(), and the file of the user, `none` where it is missing or
-- cannot be read or parsed.
pub record Host : Type 0 where
  pub compute_capability : Option (ℕ × ℕ)
  pub machine : String
  pub user_file : Option UserConfig

-- The module's caches: `none` for what is not detected or loaded yet.
pub record Cache : Type 0 where
  pub cc : Option (Option (ℕ × ℕ))
  pub arch : Option (Option String)
  pub user_config : Option UserConfig

unfoldable pub clear_cache : Cache
clear_cache = record { cc = none; arch = none; user_config = none }

module _ (host : Host) where
  unfoldable pub machine_arch : Option String
  machine_arch = if host.machine == "" then none else some (normalize_arch host.machine)

  detected : {A : Type 0} → Option A → A → A
  detected none found = found
  detected (some known) found = known

  -- _detect_cc, _detect_arch and _load_user_overrides
  detect_cc : Cache → Option (ℕ × ℕ) × Cache
  unfolding detected
  detect_cc c = let cc = detected c.cc host.compute_capability in (cc, record c { cc = some cc })

  detect_arch : Cache → Option String × Cache
  unfolding detected
  detect_arch c = let arch = detected c.arch machine_arch in (arch, record c { arch = some arch })

  -- data.get("image_overrides", {}), which a list or a text does not have
  get_overrides : UserConfig → Result Overrides
  get_overrides (mapping none) = ok (by_engine [])
  get_overrides (mapping (some overrides)) = ok overrides
  get_overrides unmapped = raised "object has no attribute 'get'"

  -- The `except` of the first load.
  or_nothing : Result Overrides → Overrides
  or_nothing (ok overrides) = overrides
  or_nothing (raised e) = by_engine []

  -- Without a cache the file is read. What it holds is cached before `get` is tried.
  load_file : Option UserConfig → Cache → Result Overrides × Cache
  unfolding get_overrides or_nothing
  load_file none c = (ok (by_engine []), record c { user_config = some (mapping none) })
  load_file (some data_read) c =
      (ok (or_nothing (get_overrides data_read)), record c { user_config = some data_read })

  load_cached : Option UserConfig → Cache → Result Overrides × Cache
  unfolding get_overrides load_file
  load_cached (some config) c = (get_overrides config, c)
  load_cached none c = load_file host.user_file c

  load_user_overrides : Cache → Result Overrides × Cache
  unfolding load_cached
  load_user_overrides c = load_cached c.user_config c

-- a >= b on pairs
unfoldable pub cc_at_least : ℕ × ℕ → ℕ × ℕ → Bool
cc_at_least (a, b) (c, d) = ltb c a || (eqb a c && leb d b)

unfoldable pub arch_matches : Option String → Option String → Bool
arch_matches none arch = true
arch_matches (some required) none = false
arch_matches (some required) (some arch) = required == arch

-- The loop over the overrides of an engine.
unfoldable pub first_match : ℕ × ℕ → Option String → List ImageOverride → Option String
first_match cc arch [] = none
first_match cc arch (o ∷ os) =
    if arch_matches o.cpu_arch arch && cc_at_least cc o.min_cc
    then some o.image
    else first_match cc arch os

or_default : Option String → String → String
or_default none default_image = default_image
or_default (some image) default_image = image

hardware_image : Option (ℕ × ℕ) → Option String → String → Option String
hardware_image none arch engine_name = none
hardware_image (some cc) arch engine_name = first_match cc arch (overrides_of engine_name)

-- A user's image counts if it is a text and not empty.
user_image : Option (Option String) → Option String
user_image (some (some image)) = if image == "" then none else some image
user_image _ = none

-- user_overrides.get(engine_name), which a value that is no mapping does not have
unfoldable pub get_user_image : Overrides → String → Result (Option String)
unfolding user_image
get_user_image (by_engine overrides) engine_name = ok (user_image (lookup engine_name overrides))
get_user_image no_mapping engine_name = raised "object has no attribute 'get'"

module _ (host : Host) where
  -- Steps 2 and 3 of `resolve_image`: the hardware is looked at only without a user's image.
  resolve_after : Option String → String → String → Cache → String × Cache
  unfolding detect_cc detect_arch hardware_image or_default
  resolve_after (some image) engine_name default_image c = (image, c)
  resolve_after none engine_name default_image c =
      let (cc, c₁) = detect_cc host c in
      let (arch, c₂) = detect_arch host c₁ in
      (or_default (hardware_image cc arch engine_name) default_image, c₂)

  resolve_user : Result (Option String) → String → String → Cache → Result String × Cache
  unfolding resolve_after
  resolve_user (ok user) engine_name default_image c =
      let (image, c₁) = resolve_after user engine_name default_image c in (ok image, c₁)
  resolve_user (raised e) engine_name default_image c = (raised e, c)

  resolve_loaded : Result Overrides → String → String → Cache → Result String × Cache
  unfolding resolve_user
  resolve_loaded (ok overrides) engine_name default_image c =
      resolve_user (get_user_image overrides engine_name) engine_name default_image c
  resolve_loaded (raised e) engine_name default_image c = (raised e, c)

  pub resolve_image : String → String → Cache → Result String × Cache
  unfolding load_user_overrides resolve_loaded
  resolve_image engine_name default_image c =
      let (overrides, c₁) = load_user_overrides host c in
      resolve_loaded overrides engine_name default_image c₁

abbrev pub get_supported_engines : List String
get_supported_engines = map (λ (e : String × List ImageOverride). e.0) image_overrides

non_empty : List ImageOverride → Bool
non_empty [] = false
non_empty (o ∷ os) = true

pub has_hardware_overrides : String → Bool
unfolding non_empty
has_hardware_overrides engine_name = non_empty (overrides_of engine_name)

-- BuildRecipe and _BUILD_RECIPES, by the name of the image.
pub record BuildRecipe : Type 0 where
  pub dockerfile : String
  pub target : Option String
  pub experimental : Bool

abbrev recipe : String → Option String → BuildRecipe
recipe dockerfile target = record { dockerfile = dockerfile; target = target; experimental = false }

abbrev pub build_recipes : List (String × BuildRecipe)
build_recipes =
    ("kitt/llama-cpp:spark", recipe "docker/llama_cpp/Dockerfile.spark" (some "server"))
    ∷ ("kitt/llama-cpp:arm64", recipe "docker/llama_cpp/Dockerfile.arm64" (some "server"))
    ∷ ("kitt/vllm:arm64", recipe "docker/vllm/Dockerfile.arm64" none)
    ∷ []

unfoldable pub get_build_recipe : String → Option BuildRecipe
get_build_recipe image = lookup image build_recipes

-- _PLATFORM_INCOMPATIBLE, and the reason why an engine does not run on an architecture.
abbrev pub platform_incompatible : List (String × List (String × String))
platform_incompatible =
    ("exllamav2", ("arm64", "Default Docker image is x86_64-only; no ARM64 build available") ∷ [])
    ∷ []

unfoldable pub get_engine_compatibility : String → List (String × Option String)
get_engine_compatibility cpu_arch =
    let arch = if cpu_arch == "" then "" else normalize_arch cpu_arch in
    map
      (λ engine_name.
        (engine_name, lookup arch (or_empty (lookup engine_name platform_incompatible))))
      get_supported_engines
