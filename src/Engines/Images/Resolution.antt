-- ===== src/Engines/Images/Resolution.antt =====
-- What `resolve_image` gives, with and without its caches.
use mathlib.Core.List.{Memᴰ}
use kitt.Prelude.{
  ℕ, String, Bool, sym, ◌∙◌, true, false, Option, none, some, List, [], ◌∷◌, ◌≡◌, refl, ap, arith,
  lookup, ◌&&◌, ◌==◌, Bool-cases, ◌⊎◌, inl, inr,
}
use kitt.Prelude.Exec.{Result, ok, raised}
use kitt.Engines.Images.{
  normalize_arch, ImageOverride, Host, Cache, clear_cache, machine_arch, detected, detect_cc,
  get_overrides, or_nothing, load_file, load_cached, get_user_image, resolve_user, resolve_loaded,
  Overrides, by_engine, no_mapping, UserConfig, mapping, unmapped, detect_arch, load_user_overrides,
  cc_at_least, arch_matches, first_match, or_default, hardware_image, user_image, resolve_after,
  resolve_image, get_engine_compatibility,
}

-- What is cached of the user's file once it is loaded.
abbrev to_cache : Option UserConfig → UserConfig
to_cache none = mapping none
to_cache (some config) = config

-- Each cache is empty or holds what the host answers.
pub record IsCoherent (host : Host) (c : Cache) : Type 0 where
  pub cc_known : (c.cc ≡ none) ⊎ (c.cc ≡ some host.compute_capability)
  pub arch_known : (c.arch ≡ none) ⊎ (c.arch ≡ some (machine_arch host))
  pub config_known : (c.user_config ≡ none) ⊎ (c.user_config ≡ some (to_cache host.user_file))

abbrev pub is_loaded : Option UserConfig → Bool
is_loaded none = false
is_loaded (some config) = true

-- The overrides of the user. A file that is a list or a text has none when it is loaded, and is an
-- error from then on.
unfoldable pub user_overrides : Bool → Option UserConfig → Result Overrides
user_overrides loaded none = ok (by_engine [])
user_overrides loaded (some (mapping none)) = ok (by_engine [])
user_overrides loaded (some (mapping (some overrides))) = ok overrides
user_overrides true (some unmapped) = raised "object has no attribute 'get'"
user_overrides false (some unmapped) = ok (by_engine [])

unfoldable pub best_of : Host → Result Overrides → String → String → Result String
unfolding user_image or_default hardware_image
best_of host (raised e) engine_name default_image = raised e
best_of host (ok no_mapping) engine_name default_image = raised "object has no attribute 'get'"
best_of host (ok (by_engine overrides)) engine_name default_image = ok (
    or_default (user_image (lookup engine_name overrides)) (
      or_default (hardware_image host.compute_capability (machine_arch host) engine_name)
        default_image))

-- The order of resolution without caches, but for whether the user's file is loaded: the user's
-- image, the first override that matches the hardware, the default.
unfoldable pub best_image : Host → Bool → String → String → Result String
best_image host loaded engine_name default_image =
    best_of host (user_overrides loaded host.user_file) engine_name default_image

detected-known :
    {A : Type 0} (host : Host) (o : Option A) (found : A)
    → (o ≡ none) ⊎ (o ≡ some found)
    → detected host o found ≡ found
unfolding detected
detected-known host o found (inl e) = rw e refl
detected-known host o found (inr e) = rw e refl

module _ (host : Host) where
  resolve_after-lem :
      (user : Option String) (engine_name default_image : String) (c : Cache)
      → IsCoherent host c
      → ((resolve_after host user engine_name default_image c).0
          ≡ or_default user (
              or_default
                (hardware_image host.compute_capability (machine_arch host) engine_name)
                default_image))
        × IsCoherent host (resolve_after host user engine_name default_image c).1
  unfolding resolve_after detect_cc detect_arch or_default
  resolve_after-lem (some image) engine_name default_image c h = (refl, h)
  resolve_after-lem none engine_name default_image c h =
      let cc = detected-known host c.cc host.compute_capability h.cc_known in
      let arch = detected-known host c.arch (machine_arch host) h.arch_known in
      (
        rw (cc, arch) refl,
        record {
          cc_known = inr (ap some cc);
          arch_known = inr (ap some arch);
          config_known = h.config_known;
        },
      )

  -- What a load gives: the overrides, and coherent caches among which the file's is filled.
  record Loaded (loaded : Bool) (x : Result Overrides × Cache) : Type 0 where
    given : x.0 ≡ user_overrides loaded host.user_file
    coherent : IsCoherent host x.1
    filled : is_loaded x.1.user_config ≡ true

  with_config :
      (c : Cache) (config : UserConfig)
      → IsCoherent host c
      → to_cache host.user_file ≡ config
      → IsCoherent host (record c { user_config = some config })
  with_config c config h same = record {
    cc_known = h.cc_known;
    arch_known = h.arch_known;
    config_known = inr (ap some (sym same));
  }

  load_file-Loaded :
      (file : Option UserConfig) (c : Cache)
      → host.user_file ≡ file
      → IsCoherent host c
      → Loaded false (load_file host file c)
  unfolding load_file get_overrides or_nothing user_overrides
  load_file-Loaded none c e h = record {
    given = rw e refl;
    coherent = with_config c _ h (rw e refl);
    filled = refl;
  }
  load_file-Loaded (some (mapping none)) c e h = record {
    given = rw e refl;
    coherent = with_config c _ h (rw e refl);
    filled = refl;
  }
  load_file-Loaded (some (mapping (some overrides))) c e h = record {
    given = rw e refl;
    coherent = with_config c _ h (rw e refl);
    filled = refl;
  }
  load_file-Loaded (some unmapped) c e h = record {
    given = rw e refl;
    coherent = with_config c _ h (rw e refl);
    filled = refl;
  }

  get_overrides-known :
      (file : Option UserConfig) → get_overrides host (to_cache file) ≡ user_overrides true file
  unfolding get_overrides user_overrides
  get_overrides-known none = refl
  get_overrides-known (some (mapping none)) = refl
  get_overrides-known (some (mapping (some overrides))) = refl
  get_overrides-known (some unmapped) = refl

  load_cached-Loaded :
      (o : Option UserConfig) (c : Cache)
      → c.user_config ≡ o
      → (o ≡ none) ⊎ (o ≡ some (to_cache host.user_file))
      → IsCoherent host c
      → Loaded (is_loaded o) (load_cached host o c)
  unfolding load_cached
  load_cached-Loaded none c e k h = load_file-Loaded host.user_file c refl h
  load_cached-Loaded (some config) c e (inl empty) h = absurd (cc)
  load_cached-Loaded (some config) c e (inr known) h =
      let same : config ≡ to_cache host.user_file = cc in
      record {
        given = ap (get_overrides host) same ∙ get_overrides-known host.user_file;
        coherent = h;
        filled = ap is_loaded e;
      }

  load_user_overrides-Loaded :
      (c : Cache)
      → IsCoherent host c
      → Loaded (is_loaded c.user_config) (load_user_overrides host c)
  unfolding load_user_overrides
  load_user_overrides-Loaded c h = load_cached-Loaded c.user_config c refl h.config_known h

  -- The image, and what the rest of the resolution leaves.
  record IsResolved (overrides : Result Overrides) (engine_name default_image : String)
      (x : Result String × Cache) : Type 0 where
    image : x.0 ≡ best_of host overrides engine_name default_image
    coherent : IsCoherent host x.1
    filled : is_loaded x.1.user_config ≡ true

  resolve_after-config :
      (user : Option String) (engine_name default_image : String) (c : Cache)
      → (resolve_after host user engine_name default_image c).1.user_config ≡ c.user_config
  unfolding resolve_after detect_cc detect_arch
  resolve_after-config (some image) engine_name default_image c = refl
  resolve_after-config none engine_name default_image c = refl

  resolve_loaded-IsResolved :
      (overrides : Result Overrides) (engine_name default_image : String) (c : Cache)
      → IsCoherent host c
      → is_loaded c.user_config ≡ true
      → IsResolved overrides engine_name default_image
          (resolve_loaded host overrides engine_name default_image c)
  unfolding resolve_loaded resolve_user get_user_image best_of
  resolve_loaded-IsResolved (raised e) engine_name default_image c h f = record {
    image = refl;
    coherent = h;
    filled = f;
  }
  resolve_loaded-IsResolved (ok no_mapping) engine_name default_image c h f = record {
    image = refl;
    coherent = h;
    filled = f;
  }
  resolve_loaded-IsResolved (ok (by_engine overrides)) engine_name default_image c h f =
      let user = user_image (lookup engine_name overrides) in
      let (same, coherent) = resolve_after-lem user engine_name default_image c h in
      record {
        image = ap ok same;
        coherent = coherent;
        filled = ap is_loaded (resolve_after-config user engine_name default_image c) ∙ f;
      }

  -- From caches that are empty or hold what the host answers, the result is what the order of
  -- resolution gives without caches, an error where the user's overrides are not a mapping, and the
  -- caches are so again, the user's file among them. For a file that is a list or a text the first
  -- resolution goes on without overrides and every later one is an error.
  pub resolve_image-best_image :
      (engine_name default_image : String) (c : Cache)
      → IsCoherent host c
      → ((resolve_image host engine_name default_image c).0
          ≡ best_image host (is_loaded c.user_config) engine_name default_image)
        × IsCoherent host (resolve_image host engine_name default_image c).1
        × (is_loaded (resolve_image host engine_name default_image c).1.user_config ≡ true)
  unfolding resolve_image best_image
  resolve_image-best_image engine_name default_image c h =
      let l = load_user_overrides-Loaded c h in
      let r =
        resolve_loaded-IsResolved (load_user_overrides host c).0 engine_name default_image
          (load_user_overrides host c).1 l.coherent l.filled in
      (r.image ∙ ap (λ o. best_of host o engine_name default_image) l.given, r.coherent, r.filled)

  pub clear_cache-IsCoherent : IsCoherent host clear_cache
  unfolding clear_cache
  clear_cache-IsCoherent = record {
    cc_known = inl refl;
    arch_known = inl refl;
    config_known = inl refl;
  }

-- Where the overrides of an engine give an image, it is that of a listed override whose architecture,
-- if it names one, is the host's, and whose compute capability the GPU has.
first_match-fits :
    (found_cc : ℕ × ℕ) (arch : Option String) (os : List ImageOverride) (image : String)
    → first_match found_cc arch os ≡ some image
    → (o : ImageOverride) × Memᴰ o os
      × (o.image ≡ image)
      × (arch_matches o.cpu_arch arch ≡ true)
      × (cc_at_least found_cc o.min_cc ≡ true)
unfolding first_match
first_match-fits found_cc arch [] image h = absurd (cc)
first_match-fits found_cc arch (o ∷ os) image h =
    elim (Bool-cases (arch_matches o.cpu_arch arch && cc_at_least found_cc o.min_cc)) [
      | inl fits ↦ (
        o,
        Memᴰ.head refl,
        (let e : some o.image ≡ some image = rw fits at h in cc),
        ground arith,
        ground arith,
      )
      | inr not_fits ↦
          let (x, m, same, arch_ok, cc_ok) =
            first_match-fits found_cc arch os image (rw not_fits at h) in
          (x, Memᴰ.tail m, same, arch_ok, cc_ok)
    ]

normalize_arch-idempotent :
    (arch : String) → normalize_arch (normalize_arch arch) ≡ normalize_arch arch
unfolding normalize_arch
normalize_arch-idempotent arch = elim (Bool-cases (arch == "x86_64")) [
  | inl x86 ↦ rw x86 refl
  | inr other ↦ elim (Bool-cases (arch == "aarch64")) [
    | inl arm ↦ rw (other, arm) refl
    | inr neither ↦ rw (other, neither) (rw (other, neither) refl)
  ]
]

normalize_arch-nonempty :
    (arch : String) → (arch == "") ≡ false → (normalize_arch arch == "") ≡ false
unfolding normalize_arch
normalize_arch-nonempty arch h = elim (Bool-cases (arch == "x86_64")) [
  | inl x86 ↦ rw x86 refl
  | inr other ↦ elim (Bool-cases (arch == "aarch64")) [
    | inl arm ↦ rw (other, arm) refl
    | inr neither ↦ rw (other, neither) h
  ]
]

-- The compatibility of an architecture is the same under its kernel name and under its Docker name.
get_engine_compatibility-normalize_arch :
    (cpu_arch : String)
    → (cpu_arch == "") ≡ false
    → get_engine_compatibility (normalize_arch cpu_arch) ≡ get_engine_compatibility cpu_arch
unfolding get_engine_compatibility
get_engine_compatibility-normalize_arch cpu_arch h =
    rw (h, normalize_arch-nonempty cpu_arch h, normalize_arch-idempotent cpu_arch) refl
