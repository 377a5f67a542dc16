-- ===== src/Stack/Closed.antt =====
-- The files of a stack fit together: volumes, dependencies, variables and Dockerfiles that the
-- compose file names.
use kitt.Prelude.{
  ℕ, String, Bool, true, false, Option, none, some, List, [], ◌∷◌, ◌≡◌, refl, arith, if◌then◌else◌,
  ◌&&◌, ◌||◌, eqb, any,
}
use kitt.Prelude.Text.{codes, same_text, starts_with}
use kitt.Stack.{StackConfig}
use kitt.Stack.Services.{
  Service, Services, Volumes, DependsOn, names, conditions, prometheus, grafana, influxdb,
}
use kitt.Stack.Generate.{
  Compose, build_compose, merged_parts, composed, wire_postgres, wire_key, wire_found, wire_into,
  put_back, waits,
}

abbrev pub every {ℓ} : {A : Type ℓ} → (A → Bool) → List A → Bool
every p [] = true
every p (x ∷ xs) = p x && every p xs

-- The text before the first of a character.
unfoldable pub up_to : ℕ → List ℕ → List ℕ
up_to c [] = []
up_to c (d ∷ s) = let rest = up_to c s in if eqb d c then [] else d ∷ rest

unfoldable pub has_key : {V : Type 0} → List (String × V) → List ℕ → Bool
unfolding same_text
has_key d key = any (λ e. same_text (codes e.0) key) d

declared_volumes : Option Volumes → Volumes
declared_volumes none = []
declared_volumes (some volumes) = volumes

-- A mount "name:path" of no file has a declared volume.
is_mountable : Volumes → String → Bool
unfolding has_key up_to starts_with
is_mountable volumes mount =
    starts_with (codes mount) (codes ".")
    || (starts_with (codes mount) (codes "/") || has_key volumes (up_to b':' (codes mount)))

dependencies : Option DependsOn → List String
dependencies none = []
dependencies (some (names l)) = l
dependencies (some (conditions [])) = []
dependencies (some (conditions ((k, v) ∷ d))) = k ∷ dependencies (some (conditions d))

service_fits : Services → Volumes → String × Service → Bool
unfolding is_mountable has_key dependencies
service_fits services volumes s =
    every (is_mountable volumes) s.1.volumes
    && every (λ d. has_key services (codes d)) (dependencies s.1.depends_on)

-- Each volume that a service mounts is declared, and each service that one waits for is there.
unfoldable pub fits : Option Compose → Bool
unfolding service_fits declared_volumes
fits none = false
fits (some c) = every (service_fits c.services (declared_volumes c.volumes)) c.services

both : (Bool → Bool) → Bool
both g = g true && g false

both-true : (g : Bool → Bool) → both g ≡ true → (b : Bool) → g b ≡ true
unfolding both
both-true g h true = ground arith
both-true g h false = ground arith

unfoldable pub every_flags : (Bool → Bool → Bool → Bool → Bool → Bool) → Bool
unfolding both
every_flags f = both λ w. both λ r. both λ a. both λ p. both λ m. f w r a p m

pub every_flags-true :
    (f : Bool → Bool → Bool → Bool → Bool → Bool)
    → every_flags f ≡ true
    → (w r a p m : Bool) → f w r a p m ≡ true
unfolding every_flags
every_flags-true f h w r a p m =
    both-true (λ m. f w r a p m)
      (both-true (λ p. both λ m. f w r a p m)
        (both-true (λ a. both λ p. both λ m. f w r a p m)
          (both-true (λ r. both λ a. both λ p. both λ m. f w r a p m)
            (both-true (λ w. both λ r. both λ a. both λ p. both λ m. f w r a p m) h w) r)
          a)
        p)
      m

abbrev pub with_flags : StackConfig → Bool → Bool → Bool → Bool → Bool → StackConfig
with_flags c w r a p m = record c {
  web = w;
  reporting = r;
  agent = a;
  postgres = p;
  monitoring = m;
}

module _ (show : ℕ → String) (c : StackConfig) where
  fits_always : every_flags (λ w r a p m. fits (build_compose show (with_flags c w r a p m))) ≡ true
  unfolding every_flags fits build_compose merged_parts composed wire_postgres wire_key wire_found
      wire_into put_back waits prometheus grafana influxdb
  fits_always = refl

  -- The compose file of any configuration is built, and in it each volume that a service mounts by
  -- name is declared and each service that one waits for is there.
  pub build_compose-fits : fits (build_compose show c) ≡ true
  build_compose-fits =
      every_flags-true (λ w r a p m. fits (build_compose show (with_flags c w r a p m))) fits_always
        c.web c.reporting c.agent c.postgres c.monitoring
