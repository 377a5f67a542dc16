-- ===== src/Stack/Dockerfiles.antt =====
-- The Dockerfiles that the services of a stack build from, and those in its directory.
use kitt.Prelude.{
  ℕ, String, Bool, true, false, not, Option, none, some, [], ◌≡◌, refl, arith, ◌&&◌, ◌||◌, insert,
  lookup,
}
use kitt.Prelude.Paths.{same_bool}
use kitt.Prelude.Text.{codes}
use kitt.Stack.{StackConfig}
use kitt.Stack.Services.{Service, Services, prometheus, grafana, influxdb}
use kitt.Stack.Generate.{
  Directory, StackFile, compose, build_compose, merged_parts, composed, wire_postgres, wire_key,
  wire_found, wire_into, put_back, waits, generate, write_files, copy_dockerfiles, copy_found,
  monitoring_configs,
}
use kitt.Stack.Closed.{every, has_key, with_flags, every_flags, every_flags-true}

is_built : Directory → Option String → Bool
unfolding has_key
is_built d none = true
is_built d (some dockerfile) = has_key d (codes dockerfile)

compose_of : Option StackFile → Services
compose_of (some (compose c)) = c.services
compose_of _ = []

-- Each Dockerfile that the compose file of a directory names is in the directory.
unfoldable pub is_buildable : Option Directory → Bool
unfolding is_built compose_of lookup
is_buildable none = false
is_buildable (some d) =
    every (λ (s : String × Service). is_built d s.1.dockerfile)
      (compose_of (lookup "docker-compose.yaml" d))

abbrev pub is_some : Option String → Bool
is_some none = false
is_some (some s) = true

same_bool-eq : (a b : Bool) → same_bool a b ≡ true → a ≡ b
same_bool-eq true b h = ground arith
same_bool-eq false b h = ground arith

module _ (show : ℕ → String) (c : StackConfig) where
  unfolded :
      (src : Option String)
      → every_flags (λ w r a p m.
        same_bool
          (is_buildable (generate show (with_flags c w r a p m) src []))
          (not a && (not (w || r) || is_some src)))
        ≡ true
  unfolding every_flags is_buildable generate write_files build_compose merged_parts composed
      wire_postgres wire_key wire_found wire_into put_back waits prometheus grafana influxdb
      copy_dockerfiles copy_found monitoring_configs insert
  unfolded none = refl
  unfolded (some path) = refl

  -- The new directory of a stack holds every Dockerfile that its services build from exactly if it
  -- has no agent, and has a web service or a report only where the Dockerfile of those is found.
  pub generate-is_buildable :
      (src : Option String)
      → is_buildable (generate show c src [])
        ≡ (not c.agent && (not (c.web || c.reporting) || is_some src))
  generate-is_buildable src = same_bool-eq _ _ (
      every_flags-true
        (λ w r a p m.
          same_bool (is_buildable (generate show (with_flags c w r a p m) src []))
            (not a && (not (w || r) || is_some src)))
        (unfolded src) c.web c.reporting c.agent c.postgres c.monitoring)
