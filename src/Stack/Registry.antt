-- ===== src/Stack/Registry.antt =====
-- StackConfigManager of config.py: the registry of the stacks. The file holds what `_save` wrote, or
-- is not there.
use kitt.Prelude.{
  String, Bool, true, false, Option, none, some, List, [], ◌≡◌, refl, arith, if◌then◌else◌, ◌==◌,
  insert, remove, lookup, lookup-insert, lookup-remove, eq_iff, ◌∙◌, Bool-cases, inl, inr, map,
}
use kitt.Stack.{StackConfig, Drawn, model_post_init, or_drawn}

-- data.get("stacks"), where the file is there
pub record Registry : Type 0 where
  pub stacks : Option (List (String × StackConfig))

-- data.get("stacks", {})
unfoldable pub stacks_of : Registry → List (String × StackConfig)
stacks_of r = elim r.stacks [ none ↦ [] | some stacks ↦ stacks ]

unfoldable pub add : StackConfig → Registry → Registry
unfolding insert
add c r = record { stacks = some (insert c.name c (stacks_of r)) }

-- StackConfig(**stacks[name]), whose secrets are drawn where they are empty.
revive : Drawn → Option StackConfig → Option StackConfig
revive d none = none
revive d (some c) = some (model_post_init d c)

unfoldable pub get : Drawn → String → Registry → Option StackConfig
unfolding revive
get d name r = revive d (lookup name (stacks_of r))

remove_found : String → Registry → Option StackConfig → Registry × Bool
unfolding remove
remove_found name r none = (r, false)
remove_found name r (some c) = (record { stacks = some (remove name (stacks_of r)) }, true)

unfoldable pub remove_stack : String → Registry → Registry × Bool
unfolding remove_found
remove_stack name r = remove_found name r (lookup name (stacks_of r))

unfoldable pub list_stacks : Drawn → Registry → List StackConfig
list_stacks d r = map (λ (s : String × StackConfig). model_post_init d s.1) (stacks_of r)

-- Whether the five secrets are given.
unfoldable pub has_secrets : StackConfig → Bool
has_secrets c =
    if c.auth_token == ""
    then false
    else if c.secret_key == ""
    then false
    else if c.postgres_password == ""
    then false
    else if c.grafana_password == ""
    then false
    else if c.influxdb_token == ""
    then false
    else true

model_post_init-has_secrets :
    (d : Drawn) (c : StackConfig) → has_secrets c ≡ true → model_post_init d c ≡ c
unfolding has_secrets model_post_init or_drawn
model_post_init-has_secrets d c h = ground arith

revive-if :
    (d : Drawn) (b : Bool) (o p : Option StackConfig)
    → revive d (if b then o else p) ≡ (if b then revive d o else revive d p)
revive-if d true o p = refl
revive-if d false o p = refl

get-add :
    (d : Drawn) (c : StackConfig) (r : Registry) (name : String)
    → has_secrets c ≡ true
    → get d name (add c r) ≡ (if c.name == name then some c else get d name r)
unfolding get add stacks_of revive
get-add d c r name h = rw (lookup-insert c.name name c (stacks_of r)) (
    revive-if d (c.name == name) (some c) (lookup name (stacks_of r))
    ∙ rw (model_post_init-has_secrets d c h) refl)

get-remove_found :
    (d : Drawn) (key name : String) (r : Registry) (o : Option StackConfig)
    → lookup key (stacks_of r) ≡ o
    → get d name (remove_found key r o).0 ≡ (if key == name then none else get d name r)
unfolding get remove_found stacks_of revive
get-remove_found d key name r none e = elim (Bool-cases (key == name)) [
  | inl same ↦ rw same (rw (← (eq_iff key name).0 same) (rw e refl))
  | inr other ↦ rw other refl
]
get-remove_found d key name r (some c) e =
    rw (lookup-remove key name (stacks_of r))
      (revive-if d (key == name) none (lookup name (stacks_of r)))

-- Adding a stack whose secrets are given makes `get` of its name give it, and removing it makes it
-- give nothing; `get` of any other name gives what it gave before.
get-add_remove :
    (d : Drawn) (c : StackConfig) (r : Registry) (name : String)
    → has_secrets c ≡ true
    → (get d name (add c r) ≡ (if c.name == name then some c else get d name r))
      × (get d name (remove_stack c.name r).0 ≡ (if c.name == name then none else get d name r))
unfolding remove_stack
get-add_remove d c r name h =
    (get-add d c r name h, get-remove_found d c.name name r (lookup c.name (stacks_of r)) refl)
