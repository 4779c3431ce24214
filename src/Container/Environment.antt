-- ===== src/Container/Environment.antt =====
-- internal/smoke/container.go: the value of each variable of a package's environment.
use mcp_library.Common.{
  ◌≡◌, refl, ap, subst, ◌∙◌, inl, inr, Bool, true, false, not, ◌||◌, List, [], ◌∷◌, ◌++◌, Option,
  none, some, All, on_if, if◌then◌else◌,
}
use mcp_library.Common.Keyed.{or_first, or_first-none}
use mcp_library.Common.Tests.{Bool-cases}
use mcp_library.Common.Text.{Text, text_eq, text_eq→eq, text_eq_sym, mem}
use mcp_library.Container.{
  Spec, Env, control_env, base_env, proxy_env, set_var, add_var, add_vars, value_of, param_vars,
  sorted_vars, package_env, env_pairs,
}

-- The last value that a list gives a name.
abbrev pub last_value : Text → List (Text × Text) → Option Text
last_value k [] = none
last_value k ((k', v) ∷ vars) = or_first (last_value k vars) (if text_eq k' k then some v else none)

-- A name that a manifest may set.
abbrev pub is_settable : Text → Bool
is_settable k = not (text_eq k [] || mem k control_env)

-- Setting a variable sets it, and no other.
value_of-set_var :
    (k k' v : Text) (env : Env)
    → value_of k (set_var k' v env) ≡ (if text_eq k' k then some v else value_of k env)
value_of-set_var k k' v [] = refl
value_of-set_var k k' v ((h, w) ∷ env) = elim (Bool-cases (text_eq h k')) [
  | inl same ↦ rw (same, ap (λ t. text_eq t k) (text_eq→eq h k' same)) (by_test (text_eq k' k))
  | inr other ↦
      rw (other, value_of-set_var k k' v env)
        (apart (text_eq h k)
          (λ e. subst (λ t. text_eq k' t ≡ false) (text_eq→eq h k e) (text_eq_sym k' h ∙ other)))
]
  where
    by_test :
        (b : Bool)
        → (if b then some v else value_of k env)
          ≡ (if b then some v else (if b then some w else value_of k env))
    by_test true = refl
    by_test false = refl

    apart :
        (b : Bool)
        → (b ≡ true → text_eq k' k ≡ false)
        → (if b then some w else (if text_eq k' k then some v else value_of k env))
          ≡ (if text_eq k' k then some v else (if b then some w else value_of k env))
    apart false e = refl
    apart true e = rw (e refl) refl

unset_control : (k k' : Text) → is_settable k ≡ true → is_settable k' ≡ false → text_eq k' k ≡ false
unset_control k k' s u = elim (Bool-cases (text_eq k' k)) [
  | inr n ↦ n
  | inl y ↦ absurd (cc (s, rw (text_eq→eq k' k y) at u))
]

value_of-add_var :
    (k k' v : Text) (env : Env)
    → value_of k (add_var k' v env) ≡ (
        if is_settable k then (if text_eq k' k then some v else value_of k env) else value_of k env)
value_of-add_var k k' v env =
    by_tests (text_eq k' [] || mem k' control_env) refl (is_settable k) refl
  where
    by_tests :
        (b : Bool)
        → (text_eq k' [] || mem k' control_env) ≡ b
        → (c : Bool) → is_settable k ≡ c
        → value_of k (if b then env else set_var k' v env)
          ≡ (if c then (if text_eq k' k then some v else value_of k env) else value_of k env)
    by_tests true e true f = rw (unset_control k k' f (rw e refl)) refl
    by_tests true e false f = refl
    by_tests false e true f = value_of-set_var k k' v env
    by_tests false e false f =
        value_of-set_var k k' v env ∙ rw (text_eq_sym k' k ∙ unset_control k' k (rw e refl) f) refl

value_of-add_vars :
    (k : Text) (vars : List (Text × Text)) (env : Env)
    → value_of k (add_vars vars env)
      ≡ (if is_settable k then or_first (last_value k vars) (value_of k env) else value_of k env)
value_of-add_vars k [] env = by_test (is_settable k)
  where
    by_test : (b : Bool) → value_of k env ≡ (if b then value_of k env else value_of k env)
    by_test true = refl
    by_test false = refl
value_of-add_vars k ((k', v) ∷ vars) env =
    value_of-add_vars k vars (add_var k' v env)
    ∙ rw (value_of-add_var k k' v env) (by_test (is_settable k) (text_eq k' k) (last_value k vars))
  where
    by_test :
        (b c : Bool) (later : Option Text)
        → (if b
            then or_first later
                (if b then (if c then some v else value_of k env) else value_of k env)
            else (if b then (if c then some v else value_of k env) else value_of k env))
          ≡ (if b
              then or_first (or_first later (if c then some v else none)) (value_of k env)
              else value_of k env)
    by_test true true (some w) = refl
    by_test true true none = refl
    by_test true false (some w) = refl
    by_test true false none = refl
    by_test false c later = refl

value_of-append :
    (k : Text) (a b : Env) → value_of k (a ++ b) ≡ or_first (value_of k a) (value_of k b)
value_of-append k [] b = refl
value_of-append k ((k', v) ∷ a) b = elim (Bool-cases (text_eq k' k)) [
  | inl y ↦ rw y refl
  | inr n ↦ rw n (value_of-append k a b)
]

-- Pairs whose names are all control names give a settable name no value.
no_control :
    (k : Text) (vars : List (Text × Text))
    → All (λ kv. is_settable kv.0 ≡ false) vars
    → is_settable k ≡ true
    → value_of k vars ≡ none
no_control k [] c h = refl
no_control k ((k', v) ∷ vars) c h = rw (unset_control k k' h c.0, no_control k vars c.1 h) refl

base_control : (s : Spec) → All (λ kv. is_settable kv.0 ≡ false) (base_env s)
unfolding mem text_eq
base_control s = (refl, (refl, (refl, (refl, tt))))

proxy_control : (s : Spec) → All (λ kv. is_settable kv.0 ≡ false) (proxy_env s)
unfolding mem text_eq
proxy_control s =
    on_if (All (λ kv. is_settable kv.0 ≡ false)) (text_eq s.proxy_addr []) (λ e. tt)
      (λ e. (refl, (refl, (refl, (refl, (refl, (refl, tt)))))))

settle :
    (b : Bool) (params env base proxy : Option Text)
    → (b ≡ true → base ≡ none)
    → (b ≡ true → proxy ≡ none)
    → or_first
        (if b
          then or_first params (if b then or_first env base else base)
          else (if b then or_first env base else base))
        proxy
      ≡ (if b then or_first params env else or_first base proxy)
settle false params env base proxy hb hp = refl
settle true params env base proxy hb hp =
    rw (hb refl, hp refl, or_first-none env, or_first-none (or_first params env)) refl

-- In the environment of a package, a name that is settable, that is neither empty nor one of the
-- control names, has the value of the last param that sets it or else the last one in the run's own
-- variables; every other name has only the value that the base environment or the proxy's variables
-- give it.
pub env_pairs_lookup :
    (s : Spec) (k : Text)
    → value_of k (env_pairs s) ≡ (
        if is_settable k
        then or_first
            (last_value k (param_vars s.param_values s.manifest.params))
            (last_value k (sorted_vars s.env))
        else or_first (value_of k (base_env s)) (value_of k (proxy_env s)))
unfolding env_pairs
env_pairs_lookup s k =
    let base = add_vars (sorted_vars s.env) (base_env s) in
    let params = param_vars s.param_values s.manifest.params in
    value_of-append k (package_env s) (proxy_env s)
    ∙ ap (λ o. or_first o (value_of k (proxy_env s)))
        (value_of-add_vars k params base
          ∙ ap (λ o. if is_settable k then or_first (last_value k params) o else o)
              (value_of-add_vars k (sorted_vars s.env) (base_env s)))
    ∙ settle (is_settable k) (last_value k params) (last_value k (sorted_vars s.env))
        (value_of k (base_env s)) (value_of k (proxy_env s))
        (no_control k (base_env s) (base_control s)) (no_control k (proxy_env s) (proxy_control s))
