-- ===== src/Configuration/Valid.antt =====
-- What internal/config/config.go lets a service start with.
use gpu_cluster_scheduler.Common.{
  String, str_eq, Bool-cases, Option-cases, false, ◌&&◌, inl, inr, if◌then◌else◌, Option, none,
  some, List, [], ◌∷◌, ◌≡◌, refl,
}
use gpu_cluster_scheduler.Models.{Duration}
use gpu_cluster_scheduler.Configuration.{
  Environment, secret_required, default_dsn, default_secret, get_env, first_env, get_bool, load,
  validate,
}

-- A setting with a default is never empty.
first_env-nonempty :
    (env : Environment) (keys : List String) (fallback : String)
    → str_eq fallback "" ≡ false
    → str_eq (first_env env keys fallback) "" ≡ false
unfolding first_env
first_env-nonempty env [] fallback h = h
first_env-nonempty env (k ∷ ks) fallback h = elim (Option-cases (env k)) [
  | inl e ↦ rw (e, first_env) (first_env-nonempty env ks fallback h)
  | inr (v, e) ↦ elim (Bool-cases (str_eq v "")) [
    | inl c ↦ rw (e, c, first_env) (first_env-nonempty env ks fallback h)
    | inr c ↦ rw (e, c, first_env) c
  ]
]

module _ {Number : Type 0} (one : Number) (parse_float : String → Option Number)
    (parse_duration : String → Option Duration) where
  -- Whatever the environment, the loaded configuration is refused exactly when authentication is
  -- switched on while the secret is the insecure default, and then for that reason: the database
  -- address is never missing.
  pub validate-load :
      (env : Environment) (service_name : String)
      → validate (load one parse_float parse_duration env service_name) ≡ (
          if get_bool env "AUTH_ENABLED" false
            && str_eq (get_env env "JWT_SECRET" default_secret) default_secret
          then some secret_required
          else none)
  unfolding validate load
  validate-load env service_name =
      rw (first_env-nonempty env ("POSTGRES_DSN" ∷ "DATABASE_URL" ∷ []) default_dsn refl) refl
