-- ===== src/Config/Env.antt =====
-- internal/config/config.go: `ApplyEnv`. `strconv.ParseFloat` is the parameter `parse_float`.
use nw_lb_go.Base.{
  ℕ, ◌+◌, ◌*◌, ◌-◌, ◌^◌, ◌≡◌, ℤ, pos, negsuc, leb, ltb, ◌==◌, Bool, true, false, ◌&&◌,
  if◌then◌else◌, List, [], ◌∷◌, ◌++◌, Option, none, some, Str, codes, str_eq, inl, inr, ◌⊎◌,
}
use nw_lb_go.Config.Text.{trim_space, to_lower}
use nw_lb_go.Config.Types.{Float, Config}
use nw_lb_go.Config.Backends.{EntryError, parse_backends}

abbrev pub env_listen : Str
env_listen = codes "LB_LISTEN"

abbrev pub env_admin_listen : Str
env_admin_listen = codes "LB_ADMIN_LISTEN"

abbrev pub env_backends : Str
env_backends = codes "LB_BACKENDS"

abbrev pub env_log_level : Str
env_log_level = codes "LB_LOG_LEVEL"

abbrev pub env_rate_limit_rps : Str
env_rate_limit_rps = codes "LB_RATE_LIMIT_RPS"

abbrev pub env_hash_header : Str
env_hash_header = codes "LB_HASH_HEADER"

abbrev pub env_max_attempts : Str
env_max_attempts = codes "LB_MAX_ATTEMPTS"

pub data EnvError : Type 0 where
  bad_backends : Str → List EntryError → EnvError
  not_a_number not_an_integer : Str → EnvError

digits : ℕ → Str → Option ℕ
digits acc [] = some acc
digits acc (c ∷ s) =
    let rest = digits (10 * acc + (c - 48)) s in if leb 48 c && leb c 57 then rest else none

-- At least one digit.
unsigned : Str → Option ℕ
unfolding digits
unsigned [] = none
unsigned (c ∷ s) = digits 0 (c ∷ s)

signed : Bool → Option ℕ → Option ℤ
signed minus none = none
signed true (some n) =
    if ltb (2 ^ 63) n then none else if n == 0 then some (pos 0) else some (negsuc (n - 1))
signed false (some n) = if ltb n (2 ^ 63) then some (pos n) else none

-- `strconv.Atoi`: decimal digits after an optional sign, within 64 bits.
unfoldable pub atoi : Str → Option ℤ
unfolding unsigned signed
atoi [] = none
atoi (c ∷ s) =
    if c == 45
    then signed true (unsigned s)
    else if c == 43
    then signed false (unsigned s)
    else signed false (unsigned (c ∷ s))

-- `lookup` is `os.LookupEnv`.
unfoldable pub env_value : (Str → Option Str) → Str → Option Str
env_value lookup key = elim (lookup key) [
  | none ↦ none
  | some v ↦ let t = trim_space v in if str_eq t [] then none else some t
]

unfoldable pub set_listen : Option Str → Config → Config
set_listen none c = c
set_listen (some v) c = record c { listen = v }

unfoldable pub set_admin_listen : Option Str → Config → Config
set_admin_listen none c = c
set_admin_listen (some v) c = record c { admin_listen = v }

unfoldable pub set_hash_header : Option Str → Config → Config
set_hash_header none c = c
set_hash_header (some v) c = record c { routing = record (c.routing) { hash_header = v } }

unfoldable pub set_log_level : Option Str → Config → Config
set_log_level none c = c
set_log_level (some v) c = record c { logging = record (c.logging) { level = to_lower v } }

unfoldable pub set_backends : Option Str → Config → Config × List EnvError
set_backends none c = (c, [])
set_backends (some v) c =
    let (bs, es) = parse_backends v in
    elim es [
      | [] ↦ (record c { backends = bs }, [])
      | e ∷ rest ↦ (c, bad_backends v (e ∷ rest) ∷ [])
    ]

unfoldable pub set_max_attempts : Option Str → Config → Config × List EnvError
set_max_attempts none c = (c, [])
set_max_attempts (some v) c = elim (atoi v) [
  | none ↦ (c, not_an_integer v ∷ [])
  | some n ↦ (record c { routing = record (c.routing) { max_attempts = n } }, [])
]

module _ (parse_float : Str → Option Float) where
  unfoldable pub set_rps : Option Str → Config → Config × List EnvError
  set_rps none c = (c, [])
  set_rps (some v) c = elim (parse_float v) [
    | none ↦ (c, not_a_number v ∷ [])
    | some x ↦ (record c { rate_limit = record (c.rate_limit) { rps = x } }, [])
  ]

  unfoldable pub apply_env : (Str → Option Str) → Config → Config × List EnvError
  unfolding set_listen set_admin_listen set_hash_header set_log_level set_backends set_rps
      set_max_attempts
  apply_env lookup c =
      let c1 = set_listen (env_value lookup env_listen) c in
      let c2 = set_admin_listen (env_value lookup env_admin_listen) c1 in
      let c3 = set_hash_header (env_value lookup env_hash_header) c2 in
      let c4 = set_log_level (env_value lookup env_log_level) c3 in
      let (c5, e5) = set_backends (env_value lookup env_backends) c4 in
      let (c6, e6) = set_rps (env_value lookup env_rate_limit_rps) c5 in
      let (c7, e7) = set_max_attempts (env_value lookup env_max_attempts) c6 in
      (c7, e5 ++ (e6 ++ e7))

  -- A variable that is unset or blank.
  abbrev pub IsBlank : (Str → Option Str) → Str → Type 0
  IsBlank lookup key =
      (lookup key ≡ none) ⊎ ((v : Str) × (lookup key ≡ some v) × (trim_space v ≡ []))

  blank-value :
      (lookup : Str → Option Str) (key : Str) → IsBlank lookup key → env_value lookup key ≡ none
  unfolding env_value str_eq
  blank-value lookup key (inl e) = rw (e, env_value)
  blank-value lookup key (inr (v, e, b)) = rw (e, env_value, b)

  -- Variables that are unset or blank change nothing and are no error.
  pub apply_env-blank :
      (lookup : Str → Option Str) (c : Config)
      → ((key : Str) → IsBlank lookup key)
      → apply_env lookup c ≡ (c, [])
  unfolding apply_env
  apply_env-blank lookup c blank =
      let v = λ (key : Str). blank-value lookup key (blank key) in
      rw (
        v env_listen,
        v env_admin_listen,
        v env_hash_header,
        v env_log_level,
        v env_backends,
        v env_rate_limit_rps,
        v env_max_attempts,
      )
