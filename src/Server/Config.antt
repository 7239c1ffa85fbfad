-- ===== src/Server/Config.antt =====
-- cmd/server/config.go: the configuration, read from the environment, which is a function from names
-- to values. White space is ASCII's.
use terminal_wrestling_leagu.Common.{
  ℕ, ◌+◌, ◌-◌, ◌*◌, ◌%◌, ◌^◌, ◌||◌, Option, none, some, List, [], ◌∷◌, ◌++◌, if◌then◌else◌, ltb,
  leb, ◌==◌,
}
use terminal_wrestling_leagu.Common.Int.{ℤ, pos, negsuc, sub_ℕ}
use terminal_wrestling_leagu.Common.Text.{Str, bytes, str_eq, is_empty}
use terminal_wrestling_leagu.Common.Format.{trim_space, is_between}

pub record Config : Type 0 where
  pub database_url : Str
  pub ssh_addr : Str
  pub ssh_users : List (Str × Str)
  pub queue_timeout : ℤ
  pub turn_timeout : ℤ
  pub max_turns : ℕ
  pub watch_wait_timeout : ℤ
  pub spectator_max_per_match : ℕ

pub data ConfigError : Type 0 where
  database_required users_required no_users max_turns_not_positive : ConfigError
  invalid_entry not_an_integer not_positive : Str → ConfigError

pub data Loaded (T : Type 0) : Type 0 where
  loaded : T → Loaded T
  rejected : ConfigError → Loaded T

infixl 5 ◌>>=◌
abbrev pub ◌>>=◌ : {T U : Type 0} → Loaded T → (T → Loaded U) → Loaded U
◌>>=◌ m next = elim m [ loaded value ↦ next value | rejected reason ↦ rejected reason ]

-- `strings.Split` at a byte, of a text whose first part has begun already.
unfoldable pub split_from : ℕ → Str → Str → List Str
split_from sep part [] = part ∷ []
split_from sep part (b ∷ s) =
    let next = split_from sep [] s in
    let more = split_from sep (part ++ (b ∷ [])) s in if b == sep then part ∷ next else more

-- `strings.SplitN` in two, at a byte; `none` where there is none.
unfoldable pub cut : ℕ → Str → Str → Option (Str × Str)
cut sep before [] = none
cut sep before (b ∷ s) =
    let later = cut sep (before ++ (b ∷ [])) s in if b == sep then some (before, s) else later

-- A write to the map of users.
unfoldable pub set_user : Str → Str → List (Str × Str) → List (Str × Str)
set_user user pass [] = (user, pass) ∷ []
set_user user pass ((u, p) ∷ users) =
    let rest = set_user user pass users in
    if str_eq u user then (user, pass) ∷ users else (u, p) ∷ rest

unfoldable pub parse_pairs : List Str → List (Str × Str) → Loaded (List (Str × Str))
parse_pairs [] users = loaded users
parse_pairs (raw ∷ pairs) users =
    let pair = trim_space raw in
    let skipped = parse_pairs pairs users in
    let entry : Loaded (List (Str × Str)) = elim (cut 58 [] pair) [
      | none ↦ rejected (invalid_entry pair)
      | some (name, pass) ↦
          let rest = parse_pairs pairs (set_user (trim_space name) pass users) in
          if is_empty (trim_space name) || is_empty pass
          then rejected (invalid_entry pair)
          else rest
    ] in
    if is_empty pair then skipped else entry

abbrev pub require_users : List (Str × Str) → Loaded (List (Str × Str))
require_users [] = rejected no_users
require_users (user ∷ users) = loaded (user ∷ users)

unfoldable pub parse_users : Str → Loaded (List (Str × Str))
parse_users raw =
    if is_empty raw
    then rejected users_required
    else parse_pairs (split_from 44 [] raw) [] >>= require_users

unfoldable pub digits_value : ℕ → Str → Option ℕ
digits_value acc [] = some acc
digits_value acc (b ∷ s) =
    let rest = digits_value (acc * 10 + (b - 48)) s in if is_between 48 57 b then rest else none

abbrev unsigned : Str → Option ℕ
unsigned [] = none
unsigned (b ∷ s) = digits_value 0 (b ∷ s)

abbrev within : ℕ → (ℕ → ℤ) → Option ℕ → Option ℤ
within bound sign none = none
within bound sign (some n) = if leb n bound then some (sign n) else none

-- `strconv.Atoi` of 64 bits.
unfoldable pub atoi : Str → Option ℤ
atoi [] = none
atoi (b ∷ s) =
    if b == 45
    then within (2 ^ 63) (sub_ℕ 0) (unsigned s)
    else if b == 43
    then within (2 ^ 63 - 1) pos (unsigned s)
    else within (2 ^ 63 - 1) pos (unsigned (b ∷ s))

unfoldable pub positive : Str → Option ℤ → Loaded ℕ
positive name none = rejected (not_an_integer name)
positive name (some (negsuc n)) = rejected (not_positive name)
positive name (some (pos n)) = if n == 0 then rejected (not_positive name) else loaded n

unfoldable pub parse_int_env_default : (Str → Str) → Str → ℕ → Loaded ℕ
parse_int_env_default getenv name fallback =
    let raw = trim_space (getenv name) in
    if is_empty raw then loaded fallback else positive name (atoi raw)

-- So many seconds in nanoseconds, of 64 bits with a sign: the product wraps around.
unfoldable pub seconds : ℕ → ℤ
seconds n =
    let bits = n * 1000000000 % 2 ^ 64 in
    if ltb bits (2 ^ 63) then pos bits else sub_ℕ bits (2 ^ 64)

unfoldable pub load_config_from_env : (Str → Str) → Loaded Config
load_config_from_env getenv =
    let database_url = trim_space (getenv (bytes "TWL_DATABASE_URL")) in
    let addr = trim_space (getenv (bytes "TWL_SSH_ADDR")) in
    if is_empty database_url then rejected database_required else do
      users ← parse_users (trim_space (getenv (bytes "TWL_SSH_USERS")))
      queue ← parse_int_env_default getenv (bytes "TWL_QUEUE_TIMEOUT_SEC") 45
      turn ← parse_int_env_default getenv (bytes "TWL_TURN_TIMEOUT_SEC") 5
      turns ← parse_int_env_default getenv (bytes "TWL_MAX_TURNS") 120
      wait ← parse_int_env_default getenv (bytes "TWL_WATCH_WAIT_TIMEOUT_SEC") 120
      watchers ← parse_int_env_default getenv (bytes "TWL_SPECTATOR_MAX_PER_MATCH") 20
      (if turns == 0
          then rejected max_turns_not_positive
          else loaded (record {
            database_url = database_url;
            ssh_addr = if is_empty addr then bytes ":2222" else addr;
            ssh_users = users;
            queue_timeout = seconds queue;
            turn_timeout = seconds turn;
            max_turns = turns;
            watch_wait_timeout = seconds wait;
            spectator_max_per_match = watchers;
          }))
