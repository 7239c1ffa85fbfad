-- ===== src/Server/Checked.antt =====
-- A configuration that is accepted is usable.
use terminal_wrestling_leagu.Common.{
  ℕ, ◌<◌, ◌≡◌, refl, arith, false, ◌||◌, Option, none, some, List, [], ◌∷◌, All, if◌then◌else◌,
  if_keeps, Bool-cases, Option-cases, inl, inr, ◌==◌,
}
use terminal_wrestling_leagu.Common.Int.{ℤ, pos, negsuc}
use terminal_wrestling_leagu.Common.Text.{Str, bytes, str_eq, is_empty}
use terminal_wrestling_leagu.Common.Format.{trim_space}
use terminal_wrestling_leagu.Server.Config.{
  Config, Loaded, loaded, rejected, ◌>>=◌, cut, set_user, parse_pairs, require_users, parse_users,
  atoi, positive, parse_int_env_default, load_config_from_env,
}

abbrev pub OnLoaded : {T : Type 0} → (T → Type 0) → Loaded T → Type 0
OnLoaded P (loaded value) = P value
OnLoaded P (rejected reason) = Unit

then_loaded :
    {T U : Type 0} (P : T → Type 0) (Q : U → Type 0) (m : Loaded T) (next : T → Loaded U)
    → OnLoaded P m
    → ((t : T) → P t → OnLoaded Q (next t))
    → OnLoaded Q (m >>= next)
then_loaded P Q (loaded value) next h k = k value h
then_loaded P Q (rejected reason) next h k = tt

-- A user with a name and a password.
abbrev pub IsUser : Str × Str → Type 0
IsUser entry = (is_empty entry.0 ≡ false) × (is_empty entry.1 ≡ false)

abbrev pub HasUsers : List (Str × Str) → Type 0
HasUsers [] = ⊥
HasUsers (user ∷ users) = All IsUser (user ∷ users)

set_user-All :
    (user pass : Str) (users : List (Str × Str))
    → IsUser (user, pass)
    → All IsUser users
    → All IsUser (set_user user pass users)
unfolding set_user
set_user-All user pass [] h hs = (h, tt)
set_user-All user pass (e ∷ users) h hs =
    if_keeps (All IsUser) (str_eq e.0 user) ((user, pass) ∷ users) (e ∷ set_user user pass users)
      (h, hs.1) (hs.0, set_user-All user pass users h hs.1)

parse_pairs-All :
    (pairs : List Str) (users : List (Str × Str))
    → All IsUser users
    → OnLoaded (All IsUser) (parse_pairs pairs users)
unfolding parse_pairs
parse_pairs-All [] users h = h
parse_pairs-All (raw ∷ pairs) users h =
    if_keeps (OnLoaded (All IsUser)) (is_empty (trim_space raw)) _ _ (parse_pairs-All pairs users h)
      (elim (Option-cases (cut 58 [] (trim_space raw))) [
        | inl missing ↦ rw (missing, OnLoaded) tt
        | inr (p, e) ↦
            rw (e, OnLoaded)
              (elim (Bool-cases (is_empty (trim_space p.0) || is_empty p.1)) [
                | inl bad ↦ simp bad tt
                | inr good ↦ simp good (
                    parse_pairs-All pairs (set_user (trim_space p.0) p.1 users)
                      (set_user-All (trim_space p.0) p.1 users (ground arith, ground arith) h))
              ])
      ])

required : (users : List (Str × Str)) → All IsUser users → OnLoaded HasUsers (require_users users)
required [] h = tt
required (user ∷ users) h = h

parse_users-HasUsers : (raw : Str) → OnLoaded HasUsers (parse_users raw)
unfolding parse_users
parse_users-HasUsers raw =
    if_keeps (OnLoaded HasUsers) (is_empty raw) _ _ tt
      (then_loaded (All IsUser) HasUsers _ require_users (parse_pairs-All _ [] tt) required)

positive_loaded : (name : Str) (v : Option ℤ) → OnLoaded (λ n. 0 < n) (positive name v)
unfolding positive
positive_loaded name none = tt
positive_loaded name (some (negsuc n)) = tt
positive_loaded name (some (pos n)) = elim (Bool-cases (n == 0)) [
  | inl nothing ↦ simp nothing tt
  | inr more ↦ simp more (ground arith)
]

env_positive :
    (getenv : Str → Str) (name : Str) (fallback : ℕ)
    → 0 < fallback
    → OnLoaded (λ n. 0 < n) (parse_int_env_default getenv name fallback)
unfolding parse_int_env_default
env_positive getenv name fallback h =
    if_keeps (OnLoaded (λ n. 0 < n)) (is_empty (trim_space (getenv name))) _ _ h
      (positive_loaded name (atoi (trim_space (getenv name))))

-- What the server relies on.
pub record IsUsable (cfg : Config) : Type 0 where
  pub database : is_empty cfg.database_url ≡ false
  pub address : is_empty cfg.ssh_addr ≡ false
  pub users : HasUsers cfg.ssh_users
  pub turns : 0 < cfg.max_turns
  pub watchers : 0 < cfg.spectator_max_per_match

defaulted : (addr : Str) → is_empty (if is_empty addr then bytes ":2222" else addr) ≡ false
unfolding bytes
defaulted [] = refl
defaulted (b ∷ s) = refl

-- A configuration that is accepted, whatever the environment holds, has a database and an address to
-- listen at, at least one user, each with a name and a password, and allows at least one turn and one
-- spectator of a match.
pub load_config-IsUsable : (getenv : Str → Str) → OnLoaded IsUsable (load_config_from_env getenv)
unfolding load_config_from_env
load_config-IsUsable getenv =
    let number =
      λ (name : Str) (fallback : ℕ) (h : 0 < fallback). env_positive getenv name fallback h in
    elim (Bool-cases (is_empty (trim_space (getenv (bytes "TWL_DATABASE_URL"))))) [
      | inl missing ↦ simp missing tt
      | inr there ↦ simp there (
          then_loaded HasUsers IsUsable _ _ (parse_users-HasUsers _) λ users hu.
            then_loaded (λ n. 0 < n) IsUsable _ _ (number _ 45 (omega arith))
              λ queue hq.
                then_loaded (λ n. 0 < n) IsUsable _ _ (number _ 5 (omega arith))
                  λ turn ht.
                    then_loaded (λ n. 0 < n) IsUsable _ _ (number _ 120 (omega arith))
                      λ turns hm.
                        then_loaded (λ n. 0 < n) IsUsable _ _ (number _ 120 (omega arith))
                          λ wait hw.
                            then_loaded (λ n. 0 < n) IsUsable _ _ (number _ 20 (omega arith))
                              λ watchers hs.
                                if_keeps (OnLoaded IsUsable) (turns == 0) _ _ tt (record {
                                  database = there;
                                  address = defaulted _;
                                  users = hu;
                                  turns = hm;
                                  watchers = hs;
                                }))
    ]
