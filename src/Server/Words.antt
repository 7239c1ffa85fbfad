-- ===== src/Server/Words.antt =====
-- The words of the actions and the zones.
use terminal_wrestling_leagu.Common.{
  ◌≡◌, refl, ◌∙◌, List, [], ◌∷◌, if◌then◌else◌, Bool-cases, inl, inr,
}
use terminal_wrestling_leagu.Common.Text.{Str, bytes, str_eq, str_eq_iff}
use terminal_wrestling_leagu.Common.Format.{to_lower}
use terminal_wrestling_leagu.Combat.Types.{
  Action, action_none, action_strike, action_grapple, action_block, action_dodge, action_counter,
  action_feint, action_break, unknown_action, Zone, zone_head, zone_torso, zone_legs, unknown_zone,
}
use terminal_wrestling_leagu.Animation.Poses.{action_label}
use terminal_wrestling_leagu.Server.{Command, command_action}
use terminal_wrestling_leagu.Server.Commands.{
  Parsed, parsed, failed, ◌>>=◌, parse_action, parse_zone, parse_action_command,
}

-- The label under which an action is shown to the players, in small letters.
abbrev pub action_word : Action → Str
action_word action = to_lower (action_label action)

abbrev pub zone_word : Zone → Str
zone_word zone_head = bytes "head"
zone_word zone_legs = bytes "legs"
zone_word _ = bytes "torso"

abbrev pub IsProper : Action → Type 0
IsProper action_none = ⊥
IsProper (unknown_action n) = ⊥
IsProper _ = Unit

abbrev pub IsKnown : Zone → Type 0
IsKnown (unknown_zone n) = ⊥
IsKnown _ = Unit

abbrev pub OnParsed : {T : Type 0} → (T → Type 0) → Parsed T → Type 0
OnParsed P (parsed value) = P value
OnParsed P (failed reason) = Unit

parse-action_word : (a : Action) → IsProper a → parse_action (action_word a) ≡ parsed a
unfolding parse_action action_label to_lower bytes str_eq
parse-action_word action_none h = absurd h
parse-action_word action_strike h = refl
parse-action_word action_grapple h = refl
parse-action_word action_block h = refl
parse-action_word action_dodge h = refl
parse-action_word action_counter h = refl
parse-action_word action_feint h = refl
parse-action_word action_break h = refl
parse-action_word (unknown_action n) h = absurd h

parse-zone_word : (z : Zone) → IsKnown z → parse_zone (zone_word z) ≡ parsed z
unfolding parse_zone bytes str_eq
parse-zone_word zone_head h = refl
parse-zone_word zone_torso h = refl
parse-zone_word zone_legs h = refl
parse-zone_word (unknown_zone n) h = absurd h

-- A text that is compared with a word: what is read has that word.
read_or :
    {T : Type 0} (word_of : T → Str) (v word : Str) (value : T) (rest : Parsed T)
    → word ≡ word_of value
    → OnParsed (λ t. v ≡ word_of t) rest
    → OnParsed (λ t. v ≡ word_of t) (if str_eq v word then parsed value else rest)
read_or word_of v word value rest e h = elim (Bool-cases (str_eq v word)) [
  | inl same ↦ simp same ((str_eq_iff v word).0 same ∙ e)
  | inr other ↦ simp other h
]

action_word-parse : (v : Str) → OnParsed (λ a. v ≡ action_word a) (parse_action v)
unfolding parse_action action_label to_lower bytes
action_word-parse v =
    let or = read_or action_word v in
    or (bytes "strike") action_strike _ refl (
      or (bytes "grapple") action_grapple _ refl (
        or (bytes "block") action_block _ refl (
          or (bytes "dodge") action_dodge _ refl (
            or (bytes "counter") action_counter _ refl (
              or (bytes "feint") action_feint _ refl
                (or (bytes "break") action_break _ refl tt))))))

zone_word-parse : (v : Str) → OnParsed (λ z. v ≡ zone_word z) (parse_zone v)
unfolding parse_zone bytes
zone_word-parse v =
    let or = read_or zone_word v in
    or (bytes "head") zone_head _ refl
      (or (bytes "torso") zone_torso _ refl (or (bytes "legs") zone_legs _ refl tt))

-- The words spell the command.
pub record Spells (words : List Str) (command : Command) : Type 0 where
  pub first : Str
  pub more : List Str
  pub spelled : words ≡ first ∷ action_word command.action ∷ zone_word command.target ∷ more

spelled_by :
    (c v w : Str) (more : List Str) (a : Parsed Action) (z : Parsed Zone)
    → OnParsed (λ a. v ≡ action_word a) a
    → OnParsed (λ z. w ≡ zone_word z) z
    → OnParsed (Spells (c ∷ v ∷ w ∷ more)) (
        a >>= λ action.
        z >>= λ zone. parsed (record { kind = command_action; action = action; target = zone }))
spelled_by c v w more (failed reason) z ha hz = tt
spelled_by c v w more (parsed action) (failed reason) ha hz = tt
spelled_by c v w more (parsed action) (parsed zone) ha hz = record {
  first = c;
  more = more;
  spelled = rw (ha, hz) refl;
}

-- What is understood as a command is spelled so.
parse-Spells : (words : List Str) → OnParsed (Spells words) (parse_action_command words)
unfolding parse_action_command
parse-Spells [] = tt
parse-Spells (c ∷ []) = tt
parse-Spells (c ∷ v ∷ []) = tt
parse-Spells (c ∷ v ∷ w ∷ more) =
    spelled_by c v w more (parse_action v) (parse_zone w) (action_word-parse v) (zone_word-parse w)

-- A command of a proper action and a known zone is read back from the words that spell it, whatever
-- follows them; and whatever words are read as a command, they spell it.
pub parse-spell :
    (first : Str) (a : Action) (z : Zone) (more : List Str)
    → IsProper a
    → IsKnown z
    → (parse_action_command (first ∷ action_word a ∷ zone_word z ∷ more)
        ≡ parsed (record { kind = command_action; action = a; target = z }))
      × ((words : List Str) → OnParsed (Spells words) (parse_action_command words))
unfolding parse_action_command
parse-spell first a z more ha hz =
    (rw (parse-action_word a ha) (rw (parse-zone_word z hz) refl), parse-Spells)
