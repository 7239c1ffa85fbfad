-- ===== src/Server/Gates.antt =====
-- What no line that a player types can do.
use terminal_wrestling_leagu.Common.{
  ◌≡◌, refl, Bool, true, false, ◌||◌, Option, none, some, List, [], ◌∷◌, All, if_keeps, Bool-cases,
  inl, inr,
}
use terminal_wrestling_leagu.Common.Text.{Str, bytes, str_eq}
use terminal_wrestling_leagu.Common.Format.{to_lower, fields, trim_space}
use terminal_wrestling_leagu.Combat.Types.{Action, Zone}
use terminal_wrestling_leagu.Server.{Command, CommandKind, command_action, command_quit}
use terminal_wrestling_leagu.Server.Commands.{
  Parsed, parsed, failed, ◌>>=◌, parse_action, parse_zone, parse_action_command,
}
use terminal_wrestling_leagu.Server.Menu.{needs_tutorial}
use terminal_wrestling_leagu.Server.Words.{OnParsed}
use terminal_wrestling_leagu.Server.Handle.{
  Answers, Call, calls_enqueue, calls_dequeue, calls_npc_match, calls_watch, calls_input, Shown,
  Outcome, reply, play, play_npc, watch_player, offer, quit_session, submit_parsed, submit_action,
  try_action, dispatch, handle_words, handle_user_input, ShellStep, skips, hints, retries_tutorial,
  handles, run_command, run_choice, shell_step,
}

-- What must hold when a call is made.
abbrev pub SendAllowed : Answers → CommandKind → Type 0
SendAllowed answers command_quit = answers.input_has_room ≡ true
SendAllowed answers command_action =
    (answers.in_match ≡ true) × (answers.action_allows ≡ true) × (answers.input_has_room ≡ true)

abbrev pub CallAllowed : Answers → Option Bool → Call → Type 0
CallAllowed answers profile calls_enqueue =
    (needs_tutorial profile ≡ false) × (answers.queue_allows ≡ true)
CallAllowed answers profile calls_npc_match = needs_tutorial profile ≡ false
CallAllowed answers profile (calls_input command) = SendAllowed answers command.kind
CallAllowed answers profile calls_dequeue = Unit
CallAllowed answers profile (calls_watch target) = Unit

-- Every call is one that is allowed.
pub record IsGuarded (answers : Answers) (profile : Option Bool) (o : Outcome) : Type 0 where
  pub allowed : All (CallAllowed answers profile) o.calls

module _ (answers : Answers) (profile : Option Bool) where
  play-IsGuarded : IsGuarded answers profile (play answers profile)
  unfolding play
  play-IsGuarded = elim (Bool-cases (needs_tutorial profile)) [
    | inl needs ↦ simp needs (record { allowed = tt })
    | inr ready ↦ elim (Bool-cases answers.queue_allows) [
      | inl spare ↦ simp (ready, spare) (record { allowed = ((ready, spare), tt) })
      | inr used ↦ simp (ready, used) (record { allowed = tt })
    ]
  ]

  play_npc-IsGuarded : IsGuarded answers profile (play_npc answers profile)
  unfolding play_npc
  play_npc-IsGuarded = elim (Bool-cases (needs_tutorial profile)) [
    | inl needs ↦ simp needs (record { allowed = tt })
    | inr ready ↦ simp ready (record { allowed = (ready, tt) })
  ]

  watch_player-IsGuarded :
      (words : List Str) → IsGuarded answers profile (watch_player answers words)
  unfolding watch_player
  watch_player-IsGuarded [] = record { allowed = tt }
  watch_player-IsGuarded (command ∷ []) = record { allowed = tt }
  watch_player-IsGuarded (command ∷ target ∷ more) = record { allowed = (tt, tt) }

  offer_allowed :
      (command : Command)
      → (answers.input_has_room ≡ true → SendAllowed answers command.kind)
      → All (CallAllowed answers profile) (offer answers command)
  unfolding offer
  offer_allowed command h = elim (Bool-cases answers.input_has_room) [
    | inl room ↦ simp room (h room, tt)
    | inr full ↦ simp full tt
  ]

  quit_session-IsGuarded : IsGuarded answers profile (quit_session answers)
  unfolding quit_session
  quit_session-IsGuarded = record { allowed = offer_allowed _ (λ room. room) }

abbrev IsAction : Command → Type 0
IsAction command = command.kind ≡ command_action

made_kind :
    (a : Parsed Action) (z : Parsed Zone)
    → OnParsed IsAction (
        a >>= λ action.
        z >>= λ zone. parsed (record { kind = command_action; action = action; target = zone }))
made_kind (failed reason) z = tt
made_kind (parsed action) (failed reason) = tt
made_kind (parsed action) (parsed zone) = refl

parsed_kind : (words : List Str) → OnParsed IsAction (parse_action_command words)
unfolding parse_action_command
parsed_kind [] = tt
parsed_kind (command ∷ []) = tt
parsed_kind (command ∷ action ∷ []) = tt
parsed_kind (command ∷ action ∷ zone ∷ more) = made_kind (parse_action action) (parse_zone zone)

module _ (answers : Answers) (profile : Option Bool) where
  acted :
      (p : Parsed Command)
      → OnParsed IsAction p
      → answers.in_match ≡ true
      → answers.action_allows ≡ true
      → IsGuarded answers profile (submit_parsed answers p)
  unfolding submit_parsed
  acted (failed reason) k playing spare = record { allowed = tt }
  acted (parsed command) k playing spare = record {
    allowed = offer_allowed answers profile command (λ room. rw k (playing, spare, room));
  }

  try_action-IsGuarded : (words : List Str) → IsGuarded answers profile (try_action answers words)
  unfolding try_action submit_action
  try_action-IsGuarded words = elim (Bool-cases answers.in_match) [
    | inr away ↦ simp away (record { allowed = tt })
    | inl playing ↦ elim (Bool-cases answers.action_allows) [
      | inr used ↦ simp (playing, used) (record { allowed = tt })
      | inl spare ↦ simp (playing, spare) (acted _ (parsed_kind _) playing spare)
    ]
  ]

  silent : (frames : List Shown) → IsGuarded answers profile (reply [] frames)
  silent frames = record { allowed = tt }

  dequeues : (frames : List Shown) → IsGuarded answers profile (reply (calls_dequeue ∷ []) frames)
  dequeues frames = record { allowed = (tt, tt) }

  dispatch-IsGuarded :
      (command : Str) (words : List Str)
      → IsGuarded answers profile (dispatch answers profile command words)
  unfolding dispatch
  dispatch-IsGuarded command words =
      let keeps = if_keeps (IsGuarded answers profile) in
      let is = λ (word : Str). str_eq command word in
      keeps (is (bytes "q") || is (bytes "play")) _ _ (play-IsGuarded answers profile) (
        keeps (is (bytes "l")) _ _ (dequeues _) (
          keeps (is (bytes "s")) _ _ (silent _) (
            keeps (is (bytes "status")) _ _ (silent _) (
              keeps (is (bytes "menu")) _ _ (silent _) (
                keeps (is (bytes "help")) _ _ (silent _) (
                  keeps (is (bytes "npc")) _ _ (play_npc-IsGuarded answers profile) (
                    keeps (is (bytes "watch")) _ _ (watch_player-IsGuarded answers profile words) (
                      keeps (is (bytes "quit") || is (bytes "exit")) _ _
                        (quit_session-IsGuarded answers profile)
                        (keeps (is (bytes "a")) _ _ (try_action-IsGuarded words) (silent _))))))))))

  handle_words-IsGuarded :
      (words : List Str) → IsGuarded answers profile (handle_words answers profile words)
  unfolding handle_words
  handle_words-IsGuarded [] = record { allowed = tt }
  handle_words-IsGuarded (command ∷ words) = dispatch-IsGuarded (to_lower command) (command ∷ words)

  handle-IsGuarded :
      (line : Str) → IsGuarded answers profile (handle_user_input answers profile line)
  unfolding handle_user_input
  handle-IsGuarded line = handle_words-IsGuarded (fields (trim_space line))

-- What a line makes the loop do: nothing that is forbidden.
abbrev pub StepAllowed : Answers → Option Bool → ShellStep → Type 0
StepAllowed answers profile (handles o) = IsGuarded answers profile o
StepAllowed answers profile _ = Unit

module _ (answers : Answers) (profile : Option Bool) where
  command_allowed : (line : Str) → StepAllowed answers profile (run_command answers profile line)
  unfolding run_command
  command_allowed line =
      if_keeps (StepAllowed answers profile) _ retries_tutorial
        (handles (handle_user_input answers profile line)) tt
        (handle-IsGuarded answers profile line)

  choice_allowed :
      (line : Str) (choice : Option (Str × Str))
      → StepAllowed answers profile (run_choice answers profile line choice)
  unfolding run_choice
  choice_allowed line none = command_allowed line
  choice_allowed line (some (command, key)) =
      if_keeps (StepAllowed answers profile) _ hints (run_command answers profile command) tt
        (command_allowed command)

  -- Whatever a player types, as a command or as a choice of the menu: a player who still needs the
  -- tutorial is neither queued nor given a play_npc match, nobody is queued beyond the limit, and an
  -- action goes to the session only in a match, within the limit and where there is room.
  pub shell_step_allowed :
      (raw : Str) → StepAllowed answers profile (shell_step answers profile raw)
  unfolding shell_step
  shell_step_allowed raw = if_keeps (StepAllowed answers profile) _ skips _ tt (choice_allowed _ _)
