-- ===== src/Server/Guided.antt =====
-- ssh_server.go: the first phase of `runTutorialFlow`, in which the player types three commands, and
-- `passwordCallback`.
use terminal_wrestling_leagu.Common.{
  Bool, true, false, ◌||◌, Option, none, some, List, [], ◌∷◌, ◌++◌, if◌then◌else◌,
}
use terminal_wrestling_leagu.Common.Text.{Str, bytes, str_eq}
use terminal_wrestling_leagu.Server.Handle.{Shown, say}
use terminal_wrestling_leagu.Server.Input.{canonical_tutorial_command}

-- What comes next: the context is done, the scanner stops with an error, or a line. The end of the
-- input is the end of the list.
pub data Arrival : Type 0 where
  halted failed : Arrival
  typed : Str → Arrival

pub data GuidedEnd : Type 0 where
  guided_passed : List Arrival → GuidedEnd
  guided_left guided_ended guided_failed guided_canceled : GuidedEnd

pub record GuidedRun : Type 0 where
  pub ending : GuidedEnd
  pub frames : List Shown

abbrev prompt : Str → Shown
prompt step = say (bytes "Type `" ++ (step ++ bytes "` and press Enter."))

abbrev pub after : Shown → GuidedRun → GuidedRun
after frame run = record run { frames = frame ∷ run.frames }

abbrev pub is_farewell : Str → Bool
is_farewell line = str_eq line (bytes "quit") || str_eq line (bytes "exit")

-- The loop over the lines, for one step and the steps that follow it.
unfoldable pub follow : Str → List Str → List Arrival → GuidedRun
follow step steps [] = record { ending = guided_ended; frames = [] }
follow step steps (halted ∷ arrivals) = record { ending = guided_canceled; frames = [] }
follow step steps (failed ∷ arrivals) = record { ending = guided_failed; frames = [] }
follow step steps (typed raw ∷ arrivals) =
    let line = canonical_tutorial_command raw in
    let again = follow step steps arrivals in
    let onward : GuidedRun = elim steps [
      | [] ↦ record { ending = guided_passed arrivals; frames = [] }
      | next ∷ more ↦ after (prompt next) (follow next more arrivals)
    ] in
    if is_farewell line
    then record { ending = guided_left; frames = say (bytes "bye") ∷ [] }
    else if str_eq line step
    then after (say (bytes "ok")) onward
    else after (say (bytes "tutorial expects `" ++ (step ++ bytes "`"))) again

unfoldable pub run_guided : Bool → List Arrival → GuidedRun
run_guided retry arrivals =
    after
      (say (
        if retry
        then bytes "Tutorial retry started."
        else bytes "First login detected: tutorial is required before entering PvP queue."))
      (after (say (bytes "Tutorial phase 1/2 (guided): follow the prompts exactly.")) (
        after (prompt (bytes "help"))
          (follow (bytes "help") (bytes "a strike head" ∷ bytes "q" ∷ []) arrivals)))

-- What `passwordCallback` decides, and the counters that it raises: the limiter's answer and the
-- password of the user in the configuration are given.
pub record Login : Type 0 where
  pub granted : Bool
  pub counters : List Str

unfoldable pub password_callback : Bool → Option Str → Str → Login
password_callback allowed expected password =
    let attempts = bytes "login_attempts" ∷ [] in
    let denied : Login = record {
      granted = false;
      counters = attempts ++ (bytes "login_denied" ∷ []);
    } in
    let checked : Login = elim expected [
      | none ↦ denied
      | some secret ↦
          if str_eq secret password then record { granted = true; counters = attempts } else denied
    ] in
    if allowed
    then checked
    else record { granted = false; counters = attempts ++ (bytes "login_rate_limited" ∷ []) }
