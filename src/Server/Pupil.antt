-- ===== src/Server/Pupil.antt =====
-- Who passes the guided phase of the tutorial.
use terminal_wrestling_leagu.Common.{Bool, true, false, ◌||◌, List, [], ◌∷◌, if◌then◌else◌}
use terminal_wrestling_leagu.Common.Text.{Str, bytes}
use terminal_wrestling_leagu.Server.Guided.{
  Arrival, halted, failed, typed, GuidedEnd, guided_passed,
}
use terminal_wrestling_leagu.Server.Typed.{said, words_eq}

abbrev pub is_passed : GuidedEnd → Bool
is_passed (guided_passed rest) = true
is_passed _ = false

abbrev pub is_goodbye : List Str → Bool
is_goodbye words = words_eq words (bytes "quit" ∷ []) || words_eq words (bytes "exit" ∷ [])

-- The words of the lines that are typed before the player says goodbye, the input ends, the scanner
-- fails or the context is done.
abbrev pub heard : List Arrival → List (List Str)
heard [] = []
heard (halted ∷ arrivals) = []
heard (failed ∷ arrivals) = []
heard (typed raw ∷ arrivals) =
    let rest = heard arrivals in if is_goodbye (said raw) then [] else said raw ∷ rest

-- Whether the commands stand in the list, in their order and with others between them.
abbrev pub occur_in : List (List Str) → List (List Str) → Bool
occur_in [] lines = true
occur_in (step ∷ steps) [] = false
occur_in (step ∷ steps) (line ∷ lines) =
    if words_eq line step then occur_in steps lines else occur_in (step ∷ steps) lines

-- The three commands, word by word.
abbrev pub curriculum : List (List Str)
curriculum =
    (bytes "help" ∷ []) ∷ (bytes "a" ∷ bytes "strike" ∷ bytes "head" ∷ []) ∷ (bytes "q" ∷ []) ∷ []
