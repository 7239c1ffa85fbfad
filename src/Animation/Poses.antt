-- ===== src/Animation/Poses.antt =====
-- renderer.go: the poses of a fighter, the labels and the steps forward.
use terminal_wrestling_leagu.Common.{ℕ, Bool, ◌++◌, if◌then◌else◌}
use terminal_wrestling_leagu.Common.Text.{Str, bytes, str_eq}
use terminal_wrestling_leagu.Common.Format.{to_lower}
use terminal_wrestling_leagu.Combat.Types.{
  Action, action_none, action_strike, action_grapple, action_block, action_dodge, action_counter,
  action_feint, action_break, unknown_action,
}
use terminal_wrestling_leagu.Animation.{StickPose}

abbrev standing : Str → StickPose
standing torso = record { head = bytes " o "; torso = torso; legs = bytes "/ \\" }

unfoldable pub windup_pose : Action → Bool → StickPose
windup_pose action mirror =
    let lean : StickPose = if mirror then standing (bytes "<| ") else standing (bytes " |>") in
    let sidestep : StickPose =
      if mirror
      then record { head = bytes " o "; torso = bytes "<| "; legs = bytes "< \\" }
      else record { head = bytes " o "; torso = bytes " |>"; legs = bytes "/ >" } in
    elim action [
      | action_strike ↦ lean
      | action_counter ↦ lean
      | action_grapple ↦ standing (bytes "/| ")
      | action_break ↦ standing (bytes "/| ")
      | action_block ↦ standing (bytes "[|]")
      | action_feint ↦ standing (bytes "~| ")
      | action_dodge ↦ sidestep
      | action_none ↦ standing (bytes "/|\\")
      | unknown_action n ↦ standing (bytes "/|\\")
    ]

unfoldable pub recover_pose : Action → Bool → StickPose
recover_pose action_strike mirror =
    if mirror then standing (bytes "\\| ") else standing (bytes " |/")
recover_pose action_dodge mirror =
    if mirror
    then record { head = bytes " o "; torso = bytes " |<"; legs = bytes "< /" }
    else record { head = bytes " o "; torso = bytes ">| "; legs = bytes "\\ >" }
recover_pose _ mirror = standing (bytes "/|\\")

unfoldable pub pose_for_action : Action → Bool → StickPose
pose_for_action action_strike mirror =
    if mirror then standing (bytes "<|-") else standing (bytes "-|>")
pose_for_action action_block mirror = standing (bytes "[|]")
pose_for_action action_dodge mirror =
    if mirror then standing (bytes "<| ") else standing (bytes " |>")
pose_for_action action_counter mirror = standing (bytes "<|>")
pose_for_action action_grapple mirror = standing (bytes "\\|/")
pose_for_action action_break mirror = standing (bytes "\\|/")
pose_for_action action_feint mirror = standing (bytes "~|~")
pose_for_action _ mirror = standing (bytes "/|\\")

unfoldable pub pose_for_phase : Action → Bool → Str → StickPose
pose_for_phase action mirror phase =
    let p = to_lower phase in
    if str_eq p (bytes "guard")
    then standing (bytes "/|\\")
    else if str_eq p (bytes "windup")
    then windup_pose action mirror
    else if str_eq p (bytes "recover")
    then recover_pose action mirror
    else if str_eq p (bytes "stunned")
    then record { head = bytes " * "; torso = bytes "x|x"; legs = bytes "/ \\" }
    else pose_for_action action mirror

unfoldable pub action_label : Action → Str
action_label action_strike = bytes "STRIKE"
action_label action_grapple = bytes "GRAPPLE"
action_label action_block = bytes "BLOCK"
action_label action_dodge = bytes "DODGE"
action_label action_counter = bytes "COUNTER"
action_label action_feint = bytes "FEINT"
action_label action_break = bytes "BREAK"
action_label _ = bytes "IDLE"

unfoldable pub stance_label : Str → Action → Str
stance_label handle action = handle ++ (bytes " [" ++ (action_label action ++ bytes "]"))

unfoldable pub approach_distance : Action → ℕ
approach_distance action_strike = 7
approach_distance action_grapple = 8
approach_distance action_counter = 6
approach_distance action_feint = 5
approach_distance action_break = 4
approach_distance action_dodge = 3
approach_distance action_block = 2
approach_distance _ = 1
