-- ===== src/Animation.antt =====
-- internal/animation/renderer.go: the frames that show a turn. A sprite is a string of ASCII, whose
-- bytes are its characters.
pub mod Poses
pub mod Effects
pub mod Rows
pub mod Captions
pub mod Keyframes
pub mod Inferred
pub mod Sizes
pub mod Film
pub mod Apart
pub mod Hits
use terminal_wrestling_leagu.Common.{ℕ, Bool, true, false, ◌||◌, List, [], ◌∷◌, ◌++◌, if◌then◌else◌}
use terminal_wrestling_leagu.Common.Text.{Str}

pub data Effect : Type 0 where
  effect_hitstop effect_shake effect_knockback effect_slowmo : Effect

pub record Frame : Type 0 where
  pub full : List Str
  pub delta : List Str
  pub keyframes : List (List Str)
  pub summary : Str
  pub effects : List Effect

pub record StickPose : Type 0 where
  pub head : Str
  pub torso : Str
  pub legs : Str

pub record CinematicPhase : Type 0 where
  pub name : Str
  pub left_advance : ℕ
  pub right_advance : ℕ
  pub shake : Bool
  pub left_pose : StickPose
  pub right_pose : StickPose

pub record TurnVfx : Type 0 where
  pub hit_count : ℕ
  pub total_damage : ℕ
  pub heavy_hit : Bool
  pub left_hit : Bool
  pub right_hit : Bool
  pub stunned : Bool
  pub combo_active : Bool
  pub knockback_hit : Bool

abbrev pub same_effect : Effect → Effect → Bool
same_effect effect_hitstop effect_hitstop = true
same_effect effect_shake effect_shake = true
same_effect effect_knockback effect_knockback = true
same_effect effect_slowmo effect_slowmo = true
same_effect _ _ = false

unfoldable pub has_effect : List Effect → Effect → Bool
has_effect [] want = false
has_effect (effect ∷ effects) want = same_effect effect want || has_effect effects want
