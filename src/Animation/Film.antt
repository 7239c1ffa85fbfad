-- ===== src/Animation/Film.antt =====
-- How many frames a turn has, and what they end with.
use terminal_wrestling_leagu.Common.{
  ℕ, suc, ◌+◌, ◌≤◌, ◌≡◌, refl, ap, arith, Bool, true, false, List, [], ◌∷◌, ◌++◌, All, length,
  length-append, if◌then◌else◌, ◌||◌,
}
use terminal_wrestling_leagu.Common.Text.{Str}
use terminal_wrestling_leagu.Combat.Types.{MatchState, TurnResult}
use terminal_wrestling_leagu.Animation.{Effect, effect_slowmo, CinematicPhase, TurnVfx, has_effect}
use terminal_wrestling_leagu.Animation.Effects.{derive_turn_vfx, infer_effects}
use terminal_wrestling_leagu.Animation.Captions.{summarize_turn}
use terminal_wrestling_leagu.Animation.Keyframes.{
  arena_lines, title_lines, caption_lines, render_keyframe, render_phases, last_frame, slowed,
  cinematic_phases, closing_phases, build_cinematic_keyframes, render,
}

-- The last line of a frame; the empty one where there is none.
abbrev pub last_line : List Str → Str
last_line [] = []
last_line (line ∷ []) = line
last_line (line ∷ next ∷ lines) = last_line (next ∷ lines)

-- A frame of 12 lines, or of 13 that ends with the summary.
abbrev pub extra : Bool → ℕ
extra final = if final then 1 else 0

pub record IsFrame (summary : Str) (final : Bool) (frame : List Str) : Type 0 where
  pub size : length frame ≡ 12 + extra final
  pub tells : final ≡ true → last_line frame ≡ summary

keyframe-IsFrame :
    (handle1 handle2 : Str) (state : MatchState) (phase : CinematicPhase) (summary : Str)
    (vfx : TurnVfx) (final : Bool)
    → IsFrame summary final (render_keyframe handle1 handle2 state phase summary vfx final)
unfolding render_keyframe title_lines arena_lines caption_lines
keyframe-IsFrame handle1 handle2 state phase summary vfx true = record {
  size = refl;
  tells = λ h. refl;
}
keyframe-IsFrame handle1 handle2 state phase summary vfx false = record {
  size = refl;
  tells = λ h. cc;
}

-- All the frames but the last have 12 lines, and the last has 13 and tells the summary.
abbrev pub Frames : Str → List (List Str) → Type 0
Frames summary [] = Unit
Frames summary (frame ∷ []) = IsFrame summary true frame
Frames summary (frame ∷ next ∷ frames) =
    IsFrame summary false frame × Frames summary (next ∷ frames)

module _ (handle1 handle2 : Str) (state : MatchState) (summary : Str) (vfx : TurnVfx) where
  phases-Frames :
      (phases : List CinematicPhase)
      → Frames summary (render_phases handle1 handle2 state summary vfx phases)
  unfolding render_phases
  phases-Frames [] = tt
  phases-Frames (phase ∷ []) = keyframe-IsFrame handle1 handle2 state phase summary vfx true
  phases-Frames (phase ∷ next ∷ []) = (
    keyframe-IsFrame handle1 handle2 state phase summary vfx false,
    keyframe-IsFrame handle1 handle2 state next summary vfx true,
  )
  phases-Frames (phase ∷ next ∷ third ∷ phases) = (
    keyframe-IsFrame handle1 handle2 state phase summary vfx false,
    phases-Frames (next ∷ third ∷ phases),
  )

  length-render_phases :
      (phases : List CinematicPhase)
      → length (render_phases handle1 handle2 state summary vfx phases) ≡ length phases
  unfolding render_phases
  length-render_phases [] = refl
  length-render_phases (phase ∷ []) = refl
  length-render_phases (phase ∷ next ∷ phases) = ap suc (length-render_phases (next ∷ phases))

slowed-IsFrame :
    (summary : Str) (frame : List Str)
    → IsFrame summary true frame
    → IsFrame summary true (slowed frame)
unfolding slowed
slowed-IsFrame summary [] h = absurd (omega (arith, h.size))
slowed-IsFrame summary (line ∷ []) h = absurd (omega (arith, h.size))
slowed-IsFrame summary (line ∷ next ∷ lines) h = record { size = h.size; tells = h.tells }

last-IsFrame :
    (summary : Str) (frame : List Str) (frames : List (List Str))
    → Frames summary (frame ∷ frames)
    → IsFrame summary true (last_frame (frame ∷ frames))
unfolding last_frame
last-IsFrame summary frame [] h = h
last-IsFrame summary frame (next ∷ frames) h = last-IsFrame summary next frames h.1

last-append :
    (frames : List (List Str)) (frame : List Str) → last_frame (frames ++ (frame ∷ [])) ≡ frame
unfolding last_frame
last-append [] frame = refl
last-append (f ∷ []) frame = refl
last-append (f ∷ g ∷ frames) frame = last-append (g ∷ frames) frame

abbrev Sized : List Str → Type 0
Sized frame = (12 ≤ length frame) × (length frame ≤ 13)

frame-Sized :
    (summary : Str) (final : Bool) (frame : List Str) → IsFrame summary final frame → Sized frame
frame-Sized summary true frame h = (omega (arith, h.size), omega (arith, h.size))
frame-Sized summary false frame h = (omega (arith, h.size), omega (arith, h.size))

Frames-Sized : (summary : Str) (frames : List (List Str)) → Frames summary frames → All Sized frames
Frames-Sized summary [] h = tt
Frames-Sized summary (frame ∷ []) h = (frame-Sized summary true frame h, tt)
Frames-Sized summary (frame ∷ next ∷ frames) h =
    (frame-Sized summary false frame h.0, Frames-Sized summary (next ∷ frames) h.1)

Sized-append :
    (frames : List (List Str)) (frame : List Str)
    → All Sized frames
    → Sized frame
    → All Sized (frames ++ (frame ∷ []))
Sized-append [] frame h s = (s, tt)
Sized-append (f ∷ frames) frame h s = (h.0, Sized-append frames frame h.1 s)

-- The last of the frames is this one.
abbrev pub EndsWith : List Str → List (List Str) → Type 0
EndsWith frame [] = ⊥
EndsWith frame (last ∷ []) = frame ≡ last
EndsWith frame (_ ∷ next ∷ frames) = EndsWith frame (next ∷ frames)

last_frame-EndsWith :
    (frames : List (List Str)) → 1 ≤ length frames → EndsWith (last_frame frames) frames
unfolding last_frame
last_frame-EndsWith [] h = absurd (omega arith)
last_frame-EndsWith (frame ∷ []) h = refl
last_frame-EndsWith (frame ∷ next ∷ frames) h = last_frame-EndsWith (next ∷ frames) (omega arith)

-- What the frames of a turn promise.
pub record IsFilm (summary : Str) (frames : List (List Str)) : Type 0 where
  pub at_least : 4 ≤ length frames
  pub at_most : length frames ≤ 7
  pub sized : All (λ (frame : List Str). (12 ≤ length frame) × (length frame ≤ 13)) frames
  pub ending : IsFrame summary true (last_frame frames)

-- The frames of the phases, before the copy in slow motion.
record Drawn (summary : Str) (frames : List (List Str)) : Type 0 where
  at_least : 4 ≤ length frames
  at_most : length frames ≤ 6
  sized : All Sized frames
  ending : IsFrame summary true (last_frame frames)

Drawn-of :
    (summary : Str) (frames : List (List Str))
    → 4 ≤ length frames
    → length frames ≤ 6
    → Frames summary frames
    → Drawn summary frames
Drawn-of summary [] lo hi h = absurd (omega arith)
Drawn-of summary (frame ∷ frames) lo hi h = record {
  at_least = lo;
  at_most = hi;
  sized = Frames-Sized summary (frame ∷ frames) h;
  ending = last-IsFrame summary frame frames h;
}

length-cinematic_phases :
    (state : MatchState) (effects : List Effect) (vfx : TurnVfx)
    → (4 ≤ length (cinematic_phases state effects vfx))
      × (length (cinematic_phases state effects vfx) ≤ 6)
unfolding cinematic_phases closing_phases
length-cinematic_phases state effects vfx = (ground arith, ground arith)

slowed-IsFilm :
    (summary : Str) (slow : Bool) (frames : List (List Str))
    → Drawn summary frames
    → IsFilm summary (if slow then frames ++ (slowed (last_frame frames) ∷ []) else frames)
slowed-IsFilm summary false frames h = record {
  at_least = h.at_least;
  at_most = omega (arith, h.at_most);
  sized = h.sized;
  ending = h.ending;
}
slowed-IsFilm summary true frames h =
    let last = slowed-IsFrame summary (last_frame frames) h.ending in
    let n = length-append frames (slowed (last_frame frames) ∷ []) in
    record {
      at_least = omega (arith, n, h.at_least);
      at_most = omega (arith, n, h.at_most);
      sized = Sized-append frames _ h.sized (frame-Sized summary true _ last);
      ending = rw (last-append frames (slowed (last_frame frames))) last;
    }

-- Whatever a turn brings, it is shown in 4 to 7 frames of 12 or 13 lines. The last of them has 13, the
-- last line of which is the summary of the turn, and `Full`, the frame that older clients get, is that
-- last frame.
pub render-IsFilm :
    (handle1 handle2 : Str) (result : TurnResult)
    → IsFilm (summarize_turn result) (render handle1 handle2 result).keyframes
      × IsFrame (summarize_turn result) true (render handle1 handle2 result).full
      × EndsWith (render handle1 handle2 result).full (render handle1 handle2 result).keyframes
unfolding render build_cinematic_keyframes
render-IsFilm handle1 handle2 result =
    let effects = infer_effects result in
    let summary = summarize_turn result in
    let vfx = derive_turn_vfx result effects in
    let phases = cinematic_phases result.next effects vfx in
    let (lo, hi) = length-cinematic_phases result.next effects vfx in
    let same = length-render_phases handle1 handle2 result.next summary vfx phases in
    let film =
      slowed-IsFilm summary (has_effect effects effect_slowmo || result.next.outcome.finished)
        (render_phases handle1 handle2 result.next summary vfx phases)
        (Drawn-of summary _ (omega (arith, same, lo)) (omega (arith, same, hi))
          (phases-Frames handle1 handle2 result.next summary vfx phases)) in
    let frames = build_cinematic_keyframes handle1 handle2 result summary effects in
    (film, film.ending, last_frame-EndsWith frames (omega (arith, film.at_least)))
