-- ===== src/Render/Scenes.antt =====
-- The scenes of a video project as the render tasks read them: what `create_render_task_with_reuse`
-- of backend/app/services/video_render_service.py takes from backend/app/models/video.py,
-- `VideoSceneSchema` of backend/app/schemas/video.py and `_build_render_prompt`. How pydantic turns
-- a value into an integer is a parameter; it takes a text as it is and no other value as a text.
use social_pilot_ai.Base.{
  ℕ, Bool, true, false, ◌==◌, Option, none, some, List, [], ◌∷◌, ◌++◌, Text, codes, text_eq, strip,
  decimal, if◌then◌else◌, leb,
}
use social_pilot_ai.Json.{Json, number, boolean, string, Fields, end, field}
use social_pilot_ai.Action.{Result, ok, err, app}

pub record VideoProject : Type 0 where
  pub id : ℕ
  pub aspect_ratio : Text
  pub scenes : List Fields

-- `VideoSceneSchema`
pub record VideoScene : Type 0 where
  pub sequence : ℕ
  pub duration_seconds : ℕ
  pub shot_type : Text
  pub visual_description : Text
  pub action : Text
  pub narration : Text

-- `VideoRenderTaskCreate`, its texts stripped.
pub record VideoRenderTaskCreate : Type 0 where
  pub scene_sequence : ℕ
  pub resolution : Text
  pub idempotency_key : Text

abbrev pub get_project : ℕ → List VideoProject → Option VideoProject
get_project id [] = none
get_project id (p ∷ ps) = if p.id == id then some p else get_project id ps

-- `scene.get(key)`
abbrev pub get_field : Text → Fields → Option Json
get_field key end = none
get_field key (field k v fs) = if text_eq k key then some v else get_field key fs

-- Whether a value is equal to an integer; for Python `True` is 1 and `False` is 0.
abbrev pub equals : ℕ → Option Json → Bool
equals k (some (number n)) = n == k
equals k (some (boolean true)) = 1 == k
equals k (some (boolean false)) = 0 == k
equals k _ = false

-- `next((scene for scene in project.scenes if scene.get("sequence") == k), None)`
abbrev pub find_scene : ℕ → List Fields → Option Fields
find_scene k [] = none
find_scene k (fs ∷ rest) =
    if equals k (get_field (codes "sequence") fs) then some fs else find_scene k rest

-- A value that a later check needs.
infixl 5 ◌>>=◌
abbrev pub ◌>>=◌ : {A B : Type 0} → Option A → (A → Option B) → Option B
◌>>=◌ none f = none
◌>>=◌ (some a) f = f a

-- `clean_scene_text`
abbrev pub unless_empty : Text → Option Text
unless_empty [] = none
unless_empty (c ∷ s) = some (c ∷ s)

abbrev pub clean_text : Option Json → Option Text
clean_text (some (string s)) = unless_empty (strip s)
clean_text _ = none

-- `Field(gt=0)`
abbrev pub above_zero : Option ℕ → Option ℕ
above_zero none = none
above_zero (some n) = if leb 1 n then some n else none

module _ (int_of : Json → Option ℕ) where
  abbrev pub positive_field : Option Json → Option ℕ
  positive_field none = none
  positive_field (some v) = above_zero (int_of v)

  -- `VideoSceneSchema.model_validate`
  unfoldable pub model_validate : Fields → Option VideoScene
  unfolding strip
  model_validate fs = do
    n ← positive_field (get_field (codes "sequence") fs)
    duration ← positive_field (get_field (codes "duration_seconds") fs)
    shot ← clean_text (get_field (codes "shot_type") fs)
    visual ← clean_text (get_field (codes "visual_description") fs)
    act ← clean_text (get_field (codes "action") fs)
    narration ← clean_text (get_field (codes "narration") fs)
    some (record {
      sequence = n;
      duration_seconds = duration;
      shot_type = shot;
      visual_description = visual;
      action = act;
      narration = narration;
    })

  abbrev pub checked_scene : Option VideoScene → Result VideoScene
  checked_scene none = err (app "Video scene is invalid" 422)
  checked_scene (some s) =
      if leb s.duration_seconds 0
      then err (app "Video scene duration must be positive" 422)
      else ok s

  abbrev pub scene_found : Option Fields → Result VideoScene
  scene_found none = err (app "Video scene not found" 422)
  scene_found (some fs) = checked_scene (model_validate fs)

  abbrev pub in_project : VideoProject → Result VideoScene → Result (VideoProject × VideoScene)
  in_project p (ok s) = ok (p, s)
  in_project p (err e) = err e

  abbrev pub project_found : ℕ → Option VideoProject → Result (VideoProject × VideoScene)
  project_found k none = err (app "Video project not found" 404)
  project_found k (some p) = in_project p (scene_found (find_scene k p.scenes))

  -- The checks before the key is looked up: the project and the scene asked for.
  unfoldable pub scene_of : List VideoProject → ℕ → ℕ → Result (VideoProject × VideoScene)
  unfolding model_validate
  scene_of projects id k = project_found k (get_project id projects)

-- `_build_render_prompt`
unfoldable pub build_render_prompt : VideoScene → Text → Text
unfolding decimal
build_render_prompt s aspect_ratio =
    codes "Create a "
    ++ decimal s.duration_seconds
    ++ codes "-second "
    ++ aspect_ratio
    ++ codes " social video scene. Shot type: "
    ++ s.shot_type
    ++ codes ". Visual composition: "
    ++ s.visual_description
    ++ codes ". Action: "
    ++ s.action
    ++ codes
        ". Keep the product visually consistent. Do not add subtitles, on-screen text, logos, or audio."
