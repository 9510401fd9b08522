-- ===== src/Render/Numbered.antt =====
-- The scene and the project that a render request names carry the numbers it names.
use social_pilot_ai.Base.{
  ℕ, ◌≡◌, refl, sym, ap, ◌∙◌, true, false, Option, none, some, List, [], ◌∷◌, arith, codes, inl,
  inr, Bool, subst, ◌⊎◌, if◌then◌else◌,
}
use social_pilot_ai.Json.{Json, number, boolean, Fields}
use social_pilot_ai.Action.{Result, ok, err}
use social_pilot_ai.Render.Scenes.{
  VideoProject, VideoScene, get_project, get_field, equals, find_scene, above_zero, positive_field,
  ◌>>=◌, clean_text, model_validate, checked_scene, scene_found, in_project, project_found,
  scene_of,
}

-- What pydantic documents of an integer field: an integer is taken as it is, and `True` as 1.
pub record TakesIntegers (int_of : Json → Option ℕ) : Type 0 where
  pub numbers : (n : ℕ) → int_of (number n) ≡ some n
  pub truth : int_of (boolean true) ≡ some 1
  pub falsity : int_of (boolean false) ≡ some 0

get_project-id :
    (id : ℕ) (ps : List VideoProject) (p : VideoProject) → get_project id ps ≡ some p → p.id ≡ id
get_project-id id [] p h = absurd (cc)
get_project-id id (q ∷ ps) p h = ground (arith, get_project-id id ps p)

chosen :
    (b : Bool) (x y : Fields) (o : Option Fields)
    → (if b then some x else o) ≡ some y
    → ((b ≡ true) × (x ≡ y)) ⊎ (o ≡ some y)
chosen true x y o h = inl (refl, ground (arith, h))
chosen false x y o h = inr h

find_scene-equals :
    (k : ℕ) (l : List Fields) (fs : Fields)
    → find_scene k l ≡ some fs
    → equals k (get_field (codes "sequence") fs) ≡ true
find_scene-equals k [] fs h = absurd (cc)
find_scene-equals k (x ∷ l) fs h =
    elim (chosen (equals k (get_field (codes "sequence") x)) x fs (find_scene k l) h) [
      | inl (e, same) ↦ subst (λ y. equals k (get_field (codes "sequence") y) ≡ true) same e
      | inr later ↦ find_scene-equals k l fs later
    ]

above_zero-same : (o : Option ℕ) (n : ℕ) → above_zero o ≡ some n → o ≡ some n
above_zero-same none n h = absurd (cc)
above_zero-same (some m) n h = ground (arith, h)

bound :
    {A B : Type 0} (o : Option A) (f : A → Option B) (b : B)
    → (o >>= f) ≡ some b
    → (a : A) × (o ≡ some a) × (f a ≡ some b)
bound none f b h = absurd (cc)
bound (some a) f b h = (a, refl, h)

abbrev sequence_of : Option VideoScene → Option ℕ
sequence_of none = none
sequence_of (some c) = some c.sequence

module _ (int_of : Json → Option ℕ) (takes : TakesIntegers int_of) where
  positive_field-equals :
      (k n : ℕ) (v : Option Json) → equals k v ≡ true → positive_field int_of v ≡ some n → n ≡ k
  positive_field-equals k n none h e = absurd (cc)
  positive_field-equals k n (some (number m)) h e =
      ground (arith, h, takes.numbers m, above_zero-same (int_of (number m)) n e)
  positive_field-equals k n (some (boolean true)) h e =
      ground (arith, h, takes.truth, above_zero-same (int_of (boolean true)) n e)
  positive_field-equals k n (some (boolean false)) h e =
      ground (arith, h, takes.falsity, above_zero-same (int_of (boolean false)) n e)
  positive_field-equals k n (some Json.null) h e = absurd (cc)
  positive_field-equals k n (some (Json.string x)) h e = absurd (cc)
  positive_field-equals k n (some (Json.array x)) h e = absurd (cc)
  positive_field-equals k n (some (Json.object x)) h e = absurd (cc)

  model_validate-sequence :
      (fs : Fields) (c : VideoScene)
      → model_validate int_of fs ≡ some c
      → positive_field int_of (get_field (codes "sequence") fs) ≡ some c.sequence
  unfolding model_validate
  model_validate-sequence fs c h =
      let (n, e0, h0) = bound (positive_field int_of (get_field (codes "sequence") fs)) _ c h in
      let (a1, e1, h1) =
        bound (positive_field int_of (get_field (codes "duration_seconds") fs)) _ c h0 in
      let (a2, e2, h2) = bound (clean_text (get_field (codes "shot_type") fs)) _ c h1 in
      let (a3, e3, h3) = bound (clean_text (get_field (codes "visual_description") fs)) _ c h2 in
      let (a4, e4, h4) = bound (clean_text (get_field (codes "action") fs)) _ c h3 in
      let (a5, e5, h5) = bound (clean_text (get_field (codes "narration") fs)) _ c h4 in
      e0 ∙ ap sequence_of h5

  checked_scene-some :
      (o : Option VideoScene) (c : VideoScene) → checked_scene int_of o ≡ ok c → o ≡ some c
  checked_scene-some none c h = absurd (cc)
  checked_scene-some (some x) c h = ground (arith, h)

  scene_found-sequence :
      (k : ℕ) (l : List Fields) (o : Option Fields) (c : VideoScene)
      → find_scene k l ≡ o
      → scene_found int_of o ≡ ok c
      → c.sequence ≡ k
  scene_found-sequence k l none c e h = absurd (cc)
  scene_found-sequence k l (some fs) c e h =
      positive_field-equals k c.sequence (get_field (codes "sequence") fs)
        (find_scene-equals k l fs e)
        (model_validate-sequence fs c (checked_scene-some (model_validate int_of fs) c h))

  in_project-ok :
      (p q : VideoProject) (r : Result VideoScene) (c : VideoScene)
      → in_project int_of p r ≡ ok (q, c)
      → (p ≡ q) × (r ≡ ok c)
  in_project-ok p q (ok x) c h = ground (arith, h)
  in_project-ok p q (err e) c h = absurd (cc)

  project_found-Numbered :
      (projects : List VideoProject) (id k : ℕ) (o : Option VideoProject) (p : VideoProject)
      (c : VideoScene)
      → get_project id projects ≡ o
      → project_found int_of k o ≡ ok (p, c)
      → (p.id ≡ id) × (c.sequence ≡ k)
  project_found-Numbered projects id k none p c e h = absurd (cc)
  project_found-Numbered projects id k (some q) p c e h =
      let (same, found) = in_project-ok q p (scene_found int_of (find_scene k q.scenes)) c h in
      (
        sym (ap (λ (x : VideoProject). x.id) same) ∙ get_project-id id projects q e,
        scene_found-sequence k q.scenes (find_scene k q.scenes) c refl found,
      )

  pub scene_of-Numbered :
      (projects : List VideoProject) (id k : ℕ) (p : VideoProject) (c : VideoScene)
      → scene_of int_of projects id k ≡ ok (p, c)
      → (p.id ≡ id) × (c.sequence ≡ k)
  unfolding scene_of
  scene_of-Numbered projects id k p c h =
      project_found-Numbered projects id k (get_project id projects) p c refl h
