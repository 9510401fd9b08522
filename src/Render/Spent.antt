-- ===== src/Render/Spent.antt =====
-- Render tasks that have been sent to the provider, and the writes that keep them from being
-- claimed for a submission again.
use social_pilot_ai.Base.{
  ℕ, ◌≡◌, ◌≢◌, ◌⊎◌, refl, inl, inr, false, Option, some, List, [], ◌∷◌, ◌++◌, Text, All, All-imp,
  Pairwise, arith,
}
use social_pilot_ai.Render.Types.{RenderStatus, VideoRenderTask, RenderDb, is_created}
use social_pilot_ai.Render.Repository.{
  get_task, put_columns, set_columns, update_status, with_status, create,
}

-- A row that will not be claimed for submission again.
abbrev pub Spent : List VideoRenderTask → ℕ → Type 0
Spent ts i = (t : VideoRenderTask) × (get_task i ts ≡ some t) × (is_created t.status ≡ false)

pub record SentOk (d : RenderDb) : Type 0 where
  pub spent : All (Spent d.tasks) d.sent
  pub once : Pairwise (λ i n. i ≢ n) d.sent

-- A write that keeps the key and does not set the status back.
pub record Spends (f : VideoRenderTask → VideoRenderTask) : Type 0 where
  pub same_id : (t : VideoRenderTask) → (f t).id ≡ t.id
  pub no_return :
      (t : VideoRenderTask) → is_created t.status ≡ false → is_created (f t).status ≡ false

get-put_columns :
    (id i : ℕ) (f : VideoRenderTask → VideoRenderTask) (ts : List VideoRenderTask)
    (t : VideoRenderTask)
    → ((u : VideoRenderTask) → (f u).id ≡ u.id)
    → get_task i ts ≡ some t
    → (get_task i (put_columns id f ts) ≡ some t) ⊎ (get_task i (put_columns id f ts) ≡ some (f t))
get-put_columns id i f [] t same e = absurd (cc)
get-put_columns id i f (u ∷ ts) t same e = ground (arith, same u, get-put_columns id i f ts t same)

pub put_columns-Spent :
    (id i : ℕ) (f : VideoRenderTask → VideoRenderTask) (ts : List VideoRenderTask)
    → Spends f
    → Spent ts i
    → Spent (put_columns id f ts) i
put_columns-Spent id i f ts s (t, row, away) = elim (get-put_columns id i f ts t s.same_id row) [
  | inl e ↦ (t, e, away)
  | inr e ↦ (f t, e, s.no_return t away)
]

pub set_columns-SentOk :
    (id : ℕ) (f : VideoRenderTask → VideoRenderTask) (d : RenderDb)
    → Spends f
    → SentOk d
    → SentOk (set_columns id f d)
set_columns-SentOk id f d s h = record {
  spent = All-imp (Spent d.tasks) _ d.sent (λ i q. put_columns-Spent id i f d.tasks s q) h.spent;
  once = h.once;
}

pub with_status-Spends :
    (status : RenderStatus) (code message : Option Text)
    → is_created status ≡ false
    → Spends (with_status status code message)
with_status-Spends status code message e = record { same_id = λ t. refl; no_return = λ t q. e }

pub update_status-SentOk :
    (status : RenderStatus) (code message : Option Text) (id : ℕ) (d : RenderDb)
    → is_created status ≡ false
    → SentOk d
    → SentOk (update_status status code message id d)
unfolding update_status
update_status-SentOk status code message id d e h =
    set_columns-SentOk id (with_status status code message) d
      (with_status-Spends status code message e) h

get_task-id :
    (id : ℕ) (ts : List VideoRenderTask) (t : VideoRenderTask) → get_task id ts ≡ some t → t.id ≡ id
get_task-id id [] t e = absurd (cc)
get_task-id id (u ∷ ts) t e = ground (arith, get_task-id id ts t)

get_task-append :
    (id : ℕ) (ts us : List VideoRenderTask) (t : VideoRenderTask)
    → get_task id ts ≡ some t
    → get_task id (ts ++ us) ≡ some t
get_task-append id [] us t e = absurd (cc)
get_task-append id (u ∷ ts) us t e = ground (arith, get_task-append id ts us t)

pub create-SentOk : (t : VideoRenderTask) (d : RenderDb) → SentOk d → SentOk (create t d)
unfolding create
create-SentOk t d h = record {
  spent =
      All-imp (Spent d.tasks) _ d.sent
        (λ i (u, row, away). (u, get_task-append i d.tasks _ u row, away)) h.spent;
  once = h.once;
}
