-- ===== src/Action.antt =====
-- A database session of SQLAlchemy over one table set `D`: the work of the open transaction and
-- what is committed. A raised error leaves the session as it stands; closing the session, as
-- `get_db` and the worker's `with` do, drops what is not committed.
use social_pilot_ai.Base.{
  ℕ, ◌≡◌, refl, ap, ◌⊎◌, inl, inr, Bool, Option, none, some, String, if◌then◌else◌,
}

-- `AppError` with its message and HTTP status, pydantic's `ValidationError`, SQLAlchemy's
-- `IntegrityError`, and any other exception.
pub data Error : Type 0 where
  app : String → ℕ → Error
  validation integrity runtime : Error

pub data Result {ℓ} (A : Type ℓ) : Type ℓ where
  ok : A → Result A
  err : Error → Result A

pub record Session (D : Type 0) : Type 0 where
  pub committed : D
  pub working : D

abbrev pub Action : Type 0 → Type 0 → Type 0
Action D A = Session D → Result A × Session D

module _ {D A : Type 0} where
  abbrev pub pure : A → Action D A
  pure a s = (ok a, s)

  abbrev pub raise : Error → Action D A
  raise e s = (err e, s)

  abbrev pub query : (D → A) → Action D A
  query f s = (ok (f s.working), s)

  -- A row that must be there.
  abbrev pub or_raise : Option A → Error → Action D A
  or_raise none e s = (err e, s)
  or_raise (some a) e s = (ok a, s)

module _ {D : Type 0} where
  abbrev pub commit : Action D (Unit {0})
  commit s = (ok tt, record { committed = s.working; working = s.working })

  abbrev pub rollback : Action D (Unit {0})
  rollback s = (ok tt, record { committed = s.committed; working = s.committed })

  abbrev pub modify : (D → D) → Action D (Unit {0})
  modify f s = (ok tt, record s { working = f s.working })

  abbrev pub raise_if : Bool → Error → Action D (Unit {0})
  raise_if b e s = (if b then err e else ok tt, s)

module _ {D A B : Type 0} where
  abbrev pub continue : Result A → (A → Action D B) → Action D B
  continue (ok a) f s = f a s
  continue (err e) f s = (err e, s)

  infixl 5 ◌>>=◌ ◌>>◌
  abbrev pub ◌>>=◌ : Action D A → (A → Action D B) → Action D B
  ◌>>=◌ m f s = let (r, s') = m s in continue r f s'

  abbrev pub ◌>>◌ : Action D A → Action D B → Action D B
  m >> k = m >>= λ _. k

module _ {D A : Type 0} where
  -- One request with a session of its own: its answer, and what it has committed.
  abbrev pub request : Action D A → D → Result A × D
  request m d = let (r, s) = m (record { committed = d; working = d }) in (r, s.committed)

module _ {D A : Type 0} where
  -- `try: m`, `except IntegrityError: k`, `except Exception: rollback; raise`.
  abbrev pub handled : Action D A → Result A → Action D A
  handled k (ok a) s = (ok a, s)
  handled k (err integrity) s = k s
  handled k (err (app m c)) s =
      (err (app m c), record { committed = s.committed; working = s.committed })
  handled k (err validation) s =
      (err validation, record { committed = s.committed; working = s.committed })
  handled k (err runtime) s =
      (err runtime, record { committed = s.committed; working = s.committed })

  abbrev pub try_or : Action D A → Action D A → Action D A
  try_or m k s = let (r, s') = m s in handled k r s'

-- What holds of a call's outcome: `Q` of a value and its session, `E` of the session of an error.
abbrev pub Ends :
    {D A : Type 0} → (A → Session D → Type 0) → (Session D → Type 0) → Result A × Session D → Type 0
Ends Q E (ok a, s) = Q a s
Ends Q E (err e, s) = E s

module _ {D A B : Type 0} where
  continued :
      (r : Result A × Session D) (f : A → Action D B) (b : B) (t : Session D)
      → continue r.0 f r.1 ≡ (ok b, t)
      → (a : A) × (s : Session D) × (r ≡ (ok a, s)) × (f a s ≡ (ok b, t))
  continued (ok a, s) f b t h = (a, s, refl, h)
  continued (err e, s) f b t h = absurd (cc)

  -- Two actions in a row answer only if the first answers and the second does from there.
  pub >>=-ok :
      (m : Action D A) (f : A → Action D B) (b : B) (s t : Session D)
      → (m >>= f) s ≡ (ok b, t)
      → (a : A) × (s' : Session D) × (m s ≡ (ok a, s')) × (f a s' ≡ (ok b, t))
  >>=-ok m f b s t h = continued (m s) f b t h

module _ {D A : Type 0} where
  tried :
      (r : Result A × Session D) (k : Action D A) (a : A) (t : Session D)
      → handled k r.0 r.1 ≡ (ok a, t)
      → (r ≡ (ok a, t)) ⊎ ((s : Session D) × (r ≡ (err integrity, s)) × (k s ≡ (ok a, t)))
  tried (ok b, s) k a t h = inl h
  tried (err integrity, s) k a t h = inr (s, refl, h)
  tried (err (app m c), s) k a t h = absurd (cc)
  tried (err validation, s) k a t h = absurd (cc)
  tried (err runtime, s) k a t h = absurd (cc)

  -- A `try` answers through its body, or through its handler after a conflict.
  pub try_or-ok :
      (m k : Action D A) (a : A) (s t : Session D)
      → try_or m k s ≡ (ok a, t)
      → (m s ≡ (ok a, t)) ⊎ ((s' : Session D) × (m s ≡ (err integrity, s')) × (k s' ≡ (ok a, t)))
  try_or-ok m k a s t h = tried (m s) k a t h

module _ {D A : Type 0} where
  pub request-ok :
      (m : Action D A) (a : A) (d d' : D)
      → request m d ≡ (ok a, d')
      → (t : Session D) × (m (record { committed = d; working = d }) ≡ (ok a, t))
        × (t.committed ≡ d')
  request-ok m a d d' h =
      let (r, t) = m (record { committed = d; working = d }) in
      (t, ap (λ (x : Result A × D). (x.0, t)) h, ap (λ (x : Result A × D). x.1) h)
