-- ===== src/Json/Sensitive.antt =====
-- What `reject_sensitive_keys` promises, stated apart from its traversal.
use social_pilot_ai.Base.{◌≡◌, ◌↔◌, inl, inr, true, false, Bool-cases, Text, arith}
use social_pilot_ai.Json.{
  Json, null, boolean, number, string, array, object, Items, nil, cons, Fields, end, field,
  sensitive_key, accepts, accepts_items, accepts_fields,
}

-- A key at any depth of a value, of a list's items, of a mapping's entries.
mutual
  pub data HasKey (p : Text → Type 0) : Json → Type 0 where
    in_array : {xs : Items} → HasKeyItems p xs → HasKey p (array xs)
    in_object : {fs : Fields} → HasKeyFields p fs → HasKey p (object fs)

  pub data HasKeyItems (p : Text → Type 0) : Items → Type 0 where
    first : {x : Json} {xs : Items} → HasKey p x → HasKeyItems p (cons x xs)
    later : {x : Json} {xs : Items} → HasKeyItems p xs → HasKeyItems p (cons x xs)

  pub data HasKeyFields (p : Text → Type 0) : Fields → Type 0 where
    key : {k : Text} {v : Json} {fs : Fields} → p k → HasKeyFields p (field k v fs)
    value : {k : Text} {v : Json} {fs : Fields} → HasKey p v → HasKeyFields p (field k v fs)
    others : {k : Text} {v : Json} {fs : Fields} → HasKeyFields p fs → HasKeyFields p (field k v fs)

abbrev pub IsSensitive : Text → Type 0
IsSensitive k = sensitive_key k ≡ true

mutual
  unfolding accepts accepts_items accepts_fields

  refuses : (v : Json) → HasKey IsSensitive v → accepts v ≡ false
  refuses null h = elim h [ ]
  refuses (boolean b) h = elim h [ ]
  refuses (number n) h = elim h [ ]
  refuses (string s) h = elim h [ ]
  refuses (array xs) (in_array h) = refuses_items xs h
  refuses (object fs) (in_object h) = refuses_fields fs h

  refuses_items : (xs : Items) → HasKeyItems IsSensitive xs → accepts_items xs ≡ false
  refuses_items nil h = elim h [ ]
  refuses_items (cons x xs) (first h) = ground (arith, refuses x h)
  refuses_items (cons x xs) (later h) = ground (arith, refuses_items xs h)

  refuses_fields : (fs : Fields) → HasKeyFields IsSensitive fs → accepts_fields fs ≡ false
  refuses_fields end h = elim h [ ]
  refuses_fields (field k v fs) (key h) = ground arith
  refuses_fields (field k v fs) (value h) = ground (arith, refuses v h)
  refuses_fields (field k v fs) (others h) = ground (arith, refuses_fields fs h)

mutual
  unfolding accepts accepts_items accepts_fields

  finds : (v : Json) → accepts v ≡ false → HasKey IsSensitive v
  finds null h = cc
  finds (boolean b) h = cc
  finds (number n) h = cc
  finds (string s) h = cc
  finds (array xs) h = in_array (finds_items xs h)
  finds (object fs) h = in_object (finds_fields fs h)

  finds_items : (xs : Items) → accepts_items xs ≡ false → HasKeyItems IsSensitive xs
  finds_items nil h = cc
  finds_items (cons x xs) h = elim (Bool-cases (accepts x)) [
    | inl e ↦ later (finds_items xs (ground arith))
    | inr e ↦ first (finds x e)
  ]

  finds_fields : (fs : Fields) → accepts_fields fs ≡ false → HasKeyFields IsSensitive fs
  finds_fields end h = cc
  finds_fields (field k v fs) h = elim (Bool-cases (sensitive_key k)) [
    | inl e ↦ key e
    | inr e ↦ elim (Bool-cases (accepts v)) [
      | inl f ↦ others (finds_fields fs (ground arith))
      | inr f ↦ value (finds v f)
    ]
  ]

-- A value is refused exactly when some mapping in it, at any depth, has a sensitive key.
pub accepts-eq-false_iff : (v : Json) → (accepts v ≡ false) ↔ HasKey IsSensitive v
accepts-eq-false_iff v = (finds v, refuses v)

-- A mapping is refused by `reject_sensitive_keys` exactly when it has a sensitive key at some
-- depth.
pub accepts_fields-eq-false_iff :
    (fs : Fields) → (accepts_fields fs ≡ false) ↔ HasKeyFields IsSensitive fs
accepts_fields-eq-false_iff fs = (finds_fields fs, refuses_fields fs)
