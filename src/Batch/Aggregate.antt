-- ===== src/Batch/Aggregate.antt =====
-- The status of a batch against a description that only asks which statuses occur.
use social_pilot_ai.Base.{
  ◌≡◌, refl, Bool, true, false, not, ◌||◌, List, [], ◌∷◌, if◌then◌else◌, all_of, any_of, arith,
}
use social_pilot_ai.Batch.Types.{VariantStatus, BatchStatus}
use social_pilot_ai.Batch.Status.{
  aggregate_statuses, is_waiting, is_ready, is_failed_variant, is_cancelled_variant,
  is_running_variant, is_paused_variant, is_ended,
}

-- Nothing runs, has failed or is paused: what is left of waiting, ready and cancelled variants.
abbrev quiet_batch : Bool → Bool → Bool → BatchStatus
quiet_batch true true c = BatchStatus.running
quiet_batch true false true = BatchStatus.running
quiet_batch true false false = BatchStatus.waiting
quiet_batch false true true = BatchStatus.mixed_terminal
quiet_batch false true false = BatchStatus.ready_for_script
quiet_batch false false true = BatchStatus.cancelled
quiet_batch false false false = BatchStatus.waiting

-- From whether some variant runs, has failed, is paused, waits, is ready, is cancelled.
abbrev pub described : Bool → Bool → Bool → Bool → Bool → Bool → BatchStatus
described runs fails pauses waits readies cancels =
    if runs
    then BatchStatus.running
    else if fails
    then (if pauses || waits || readies || cancels
        then BatchStatus.partial_failed
        else BatchStatus.failed)
    else if pauses
    then BatchStatus.paused
    else quiet_batch waits readies cancels

module _ (ss : List VariantStatus) where
  abbrev runs : Bool
  runs = any_of is_running_variant ss

  abbrev fails : Bool
  fails = any_of is_failed_variant ss

  abbrev pauses : Bool
  pauses = any_of is_paused_variant ss

  abbrev waits : Bool
  waits = any_of is_waiting ss

  abbrev readies : Bool
  readies = any_of is_ready ss

  abbrev cancels : Bool
  cancels = any_of is_cancelled_variant ss

-- `all` of a status is `any` of none of the other statuses.
record Alls (ss : List VariantStatus) : Type 0 where
  waiting :
      all_of is_waiting ss ≡ not (runs ss || fails ss || pauses ss || readies ss || cancels ss)
  ready : all_of is_ready ss ≡ not (runs ss || fails ss || pauses ss || waits ss || cancels ss)
  failed :
      all_of is_failed_variant ss
      ≡ not (runs ss || readies ss || pauses ss || waits ss || cancels ss)
  cancelled :
      all_of is_cancelled_variant ss
      ≡ not (runs ss || readies ss || pauses ss || waits ss || fails ss)
  ended : all_of is_ended ss ≡ not (runs ss || pauses ss || waits ss)

alls : (ss : List VariantStatus) → Alls ss
alls [] = record { waiting = refl; ready = refl; failed = refl; cancelled = refl; ended = refl }
alls (s ∷ ss) = next_alls s ss (alls ss)
  where
    next_alls : (s : VariantStatus) (ss : List VariantStatus) → Alls ss → Alls (s ∷ ss)
    next_alls VariantStatus.waiting ss h = ground (arith, h)
    next_alls VariantStatus.running ss h = ground (arith, h)
    next_alls VariantStatus.ready_for_script ss h = ground (arith, h)
    next_alls VariantStatus.paused ss h = ground (arith, h)
    next_alls VariantStatus.failed ss h = ground (arith, h)
    next_alls VariantStatus.cancelled ss h = ground (arith, h)

some_occurs :
    (s : VariantStatus) (ss : List VariantStatus)
    → (runs (s ∷ ss)
        || fails (s ∷ ss)
        || pauses (s ∷ ss)
        || waits (s ∷ ss)
        || readies (s ∷ ss)
        || cancels (s ∷ ss))
      ≡ true
some_occurs VariantStatus.waiting ss = ground arith
some_occurs VariantStatus.running ss = refl
some_occurs VariantStatus.ready_for_script ss = ground arith
some_occurs VariantStatus.paused ss = ground arith
some_occurs VariantStatus.failed ss = ground arith
some_occurs VariantStatus.cancelled ss = ground arith

-- The status of a batch depends only on which statuses occur among its variants: it is running if
-- one runs; otherwise failed or partially failed if one has failed, by whether any other status
-- occurs; otherwise paused if one is paused; otherwise running where waiting variants stand beside
-- ready or cancelled ones, mixed where ready ones stand beside cancelled ones, and else the one
-- status that occurs, or waiting for none.
pub aggregate_statuses-described :
    (ss : List VariantStatus)
    → aggregate_statuses ss
      ≡ described (runs ss) (fails ss) (pauses ss) (waits ss) (readies ss) (cancels ss)
unfolding aggregate_statuses
aggregate_statuses-described [] = refl
aggregate_statuses-described (s ∷ ss) =
    let h = alls (s ∷ ss) in
    let one = some_occurs s ss in
    rw (h.waiting, h.ready, h.failed, h.cancelled, h.ended) (ground (arith, one))
