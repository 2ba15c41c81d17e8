-- ===== src/Iterate/Callback.antt =====
-- Which records the common callback passes on, and what it passes on.
use elliptics.Prelude.{
  ℕ, ◌≡◌, refl, ◌≢◌, ◌⊎◌, inl, inr, ◌↔◌, true, false, none, some, List, [], ◌∷◌, ◌++◌, arith,
  Status, success, failure, Bool-cases, enoexec, replicate, suc, zero,
}
use elliptics.Key.{RawId, negative, positive, id_cmp_str}
use elliptics.Packet.{has_flag}
use elliptics.Iterator.{Action, start, pause, cancel}
use elliptics.Iterate.{
  Range, Request, Record, Response, time_cmp, in_ranges, skips, response, callback_common,
  flow_control, iflag_key_range, iflag_ts_range,
}

-- The key lies in one of the ranges; a range holds its begin and not its end.
abbrev pub Within : List Range → RawId → Type 0
Within [] k = ⊥
Within (r ∷ rs) k =
    ((id_cmp_str k r.key_begin ≢ negative) × (id_cmp_str k r.key_end ≡ negative)) ⊎ Within rs k

in_ranges→Within : (rs : List Range) (k : RawId) → in_ranges rs k ≡ true → Within rs k
unfolding in_ranges
in_ranges→Within [] k h = cc
in_ranges→Within (r ∷ rs) k h = elim (Bool-cases (in_ranges (r ∷ []) k)) [
  | inl here ↦ inl (ground arith)
  | inr there ↦ inr (in_ranges→Within rs k (ground arith))
]

Within→in_ranges : (rs : List Range) (k : RawId) → Within rs k → in_ranges rs k ≡ true
unfolding in_ranges
Within→in_ranges [] k h = absurd h
Within→in_ranges (r ∷ rs) k (inl h) = ground arith
Within→in_ranges (r ∷ rs) k (inr h) = ground (arith, Within→in_ranges rs k h)

-- The record is asked for: its key lies in the ranges if the request has ranges, and its time
-- between the two times, both included, if the request has times.
pub record Selected (ranges : List Range) (req : Request) (r : Record) : Type 0 where
  pub key : has_flag req.flags iflag_key_range ≡ true → Within ranges r.key
  pub time :
      has_flag req.flags iflag_ts_range ≡ true
      → (time_cmp r.timestamp req.time_begin ≢ negative)
        × (time_cmp r.timestamp req.time_end ≢ positive)

Selected-not_skips :
    (ranges : List Range) (req : Request) (r : Record)
    → skips ranges req r ≡ false
    → Selected ranges req r
unfolding skips
Selected-not_skips ranges req r h = record {
  key = λ f. in_ranges→Within ranges r.key (ground arith);
  time = λ f. ground arith;
}

not_skips-Selected :
    (ranges : List Range) (req : Request) (r : Record)
    → Selected ranges req r
    → skips ranges req r ≡ false
unfolding skips
not_skips-Selected ranges req r s = elim (Bool-cases (has_flag req.flags iflag_key_range)) [
  | inl k ↦
      let within = Within→in_ranges ranges r.key (s.key k) in
      elim (Bool-cases (has_flag req.flags iflag_ts_range)) [
        | inl t ↦ let time = s.time t in ground arith
        | inr t ↦ ground arith
      ]
  | inr k ↦ elim (Bool-cases (has_flag req.flags iflag_ts_range)) [
    | inl t ↦ let time = s.time t in ground arith
    | inr t ↦ ground arith
  ]
]

module _ (ranges : List Range) (req : Request) (r : Record) (next : Response → Status)
    (states : List Action) where
  -- With memory at hand, the callback of an iteration passes a record on, as its response, just
  -- when its key lies in the ranges (if the request has ranges) and its time between the two
  -- times, both included (if it has times).
  pub callback-Selected :
      ((callback_common ranges req (some r) true next states).0 ≡ some (response req r))
      ↔ Selected ranges req r
  unfolding callback_common
  callback-Selected = (
    λ h. Selected-not_skips ranges req r (ground arith),
    λ s. ground (arith, not_skips-Selected ranges req r s),
  )

  -- With memory at hand, a record that is not asked for is not passed on, and the callback returns
  -- 0.
  pub callback_skipped :
      ¬ Selected ranges req r
      → callback_common ranges req (some r) true next states ≡ (none, some success)
  unfolding callback_common
  callback_skipped out = elim (Bool-cases (skips ranges req r)) [
    | inl s ↦ ground arith
    | inr s ↦ absurd (out (Selected-not_skips ranges req r s))
  ]

-- A paused iteration waits through every wake-up that finds it paused, and then goes on, or stops
-- with -ENOEXEC if it was cancelled.
pub flow_control_waits :
    (n : ℕ) (later : List Action)
    → (flow_control (replicate n pause ++ start ∷ later) ≡ some success)
      × (flow_control (replicate n pause ++ cancel ∷ later) ≡ some (failure enoexec))
unfolding flow_control
flow_control_waits zero later = (refl, refl)
flow_control_waits (suc n) later = flow_control_waits n later
