-- ===== src/Iterate/Ranges.antt =====
-- What the checks of an iterator's request let through.
use elliptics.Prelude.{
  ◌≡◌, refl, true, false, not, ◌||◌, ◌&&◌, List, [], ◌∷◌, arith, All, ok, err, erange,
  if◌then◌else◌,
}
use elliptics.Key.{id_cmp_str}
use elliptics.Packet.{has_flag, clear_flag}
use elliptics.Iterate.{
  Range, Request, time_cmp, is_positive, some_key, some_inverted, check_key_range, check_ts_range,
  iflag_key_range, iflag_ts_range, is_zero_key,
}

-- The begin of every range is not behind its end.
abbrev pub Ordered : List Range → Type 0
Ordered = All λ r. is_positive (id_cmp_str r.key_begin r.key_end) ≡ false

inverted-Ordered : (ranges : List Range) → some_inverted ranges ≡ false → Ordered ranges
unfolding some_inverted
inverted-Ordered [] h = tt
inverted-Ordered (r ∷ rs) h = (ground arith, inverted-Ordered rs (ground arith))

some_key-cons :
    (r : Range) (rs : List Range)
    → some_key (r ∷ rs)
      ≡ (if not (is_zero_key r.key_begin) || not (is_zero_key r.key_end) then true else some_key rs)
unfolding some_key
some_key-cons r rs = refl

-- A request that the check of key ranges lets through.
pub record KeyChecked (ranges : List Range) (req req' : Request) : Type 0 where
  pub ordered : has_flag req.flags iflag_key_range ≡ true → Ordered ranges
  pub flags : req'.flags ≡ (
      if has_flag req.flags iflag_key_range && not (some_key ranges)
      then clear_flag req.flags iflag_key_range
      else req.flags)
  pub times : (req'.time_begin ≡ req.time_begin) × (req'.time_end ≡ req.time_end)
  pub target : (req'.id ≡ req.id) × (req'.action ≡ req.action) × (req'.itype ≡ req.itype)

-- Where the check of key ranges lets a request through, no range begins behind its end if the flag
-- of key ranges was set; the flag is cleared just where it was set and no range has a key other
-- than zero; all else stays.
pub check_key_range-KeyChecked :
    (ranges : List Range) (req req' : Request)
    → check_key_range ranges req ≡ ok req'
    → KeyChecked ranges req req'
unfolding check_key_range
check_key_range-KeyChecked ranges req req' h = record {
  ordered = λ f. inverted-Ordered ranges (ground arith);
  flags = ground arith;
  times = ground arith;
  target = ground arith;
}

-- The check of a time range gives the request back as it was, its flag never taken away, or fails
-- with -ERANGE where the flag is set and the begin is later than the end.
pub check_ts_range-keeps :
    (req : Request)
    → check_ts_range req ≡ (
        if has_flag req.flags iflag_ts_range && is_positive (time_cmp req.time_begin req.time_end)
        then err erange
        else ok req)
unfolding check_ts_range
check_ts_range-keeps req = ground arith
