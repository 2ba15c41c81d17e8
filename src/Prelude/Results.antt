-- ===== src/Prelude/Results.antt =====
-- The error numbers that the modelled functions return, and results that carry one.
use mathlib.Core.Path.{◌≡◌, refl}
use mathlib.Core.Logic.{◌⊎◌, inl, inr}

pub data Errno : Type 0 where
  enoent eintr enxio eagain enomem ebusy eexist einval erofs erange : Errno
  enoexec ebadfd etimedout econnreset enotsup euclean enodata : Errno
  -- The value 1, which is no error number.
  positive_one : Errno

-- `success` is a return value of 0.
pub data Status : Type 0 where
  success : Status
  failure : Errno → Status

pub data Result {ℓ} (A : Type ℓ) : Type ℓ where
  ok : A → Result A
  err : Errno → Result A

pub Status-cases : (s : Status) → (s ≡ success) ⊎ ((e : Errno) × (s ≡ failure e))
Status-cases success = inl refl
Status-cases (failure e) = inr (e, refl)
