-- ===== src/Packet/Layout.antt =====
-- The header's bytes and back.
use native.Mathlib.Nat.{pow-suc}
use elliptics.Prelude.{
  ℕ, zero, suc, ◌/◌, ◌^◌, ◌<◌, ◌≡◌, refl, List, [], ◌∷◌, ◌++◌, arith, take, drop, length,
  length-append,
}
use mathlib.Core.List.{append_assoc}
use elliptics.Packet.{Cmd, to_le, from_le, cmd_size, cmd_encode, cmd_decode}

length-to_le : (n x : ℕ) → length (to_le n x) ≡ n
unfolding to_le
length-to_le zero x = refl
length-to_le (suc n) x = omega (arith, length-to_le n (x / 256))

take-to_le : (n x : ℕ) (ys : List ℕ) → take n (to_le n x ++ ys) ≡ to_le n x
unfolding to_le
take-to_le zero x ys = refl
take-to_le (suc n) x ys = rw (take-to_le n (x / 256) ys)

drop-to_le : (n x : ℕ) (ys : List ℕ) → drop n (to_le n x ++ ys) ≡ ys
unfolding to_le
drop-to_le zero x ys = refl
drop-to_le (suc n) x ys = drop-to_le n (x / 256) ys

take-append_length : (xs ys : List ℕ) (n : ℕ) → length xs ≡ n → take n (xs ++ ys) ≡ xs
take-append_length [] ys zero h = refl
take-append_length [] ys (suc n) h = absurd (omega arith)
take-append_length (x ∷ xs) ys zero h = absurd (omega arith)
take-append_length (x ∷ xs) ys (suc n) h = rw (take-append_length xs ys n (omega arith))

drop-append_length : (xs ys : List ℕ) (n : ℕ) → length xs ≡ n → drop n (xs ++ ys) ≡ ys
drop-append_length [] ys zero h = refl
drop-append_length [] ys (suc n) h = absurd (omega arith)
drop-append_length (x ∷ xs) ys zero h = absurd (omega arith)
drop-append_length (x ∷ xs) ys (suc n) h = drop-append_length xs ys n (omega arith)

from_le-to_le : (n x : ℕ) → x < 256 ^ n → from_le (to_le n x) ≡ x
unfolding from_le to_le
from_le-to_le zero x h = omega arith
from_le-to_le (suc n) x h = omega (arith, from_le-to_le n (x / 256) (omega (arith, pow-suc 256 n)))

-- Every field of a header fits its bytes.
pub record IsWide (c : Cmd) : Type 0 where
  pub id : length c.id.id ≡ 64
  pub group_id : c.id.group_id < 2 ^ 32
  pub trace_id : c.trace_id < 2 ^ 32
  pub status : c.status < 2 ^ 32
  pub cmd : c.cmd < 2 ^ 32
  pub flags : c.flags < 2 ^ 64
  pub trans : c.trans < 2 ^ 64
  pub size : c.size < 2 ^ 64

pub length-cmd_encode : (c : Cmd) → IsWide c → length (cmd_encode c) ≡ cmd_size
unfolding cmd_encode
length-cmd_encode c w = simp (length-append, length-to_le) (omega arith)

-- A header whose fields fit their widths is read back from its own bytes, whatever follows them.
pub decode-encode : (c : Cmd) (rest : List ℕ) → IsWide c → cmd_decode (cmd_encode c ++ rest) ≡ c
unfolding cmd_encode cmd_decode
decode-encode c rest w = simp (
  append_assoc,
  λ (ys : List ℕ). take-append_length c.id.id ys 64 w.id,
  λ (ys : List ℕ). drop-append_length c.id.id ys 64 w.id,
  take-to_le,
  drop-to_le,
  from_le-to_le 4 c.id.group_id w.group_id,
  from_le-to_le 4 c.trace_id w.trace_id,
  from_le-to_le 4 c.status w.status,
  from_le-to_le 4 c.cmd w.cmd,
  from_le-to_le 8 c.flags w.flags,
  from_le-to_le 8 c.trans w.trans,
  from_le-to_le 8 c.size w.size,
)
