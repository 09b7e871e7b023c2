-- ===== src/Common/Errors.antt =====
-- The negative errno values that the C functions return, and the two kinds of result.
use Prim.Native.Nat.{ℕ}
use mathlib.Core.Path.{◌≡◌, refl}
use mathlib.Core.Logic.{◌⊎◌, inl, inr}

-- `sys n` is an error number that a system call left in errno.
pub data Errno : Type 0 where
  einval eoverflow ebusy eproto e2big enomem eagain efault enotty eperm : Errno
  estale etimedout enodev eio epipe enotsup enodata enametoolong enoent eexist : Errno
  sys : ℕ → Errno

-- An `int` that is 0 or -errno.
pub data Status : Type 0 where
  success : Status
  failure : Errno → Status

-- A value, or -errno.
pub data Result {ℓ} (A : Type ℓ) : Type ℓ where
  ok : A → Result A
  err : Errno → Result A

-- The `if (result == 0) result = next;` that chains two steps.
infixl 5 ◌then_try◌
abbrev pub ◌then_try◌ : Status → Status → Status
success then_try next = next
failure e then_try next = failure e

pub Status-cases : (s : Status) → (s ≡ success) ⊎ ((e : Errno) × (s ≡ failure e))
Status-cases success = inl refl
Status-cases (failure e) = inr (e, refl)
