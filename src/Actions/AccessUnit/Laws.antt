-- ===== src/Actions/AccessUnit/Laws.antt =====
-- backends/actions-micro/actions_micro_backend.c: a buffer that grows, on every branch.
use usbdisplay_stack.Common.{
  ℕ, zero, suc, ◌+◌, ◌*◌, ◌≤◌, ◌<◌, ◌≡◌, refl, ◌⊎◌, inl, inr, Bool, false, ◌&&◌, List, arith, ltb,
  leb, ◌==◌, if◌then◌else◌, ltb→lt, leb→le, Bool-cases, u64, success, failure, e2big, enomem,
}
use usbdisplay_stack.Actions.AccessUnit.{
  next_grant, double_capacity, grown_capacity, reserve_buffer, Buffer,
}

-- For a maximum that a size_t can double up to, the doubling stops at a capacity that is enough or has
-- reached the maximum.
double_capacity_lem :
    (rounds n required maximum : ℕ)
    → maximum ≤ 9223372036854775808
    → 1 ≤ n
    → required ≤ n + rounds
    → let m = double_capacity rounds n required maximum in
      (n ≤ m) × ((required ≤ m) ⊎ (maximum ≤ m))
unfolding double_capacity
double_capacity_lem zero n required maximum w p h = (omega arith, inl (omega arith))
double_capacity_lem (suc rounds) n required maximum w p h =
    elim (Bool-cases (ltb n required && ltb n maximum)) [
      | inl e ↦
          let below : n < maximum = ground arith in
          let doubled : u64 (n * 2) ≡ n * 2 = omega (arith, below, w) in
          let (grows, enough) =
            double_capacity_lem rounds (u64 (n * 2)) required maximum w (omega (arith, doubled, p))
              (omega (arith, doubled, p, h)) in
          rw e (omega (arith, grows, doubled), enough)
      | inr e ↦ rw e (omega arith, ground arith)
    ]

grown_capacity_lem :
    (capacity required maximum : ℕ)
    → maximum ≤ 9223372036854775808
    → capacity ≤ maximum
    → let m = grown_capacity capacity required maximum in
      (m ≤ maximum) × (capacity ≤ m) × ((required ≤ m) ⊎ (maximum ≡ m))
unfolding grown_capacity
grown_capacity_lem capacity required maximum w h =
    let n : ℕ = if capacity == 0 then 65536 else capacity in
    let positive : (1 ≤ n) × (capacity ≤ n) = ground arith in
    let (grows, enough) =
      double_capacity_lem required n required maximum w positive.0 (omega (arith, positive.0)) in
    (omega arith, omega (arith, grows, positive.1), omega (arith, enough))

-- For a maximum of at most 2^63 bytes and a capacity within it: the capacity never shrinks and stays
-- within the maximum, and the bytes are kept. The call succeeds with room for what is required, or it
-- leaves the buffer as it was: with E2BIG when more than the maximum is required, with ENOMEM when
-- memory is refused.
pub reserve_buffer_lem :
    (grants : List Bool) (b : Buffer) (required maximum : ℕ)
    → maximum ≤ 9223372036854775808
    → b.capacity ≤ maximum
    → let (b', grants', result) = reserve_buffer grants b required maximum in
      (b'.bytes ≡ b.bytes)
      × (b.capacity ≤ b'.capacity)
      × (b'.capacity ≤ maximum)
      × ((result ≡ success) × (required ≤ b'.capacity)
          ⊎ (b' ≡ b) × (maximum < required) × (result ≡ failure e2big)
          ⊎ (b' ≡ b)
            × (required ≤ maximum)
            × (next_grant grants ≡ false)
            × (result ≡ failure enomem))
unfolding reserve_buffer
reserve_buffer_lem grants b required maximum w h =
    let (bounded, grows, enough) = grown_capacity_lem b.capacity required maximum w h in
    elim (Bool-cases (leb required b.capacity)) [
      | inl e ↦ rw e (refl, omega arith, h, inl (refl, leb→le _ _ e))
      | inr e ↦ elim (Bool-cases (ltb (grown_capacity b.capacity required maximum) required)) [
        | inl f ↦
            rw (e, f)
              (refl, omega arith, h, inr (inl (refl, omega (arith, enough, ltb→lt _ _ f), refl)))
        | inr f ↦ elim (Bool-cases (next_grant grants)) [
          | inl g ↦ rw (e, f, g) (refl, grows, bounded, inl (refl, not_lt f))
          | inr g ↦
              rw (e, f, g)
                (
                  refl,
                  omega arith,
                  h,
                  inr (inr (refl, omega (arith, not_lt f, bounded), refl, refl)),
                )
        ]
      ]
    ]
  where
    not_lt : {m n : ℕ} → ltb m n ≡ false → n ≤ m
    not_lt q = ground arith
