-- ===== src/AudioBuf/Cursors.antt =====
-- What the two cursors of audiobuf.c say, on `uint32_t`.
use cicy_agent_adr.Prelude.{ℕ, ◌+◌, ◌-◌, ◌%◌, ◌^◌, ◌≤◌, ◌<◌, ◌≡◌, ◌⊎◌, inl, inr, ap, arith}
use cicy_agent_adr.Prelude.Window.{mod_cases}
use cicy_agent_adr.AudioBuf.{AudioBuf, can_read, can_write, sub32, add32, advance}
use native.Mathlib.Decide.{dec_le}
use native.Mathlib.Nat.{mod-eq_of_lt, mod-eq-sub-mod}

-- Sums of two cursors and the size must fit in 32 bits.
pub record IsValid {ℓ} {A : Type ℓ} (buf : AudioBuf A) : Type 0 where
  pub small : buf.alloc_size ≤ 2 ^ 31
  pub head_inside : buf.head < buf.alloc_size
  pub tail_inside : buf.tail < buf.alloc_size

-- The remainder of a number below twice the modulus.
mod_once :
    (size k : ℕ)
    → k < size + size
    → ((k < size) × (k % size ≡ k)) ⊎ ((size ≤ k) × (k % size + size ≡ k))
mod_once size k h = elim (dec_le size k) [
  | yes p ↦ inr (
    p,
    omega (
      arith,
      mod-eq-sub-mod {n = k} {m = size} p,
      mod-eq_of_lt {n = k - size} {m = size} (omega arith),
    ),
  )
  | no p ↦ inl (omega arith, mod-eq_of_lt (omega arith))
]

module _ {ℓ} {A : Type ℓ} (buf : AudioBuf A) (valid : IsValid buf) where
  pub can_read_cases :
      ((buf.tail ≤ buf.head) × (can_read buf + buf.tail ≡ buf.head))
      ⊎ ((buf.head < buf.tail) × (can_read buf + buf.tail ≡ buf.head + buf.alloc_size))
  unfolding can_read
  can_read_cases =
      let a = valid.small in
      let b = valid.head_inside in
      let c = valid.tail_inside in
      let e : sub32 (add32 buf.alloc_size buf.head) buf.tail
          ≡ buf.alloc_size + buf.head - buf.tail =
        ground (arith, a, b, c) in
      omega (
        arith,
        a,
        b,
        c,
        ap (λ t. t % buf.alloc_size) e,
        mod_once buf.alloc_size (buf.alloc_size + buf.head - buf.tail) (omega (arith, a, b, c)),
      )

  -- One sample of the array stays free.
  pub can_write_lem : can_write buf + can_read buf + 1 ≡ buf.alloc_size
  unfolding can_write
  can_write_lem =
      let a = valid.small in
      let b = valid.head_inside in
      let c = valid.tail_inside in
      let e : sub32 (sub32 (add32 buf.alloc_size buf.tail) buf.head) 1
          ≡ buf.alloc_size + buf.tail - buf.head - 1 =
        ground (arith, a, b, c) in
      omega (
        arith,
        a,
        b,
        c,
        can_read_cases,
        ap (λ t. t % buf.alloc_size) e,
        mod_once buf.alloc_size (buf.alloc_size + buf.tail - buf.head - 1) (omega (arith, a, b, c)),
      )

  pub can_read_bound : can_read buf < buf.alloc_size
  can_read_bound = omega (arith, can_write_lem)

  -- The head is where the samples end.
  pub head_lem : buf.head ≡ (buf.tail + can_read buf) % buf.alloc_size
  head_lem = omega (
    arith,
    valid.head_inside,
    valid.tail_inside,
    can_read_cases,
    mod_cases buf.alloc_size buf.tail (can_read buf) valid.tail_inside
        (omega (arith, can_read_bound)),
  )

  -- A cursor that moves on does not leave 32 bits before it goes round.
  pub advance_lem :
      (cursor count : ℕ)
      → cursor < buf.alloc_size
      → count ≤ buf.alloc_size
      → advance buf cursor count ≡ (cursor + count) % buf.alloc_size
  advance_lem cursor count h p =
      let a = valid.small in
      let e : add32 cursor count ≡ cursor + count = ground (arith, a) in
      ap (λ t. t % buf.alloc_size) e

  pub advance_inside :
      (cursor count : ℕ)
      → cursor < buf.alloc_size
      → count ≤ buf.alloc_size
      → advance buf cursor count < buf.alloc_size
  advance_inside cursor count h p =
      omega (arith, advance_lem cursor count h p, mod_cases buf.alloc_size cursor count h p)

-- What moving one cursor does to the count.
module _ {ℓ} {A : Type ℓ} (buf buf' : AudioBuf A) (valid : IsValid buf)
    (valid' : IsValid buf') where
  pub can_read-head :
      (count : ℕ)
      → count + can_read buf < buf.alloc_size
      → buf'.alloc_size ≡ buf.alloc_size
      → buf'.tail ≡ buf.tail
      → buf'.head ≡ (buf.head + count) % buf.alloc_size
      → can_read buf' ≡ can_read buf + count
  can_read-head count room s t h =
      let m = mod_cases buf.alloc_size buf.head count valid.head_inside (omega (arith, room)) in
      omega (
        arith,
        valid.head_inside,
        valid.tail_inside,
        m,
        can_read_cases buf valid,
        can_read_cases buf' valid',
        can_read_bound buf' valid',
      )

  pub can_read-tail :
      (count : ℕ)
      → count ≤ can_read buf
      → buf'.alloc_size ≡ buf.alloc_size
      → buf'.head ≡ buf.head
      → buf'.tail ≡ (buf.tail + count) % buf.alloc_size
      → count < buf.alloc_size
      → can_read buf' + count ≡ can_read buf
  can_read-tail count enough s t h p =
      let m = mod_cases buf.alloc_size buf.tail count valid.tail_inside (omega arith) in
      omega (
        arith,
        valid.head_inside,
        valid.tail_inside,
        m,
        can_read_cases buf valid,
        can_read_cases buf' valid',
        can_read_bound buf' valid',
        can_read_bound buf valid,
      )
