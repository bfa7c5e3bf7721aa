-- ===== src/Str/Copy.antt =====
-- `sc_strncpy`: what it writes, and what it returns.
use cicy_agent_adr.Prelude.{
  ℕ, zero, suc, ◌+◌, ◌-◌, ◌%◌, ◌^◌, ◌≤◌, ◌<◌, ◌≡◌, ap, ◌∙◌, Bool, true, [], ◌∷◌, ◌++◌, min, take,
  length, arith, length-take, take_all, leb, ltb, if◌then◌else◌,
}
use cicy_agent_adr.Prelude.Memory.{Buffer, store, memcpy, memcpy-memcpy}
use cicy_agent_adr.Str.{CString, strncpy_loop, strncpy}

-- `i` items are copied already, and `k` more may be.
loop_lem :
    (dest : Buffer) (i k : ℕ) (src : CString)
    → strncpy_loop dest i src (i + k)
      ≡ (memcpy dest i (take k src), i + min k (length src), leb (length src) k)
unfolding strncpy_loop memcpy
loop_lem dest i zero [] = ground arith
loop_lem dest i (suc k) [] = ground arith
loop_lem dest i zero (c ∷ src) = ground arith
loop_lem dest i (suc k) (c ∷ src) =
    let next : i + 1 + k ≡ i + suc k = omega arith in
    ground (
      arith,
      loop_lem (store dest i c) (i + 1) k src,
      ap (strncpy_loop (store dest i c) (i + 1) src) next,
    )

module _ (dest : Buffer) (src : CString) where
  copied_whole :
      (k : ℕ) → length src ≤ k → strncpy_loop dest 0 src k ≡ (memcpy dest 0 src, length src, true)
  copied_whole k h =
      ap (strncpy_loop dest 0 src) start ∙ loop_lem dest 0 k src ∙ ground (arith, take_all k src h)
    where
      start : k ≡ 0 + k
      start = omega arith

  strncpy_zero : length src < 2 ^ 64 → strncpy dest src 0 ≡ (memcpy dest 0 src, length src)
  unfolding strncpy
  strncpy_zero h =
      ap (λ (r : Buffer × ℕ × Bool). (r.0, if r.2 then r.1 else 0))
        (copied_whole (2 ^ 64 - 1) (omega arith))

  terminated :
      (n : ℕ)
      → store (memcpy dest 0 (take n src)) (0 + min n (length src)) 0
        ≡ memcpy dest 0 (take n src ++ (0 ∷ []))
  unfolding memcpy
  terminated n =
      memcpy-memcpy dest 0 (0 + min n (length src)) (take n src) (0 ∷ [])
        (omega (arith, length-take n src))

  strncpy_suc :
      (n : ℕ)
      → n < 2 ^ 64
      → 0 < n
      → strncpy dest src n ≡ (
        memcpy dest 0 (take (n - 1) src ++ (0 ∷ [])),
        if ltb (length src) n then length src else n,
      )
  unfolding strncpy
  strncpy_suc n h p =
      let limit : (n + 2 ^ 64 - 1) % 2 ^ 64 ≡ 0 + (n - 1) = omega arith in
      ground
        (arith, loop_lem dest 0 (n - 1) src, ap (strncpy_loop dest 0 src) limit, terminated (n - 1))

  -- With room for `n` bytes, `0 < n`, the destination gets at most `n - 1` bytes of the source and a
  -- NUL behind them, and nothing else is written; the result is the length of the source if it was
  -- copied whole, and `n` otherwise. With `n` zero the whole source is written, without a NUL.
  pub strncpy_lem :
      (n : ℕ)
      → n < 2 ^ 64
      → length src < 2 ^ 64
      → (0 < n
          → strncpy dest src n ≡ (
            memcpy dest 0 (take (n - 1) src ++ (0 ∷ [])),
            if ltb (length src) n then length src else n,
          ))
        × (n ≡ 0 → strncpy dest src n ≡ (memcpy dest 0 src, length src))
  strncpy_lem n h s = (strncpy_suc n h, λ z. ap (strncpy dest src) z ∙ strncpy_zero s)
