-- ===== src/Str.antt =====
-- The string helpers of scrcpy/app/src/util/str.c.
-- A C string is the list of its bytes before the terminating NUL, which are not 0: the byte at its
-- length reads as 0. A destination is a buffer.
pub mod Utf8
pub mod Copy
pub mod Tokens
mod Tests
use cicy_agent_adr.Prelude.{
  ℕ, zero, suc, ◌+◌, ◌-◌, ◌%◌, ◌^◌, ◌≡◌, Bool, true, false, ◌&&◌, not, Option, none, some, List, [],
  ◌∷◌, bit_and, length, get_or, leb, ltb, ◌==◌, if◌then◌else◌,
}
use cicy_agent_adr.Prelude.Memory.{Buffer, store, memcpy}

abbrev pub CString : Type 0
CString = List ℕ

-- `s[i]`, for `i` at most the length.
abbrev pub char_at : CString → ℕ → ℕ
char_at s i = get_or s i 0

-- `(c & 0x80) != 0 && (c & 0xc0) != 0xc0`
unfoldable pub is_continuation : ℕ → Bool
is_continuation c = not (bit_and c 0x80 == 0) && not (bit_and c 0xc0 == 0xc0)

-- The loop of `sc_str_utf8_truncation_index` from `len` on. `none` is the decrement of 0, after
-- which the loop reads outside the string.
unfoldable pub truncation_loop : CString → ℕ → Option ℕ
truncation_loop utf8 zero = if is_continuation (char_at utf8 0) then none else some 0
truncation_loop utf8 (suc len) =
    let rest = truncation_loop utf8 len in
    if is_continuation (char_at utf8 (suc len)) then rest else some (suc len)

unfoldable pub utf8_truncation_index : CString → ℕ → Option ℕ
utf8_truncation_index utf8 max_len =
    if leb (length utf8) max_len then some (length utf8) else truncation_loop utf8 max_len

-- The loop of `sc_strncpy` at index `i`, over the bytes from `src[i]` on: the buffer, the index at
-- which it stops, and whether the byte there is the NUL. `n - 1` wraps at 0.
unfoldable pub strncpy_loop : Buffer → ℕ → CString → ℕ → Buffer × ℕ × Bool
strncpy_loop dest i [] limit = (dest, i, true)
strncpy_loop dest i (c ∷ src) limit =
    let rest = strncpy_loop (store dest i c) (i + 1) src limit in
    if ltb i limit then rest else (dest, i, false)

-- `sc_strncpy`
unfoldable pub strncpy : Buffer → CString → ℕ → Buffer × ℕ
unfolding strncpy_loop
strncpy dest src n =
    let (copied, i, at_end) = strncpy_loop dest 0 src ((n + 2 ^ 64 - 1) % 2 ^ 64) in
    (if n == 0 then copied else store copied i 0, if at_end then i else n)
