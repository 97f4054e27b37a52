-- ===== src/Stream.antt =====
-- lib/stream.cpp and lib/socket_stream.cpp: the loops that read or write a fixed number of bytes,
-- over the virtual `read` and `write`, and the socket stream's `read` and `write` on buffers. The
-- stream and the socket are arguments, `S` is their state.
pub mod Transfers
mod Tests
use apexstorm.Common.{
  ℕ, zero, suc, ◌+◌, ◌-◌, ◌%◌, ◌^◌, List, [], ◌∷◌, Bool, true, false, Option, none, some, ltb, ◌==◌,
  if◌then◌else◌, length, take, drop,
}
use apexstorm.Common.Int.{ℤ, pos, negsuc}
use apexstorm.Common.Results.{Result, ok, fault}
use apexstorm.Common.Slices.{overwrite}
use apexstorm.Common.Words.{sub64}

-- `size_t len = read(...)`: an `int` converted to `size_t`.
abbrev pub to_size : ℤ → ℕ
to_size (pos n) = n
to_size (negsuc n) = 2 ^ 64 - 1 - n

-- A call of `read` with a length: the answer, and the bytes that it puts into the buffer.
abbrev pub Reader : Type 0 → Type 0
Reader S = ℕ → S → ℤ × List ℕ × S

-- A call of `write` with the bytes.
abbrev pub Writer : Type 0 → Type 0
Writer S = List ℕ → S → ℤ × S

-- A round of the loop of `readFixSize` after `read` has answered; `next` is what comes after it.
-- The test `len < 0` is made on a `size_t`.
abbrev pub read_round :
    {S : Type 0}
    → (offset left : ℕ) → List ℕ
    → S
    → ℤ × List ℕ × S
    → (ℕ → ℕ → List ℕ → S → Option (Result (List ℕ × S)))
    → Option (Result (List ℕ × S))
read_round offset left buffer s (answer, bytes, s') next =
    let len = to_size answer in
    if left == 0
    then some (ok (buffer, s))
    else if ltb len 0
    then some (ok (buffer, s'))
    else if ltb (length buffer) (offset + length bytes)
    then some fault
    else next ((offset + len) % 2 ^ 64) (sub64 left len) (overwrite buffer offset bytes) s'

-- The loop of `readFixSize`. `none` is a loop that has not ended when the fuel is used up.
pub read_loop :
    {S : Type 0} → Reader S → (fuel offset left : ℕ) → List ℕ → S → Option (Result (List ℕ × S))
read_loop read zero offset left buffer s = none
read_loop read (suc fuel) offset left buffer s =
    read_round offset left buffer s (read left s)
      (λ offset' left' buffer' s'. read_loop read fuel offset' left' buffer' s')

abbrev pub read_fix_size :
    {S : Type 0} → Reader S → (fuel : ℕ) → List ℕ → S → Option (Result (List ℕ × S))
read_fix_size read fuel buffer s = read_loop read fuel 0 (length buffer) buffer s

abbrev pub write_round :
    {S : Type 0} → (offset left : ℕ) → S → ℤ × S → (ℕ → ℕ → S → Option S) → Option S
write_round offset left s (answer, s') next =
    let len = to_size answer in
    if left == 0
    then some s
    else if ltb len 0
    then some s'
    else next ((offset + len) % 2 ^ 64) (sub64 left len) s'

-- The loop of `writeFixSize`, which hands over `left` bytes from `offset` on.
pub write_loop : {S : Type 0} → Writer S → (fuel offset left : ℕ) → List ℕ → S → Option S
write_loop write zero offset left buffer s = none
write_loop write (suc fuel) offset left buffer s =
    write_round offset left s (write (take left (drop offset buffer)) s)
      (λ offset' left' s'. write_loop write fuel offset' left' buffer s')

abbrev pub write_fix_size : {S : Type 0} → Writer S → (fuel : ℕ) → List ℕ → S → Option S
write_fix_size write fuel buffer s = write_loop write fuel 0 (length buffer) buffer s

-- `SocketStream::read(void *, size_t)` over the socket's `recv`.
pub socket_read : {S : Type 0} → (connected : Bool) → Reader S → Reader S
socket_read connected recv length s = if connected then recv length s else (negsuc 0, [], s)

abbrev pub is_zero : ℤ → Bool
is_zero (pos zero) = true
is_zero (pos (suc n)) = false
is_zero (negsuc n) = false

-- `return m_socket && m_socket->send(buffer, length)`: the answer is a truth value. A stream that
-- is connected has a socket. The answer of `send`, an `int`, is an integer of any size here.
pub socket_write : {S : Type 0} → (connected : Bool) → Writer S → Writer S
socket_write connected send bytes s =
    let (answer, s') = send bytes s in
    if connected then (if is_zero answer then pos 0 else pos 1, s') else (negsuc 0, s)
