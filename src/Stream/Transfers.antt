-- ===== src/Stream/Transfers.antt =====
-- lib/stream.cpp and lib/socket_stream.cpp: what the loops deliver.
use apexstorm.Common.{
  ℕ, zero, suc, ◌+◌, ◌-◌, ◌%◌, ◌^◌, ◌≤◌, ◌<◌, ◌≡◌, refl, sym, ap, ◌∙◌, List, [], ◌∷◌, ◌++◌, true,
  false, none, some, ltb, ◌==◌, length, take, drop, length-append, arith,
}
use apexstorm.Common.Int.{pos}
use apexstorm.Common.Results.{ok}
use apexstorm.Common.Slices.{
  overwrite, length-overwrite, take-overwrite, take-ge, drop-drop, take-length,
}
use apexstorm.Common.Words.{sub64}
use apexstorm.Stream.{
  Reader, Writer, read_loop, read_round, read_fix_size, write_loop, write_round, write_fix_size,
  socket_write,
}
use mathlib.Core.List.{append-nil, append_assoc}

-- The stream delivers `left` bytes, in pieces of which none is empty or longer than asked for.
pub data Delivers {S : Type 0} (read : Reader S) : ℕ → S → List ℕ → S → Type 0 where
  done : {s : S} → Delivers read 0 s [] s
  piece :
      {left : ℕ} {s s' s'' : S} {rest : List ℕ} (bytes : List ℕ)
      → read left s ≡ (pos (length bytes), bytes, s')
      → 0 < length bytes
      → length bytes ≤ left
      → Delivers read (left - length bytes) s' rest s''
      → Delivers read left s (bytes ++ rest) s''

-- The suffixes of a list, the longest first, one behind the other.
abbrev pub suffixes : List ℕ → List ℕ
suffixes [] = []
suffixes (b ∷ bs) = (b ∷ bs) ++ suffixes bs

-- One round that puts `bytes` into the buffer.
read_loop-round :
    {S : Type 0} (read : Reader S) (fuel offset left : ℕ) (buffer bytes : List ℕ) (s s' : S)
    → read left s ≡ (pos (length bytes), bytes, s')
    → 0 < left
    → offset + length bytes ≤ length buffer
    → read_loop read (suc fuel) offset left buffer s
      ≡ read_loop read fuel
          ((offset + length bytes) % 2 ^ 64)
          (sub64 left (length bytes))
          (overwrite buffer offset bytes)
          s'
unfolding read_loop
read_loop-round read fuel offset left buffer bytes s s' answers more fits =
    let some_left : (left == 0) ≡ false = ground arith in
    let within : ltb (length buffer) (offset + length bytes) ≡ false = ground arith in
    let never : ltb (length bytes) 0 ≡ false = ground arith in
    ap (λ r. read_round offset left buffer s r (λ o l b s. read_loop read fuel o l b s)) answers
    ∙ rw (some_left, never, within) refl

read_loop-zero :
    {S : Type 0} (read : Reader S) (fuel left : ℕ) (buffer : List ℕ) (s : S)
    → 0 < left
    → ((n : ℕ) → read n s ≡ (pos 0, [], s))
    → read_loop read fuel 0 left buffer s ≡ none
unfolding read_loop overwrite
read_loop-zero read zero left buffer s more closed = refl
read_loop-zero read (suc fuel) left buffer s more closed =
    let same : sub64 left 0 ≡ left = ground arith in
    read_loop-round read fuel 0 left buffer [] s s (closed left) more (omega arith)
    ∙ rw same (read_loop-zero read fuel left buffer s more closed)

-- A stream that answers 0, as a socket does whose peer has closed, keeps `readFixSize` of one byte
-- or more in its loop for ever.
pub read_fix_size-zero :
    {S : Type 0} (read : Reader S) (fuel : ℕ) (buffer : List ℕ) (s : S)
    → 0 < length buffer
    → ((n : ℕ) → read n s ≡ (pos 0, [], s))
    → read_fix_size read fuel buffer s ≡ none
read_fix_size-zero read fuel buffer s some_bytes closed =
    read_loop-zero read fuel (length buffer) buffer s some_bytes closed

module _ {S : Type 0} (read : Reader S) where
  length-Delivers :
      {left : ℕ} {s s' : S} {bytes : List ℕ} → Delivers read left s bytes s' → length bytes ≡ left
  length-Delivers done = refl
  length-Delivers (piece {rest = rest} bs answers some_bytes fits d) =
      omega (arith, length-append bs rest, length-Delivers d)

  read_loop-Delivers :
      (fuel : ℕ) {left : ℕ} {s s' : S} {bytes : List ℕ} (offset : ℕ) (buffer : List ℕ)
      → Delivers read left s bytes s'
      → left < fuel
      → length buffer < 2 ^ 64
      → offset + left ≡ length buffer
      → read_loop read fuel offset left buffer s ≡ some (ok (take offset buffer ++ bytes, s'))
  unfolding read_loop
  read_loop-Delivers zero offset buffer d enough small all = absurd (omega arith)
  read_loop-Delivers (suc fuel) {s = s} offset buffer done enough small all =
      ap (λ b. some (ok (b, s)))
        (sym (append-nil (take offset buffer) ∙ take-ge offset buffer (omega arith)))
  read_loop-Delivers (suc fuel) {left} {s} {s'} offset buffer
        (piece {s' = s1} {rest = rest} bs answers some_bytes fits d) enough small all =
      let there : (offset + length bs) % 2 ^ 64 ≡ offset + length bs = omega arith in
      let fewer : sub64 left (length bs) ≡ left - length bs = ground arith in
      let next = overwrite buffer offset bs in
      let same = length-overwrite buffer offset bs (omega arith) in
      let rest_of =
        read_loop-Delivers fuel (offset + length bs) next d (omega arith) (omega (arith, same))
          (omega (arith, same)) in
      read_loop-round read fuel offset left buffer bs s s1 answers (omega arith) (omega arith)
      ∙ ap (λ o. read_loop read fuel o (sub64 left (length bs)) next s1) there
      ∙ ap (λ k. read_loop read fuel (offset + length bs) k next s1) fewer
      ∙ rest_of
      ∙ ap (λ b. some (ok (b, s')))
          (ap (λ t. t ++ rest)
              (take-overwrite buffer offset (offset + length bs) bs (omega arith) refl)
            ∙ append_assoc (take offset buffer) bs rest)

-- Where the stream delivers as many bytes as the buffer is long, fewer than `2^64`, in whatever
-- pieces, `readFixSize` ends after no more rounds than there are bytes, and the buffer holds just
-- these bytes.
pub read_fix_size-Delivers :
    {S : Type 0} (read : Reader S) (buffer bytes : List ℕ) (s s' : S)
    → Delivers read (length buffer) s bytes s'
    → length buffer < 2 ^ 64
    → read_fix_size read (suc (length buffer)) buffer s ≡ some (ok (bytes, s'))
read_fix_size-Delivers read buffer bytes s s' d small =
    read_loop-Delivers read (suc (length buffer)) 0 buffer d (omega arith) small (omega arith)

-- A socket that takes whatever it is given.
abbrev pub takes_all : Writer (List ℕ)
takes_all bytes sent = (pos (length bytes), sent ++ bytes)

write_loop-suffixes :
    (fuel offset : ℕ) (rest buffer sent : List ℕ)
    → drop offset buffer ≡ rest
    → length rest < fuel
    → offset + length rest < 2 ^ 64
    → write_loop (socket_write true takes_all) fuel offset (length rest) buffer sent
      ≡ some (sent ++ suffixes rest)
unfolding write_loop socket_write
write_loop-suffixes zero offset rest buffer sent e enough small = absurd (omega arith)
write_loop-suffixes (suc fuel) offset [] buffer sent e enough small =
    ap some (sym (append-nil sent))
write_loop-suffixes (suc fuel) offset (b ∷ bs) buffer sent e enough small =
    let next =
      λ (o l : ℕ) (s : List ℕ). write_loop (socket_write true takes_all) fuel o l buffer s in
    let n = length bs in
    let there : (offset + 1) % 2 ^ 64 ≡ offset + 1 = omega arith in
    let fewer : sub64 (suc n) 1 ≡ n = ground arith in
    let behind : drop (offset + 1) buffer ≡ bs =
      sym (drop-drop offset 1 (offset + 1) buffer (omega arith)) ∙ ap (drop 1) e in
    let some_left : (suc n == 0) ≡ false = ground arith in
    ap
      (λ d.
        write_round offset (suc n) sent (socket_write true takes_all (take (suc n) d) sent) next)
      e
    ∙ ap (λ t. write_round offset (suc n) sent (socket_write true takes_all (b ∷ t) sent) next)
        (take-length bs)
    ∙ rw some_left refl
    ∙ ap (λ o. next o (sub64 (suc n) 1) (sent ++ (b ∷ bs))) there
    ∙ ap (λ l. next (offset + 1) l (sent ++ (b ∷ bs))) fewer
    ∙ write_loop-suffixes fuel (offset + 1) bs buffer (sent ++ (b ∷ bs)) behind (omega arith)
        (omega arith)
    ∙ ap some (append_assoc sent (b ∷ bs) (suffixes bs))

-- For less than `2^64` bytes `writeFixSize` over a socket stream whose socket takes all that it is
-- given sends the bytes, and then each of their shorter suffixes once more: `SocketStream::write`
-- answers 1 for any number of bytes that were sent.
pub write_fix_size-suffixes :
    (buffer sent : List ℕ)
    → length buffer < 2 ^ 64
    → write_fix_size (socket_write true takes_all) (suc (length buffer)) buffer sent
      ≡ some (sent ++ suffixes buffer)
write_fix_size-suffixes buffer sent small =
    write_loop-suffixes (suc (length buffer)) 0 buffer buffer sent refl (omega arith) (omega arith)
