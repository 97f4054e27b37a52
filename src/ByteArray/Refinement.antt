-- ===== src/ByteArray/Refinement.antt =====
-- lib/bytearray.cpp against what it promises: a sequence of bytes with a position in it. How the
-- bytes lie in nodes, and what stands behind them, is forgotten.
use apexstorm.Common.{
  ℕ, zero, suc, ◌+◌, ◌-◌, ◌≤◌, ◌<◌, ◌≡◌, refl, sym, ap, ap₂, ◌∙◌, inl, inr, List, [], ◌∷◌, ◌++◌,
  if◌then◌else◌, ltb, ltb→lt, ltb→le, Bool-cases, max, length, take, drop, length-take, arith,
}
use apexstorm.Common.Slices.{overwrite, take-append_le, take-append_ge, take-ge}
use apexstorm.Common.Results.{Result, ok, throws, fault, Exception, out_of_range, ◌>>=◌}
use apexstorm.ByteArray.{ByteArray, write, read, set_position, clear, to_string}
use apexstorm.ByteArray.Invariant.{content, IsValid}
use apexstorm.ByteArray.Transfer.{Spliced, Moved, write-Spliced, read-Moved, read-throws}
use apexstorm.ByteArray.Positions.{set_position-Moved}
use apexstorm.ByteArray.Snapshot.{to_string-drop, clear-IsValid}

-- The contract: the bytes that were written, and where the next call begins.
pub record Buffer : Type 0 where
  pub bytes : List ℕ
  pub position : ℕ

-- A call.
pub data Request : Type 0 where
  writes : List ℕ → Request
  reads seeks : ℕ → Request
  clears shows : Request

-- What a call answers and leaves, by the contract. A fault is what the contract does not speak of:
-- a position behind the bytes, and a read of nothing at their end.
pub promised : Request → Buffer → Result (List ℕ × Buffer)
promised (writes buf) b = ok (
  [],
  record {
    bytes = take b.position b.bytes ++ (buf ++ drop (b.position + length buf) b.bytes);
    position = b.position + length buf;
  },
)
promised (reads size) b =
    if ltb (length b.bytes) (b.position + size)
    then throws out_of_range
    else if ltb b.position (length b.bytes)
    then ok (take size (drop b.position b.bytes), record b { position = b.position + size })
    else fault
promised (seeks p) b = if ltb (length b.bytes) p then fault else ok ([], record b { position = p })
promised clears b = ok ([], record { bytes = []; position = 0 })
promised shows b = ok (drop b.position b.bytes, b)

-- The same call of the array.
pub performed : (junk : ℕ → ℕ) → Request → ByteArray → Result (List ℕ × ByteArray)
performed junk (writes buf) ba = do ba' ← write junk buf ba; ok ([], ba')
performed junk (reads size) ba = read size ba
performed junk (seeks p) ba = do ba' ← set_position p ba; ok ([], ba')
performed junk clears ba = ok ([], clear ba)
performed junk shows ba = do bytes ← to_string ba; ok (bytes, ba)

-- Calls one after another, with their answers.
module _ {A : Type 0} (call : Request → A → Result (List ℕ × A)) where
  pub in_turn : List Request → A → Result (List (List ℕ) × A)
  in_turn [] s = ok ([], s)
  in_turn (r ∷ rs) s = do
    (answer, s') ← call r s
    (answers, s'') ← in_turn rs s'
    ok (answer ∷ answers, s'')

-- The array stands for the buffer.
pub record Represents (ba : ByteArray) (b : Buffer) : Type 0 where
  pub valid : IsValid ba
  pub bytes : take ba.size (content ba) ≡ b.bytes
  pub position : ba.position ≡ b.position

-- The array answers as promised, and stands for what is promised.
pub data Refines {X : Type 0} : Result (X × ByteArray) → Result (X × Buffer) → Type 0 where
  unspoken : {r : Result (X × ByteArray)} → Refines r fault
  thrown : (e : Exception) → Refines (throws e) (throws e)
  kept : (x : X) (ba : ByteArray) (b : Buffer) → Represents ba b → Refines (ok (x, ba)) (ok (x, b))

module _ {ℓ} {A : Type ℓ} where
  drop-take : (k s : ℕ) (c : List A) → drop k (take s c) ≡ take (s - k) (drop k c)
  drop-take zero s c = let e : s - 0 ≡ s = omega arith in rw e refl
  drop-take (suc k) zero c = let e : 0 - suc k ≡ 0 = omega arith in rw e refl
  drop-take (suc k) (suc s) [] = sym (take-ge (suc s - suc k) [] (omega arith))
  drop-take (suc k) (suc s) (x ∷ c) =
      let e : suc s - suc k ≡ s - k = omega arith in rw e (drop-take k s c)

  take-take : (p s : ℕ) (c : List A) → p ≤ s → take p (take s c) ≡ take p c
  take-take zero s c h = refl
  take-take (suc p) zero c h = absurd (omega arith)
  take-take (suc p) (suc s) [] h = refl
  take-take (suc p) (suc s) (x ∷ c) h = ap (λ t. x ∷ t) (take-take p s c (omega arith))

module _ (junk : ℕ → ℕ) (ba : ByteArray) (b : Buffer) (r : Represents ba b) where
  length-bytes : length b.bytes ≡ ba.size
  length-bytes =
      ap length (sym r.bytes)
      ∙ omega (arith, length-take ba.size (content ba), r.valid.size, r.valid.capacity)

  -- What a write leaves, without the bytes behind the size.
  Spliced-bytes :
      (buf : List ℕ) (ba' : ByteArray)
      → Spliced buf ba ba'
      → take ba'.size (content ba')
        ≡ take b.position b.bytes ++ (buf ++ drop (b.position + length buf) b.bytes)
  unfolding overwrite
  Spliced-bytes buf ba' s =
      let m = content ba ++ s.fresh in
      let p = ba.position in
      let l = length buf in
      let z = ba.size in
      let v = r.valid in
      let before : length (take p m) ≡ p = omega (arith, length-take p m, s.room) in
      let within : z ≤ length (content ba) = omega (arith, v.size, v.capacity) in
      let known : take z m ≡ b.bytes = take-append_le z (content ba) s.fresh within ∙ r.bytes in
      let front : take p m ≡ take b.position b.bytes =
        sym (take-take p z m v.position) ∙ ap₂ take r.position known in
      let behind : take (z - (p + l)) (drop (p + l) m) ≡ drop (b.position + l) b.bytes =
        sym (drop-take (p + l) z m) ∙ ap₂ (λ q t. drop (q + l) t) r.position known in
      ap₂ take s.size s.bytes
      ∙ take-append_ge (max z (p + l)) (l + (z - (p + l))) (take p m) (buf ++ drop (p + l) m)
          (omega (arith, before))
      ∙ ap (λ t. take p m ++ t)
          (take-append_ge (l + (z - (p + l))) (z - (p + l)) buf (drop (p + l) m) refl)
      ∙ ap₂ (λ x y. x ++ (buf ++ y)) front behind

  writes-Refines :
      (buf : List ℕ) → Refines (performed junk (writes buf) ba) (promised (writes buf) b)
  unfolding performed promised
  writes-Refines buf =
      let (ba', e, s) = write-Spliced junk buf ba r.valid in
      rw e (
        kept [] ba' _ (record {
          valid = s.valid;
          bytes = Spliced-bytes buf ba' s;
          position = s.position ∙ ap (λ p. p + length buf) r.position;
        }))

  -- A move within the bytes.
  moved :
      (p q : ℕ) (ba' : ByteArray)
      → p ≤ ba.size
      → Moved p ba ba'
      → p ≡ q
      → Represents ba' (record b { position = q })
  moved p q ba' h m e = record {
    valid = m.valid;
    bytes =
        let same : ba'.size ≡ ba.size = omega (arith, m.size) in ap₂ take same m.bytes ∙ r.bytes;
    position = m.position ∙ e;
  }

  answered :
      (size : ℕ)
      → ba.position + size ≤ ba.size
      → take size (drop ba.position (content ba)) ≡ take size (drop b.position b.bytes)
  answered size h =
      let p = ba.position in
      sym (take-take size (ba.size - p) (drop p (content ba)) (omega arith))
      ∙ ap (take size) (sym (drop-take p ba.size (content ba)) ∙ ap₂ drop r.position r.bytes)

  reads-Refines : (size : ℕ) → Refines (performed junk (reads size) ba) (promised (reads size) b)
  unfolding performed promised
  reads-Refines size =
      let p = ba.position in
      let v = r.valid in
      elim (Bool-cases (ltb (length b.bytes) (b.position + size))) [
        | inl more ↦
            let beyond = ltb→lt _ _ more in
            rw
              (
                more,
                read-throws size ba v.position (omega (arith, beyond, length-bytes, r.position)),
              )
              (thrown out_of_range)
        | inr fits ↦
            let within = ltb→le _ _ fits in
            elim (Bool-cases (ltb b.position (length b.bytes))) [
              | inr end ↦ rw (fits, end) unspoken
              | inl room ↦
                  let here = ltb→lt _ _ room in
                  let le : p + size ≤ ba.size = omega (arith, within, length-bytes, r.position) in
                  let inside : p < ba.capacity =
                    omega (arith, here, length-bytes, r.position, v.size) in
                  let (ba', e, m) = read-Moved size ba v le inside in
                  rw (fits, room, e, answered size le)
                    (kept _ ba' _ (
                      moved (p + size) (b.position + size) ba' le m
                        (ap (λ q. q + size) r.position)))
            ]
      ]

  seeks-Refines : (p : ℕ) → Refines (performed junk (seeks p) ba) (promised (seeks p) b)
  unfolding performed promised
  seeks-Refines p = elim (Bool-cases (ltb (length b.bytes) p)) [
    | inl beyond ↦ rw beyond unspoken
    | inr within ↦
        let le = ltb→le _ _ within in
        let fits : p ≤ ba.size = omega (arith, le, length-bytes) in
        let (ba', e, m) = set_position-Moved p ba r.valid (omega (arith, r.valid.size)) in
        rw (within, e) (kept [] ba' _ (moved p p ba' fits m refl))
  ]

  cleared_bytes : take (clear ba).size (content (clear ba)) ≡ []
  unfolding clear
  cleared_bytes = refl

  cleared_position : (clear ba).position ≡ 0
  unfolding clear
  cleared_position = refl

  clears-Refines : Refines (performed junk clears ba) (promised clears b)
  unfolding performed promised
  clears-Refines =
      kept [] (clear ba) (record { bytes = []; position = 0 })
        (record {
          valid = (clear-IsValid ba r.valid).0;
          bytes = cleared_bytes;
          position = cleared_position;
        })

  shows-Refines : Refines (performed junk shows ba) (promised shows b)
  unfolding performed promised
  shows-Refines =
      let answer : take (ba.size - ba.position) (drop ba.position (content ba))
          ≡ drop b.position b.bytes =
        sym (drop-take ba.position ba.size (content ba)) ∙ ap₂ drop r.position r.bytes in
      rw (to_string-drop ba r.valid, answer) (kept _ ba b r)

  call-Refines : (q : Request) → Refines (performed junk q ba) (promised q b)
  call-Refines (writes buf) = writes-Refines buf
  call-Refines (reads size) = reads-Refines size
  call-Refines (seeks p) = seeks-Refines p
  call-Refines clears = clears-Refines
  call-Refines shows = shows-Refines

bind-Refines :
    {X Y : Type 0} {c : Result (X × ByteArray)} {p : Result (X × Buffer)}
    (f : X × ByteArray → Result (Y × ByteArray)) (g : X × Buffer → Result (Y × Buffer))
    → Refines c p
    → ((x : X) (ba : ByteArray) (b : Buffer) → Represents ba b → Refines (f (x, ba)) (g (x, b)))
    → Refines (c >>= f) (p >>= g)
bind-Refines f g unspoken h = unspoken
bind-Refines f g (thrown e) h = thrown e
bind-Refines f g (kept x ba b r) h = h x ba b r

-- An array that stands for a buffer goes on to do so through any calls in any order, on every
-- memory that new nodes find: it answers all of them as the contract promises, and throws where it
-- says so. Nothing is said behind a call that the contract does not speak of.
pub in_turn-Refines :
    (junk : ℕ → ℕ) (rs : List Request) (ba : ByteArray) (b : Buffer)
    → Represents ba b
    → Refines (in_turn (performed junk) rs ba) (in_turn promised rs b)
unfolding in_turn
in_turn-Refines junk [] ba b r = kept [] ba b r
in_turn-Refines junk (q ∷ rs) ba b r =
    bind-Refines _ _ (call-Refines junk ba b r q) (λ answer ba' b' r'.
      bind-Refines _ _ (in_turn-Refines junk rs ba' b' r')
        (λ answers ba'' b'' r''. kept (answer ∷ answers) ba'' b'' r''))
