-- ===== src/Address/Unix.antt =====
-- lib/address.cpp, `UnixAddress`: what an address prints that was made of a path.
use apexstorm.Common.{
  ℕ, ◌+◌, ◌-◌, ◌<◌, ◌≡◌, refl, ap, ◌∙◌, List, [], ◌∷◌, ◌++◌, All, true, false, ltb, ◌==◌, length,
  drop, replicate, length-append, arith,
}
use apexstorm.Common.Results.{ok}
use apexstorm.Common.Slices.{overwrite, take-append_eq, take-ge}
use apexstorm.Address.{UnixAddress, new_unix, insert_unix, c_string, sun_path_size}
use mathlib.Core.List.{append_assoc}

-- The zeros behind what was copied.
padding : List ℕ → List ℕ
padding bytes = drop (0 + length bytes) (replicate sun_path_size 0)

copied : (bytes : List ℕ) → overwrite (replicate sun_path_size 0) 0 bytes ≡ bytes ++ padding bytes
unfolding overwrite padding
copied bytes = refl

c_string-append : (xs rest : List ℕ) → All (λ b. 0 < b) xs → c_string (xs ++ (0 ∷ rest)) ≡ xs
c_string-append [] rest h = refl
c_string-append (x ∷ xs) rest h =
    let set : (x == 0) ≡ false = ground (arith, h.0) in rw (set, c_string-append xs rest h.1) refl

new_named :
    (b : ℕ) (path : List ℕ)
    → 0 < b
    → length (b ∷ path) < sun_path_size
    → new_unix (b ∷ path)
      ≡ ok (record {
        path = (b ∷ path ++ (0 ∷ [])) ++ padding (b ∷ path ++ (0 ∷ []));
        len = length (b ∷ path) + 1 + 2;
      })
unfolding new_unix
new_named b path h short =
    let set : (b == 0) ≡ false = ground arith in
    let room : ltb sun_path_size (length (b ∷ path) + 1) ≡ false = ground arith in
    let whole =
      take-ge (length (b ∷ path) + 1) (b ∷ path ++ (0 ∷ []))
        (omega (arith, length-append path (0 ∷ []))) in
    rw (set, room, whole)
      (ap (λ p. ok (record { path = p; len = length (b ∷ path) + 1 + 2 }))
        (copied (b ∷ path ++ (0 ∷ []))))

new_abstract :
    (name : List ℕ)
    → length name < sun_path_size
    → new_unix (0 ∷ name)
      ≡ ok (record { path = (0 ∷ name) ++ padding (0 ∷ name); len = length (0 ∷ name) + 2 })
unfolding new_unix
new_abstract name short =
    let room : ltb sun_path_size (length (0 ∷ name)) ≡ false = ground arith in
    let whole = take-append_eq (length (0 ∷ name)) (0 ∷ name) (0 ∷ []) refl in
    rw (room, whole)
      (ap (λ p. ok (record { path = p; len = length (0 ∷ name) + 2 })) (copied (0 ∷ name)))

-- An address made of a path without a 0 that leaves room for one prints the path, and one made of a
-- name behind a 0 prints the name behind `\0`.
pub insert_unix-new_unix :
    (b : ℕ) (path name : List ℕ)
    → All (λ c. 0 < c) (b ∷ path)
    → length (b ∷ path) < sun_path_size
    → length name < sun_path_size
    → ((a : UnixAddress) × (new_unix (b ∷ path) ≡ ok a) × (insert_unix a ≡ b ∷ path))
      × ((a : UnixAddress) × (new_unix (0 ∷ name) ≡ ok a) × (insert_unix a ≡ 0x5c ∷ 0x30 ∷ name))
unfolding insert_unix
insert_unix-new_unix b path name h short short' =
    let set : (b == 0) ≡ false = ground (arith, h.0) in
    let counted : ltb 2 (length (0 ∷ name) + 2) ≡ true = ground arith in
    let counted' : ltb 2 (length (b ∷ path) + 1 + 2) ≡ true = ground arith in
    let inner : length (0 ∷ name) + 2 - 2 - 1 ≡ length name = omega arith in
    (
      (
        _,
        new_named b path h.0 short,
        rw (set, counted')
            (ap (λ p. b ∷ c_string p) (append_assoc path (0 ∷ []) _)
              ∙ ap (λ p. b ∷ p) (c_string-append path _ h.1)),
      ),
      (
        _,
        new_abstract name short',
        rw (counted, inner)
            (ap (λ p. 0x5c ∷ 0x30 ∷ p)
              (take-append_eq (length name) name (padding (0 ∷ name)) refl)),
      ),
    )
