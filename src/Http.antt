-- ===== src/Http.antt =====
-- lib/http.cpp and lib/include/http/http.h: the request methods, as texts and as numbers. A text is
-- the list of its bytes, and a method its number in the enumeration.
pub mod Methods
pub mod Messages
mod Tests
use Prim.Native.Char.{code}
use Prim.Native.String.{String}
use apexstorm.Common.{
  ℕ, zero, suc, List, [], ◌∷◌, Bool, true, false, ◌&&◌, Option, none, some, leb, ◌==◌,
  if◌then◌else◌, length, get_elem?,
}
use apexstorm.Common.Texts.{same_text}

-- The bytes of a literal.
abbrev pub codes : String → List ℕ
codes String.[] = []
codes (String.◌∷◌ c s) = code c ∷ codes s

-- The third column of `HTTP_METHOD_MAP`, made a literal by `#string`; the number of a method is
-- its place.
abbrev pub method_strings : List (List ℕ)
method_strings =
    codes "DELETE"
    ∷ codes "GET"
    ∷ codes "HEAD"
    ∷ codes "POST"
    ∷ codes "PUT"
    ∷ codes "CONNECT"
    ∷ codes "OPTIONS"
    ∷ codes "TRACE"
    ∷ codes "COPY"
    ∷ codes "LOCK"
    ∷ codes "MKCOL"
    ∷ codes "MOVE"
    ∷ codes "PROPFIND"
    ∷ codes "PROPPATCH"
    ∷ codes "SEARCH"
    ∷ codes "UNLOCK"
    ∷ codes "BIND"
    ∷ codes "REBIND"
    ∷ codes "UNBIND"
    ∷ codes "ACL"
    ∷ codes "REPORT"
    ∷ codes "MKACTIVITY"
    ∷ codes "CHECKOUT"
    ∷ codes "MERGE"
    ∷ codes "M - SEARCH"
    ∷ codes "NOTIFY"
    ∷ codes "SUBSCRIBE"
    ∷ codes "UNSUBSCRIBE"
    ∷ codes "PATCH"
    ∷ codes "PURGE"
    ∷ codes "MKCALENDAR"
    ∷ codes "LINK"
    ∷ codes "UNLINK"
    ∷ codes "SOURCE"
    ∷ []

abbrev pub hit_invalid_method : ℕ
hit_invalid_method = 255

-- `strncmp(a, b, strlen(a)) == 0`
pub starts_with : List ℕ → List ℕ → Bool
starts_with [] ys = true
starts_with (a ∷ xs) [] = false
starts_with (a ∷ xs) (b ∷ ys) = a == b && starts_with xs ys

-- The tests that the macro writes out, from the method `n` on.
pub first_method : (List ℕ → Bool) → List (List ℕ) → ℕ → ℕ
first_method test [] n = hit_invalid_method
first_method test (s ∷ ss) n = let rest = first_method test ss (suc n) in if test s then n else rest

pub string_to_http_method : List ℕ → ℕ
string_to_http_method m = first_method (λ s. same_text s m) method_strings 0

pub chars_to_http_method : List ℕ → ℕ
chars_to_http_method m = first_method (λ s. starts_with s m) method_strings 0

pub http_method_to_string : ℕ → List ℕ
http_method_to_string m =
    if leb (length method_strings) m
    then codes "<unknown>"
    else elim (get_elem? method_strings m) [ none ↦ codes "<unknown>" | some s ↦ s ]
