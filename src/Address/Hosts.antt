-- ===== src/Address/Hosts.antt =====
-- lib/address.cpp, `Address::Lookup` up to its call of `getaddrinfo`: how a text is parted into a
-- node and a service.
use apexstorm.Common.{
  ℕ, ◌≡◌, refl, ap, ◌∙◌, List, [], ◌∷◌, ◌++◌, All, true, false, Option, none, some, if◌then◌else◌,
  ◌==◌, arith,
}
use apexstorm.Address.{cut, with_colon, is_empty, lookup_parts}

-- A text without the character.
abbrev pub Lacks : ℕ → List ℕ → Type 0
Lacks c = All (λ b. (b == c) ≡ false)

cut-append : (c : ℕ) (xs rest : List ℕ) → Lacks c xs → cut c (xs ++ (c ∷ rest)) ≡ some (xs, rest)
cut-append c [] rest h = let e : (c == c) ≡ true = ground arith in rw e refl
cut-append c (x ∷ xs) rest h = rw (h.0, cut-append c xs rest h.1) refl

cut-none : (c : ℕ) (xs : List ℕ) → Lacks c xs → cut c xs ≡ none
cut-none c [] h = refl
cut-none c (x ∷ xs) h = rw (h.0, cut-none c xs h.1) refl

abbrev filled : List ℕ → List ℕ × Option (List ℕ) → List ℕ × Option (List ℕ)
filled host (node, service) = (if is_empty node then host else node, service)

lookup_parts-unbracketed :
    (b : ℕ) (bs : List ℕ)
    → (b == 0x5b) ≡ false
    → lookup_parts (b ∷ bs) ≡ filled (b ∷ bs) (with_colon (b ∷ bs))
unfolding lookup_parts
lookup_parts-unbracketed b bs h = rw h refl

with_colon-none : (host : List ℕ) → Lacks 0x3a host → with_colon host ≡ ([], none)
with_colon-none host h = rw (with_colon, cut-none 0x3a host h) refl

with_colon-one :
    (node port : List ℕ)
    → Lacks 0x3a node
    → Lacks 0x3a port
    → with_colon (node ++ (0x3a ∷ port)) ≡ (node, some port)
with_colon-one node port h k =
    rw (with_colon, cut-append 0x3a node port h, cut-none 0x3a port k) refl

with_colon-more :
    (node middle rest : List ℕ)
    → Lacks 0x3a node
    → Lacks 0x3a middle
    → with_colon (node ++ (0x3a ∷ middle ++ (0x3a ∷ rest)))
      ≡ ([], some (0x3a ∷ middle ++ (0x3a ∷ rest)))
with_colon-more node middle rest h k =
    rw (with_colon, cut-append 0x3a node (middle ++ (0x3a ∷ rest)) h, cut-append 0x3a middle rest k)
      refl

-- A name without colon and bracket is the node; `name:port` and `[address]:port` are parted into
-- the two, and `[address]` loses its brackets.
pub lookup_parts-forms :
    (b : ℕ) (name address port : List ℕ)
    → (b == 0x5b) ≡ false
    → Lacks 0x3a (b ∷ name)
    → Lacks 0x3a port
    → (a : ℕ) → Lacks 0x5d (a ∷ address)
    → (lookup_parts (b ∷ name) ≡ (b ∷ name, none))
      × (lookup_parts ((b ∷ name) ++ (0x3a ∷ port)) ≡ (b ∷ name, some port))
      × (lookup_parts (0x5b ∷ (a ∷ address) ++ (0x5d ∷ 0x3a ∷ port)) ≡ (a ∷ address, some port))
      × (lookup_parts (0x5b ∷ (a ∷ address) ++ (0x5d ∷ [])) ≡ (a ∷ address, none))
unfolding lookup_parts
lookup_parts-forms b name address port h plain digits a inside = (
  lookup_parts-unbracketed b name h ∙ ap (filled (b ∷ name)) (with_colon-none (b ∷ name) plain),
  lookup_parts-unbracketed b (name ++ (0x3a ∷ port)) h
      ∙ ap (filled (b ∷ name ++ (0x3a ∷ port))) (with_colon-one (b ∷ name) port plain digits),
  rw (cut-append 0x5d (a ∷ address) (0x3a ∷ port) inside) refl,
  rw (cut-append 0x5d (a ∷ address) [] inside) refl,
)

-- Where the text has no bracket in front and two colons or more, as a bare IPv6 address has, the
-- node is the whole text, but the service is the text from the first colon on.
pub lookup_parts-colons :
    (b : ℕ) (front middle rest : List ℕ)
    → (b == 0x5b) ≡ false
    → Lacks 0x3a (b ∷ front)
    → Lacks 0x3a middle
    → (let host = (b ∷ front) ++ (0x3a ∷ middle ++ (0x3a ∷ rest)) in
        lookup_parts host ≡ (host, some (0x3a ∷ middle ++ (0x3a ∷ rest))))
lookup_parts-colons b front middle rest h l k =
    lookup_parts-unbracketed b (front ++ (0x3a ∷ middle ++ (0x3a ∷ rest))) h
    ∙ ap (filled (b ∷ front ++ (0x3a ∷ middle ++ (0x3a ∷ rest))))
        (with_colon-more (b ∷ front) middle rest l k)
