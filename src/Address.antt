-- ===== src/Address.antt =====
-- lib/address.cpp and lib/include/address.h: network addresses. A number in an address is what the
-- field holds, on the platform of `byte_order`; `getaddrinfo` and `inet_pton` are arguments.
pub mod Swap
pub mod Subnets
pub mod Order
pub mod Unix
pub mod Hosts
pub mod Ones
mod Tests
use Prim.Native.Nat.{bit_and, bit_or}
use apexstorm.Common.{
  ℕ, zero, suc, ◌+◌, ◌-◌, ◌*◌, ◌%◌, ◌/◌, ◌^◌, List, [], ◌∷◌, ◌++◌, Bool, true, false, not, ◌&&◌,
  ◌||◌, Option, none, some, ltb, leb, ◌==◌, if◌then◌else◌, min, length, take, drop, replicate, set,
}
use apexstorm.Common.Results.{Result, ok, throws, fault, logic_error, ◌>>=◌}
use apexstorm.Common.Slices.{overwrite}
use apexstorm.Common.Words.{sub64}
use apexstorm.ByteArray.Integers.{byteswap, to_bytes}

-- `CreateMask<T>` for a `T` of `width` bits: the shift is of an `int`, so a count of 32 or more is
-- undefined. At a count of 31 the subtraction is taken to wrap around.
pub create_mask : (width bits : ℕ) → Result ℕ
create_mask width bits =
    let shift = sub64 width bits in if leb 32 shift then fault else ok ((2 ^ shift - 1) % 2 ^ width)

-- The loop of `CountBytes`, on fuel.
pub count_bytes : (fuel value result : ℕ) → Option ℕ
count_bytes zero value result = none
count_bytes (suc fuel) value result =
    let rest = count_bytes fuel (bit_and value (value - 1)) (result + 1) in
    if value == 0 then some result else rest

abbrev pub af_unix : ℕ
af_unix = 1

abbrev pub af_inet : ℕ
af_inet = 2

abbrev pub af_inet6 : ℕ
af_inet6 = 10

-- `sockaddr_in`, without its padding, which is zero.
pub record SockaddrIn : Type 0 where
  pub family : ℕ
  pub port : ℕ
  pub addr : ℕ

unfoldable pub new_ipv4 : (address port : ℕ) → SockaddrIn
new_ipv4 address port = record {
  family = af_inet;
  port = byteswap 2 port;
  addr = byteswap 4 address;
}

-- What `inet_pton` answers: an error, 0, or 1 with the address that it has written.
pub data Parsed : Type 0 where
  failed invalid : Parsed
  parsed : ℕ → Parsed

pub create_ipv4 : Parsed → (port : ℕ) → Option SockaddrIn
create_ipv4 failed port = none
create_ipv4 invalid port = none
create_ipv4 (parsed addr) port =
    some (record { family = af_inet; port = byteswap 2 port; addr = addr })

pub broadcast_address : (prefix_len : ℕ) → SockaddrIn → Result (Option SockaddrIn)
broadcast_address prefix_len a = if ltb 32 prefix_len then ok none else do
  mask ← create_mask 32 prefix_len
  ok (some (record a { addr = bit_or a.addr (byteswap 4 mask) }))

pub network_address : (prefix_len : ℕ) → SockaddrIn → Result (Option SockaddrIn)
network_address prefix_len a = if ltb 32 prefix_len then ok none else do
  mask ← create_mask 32 prefix_len
  ok (some (record a { addr = bit_and a.addr (byteswap 4 mask) }))

pub subnet_mask : (prefix_len : ℕ) → Result SockaddrIn
subnet_mask prefix_len = do
  mask ← create_mask 32 prefix_len
  ok (record { family = af_inet; port = 0; addr = 2 ^ 32 - 1 - byteswap 4 mask })

unfoldable pub get_port : SockaddrIn → ℕ
get_port a = a.port

unfoldable pub set_port : ℕ → SockaddrIn → SockaddrIn
set_port v a = record a { port = byteswap 2 v }

-- `sockaddr_in6`: the port and the sixteen bytes of the address; the rest is copied.
pub record SockaddrIn6 : Type 0 where
  pub port : ℕ
  pub bytes : List ℕ

abbrev pub byte_at : List ℕ → ℕ → Result ℕ
byte_at [] i = fault
byte_at (b ∷ bs) zero = ok b
byte_at (b ∷ bs) (suc i) = byte_at bs i

-- The byte `prefix_len / 8` is changed, and those behind it are set; none before it.
abbrev pub set_behind : (i : ℕ) → (byte rest : ℕ) → List ℕ → List ℕ
set_behind i byte rest bs = take i bs ++ (byte ∷ replicate (length bs - (i + 1)) rest)

pub broadcast_address6 : (prefix_len : ℕ) → SockaddrIn6 → Result SockaddrIn6
broadcast_address6 prefix_len a = do
  b ← byte_at a.bytes (prefix_len / 8)
  mask ← create_mask 8 (prefix_len % 8)
  ok (record a { bytes = set_behind (prefix_len / 8) (bit_or b mask) 0xff a.bytes })

pub network_address6 : (prefix_len : ℕ) → SockaddrIn6 → Result SockaddrIn6
network_address6 prefix_len a = do
  b ← byte_at a.bytes (prefix_len / 8)
  mask ← create_mask 8 (prefix_len % 8)
  ok (record a { bytes = set_behind (prefix_len / 8) (bit_and b mask) 0 a.bytes })

pub subnet_mask6 : (prefix_len : ℕ) → Result SockaddrIn6
subnet_mask6 prefix_len = do
  b ← byte_at (replicate 16 0) (prefix_len / 8)
  mask ← create_mask 8 (prefix_len % 8)
  ok (record {
    port = 0;
    bytes = replicate (prefix_len / 8) 0xff ++ ((255 - mask) ∷ replicate (15 - prefix_len / 8) 0);
  })

unfoldable pub get_port6 : SockaddrIn6 → ℕ
get_port6 a = byteswap 2 a.port

unfoldable pub set_port6 : ℕ → SockaddrIn6 → SockaddrIn6
set_port6 v a = record a { port = byteswap 2 v }

-- What `memcmp` answers.
pub data Compared : Type 0 where
  below same above : Compared

pub memcmp : List ℕ → List ℕ → ℕ → Compared
memcmp l r zero = same
memcmp [] r (suc n) = same
memcmp (a ∷ l) [] (suc n) = same
memcmp (a ∷ l) (b ∷ r) (suc n) =
    let rest = memcmp l r n in if ltb a b then below else if ltb b a then above else rest

-- What `operator<` makes of the two comparisons.
abbrev pub decide_less : Compared → (is_shorter : Bool) → Bool
decide_less below is_shorter = true
decide_less above is_shorter = false
decide_less same is_shorter = is_shorter

abbrev pub is_same : Compared → Bool
is_same below = false
is_same same = true
is_same above = false

-- The order and the equality of addresses: an address is its `getAddrLen()` bytes.
pub less : List ℕ → List ℕ → Bool
less l r = decide_less (memcmp l r (min (length l) (length r))) (ltb (length l) (length r))

pub equal : List ℕ → List ℕ → Bool
equal l r = length l == length r && is_same (memcmp l r (length l))

-- `sun_path` and `m_length`.
pub record UnixAddress : Type 0 where
  pub path : List ℕ
  pub len : ℕ

abbrev pub sun_path_size : ℕ
sun_path_size = 108

-- `offsetof(sockaddr_un, sun_path)`
abbrev pub sun_path_offset : ℕ
sun_path_offset = 2

abbrev pub is_abstract : List ℕ → Bool
is_abstract [] = false
is_abstract (b ∷ bs) = b == 0

-- `memcpy` copies the path and, where the length counts it, the 0 behind it. `m_length` has 32 bits
-- in the code, and any size here, so a path of about 2^32 bytes is refused here and wraps there.
pub new_unix : List ℕ → Result UnixAddress
new_unix path =
    let len = if is_abstract path then length path else length path + 1 in
    if ltb sun_path_size len
    then throws logic_error
    else ok (record {
      path = overwrite (replicate sun_path_size 0) 0 (take len (path ++ (0 ∷ [])));
      len = len + sun_path_offset;
    })

-- A text up to its first 0.
abbrev pub c_string : List ℕ → List ℕ
c_string [] = []
c_string (b ∷ bs) = let rest = c_string bs in if b == 0 then [] else b ∷ rest

pub insert_unix : UnixAddress → List ℕ
insert_unix a =
    if ltb sun_path_offset a.len && is_abstract a.path
    then 0x5c ∷ 0x30 ∷ take (a.len - sun_path_offset - 1) (drop 1 a.path)
    else c_string a.path

-- `memchr`: what stands before and behind the first occurrence.
abbrev pub cut : ℕ → List ℕ → Option (List ℕ × List ℕ)
cut c [] = none
cut c (b ∷ bs) =
    let rest = cut c bs in
    if b == c then some ([], bs) else elim rest [ none ↦ none | some (l, r) ↦ some (b ∷ l, r) ]

-- The branch of `Lookup` for a host in brackets.
abbrev pub bracketed : List ℕ → List ℕ × Option (List ℕ)
bracketed [] = ([], none)
bracketed (c ∷ more) =
    if c == 0x5b
    then elim (cut 0x5d more) [
      | none ↦ ([], none)
      | some (node, []) ↦ (node, none)
      | some (node, b ∷ rest) ↦ (node, if b == 0x3a then some rest else none)
    ]
    else ([], none)

-- The branch for a host with a colon: where there is another colon, `service` is left at the first.
abbrev pub with_colon : List ℕ → List ℕ × Option (List ℕ)
with_colon host = elim (cut 0x3a host) [
  | none ↦ ([], none)
  | some (node, rest) ↦ elim (cut 0x3a rest) [
    | none ↦ (node, some rest)
    | some _ ↦ ([], some (0x3a ∷ rest))
  ]
]

abbrev pub is_empty : List ℕ → Bool
is_empty [] = true
is_empty (b ∷ bs) = false

-- The node and the service that `Lookup` asks `getaddrinfo` for, for a host without a 0 in it.
pub lookup_parts : List ℕ → List ℕ × Option (List ℕ)
lookup_parts host =
    let first = bracketed host in
    let (node, service) = if is_empty first.0 then with_colon host else first in
    (if is_empty node then host else node, service)
