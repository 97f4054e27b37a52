-- ===== src/Http/Messages.antt =====
-- lib/http.cpp and lib/include/http/http.h: the statuses, and requests and responses with their
-- fields and the texts that they are sent as. A text is the list of its bytes, of which none is 0.
pub mod Lines
pub mod Reading
pub mod Fields
use apexstorm.Common.{
  ℕ, zero, suc, ◌+◌, ◌/◌, ◌%◌, List, [], ◌∷◌, ◌++◌, Bool, true, false, ◌&&◌, ◌||◌, Option, none,
  some, ltb, leb, ◌==◌, if◌then◌else◌, length,
}
use apexstorm.Common.Texts.{same_text, text_less, lower}
use apexstorm.Http.{codes, http_method_to_string}

abbrev pub statuses : List (ℕ × List ℕ)
statuses =
    (100, codes "Continue")
    ∷ (101, codes "Switching Protocols")
    ∷ (102, codes "Processing")
    ∷ (200, codes "OK")
    ∷ (201, codes "Created")
    ∷ (202, codes "Accepted")
    ∷ (203, codes "Non - Authoritative Information")
    ∷ (204, codes "No Content")
    ∷ (205, codes "Reset Content")
    ∷ (206, codes "Partial Content")
    ∷ (207, codes "Multi - Status")
    ∷ (208, codes "Already Reported")
    ∷ (226, codes "IM Used")
    ∷ (300, codes "Multiple Choices")
    ∷ (301, codes "Moved Permanently")
    ∷ (302, codes "Found")
    ∷ (303, codes "See Other")
    ∷ (304, codes "Not Modified")
    ∷ (305, codes "Use Proxy")
    ∷ (307, codes "Temporary Redirect")
    ∷ (308, codes "Permanent Redirect")
    ∷ (400, codes "Bad Request")
    ∷ (401, codes "Unauthorized")
    ∷ (402, codes "Payment Required")
    ∷ (403, codes "Forbidden")
    ∷ (404, codes "Not Found")
    ∷ (405, codes "Method Not Allowed")
    ∷ (406, codes "Not Acceptable")
    ∷ (407, codes "Proxy Authentication Required")
    ∷ (408, codes "Request Timeout")
    ∷ (409, codes "Conflict")
    ∷ (410, codes "Gone")
    ∷ (411, codes "Length Required")
    ∷ (412, codes "Precondition Failed")
    ∷ (413, codes "Payload Too Large")
    ∷ (414, codes "URI Too Long")
    ∷ (415, codes "Unsupported Media Type")
    ∷ (416, codes "Range Not Satisfiable")
    ∷ (417, codes "Expectation Failed")
    ∷ (421, codes "Misdirected Request")
    ∷ (422, codes "Unprocessable Entity")
    ∷ (423, codes "Locked")
    ∷ (424, codes "Failed Dependency")
    ∷ (426, codes "Upgrade Required")
    ∷ (428, codes "Precondition Required")
    ∷ (429, codes "Too Many Requests")
    ∷ (431, codes "Request Header Fields Too Large")
    ∷ (451, codes "Unavailable For Legal Reasons")
    ∷ (500, codes "Internal Server Error")
    ∷ (501, codes "Not Implemented")
    ∷ (502, codes "Bad Gateway")
    ∷ (503, codes "Service Unavailable")
    ∷ (504, codes "Gateway Timeout")
    ∷ (505, codes "HTTP Version Not Supported")
    ∷ (506, codes "Variant Also Negotiates")
    ∷ (507, codes "Insufficient Storage")
    ∷ (508, codes "Loop Detected")
    ∷ (510, codes "Not Extended")
    ∷ (511, codes "Network Authentication Required")
    ∷ []

abbrev pub find_status : List (ℕ × List ℕ) → ℕ → List ℕ
find_status [] s = codes "<unknown>"
find_status ((code, text) ∷ more) s =
    let rest = find_status more s in if code == s then text else rest

unfoldable pub http_status_to_string : ℕ → List ℕ
http_status_to_string s = find_status statuses s

-- `strcasecmp(a, b) == 0` and `strcasecmp(a, b) < 0`
abbrev pub same_case : List ℕ → List ℕ → Bool
same_case a b = same_text (lower a) (lower b)

abbrev pub case_less : List ℕ → List ℕ → Bool
case_less a b = text_less (lower a) (lower b)

-- `MapType`: the entries of a `std::map` in the order of `CaseInsensitiveLess`.
abbrev pub Fields : Type 0
Fields = List (List ℕ × List ℕ)

pub find_field : List ℕ → Fields → Option (List ℕ)
find_field key [] = none
find_field key ((k, v) ∷ more) =
    let rest = find_field key more in if same_case k key then some v else rest

-- `var[key] = val`, which keeps the spelling of a key that is there.
pub set_field : List ℕ → List ℕ → Fields → Fields
set_field key val [] = (key, val) ∷ []
set_field key val ((k, v) ∷ more) =
    if same_case k key
    then (k, val) ∷ more
    else if case_less key k
    then (key, val) ∷ (k, v) ∷ more
    else (k, v) ∷ set_field key val more

pub del_field : List ℕ → Fields → Fields
del_field key [] = []
del_field key ((k, v) ∷ more) =
    let rest = del_field key more in if same_case k key then rest else (k, v) ∷ rest

pub get_field : List ℕ → (default_value : List ℕ) → Fields → List ℕ
get_field key default_value fields = elim (find_field key fields) [
  | none ↦ default_value
  | some v ↦ v
]

-- The answer, and what `*val` is after it.
pub has_field : List ℕ → (val : List ℕ) → Fields → Bool × List ℕ
has_field key val fields = elim (find_field key fields) [ none ↦ (false, val) | some v ↦ (true, v) ]

-- `get`, `set`, `has` and `del` of headers, parameters and cookies are those of the fields.
pub record HttpRequest : Type 0 where
  pub method : ℕ
  pub version : ℕ
  pub close : Bool
  pub path : List ℕ
  pub query : List ℕ
  pub fragment : List ℕ
  pub body : List ℕ
  pub headers : Fields
  pub params : Fields
  pub cookies : Fields

pub record HttpResponse : Type 0 where
  pub status : ℕ
  pub version : ℕ
  pub close : Bool
  pub body : List ℕ
  pub reason : List ℕ
  pub headers : Fields

-- The constructors; `GET` is 1, `OK` is 200.
unfoldable pub new_request : (version : ℕ) → (close : Bool) → HttpRequest
new_request version close = record {
  method = 1;
  version = version;
  close = close;
  path = codes "/";
  query = [];
  fragment = [];
  body = [];
  headers = [];
  params = [];
  cookies = [];
}

unfoldable pub new_response : (version : ℕ) → (close : Bool) → HttpResponse
new_response version close = record {
  status = 200;
  version = version;
  close = close;
  body = [];
  reason = [];
  headers = [];
}

-- A number to the stream: the digits of a number below `10 ^ fuel`.
unfoldable pub digits : (fuel : ℕ) → ℕ → List ℕ → List ℕ
digits zero n tail = tail
digits (suc k) n tail =
    let rest = digits k (n / 10) ((0x30 + n % 10) ∷ tail) in
    if ltb n 10 then (0x30 + n % 10) ∷ tail else rest

-- 20 digits are enough for 64 bits.
abbrev pub number : ℕ → List ℕ
number n = digits 20 n []

abbrev pub crlf : List ℕ
crlf = 0x0d ∷ 0x0a ∷ []

abbrev pub colon : List ℕ
colon = codes ":"

abbrev pub colon_space : List ℕ
colon_space = codes ": "

-- `(text.empty() ? "" : mark) << text`
abbrev pub marked : List ℕ → List ℕ → List ℕ
marked mark [] = []
marked mark (c ∷ cs) = mark ++ (c ∷ cs)

abbrev pub connection_line : Bool → List ℕ
connection_line true = codes "connection: close"
connection_line false = codes "connection: keep-alive"

-- The loop over the headers, with what is written behind it.
pub write_headers : (separator : List ℕ) → Fields → (tail : List ℕ) → List ℕ
write_headers separator [] tail = tail
write_headers separator ((k, v) ∷ more) tail =
    let rest = write_headers separator more tail in
    if same_case k (codes "connection") then rest else (k ++ (separator ++ v)) ++ (crlf ++ rest)

abbrev pub length_line : List ℕ → List ℕ
length_line body = codes "content-length: " ++ number (length body)

-- The last part of `dump`, where `nothing` is what is written for an empty body.
abbrev pub write_body : (nothing : List ℕ) → List ℕ → List ℕ
write_body nothing [] = nothing
write_body nothing (c ∷ cs) = length_line (c ∷ cs) ++ (crlf ++ (crlf ++ (c ∷ cs)))

-- What is written behind the method.
abbrev pub request_target : HttpRequest → List ℕ
request_target r =
    r.path
    ++ (marked (codes "?") r.query
        ++ (marked (codes "#") r.fragment
            ++ (codes " HTTP/"
                ++ (number (r.version / 16) ++ (codes "." ++ number (r.version % 16))))))

abbrev pub request_line : HttpRequest → List ℕ
request_line r = http_method_to_string r.method ++ (codes " " ++ request_target r)

-- `HttpRequest::dump`
pub dump_request : HttpRequest → List ℕ
dump_request r =
    request_line r
    ++ (crlf
        ++ (connection_line r.close
            ++ (crlf ++ write_headers colon r.headers (write_body crlf r.body))))

abbrev pub reason_of : HttpResponse → List ℕ
reason_of r = elim r.reason [ [] ↦ http_status_to_string r.status | c ∷ cs ↦ r.reason ]

abbrev pub status_line : HttpResponse → List ℕ
status_line r =
    codes "HTTP/"
    ++ (number (r.version / 16)
        ++ (codes "."
            ++ (number (r.version % 16)
                ++ (codes " " ++ (number r.status ++ (codes " " ++ reason_of r))))))

-- `HttpResponse::dump`
pub dump_response : HttpResponse → List ℕ
dump_response r =
    status_line r
    ++ (crlf
        ++ write_headers colon_space r.headers
            (connection_line r.close ++ (crlf ++ write_body (crlf ++ crlf) r.body)))
