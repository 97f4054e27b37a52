-- ===== src/Http/Tests.antt =====
-- Runs of the conversions of request methods, and of a response with two headers.
use apexstorm.Common.{◌≡◌, refl, [], ◌∷◌, ◌++◌, true, false, some, arith}
use apexstorm.Http.{
  codes, string_to_http_method, chars_to_http_method, http_method_to_string, hit_invalid_method,
  first_method, starts_with,
}
use apexstorm.Http.Messages.{
  HttpResponse, new_response, digits, http_status_to_string, dump_response, set_field, get_field,
  has_field, del_field,
}
use apexstorm.Http.Messages.Lines.{read_head}
use apexstorm.Http.Messages.Reading.{response_lines, read_head-dump_response}
use apexstorm.Http.Messages.Fields.{get_field-set_field}
use apexstorm.Http.Methods.{string_to_http_method-http_method_to_string}

string_to_http_method-http_method_to_string_example :
    (string_to_http_method (http_method_to_string 1) ≡ 1)
    × (chars_to_http_method (http_method_to_string 1 ++ codes " / HTTP/1.1") ≡ 1)
string_to_http_method-http_method_to_string_example =
    string_to_http_method-http_method_to_string 1 (codes " / HTTP/1.1") (omega arith)

-- The literal of the method has blanks, and the method's own name is not known.
msearch_unknown : chars_to_http_method (codes "M-SEARCH * HTTP/1.1") ≡ hit_invalid_method
unfolding chars_to_http_method first_method starts_with
msearch_unknown = refl

abbrev response : HttpResponse
response = record (new_response 0x11 false) {
  body = codes "hi";
  headers = (codes "Server", codes "apexstorm") ∷ (codes "Connection", codes "x") ∷ [];
}

read_head-dump_response_example :
    read_head 9 (dump_response response) ≡ some (response_lines response, codes "hi")
unfolding digits new_response http_status_to_string
read_head-dump_response_example = read_head-dump_response response 9 refl refl (omega arith)

get_field-set_field_example :
    let fields = set_field (codes "Host") (codes "b") response.headers in
    (get_field (codes "HOST") [] fields ≡ codes "b")
    × (has_field (codes "HOST") [] fields ≡ (true, codes "b"))
    × (get_field (codes "server") [] fields ≡ get_field (codes "server") [] response.headers)
    × (get_field (codes "HOST") [] (del_field (codes "Host") fields) ≡ [])
    × (has_field (codes "HOST") [] (del_field (codes "Host") fields) ≡ (false, []))
    × (get_field (codes "server") [] (del_field (codes "Host") fields)
        ≡ get_field (codes "server") [] response.headers)
get_field-set_field_example =
    get_field-set_field (codes "Host") (codes "HOST") (codes "server") (codes "b") [] []
      response.headers refl refl
