-- ===== src/Api/Client.antt =====
-- client/src/api/client.py: `BaseClient`, and access to the JSON that it returns.
pub mod Laws
use mathlib.Core.List.{reverse}
use cs4455_epic.Base.{ℕ, ◌+◌, Option, none, some, [], ◌∷◌, ◌++◌, ◌==◌, if◌then◌else◌, List}
use cs4455_epic.Base.Dict.{Dict, lookup, insert, get_or}
use cs4455_epic.Base.Text.{Str, lit}
use cs4455_epic.Codec.Decimal.{show_ℕ}
use cs4455_epic.Errors.{
  Result, ok, err, client, network_error, attribute_error, key_error, type_error, value_error,
  exception_for_status,
}
use cs4455_epic.Json.{Json, str, obj, end, fields, elements}
use cs4455_epic.Env.{
  Env, Method, Request, Response, Outcome, refused, response, get, post, put, delete,
}
use cs4455_epic.Py.{State, Py}
use cs4455_epic.Session.{auth_header}

drop_slashes : Str → Str
drop_slashes [] = []
drop_slashes (c ∷ s) = let rest = drop_slashes s in if c == 47 then rest else c ∷ s

-- `base_url.rstrip("/")`
unfoldable pub rstrip_slash : Str → Str
unfolding drop_slashes
rstrip_slash s = reverse (drop_slashes (reverse s))

-- `v.get(key, default)` on a value that should be a dict
unfoldable pub get_field : Str → Json → Json → Result Json
get_field key default (obj fs) = ok (get_or (lookup key (fields fs)) default)
get_field key default _ = err attribute_error

-- `v[key]` on a value that should be a dict
unfoldable pub subscript : Str → Json → Result Json
subscript key (obj fs) = elim (lookup key (fields fs)) [ none ↦ err key_error | some v ↦ ok v ]
subscript key _ = err type_error

-- `{**a, **b}`
unfoldable pub merge : Dict Str → Dict Str → Dict Str
merge a [] = a
merge a ((k, v) ∷ b) = merge (insert k v a) b

or_status : Str → ℕ → Str
or_status [] status = lit "HTTP " ++ show_ℕ status
or_status (c ∷ text) status = c ∷ text

-- `_error_message`. Only a `ValueError` of `resp.json()` is caught.
unfoldable pub error_message : Response → Result Json
unfolding or_status
error_message resp = elim resp.json [
  | none ↦ ok (str (or_status resp.text resp.status_code))
  | some body ↦ elim (get_field (lit "error") (obj end) body) [
    | err e ↦ err e
    | ok error ↦ get_field (lit "message") (str resp.text) error
  ]
]

unfoldable pub parse_body : Response → Result (Option Json)
parse_body resp = elim resp.content [
  | [] ↦ ok none
  | b ∷ bs ↦ elim resp.json [ none ↦ err value_error | some v ↦ ok (some v) ]
]

unfoldable pub raise_for : Response → Result (Option Json)
raise_for resp = elim (error_message resp) [
  | ok message ↦ err (client (exception_for_status resp.status_code) message)
  | err e ↦ err e
]

unfoldable pub handle_outcome : Outcome → Result (Option Json)
handle_outcome (refused message) = err (client network_error (str message))
handle_outcome (response resp) = if resp.ok then parse_body resp else raise_for resp

module _ (E : Env) where
  unfoldable pub build_request : Method → Str → Dict Str → Dict Str → Option Json → State → Request
  build_request method path headers params json s = record {
    method = method;
    url = rstrip_slash E.base_url ++ path;
    headers = merge (auth_header s.session) headers;
    params = params;
    json = json;
  }

  -- `_request`; `none` is the `None` of an empty body.
  unfoldable pub request : Method → Str → Dict Str → Dict Str → Option Json → Py (Option Json)
  request method path headers params json s =
      let req = build_request method path headers params json s in
      (handle_outcome (E.http s.requests req), record s { requests = s.requests ++ (req ∷ []) })

  unfoldable pub get_path : Str → Dict Str → Py (Option Json)
  get_path path params = request get path [] params none

  unfoldable pub post_path : Str → Json → Py (Option Json)
  post_path path json = request post path [] [] (some json)

  unfoldable pub put_path : Str → Json → Py (Option Json)
  put_path path json = request put path [] [] (some json)

  unfoldable pub delete_path : Str → Py (Option Json)
  delete_path path = request delete path [] [] none

-- `resp.get("data", default)` where `resp` may be `None`
abbrev pub data_or : Json → Option Json → Result Json
data_or default none = err attribute_error
data_or default (some resp) = get_field (lit "data") default resp

-- `resp["data"]`
abbrev pub data_of : Option Json → Result Json
data_of none = err type_error
data_of (some resp) = subscript (lit "data") resp

-- `for x in v`
abbrev pub each : Json → Result (List Json)
each v = elim (elements v) [ none ↦ err type_error | some xs ↦ ok xs ]
