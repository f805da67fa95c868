-- ===== src/Api/Client/Laws.antt =====
-- `BaseClient._request` of client/src/api/client.py: what is sent, and how failures are reported.
use mathlib.Core.Path.{subst, sym}
use cs4455_epic.Base.{
  ℕ, ◌≤◌, ◌<◌, ◌≡◌, ◌≢◌, ◌⊎◌, inl, inr, refl, Option, none, some, false, [], ◌∷◌, ◌++◌, arith, ◌==◌,
  leb, Option-cases, Bool-cases,
}
use cs4455_epic.Base.Dict.{Dict, lookup}
use cs4455_epic.Base.Text.{Str, lit}
use cs4455_epic.Codec.Decimal.{show_ℕ}
use cs4455_epic.Errors.{
  ok, err, client, attribute_error, ErrorClass, client_error, validation_error,
  authentication_error, authorization_error, not_found_error, conflict_error, rate_limit_error,
  server_error, exception_for_status,
}
use cs4455_epic.Json.{Json, Fields, null, bool, int, str, arr, obj, fields}
use cs4455_epic.Env.{Env, Method, Response, response}
use cs4455_epic.Py.{State}
use cs4455_epic.Api.Client.{
  error_message, raise_for, handle_outcome, build_request, request, get_field,
}

-- The classes that the docstrings of client/src/errors.py give for the statuses.
pub data Reports : ℕ → ErrorClass → Type 0 where
  bad_request : Reports 400 validation_error
  unauthorized : Reports 401 authentication_error
  forbidden : Reports 403 authorization_error
  not_found : Reports 404 not_found_error
  conflict : Reports 409 conflict_error
  too_many : Reports 429 rate_limit_error
  server_side : (status : ℕ) → 500 ≤ status → Reports status server_error
  unnamed :
      (status : ℕ)
      → status < 500
      → status ≢ 400
      → status ≢ 401
      → status ≢ 403
      → status ≢ 404
      → status ≢ 409
      → status ≢ 429
      → Reports status client_error

-- What the server says about its failure: the message in the body, or the text of the body, or,
-- where that is empty and no JSON, the status.
pub data Says (resp : Response) (message : Json) : Type 0 where
  named :
      (body error : Fields)
      → resp.json ≡ some (obj body)
      → lookup (lit "error") (fields body) ≡ some (obj error)
      → lookup (lit "message") (fields error) ≡ some message
      → Says resp message
  no_message :
      (body error : Fields)
      → resp.json ≡ some (obj body)
      → lookup (lit "error") (fields body) ≡ some (obj error)
      → lookup (lit "message") (fields error) ≡ none
      → message ≡ str resp.text
      → Says resp message
  no_error :
      (body : Fields)
      → resp.json ≡ some (obj body)
      → lookup (lit "error") (fields body) ≡ none
      → message ≡ str resp.text
      → Says resp message
  plain : resp.json ≡ none → resp.text ≢ [] → message ≡ str resp.text → Says resp message
  empty :
      resp.json ≡ none
      → resp.text ≡ []
      → message ≡ str (lit "HTTP " ++ show_ℕ resp.status_code)
      → Says resp message

-- The body, or its error, is JSON but no dict.
pub data IsMisshapen (resp : Response) : Type 0 where
  body_other : (v : Json) → resp.json ≡ some v → ((fs : Fields) → v ≢ obj fs) → IsMisshapen resp
  error_other :
      (body : Fields) (v : Json)
      → resp.json ≡ some (obj body)
      → lookup (lit "error") (fields body) ≡ some v
      → ((fs : Fields) → v ≢ obj fs)
      → IsMisshapen resp

same_or_other : (code status : ℕ) → (code ≡ status) ⊎ (((code == status) ≡ false) × (status ≢ code))
same_or_other code status = elim (Bool-cases (code == status)) [
  | inl b ↦ inl (ground arith)
  | inr b ↦ inr (b, λ h. ground arith)
]

exception_for_status-Reports : (status : ℕ) → Reports status (exception_for_status status)
unfolding exception_for_status
exception_for_status-Reports status = elim (same_or_other 400 status) [
  | inl h ↦ at 400 h bad_request
  | inr (b0, n0) ↦ elim (same_or_other 401 status) [
    | inl h ↦ at 401 h unauthorized
    | inr (b1, n1) ↦ elim (same_or_other 403 status) [
      | inl h ↦ at 403 h forbidden
      | inr (b2, n2) ↦ elim (same_or_other 404 status) [
        | inl h ↦ at 404 h not_found
        | inr (b3, n3) ↦ elim (same_or_other 409 status) [
          | inl h ↦ at 409 h conflict
          | inr (b4, n4) ↦ elim (same_or_other 429 status) [
            | inl h ↦ at 429 h too_many
            | inr (b5, n5) ↦ elim (Bool-cases (leb 500 status)) [
              | inl h ↦
                  let is : exception_for_status status ≡ server_error = ground arith in
                  subst (Reports status) (sym is) (server_side status (ground arith))
              | inr h ↦
                  let is : exception_for_status status ≡ client_error = ground arith in
                  subst (Reports status) (sym is) (unnamed status (ground arith) n0 n1 n2 n3 n4 n5)
            ]
          ]
        ]
      ]
    ]
  ]
]
  where
    at :
        (code : ℕ)
        → code ≡ status
        → Reports code (exception_for_status code)
        → Reports status (exception_for_status status)
    at code h r = subst (λ n. Reports n (exception_for_status n)) h r

abbrev Reading : Response → Type 0
Reading resp =
    ((message : Json) × Says resp message × (error_message resp ≡ ok message))
    ⊎ (IsMisshapen resp × (error_message resp ≡ err attribute_error))

error_message-Says : (resp : Response) → Reading resp
unfolding error_message get_field lookup
error_message-Says resp = elim (Option-cases resp.json) [
  | inl x ↦ no_json resp.text refl x
  | inr (v, x) ↦ with_body v x
]
  where
    no_json : (text : Str) → resp.text ≡ text → resp.json ≡ none → Reading resp
    no_json [] e x = inl (_, empty x e refl, ground arith)
    no_json (c ∷ text) e x = inl (_, plain x (λ h. ground arith) refl, ground arith)

    with_error :
        (body : Fields) (v : Json)
        → resp.json ≡ some (obj body)
        → lookup (lit "error") (fields body) ≡ some v
        → Reading resp
    with_error body (obj error) x y = elim (Option-cases (lookup (lit "message") (fields error))) [
      | inl z ↦ inl (str resp.text, no_message body error x y z refl, ground arith)
      | inr (m, z) ↦ inl (m, named body error x y z, ground arith)
    ]
    with_error body null x y = inr (error_other body null x y (λ fs h. ground arith), ground arith)
    with_error body (bool b) x y =
        inr (error_other body (bool b) x y (λ fs h. ground arith), ground arith)
    with_error body (int i) x y =
        inr (error_other body (int i) x y (λ fs h. ground arith), ground arith)
    with_error body (str t) x y =
        inr (error_other body (str t) x y (λ fs h. ground arith), ground arith)
    with_error body (arr xs) x y =
        inr (error_other body (arr xs) x y (λ fs h. ground arith), ground arith)

    with_body : (v : Json) → resp.json ≡ some v → Reading resp
    with_body (obj body) x = elim (Option-cases (lookup (lit "error") (fields body))) [
      | inl y ↦ inl (str resp.text, no_error body x y refl, ground arith)
      | inr (v, y) ↦ with_error body v x y
    ]
    with_body null x = inr (body_other null x (λ fs h. ground arith), ground arith)
    with_body (bool b) x = inr (body_other (bool b) x (λ fs h. ground arith), ground arith)
    with_body (int i) x = inr (body_other (int i) x (λ fs h. ground arith), ground arith)
    with_body (str t) x = inr (body_other (str t) x (λ fs h. ground arith), ground arith)
    with_body (arr xs) x = inr (body_other (arr xs) x (λ fs h. ground arith), ground arith)

module _ (E : Env) (method : Method) (path : Str) (headers params : Dict Str) (json : Option Json)
    (s : State) where
  -- Every call sends exactly one request, whatever its outcome, and changes nothing else.
  pub request_frame :
      let t = (request E method path headers params json s).1 in
      (t.requests ≡ s.requests ++ (build_request E method path headers params json s ∷ []))
      × (t.files ≡ s.files)
      × (t.drawn ≡ s.drawn)
      × (t.keystore ≡ s.keystore)
      × (t.session ≡ s.session)
  unfolding request
  request_frame = (refl, refl, refl, refl, refl)

  -- A response that is not ok never counts as a success: the call raises the class of its status,
  -- with what the server says about the failure; where the body, or its error, is JSON but no dict,
  -- an `AttributeError`.
  pub request_failure :
      (resp : Response)
      → E.http s.requests (build_request E method path headers params json s) ≡ response resp
      → resp.ok ≡ false
      → ((c : ErrorClass) × (message : Json) × Reports resp.status_code c
          × Says resp message
          × ((request E method path headers params json s).0 ≡ err (client c message)))
        ⊎ (IsMisshapen resp
            × ((request E method path headers params json s).0 ≡ err attribute_error))
  unfolding request handle_outcome raise_for
  request_failure resp sent failed = elim (error_message-Says resp) [
    | inl (message, says, read) ↦ inl (
      exception_for_status resp.status_code,
      message,
      exception_for_status-Reports resp.status_code,
      says,
      ground arith,
    )
    | inr (bad, read) ↦ inr (bad, ground arith)
  ]
