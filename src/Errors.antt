-- ===== src/Errors.antt =====
-- client/src/errors.py: the exception hierarchy and the map from HTTP status codes, with the
-- other exceptions that the modelled code raises or lets through.
pub mod Laws
use cs4455_epic.Base.{
  ℕ, ◌≡◌, refl, ◌⊎◌, inl, inr, Option, none, some, List, [], ◌∷◌, leb, ◌==◌, if◌then◌else◌,
}
use cs4455_epic.Base.Text.{Str}
use cs4455_epic.Json.{Json}

-- The classes below `ClientError`, and that class itself.
pub data ErrorClass : Type 0 where
  client_error validation_error authentication_error authorization_error : ErrorClass
  not_found_error conflict_error rate_limit_error server_error network_error : ErrorClass

-- A `ClientError` with its message, which comes from the server's JSON; the other exceptions.
pub data Exc : Type 0 where
  client : ErrorClass → Json → Exc
  runtime : Str → Exc
  file_exists file_not_found key_error type_error attribute_error value_error : Exc
  unicode_error invalid_tag signature_error replay_error : Exc

pub data Result {ℓ} (A : Type ℓ) : Type ℓ where
  ok : A → Result A
  err : Exc → Result A

pub Result-cases {ℓ} :
    {A : Type ℓ} (r : Result A) → ((a : A) × (r ≡ ok a)) ⊎ ((e : Exc) × (r ≡ err e))
Result-cases (ok a) = inl (a, refl)
Result-cases (err e) = inr (e, refl)

abbrev pub status_exceptions : List (ℕ × ErrorClass)
status_exceptions =
    (400, validation_error)
    ∷ (401, authentication_error)
    ∷ (403, authorization_error)
    ∷ (404, not_found_error)
    ∷ (409, conflict_error)
    ∷ (429, rate_limit_error)
    ∷ []

lookup_status : ℕ → List (ℕ × ErrorClass) → Option ErrorClass
lookup_status status_code [] = none
lookup_status status_code ((code, c) ∷ rest) =
    if code == status_code then some c else lookup_status status_code rest

unfoldable pub exception_for_status : ℕ → ErrorClass
unfolding lookup_status
exception_for_status status_code = elim (lookup_status status_code status_exceptions) [
  | some c ↦ c
  | none ↦ if leb 500 status_code then server_error else client_error
]
