-- ===== src/Errors/Laws.antt =====
-- What the status map promises: client/src/errors.py.
use cs4455_epic.Base.{ℕ, ◌≤◌, ◌≡◌, ◌↔◌, arith}
use cs4455_epic.Errors.{server_error, exception_for_status}

-- A status is mapped to `ServerError` exactly when it is 500 or more.
pub server_error_iff : (s : ℕ) → (exception_for_status s ≡ server_error) ↔ (500 ≤ s)
unfolding exception_for_status
server_error_iff s = (λ h. ground arith, λ h. ground arith)
