-- ===== src/Session.antt =====
-- client/src/session.py
use cs4455_epic.Base.{Bool, Option, none, some, [], ◌∷◌, ◌++◌}
use cs4455_epic.Base.Dict.{Dict, is_some}
use cs4455_epic.Base.Text.{Str, lit}
use cs4455_epic.Py.{Session, Py, modify}

unfoldable pub is_authenticated : Session → Bool
is_authenticated session = is_some session.token

unfoldable pub set : Str → Str → Str → Py (Unit {0})
set token user_id username = modify λ s. record s {
  session = record { token = some token; user_id = some user_id; username = some username };
}

unfoldable pub clear : Py (Unit {0})
clear = modify λ s. record s { session = record { token = none; user_id = none; username = none } }

bearer : Option Str → Dict Str
bearer none = []
bearer (some []) = []
bearer (some (c ∷ rest)) = (lit "Authorization", lit "Bearer " ++ (c ∷ rest)) ∷ []

unfoldable pub auth_header : Session → Dict Str
unfolding bearer
auth_header session = bearer session.token
