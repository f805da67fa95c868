-- ===== src/Ui/Demo/Sharing.antt =====
-- Forwarding and revoking in the development mode.
use cs4455_epic.Base.{◌≡◌, refl, arith, false, some, [], ◌∷◌}
use cs4455_epic.Base.Dict.{lookup, insert, get_or, lookup-insert, lookup-insert_self}
use cs4455_epic.Base.Text.{Str, lit, strip, str_eq, str_eq_refl}
use cs4455_epic.Errors.{ok}
use cs4455_epic.Json.{Json, Items, nil, cons, arr, str}
use cs4455_epic.Ui.Conversations.Grouping.{Message, field_of}
use cs4455_epic.Ui.Demo.Acting.{
  demo_id, append_item, share_record, forward_dev, differs_from, without_user, revoke_dev,
}

recorded_id :
    (now name : Str)
    → lookup (lit "user_id") (
        (lit "username", str name)
        ∷ (lit "user_id", str (demo_id name))
        ∷ (lit "forwarded_at", str now)
        ∷ [])
      ≡ some (str (demo_id name))
unfolding lookup str_eq
recorded_id now name = refl

-- What is recorded last of a user is taken out again.
without_user-append_item :
    (now name : Str) (xs : Items)
    → without_user (demo_id name) (append_item (share_record now name) xs)
      ≡ without_user (demo_id name) xs
unfolding without_user append_item differs_from
without_user-append_item now name nil =
    ground (arith, recorded_id now name, str_eq_refl (demo_id name))
without_user-append_item now name (cons x xs) = ground (arith, without_user-append_item now name xs)

module _ (now input : Str) (m : Message) (xs left : Items) where
  -- In the development mode, where a message records a list of recipients, each with a user id, and
  -- a recipient is named: forwarding it and then revoking the access of that recipient leaves the
  -- same recipients as revoking at once, and every other field of the message as it was.
  pub revoke-forward :
      str_eq (strip input) [] ≡ false
      → get_or (lookup (lit "_forwarded_to") m) (arr nil) ≡ arr xs
      → without_user (demo_id (strip input)) xs ≡ ok left
      → (m' : Message) × (m'' : Message) × (forward_dev now m (some input) ≡ ok m')
        × (revoke_dev m' (demo_id (strip input)) ≡ ok m'')
        × (field_of (lit "_forwarded_to") m'' ≡ arr left)
        × ((key : Str) → str_eq (lit "_forwarded_to") key ≡ false → lookup key m'' ≡ lookup key m)
  unfolding forward_dev revoke_dev
  revoke-forward named recorded others = (
    longer,
    insert (lit "_forwarded_to") (arr left) longer,
    ground arith,
    ground (
      arith,
      lookup-insert_self (lit "_forwarded_to") with_new m,
      without_user-append_item now (strip input) xs,
    ),
    rw (lookup-insert_self (lit "_forwarded_to") (arr left) longer) refl,
    λ key other. ground (
      arith,
      lookup-insert (lit "_forwarded_to") key (arr left) longer,
      lookup-insert (lit "_forwarded_to") key with_new m,
    ),
  )
    where
      with_new : Json
      with_new = arr (append_item (share_record now (strip input)) xs)

      longer : Message
      longer = insert (lit "_forwarded_to") with_new m
