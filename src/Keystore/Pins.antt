-- ===== src/Keystore/Pins.antt =====
-- `pin_peer_key` and `pinned_peer_key` of client/src/crypto/keystore.py.
use cs4455_epic.Base.{◌≡◌, ◌&&◌, some, [], arith, if◌then◌else◌}
use cs4455_epic.Base.Dict.{lookup, insert, lookup-insert, get_or}
use cs4455_epic.Base.Text.{Str, str_eq, str_eq_iff}
use cs4455_epic.Errors.{ok}
use cs4455_epic.Env.{Env}
use cs4455_epic.Py.{FileData, State}
use cs4455_epic.Keystore.{pin_of, pin_peer_key, pinned_peer_key}
use cs4455_epic.Keystore.Files.{save}
use cs4455_epic.Keystore.Loading.{Holds, Holds-version, Holds-save}

-- The dict that `pin_peer_key` saves.
abbrev pub with_pin : Str → Str → Str → FileData → FileData
with_pin user_id key_type public_key d =
    let peers = get_or d.peers [] in
    let pins = get_or (lookup user_id peers) [] in
    record d { peers = some (insert user_id (insert key_type public_key pins) peers) }

pub pin_of-with_pin :
    (u k p v kt : Str) (d : FileData)
    → pin_of v kt (with_pin u k p d) ≡ (if str_eq u v && str_eq k kt then some p else pin_of v kt d)
pin_of-with_pin u k p v kt d =
    let peers = get_or d.peers [] in
    let pins = get_or (lookup u peers) [] in
    ground
      (arith, lookup-insert u v (insert k p pins) peers, lookup-insert k kt p pins, str_eq_iff u v)

module _ (E : Env) (u k p : Str) (s : State) (d : FileData) (holds : Holds s d) where
  pub pin_peer_key-eq : pin_peer_key E u k p s ≡ save E (with_pin u k p d) s
  unfolding pin_peer_key
  pin_peer_key-eq = ground arith

  pub Holds-pin_peer_key : Holds (pin_peer_key E u k p s).1 (with_pin u k p d)
  Holds-pin_peer_key =
      rw pin_peer_key-eq (Holds-save E (with_pin u k p d) s (Holds-version s d holds))

  -- After a key was pinned, exactly that user and key type answer with it; every other user and
  -- key type answers as before.
  pub pinned_peer_key-pin :
      (v kt : Str)
      → (pinned_peer_key v kt (pin_peer_key E u k p s).1).0
        ≡ (if str_eq u v && str_eq k kt then ok (some p) else (pinned_peer_key v kt s).0)
  unfolding pinned_peer_key
  pinned_peer_key-pin v kt = ground (arith, Holds-pin_peer_key, pin_of-with_pin u k p v kt d)
