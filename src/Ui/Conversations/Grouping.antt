-- ===== src/Ui/Conversations/Grouping.antt =====
-- client/src/ui/main_frame.py: how `_decrypt_inbox` and `_decrypt_sent` group the messages by peer,
-- and how the first sorts a group by its numbers.
use cs4455_epic.Base.{List, [], ◌∷◌, ◌++◌, if◌then◌else◌}
use cs4455_epic.Base.Int.{ℤ, pos, leb_ℤ}
use cs4455_epic.Base.Dict.{Dict, lookup, insert, get_or}
use cs4455_epic.Base.Text.{Str, lit}
use cs4455_epic.Errors.{Result, ok, err, type_error}
use cs4455_epic.Json.{Json, null, int, str, truthy}
use cs4455_epic.Crypto.Wire.{to_int}
use cs4455_epic.Ui.Sort.{sort_by}

-- A message of the server.
abbrev pub Message : Type 0
Message = Dict Json

-- `m.get(key)`
abbrev pub field_of : Str → Message → Json
field_of key m = get_or (lookup key m) null

-- `m.get(camel) or m.get(snake)`
unfoldable pub peer_of : Str → Str → Message → Result Str
peer_of camel snake m =
    let first = field_of camel m in
    elim (if truthy first then first else field_of snake m) [ str s ↦ ok s | _ ↦ err type_error ]

-- `by_peer.setdefault(peer, []).append(m)`
unfoldable pub append_to : Str → Message → Dict (List Message) → Dict (List Message)
append_to peer m groups = insert peer (get_or (lookup peer groups) [] ++ (m ∷ [])) groups

unfoldable pub group_from :
    (Message → Result Str) → List Message → Dict (List Message) → Result (Dict (List Message))
unfolding append_to
group_from peer [] groups = ok groups
group_from peer (m ∷ ms) groups = elim (peer m) [
  | err e ↦ err e
  | ok p ↦ group_from peer ms (append_to p m groups)
]

-- `int(m.get("seqNo", m.get("seq_no", 0)))`
unfoldable pub seq_key : Message → Result ℤ
seq_key m =
    to_int (get_or (lookup (lit "seqNo") m) (get_or (lookup (lit "seq_no") m) (int (pos 0))))

-- `msgs.sort(key=...)`
unfoldable pub sort_messages : List Message → Result (List Message)
unfolding seq_key
sort_messages = sort_by leb_ℤ seq_key
