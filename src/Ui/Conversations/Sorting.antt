-- ===== src/Ui/Conversations/Sorting.antt =====
-- The groups and the sort of client/src/ui/main_frame.py.
use mathlib.Core.List.{append-nil, append_assoc}
use cs4455_epic.Base.{◌≡◌, sym, arith, List, [], ◌∷◌, ◌++◌, if◌then◌else◌, inl, inr}
use cs4455_epic.Base.Int.{ℤ, leb_ℤ}
use cs4455_epic.Base.Dict.{Dict, lookup, lookup-insert, get_or}
use cs4455_epic.Base.Text.{Str, str_eq, str_eq_iff}
use cs4455_epic.Errors.{Result, ok, err, Result-cases}
use cs4455_epic.Ui.Sort.{keyed}
use cs4455_epic.Ui.Sort.Laws.{IsOrder, IsSortOf, sort_by-ok}
use cs4455_epic.Ui.Conversations.Grouping.{Message, append_to, group_from, seq_key, sort_messages}

-- The messages of one peer, in order.
pub messages_of : (Message → Result Str) → Str → List Message → List Message
messages_of peer u [] = []
messages_of peer u (m ∷ ms) =
    let rest = messages_of peer u ms in
    elim (peer m) [ err e ↦ rest | ok p ↦ if str_eq p u then m ∷ rest else rest ]

group_of : Str → Dict (List Message) → List Message
group_of u groups = get_or (lookup u groups) []

group_of-append_to :
    (p u : Str) (m : Message) (groups : Dict (List Message))
    → group_of u (append_to p m groups)
      ≡ (if str_eq p u then group_of u groups ++ (m ∷ []) else group_of u groups)
unfolding append_to group_of
group_of-append_to p u m groups =
    ground
      (arith, lookup-insert p u (get_or (lookup p groups) [] ++ (m ∷ [])) groups, str_eq_iff p u)

group_from-ok :
    (peer : Message → Result Str) (u : Str) (ms : List Message) (groups out : Dict (List Message))
    → group_from peer ms groups ≡ ok out
    → group_of u out ≡ group_of u groups ++ messages_of peer u ms
unfolding group_from messages_of
group_from-ok peer u [] groups out h =
    let e : groups ≡ out = ground arith in rw (sym e) (sym (append-nil (group_of u groups)))
group_from-ok peer u (m ∷ ms) groups out h = elim (Result-cases (peer m)) [
  | inr (e, x) ↦ absurd (ground arith)
  | inl (p, x) ↦
      let later = group_from-ok peer u ms (append_to p m groups) out (ground arith) in
      ground (
        arith,
        later,
        group_of-append_to p u m groups,
        append_assoc (group_of u groups) (m ∷ []) (messages_of peer u ms),
      )
]

-- Grouping loses no message, invents none and keeps the order: the group of a peer is the
-- subsequence of the messages that name this peer.
pub group_from-messages_of :
    (peer : Message → Result Str) (u : Str) (ms : List Message) (out : Dict (List Message))
    → group_from peer ms [] ≡ ok out
    → get_or (lookup u out) [] ≡ messages_of peer u ms
unfolding group_of lookup
group_from-messages_of peer u ms out h = group_from-ok peer u ms [] out h

leb_ℤ-IsOrder : IsOrder leb_ℤ
leb_ℤ-IsOrder = record { total = λ a b h. ground arith; trans = λ a b c h k. ground arith }

-- Where every number can be read, sorting succeeds; it keeps the messages, each as often as it was,
-- puts them in ascending order of their numbers, and keeps the order of those of one number.
pub sort_messages-IsSortOf :
    (ms : List Message) (ks : List (ℤ × Message))
    → keyed seq_key ms ≡ ok ks
    → (out : List Message) × (sort_messages ms ≡ ok out) × IsSortOf leb_ℤ seq_key ms out
unfolding sort_messages
sort_messages-IsSortOf ms ks h = sort_by-ok leb_ℤ leb_ℤ-IsOrder seq_key ms ks h
