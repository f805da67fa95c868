-- ===== src/Ui/Populate/Threads.antt =====
-- `_populate` of client/src/ui/main_frame.py: which messages a conversation shows, in which order.
use cs4455_epic.Base.{
  ◌≡◌, refl, ap, sym, ◌∙◌, arith, Bool, true, false, Option, none, some, List, [], ◌∷◌, ◌++◌,
  if◌then◌else◌, inl, inr, All,
}
use mathlib.Core.List.{append-nil, append_assoc}
use mathlib.Core.Path.{subst}
use cs4455_epic.Base.Dict.{Dict, lookup, lookup-insert, get_or}
use cs4455_epic.Base.Text.{Str, str_eq, str_eq_iff}
use cs4455_epic.Errors.{Result, Result-cases, ok, err}
use cs4455_epic.Ui.Sort.{keyed, sort_by_key, sort_by}
use cs4455_epic.Ui.Sort.Laws.{IsOrder, IsSortOf, sort_by-IsSortOf}
use cs4455_epic.Ui.Conversations.Grouping.{Message}
use cs4455_epic.Ui.Populate.{
  Conversation, Entry, add_entry, add_entries, received_entry, sent_entry, str_leb, created_at,
  finish, finish_all, open_peer, previous, restore_shell, populate,
}

str_leb_total : (a b : Str) → str_leb a b ≡ false → str_leb b a ≡ true
unfolding str_leb
str_leb_total [] b h = absurd (ground arith)
str_leb_total (x ∷ a) [] h = refl
str_leb_total (x ∷ a) (y ∷ b) h = ground (arith, str_leb_total a b)

str_leb_trans : (a b c : Str) → str_leb a b ≡ true → str_leb b c ≡ true → str_leb a c ≡ true
unfolding str_leb
str_leb_trans [] b c h k = refl
str_leb_trans (x ∷ a) [] c h k = absurd (ground arith)
str_leb_trans (x ∷ a) (y ∷ b) [] h k = absurd (ground arith)
str_leb_trans (x ∷ a) (y ∷ b) (z ∷ c) h k = ground (arith, str_leb_trans a b c)

str_leb-IsOrder : IsOrder str_leb
str_leb-IsOrder = record { total = str_leb_total; trans = str_leb_trans }

-- The messages that a conversation shows.
abbrev pub thread_of : Str → Dict Conversation → List Message
thread_of u conversations = elim (lookup u conversations) [
  | none ↦ []
  | some conversation ↦ conversation.messages
]

-- The messages of one peer as they are shown, in the order of the list.
pub shown_for : (Message → Result Entry) → Str → List Message → List Message
shown_for entry u [] = []
shown_for entry u (m ∷ ms) =
    let rest = shown_for entry u ms in
    elim (entry m) [ err e ↦ rest | ok x ↦ if str_eq x.0 u then x.1.1 ∷ rest else rest ]

pub shown_for-All :
    (P : Message → Type 0) (entry : Message → Result Entry) (u : Str)
    → ((m : Message) (x : Entry) → entry m ≡ ok x → P x.1.1)
    → (ms : List Message) → All P (shown_for entry u ms)
unfolding shown_for
shown_for-All P entry u each [] = tt
shown_for-All P entry u each (m ∷ ms) = first (entry m) (each m) (shown_for-All P entry u each ms)
  where
    put :
        (b : Bool) (x : Message) (rest : List Message)
        → P x
        → All P rest
        → All P (if b then x ∷ rest else rest)
    put true x rest p h = (p, h)
    put false x rest p h = h

    first :
        (r : Result Entry)
        → ((x : Entry) → r ≡ ok x → P x.1.1)
        → All P (shown_for entry u ms)
        → All P (elim r [
          | err e ↦ shown_for entry u ms
          | ok x ↦ if str_eq x.0 u then x.1.1 ∷ shown_for entry u ms else shown_for entry u ms
        ])
    first (err e) p h = h
    first (ok x) p h = put (str_eq x.0 u) x.1.1 (shown_for entry u ms) (p x refl) h

thread_of-add_entry :
    (x : Entry) (u : Str) (conversations : Dict Conversation)
    → thread_of u (add_entry x conversations) ≡ (
        if str_eq x.0 u
        then thread_of u conversations ++ (x.1.1 ∷ [])
        else thread_of u conversations)
unfolding add_entry
thread_of-add_entry (p, (name, m)) u conversations =
    let old =
      get_or (lookup p conversations)
        (record { name = name; messages = []; key_warning = false }) in
    let new = record old { messages = old.messages ++ (m ∷ []) } in
    ground (arith, lookup-insert p u new conversations, str_eq_iff p u)

thread_of-add_entries :
    (entry : Message → Result Entry) (u : Str) (ms : List Message)
    (conversations out : Dict Conversation)
    → add_entries entry ms conversations ≡ ok out
    → thread_of u out ≡ thread_of u conversations ++ shown_for entry u ms
unfolding add_entries shown_for
thread_of-add_entries entry u [] conversations out h =
    let e : conversations ≡ out = ground arith in
    rw (sym e) (sym (append-nil (thread_of u conversations)))
thread_of-add_entries entry u (m ∷ ms) conversations out h = elim (Result-cases (entry m)) [
  | inr (e, x) ↦ absurd (ground arith)
  | inl (p, x) ↦
      let later = thread_of-add_entries entry u ms (add_entry p conversations) out (ground arith) in
      ground (
        arith,
        later,
        thread_of-add_entry p u conversations,
        append_assoc (thread_of u conversations) (p.1.1 ∷ []) (shown_for entry u ms),
      )
]

-- The messages sorted by their times.
abbrev pub IsByTime : List Message → List Message → Type 0
IsByTime = IsSortOf str_leb created_at

sort_nil : sort_by str_leb created_at [] ≡ ok []
unfolding sort_by keyed sort_by_key
sort_nil = refl

IsByTime-nil : IsByTime [] []
IsByTime-nil = sort_by-IsSortOf str_leb str_leb-IsOrder created_at [] [] sort_nil

finish-IsByTime : (c c' : Conversation) → finish c ≡ ok c' → IsByTime c.messages c'.messages
unfolding finish
finish-IsByTime c c' h = elim (Result-cases (sort_by str_leb created_at c.messages)) [
  | inr (e, x) ↦ absurd (ground arith)
  | inl (ms, x) ↦
      let same : ms ≡ c'.messages = ground arith in
      subst (λ l. IsByTime c.messages l) same
        (sort_by-IsSortOf str_leb str_leb-IsOrder created_at c.messages ms x)
]

nothing_there : (u : Str) → IsByTime (thread_of u []) (thread_of u [])
unfolding lookup
nothing_there u = IsByTime-nil

thread_of-head :
    (u p : Str) (c : Conversation) (rest : Dict Conversation)
    → thread_of u ((p, c) ∷ rest) ≡ (if str_eq p u then c.messages else thread_of u rest)
unfolding lookup
thread_of-head u p c rest = ground arith

at_head :
    (u p : Str) (c c' : Conversation) (rest others : Dict Conversation)
    → IsByTime c.messages c'.messages
    → IsByTime (thread_of u rest) (thread_of u others)
    → IsByTime (thread_of u ((p, c) ∷ rest)) (thread_of u ((p, c') ∷ others))
at_head u p c c' rest others here there =
    rw (thread_of-head u p c rest) (rw (thread_of-head u p c' others) (either (str_eq p u)))
  where
    either :
        (b : Bool)
        → IsByTime
            (if b then c.messages else thread_of u rest)
            (if b then c'.messages else thread_of u others)
    either true = here
    either false = there

finish_all-IsByTime :
    (u : Str) (conversations out : Dict Conversation)
    → finish_all conversations ≡ ok out
    → IsByTime (thread_of u conversations) (thread_of u out)
unfolding finish_all
finish_all-IsByTime u [] out h = let e : [] ≡ out = ground arith in rw (sym e) (nothing_there u)
finish_all-IsByTime u ((p, c) ∷ rest) out h = elim (Result-cases (finish c)) [
  | inr (e, x) ↦ absurd (ground arith)
  | inl (c', x) ↦ elim (Result-cases (finish_all rest)) [
    | inr (e, y) ↦ absurd (ground arith)
    | inl (others, y) ↦
        let same : (p, c') ∷ others ≡ out = ground arith in
        rw (sym same) (
          at_head u p c c' rest others (finish-IsByTime c c' x)
            (finish_all-IsByTime u rest others y))
  ]
]

thread_of-restore_shell :
    (u : Str) (peer : Option Str) (prev : Option Conversation) (conversations : Dict Conversation)
    → thread_of u (restore_shell peer prev conversations) ≡ thread_of u conversations
unfolding restore_shell
thread_of-restore_shell u none prev conversations = refl
thread_of-restore_shell u (some p) none conversations = refl
thread_of-restore_shell u (some p) (some c) conversations =
    ground (arith, lookup-insert p u (record c { messages = [] }) conversations, str_eq_iff p u)

received_first :
    (u : Str) (inbox : List Message) (received : Dict Conversation)
    → add_entries received_entry inbox [] ≡ ok received
    → thread_of u received ≡ shown_for received_entry u inbox
unfolding lookup
received_first u inbox received h = thread_of-add_entries received_entry u inbox [] received h

-- Where `_populate` does not raise: the conversation with a peer shows exactly the received
-- messages that name this peer as their sender and the sent ones that name it as their recipient,
-- each as often as the server returned it, none that was shown before and is not returned any more,
-- in the order of their times, and those of one time in the order in which they were returned, the
-- received ones first.
pub populate-IsByTime :
    (active_peer : Option Str) (old : Dict Conversation) (cache : Dict Str)
    (inbox sent : List Message) (u : Str) (out : Dict Conversation) (redrawn : Bool)
    → populate active_peer old cache inbox sent ≡ ok (out, redrawn)
    → IsByTime
        (shown_for received_entry u inbox ++ shown_for (sent_entry cache) u sent)
        (thread_of u out)
unfolding populate
populate-IsByTime active_peer old cache inbox sent u out redrawn h =
    elim (Result-cases (add_entries received_entry inbox [])) [
      | inr (e, x) ↦ absurd (ground arith)
      | inl (received, x) ↦ elim (Result-cases (add_entries (sent_entry cache) sent received)) [
        | inr (e, y) ↦ absurd (ground arith)
        | inl (both, y) ↦ elim (Result-cases (finish_all both)) [
          | inr (e, z) ↦ absurd (ground arith)
          | inl (sorted, z) ↦
              let peer = open_peer active_peer in
              let prev = previous peer old in
              let shown : restore_shell peer prev sorted ≡ out = ground arith in
              let after : thread_of u out ≡ thread_of u sorted =
                ap (thread_of u) (sym shown) ∙ thread_of-restore_shell u peer prev sorted in
              let before : thread_of u both
                  ≡ shown_for received_entry u inbox ++ shown_for (sent_entry cache) u sent =
                thread_of-add_entries (sent_entry cache) u sent received both y
                ∙ ap (λ l. l ++ shown_for (sent_entry cache) u sent)
                    (received_first u inbox received x) in
              subst (λ l. IsByTime l (thread_of u out)) before
                (subst (λ l. IsByTime (thread_of u both) l) (sym after)
                  (finish_all-IsByTime u both sorted z))
        ]
      ]
    ]
