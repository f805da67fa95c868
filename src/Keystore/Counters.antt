-- ===== src/Keystore/Counters.antt =====
-- The sequence counters of client/src/crypto/keystore.py: `next_send_seq`, `last_recv_seq` and
-- `set_recv_seq`.
use cs4455_epic.Base.{ℕ, zero, suc, ◌≡◌, refl, some, List, [], ◌∷◌, arith, if◌then◌else◌}
use cs4455_epic.Base.Int.{ℤ, pos, suc_ℤ}
use cs4455_epic.Base.Dict.{lookup, insert, lookup-insert, get_or}
use cs4455_epic.Base.Text.{Str, str_eq, str_eq_iff}
use cs4455_epic.Errors.{Result, ok, err}
use cs4455_epic.Env.{Env}
use cs4455_epic.Py.{FileData, State}
use cs4455_epic.Keystore.{next_send_seq, last_recv_seq, set_recv_seq}
use cs4455_epic.Keystore.Atomic.{save_frame}
use cs4455_epic.Keystore.Loading.{Holds, Holds-version, Holds-save}

-- The last number that a file records as sent to a recipient.
abbrev pub sent_count : Str → FileData → ℤ
sent_count r d = get_or (lookup r (get_or d.seq_send [])) (pos 0)

abbrev pub with_sent : Str → FileData → FileData
with_sent r d = record d {
  seq_send = some (insert r (suc_ℤ (sent_count r d)) (get_or d.seq_send []));
}

abbrev pub with_recv : Str → ℤ → FileData → FileData
with_recv r n d = record d { seq_recv = some (insert r n (get_or d.seq_recv [])) }

module _ (E : Env) (r : Str) (s : State) (d : FileData) (holds : Holds s d) where
  -- The counter's next value is returned, and stored.
  pub next_send_seq-ok :
      ((next_send_seq E r s).0 ≡ ok (suc_ℤ (sent_count r d)))
      × Holds (next_send_seq E r s).1 (with_sent r d)
  unfolding next_send_seq
  next_send_seq-ok = (
    ground (arith, save_frame E (with_sent r d) s),
    ground (arith, Holds-save E (with_sent r d) s (Holds-version s d holds)),
  )

  pub set_recv_seq-ok :
      (n : ℤ)
      → ((set_recv_seq E r n s).0 ≡ ok tt) × Holds (set_recv_seq E r n s).1 (with_recv r n d)
  unfolding set_recv_seq
  set_recv_seq-ok n = (
    ground (arith, save_frame E (with_recv r n d) s),
    ground (arith, Holds-save E (with_recv r n d) s (Holds-version s d holds)),
  )

  -- After the number of a sender was set, exactly that sender answers with it; the others answer
  -- as before.
  pub last_recv_seq-set :
      (n : ℤ) (v : Str)
      → (last_recv_seq v (set_recv_seq E r n s).1).0
        ≡ (if str_eq r v then ok (some n) else (last_recv_seq v s).0)
  unfolding last_recv_seq
  last_recv_seq-set n v =
      ground (arith, (set_recv_seq-ok n).1, lookup-insert r v n (get_or d.seq_recv []))

pub sent_count-with_sent :
    (x r : Str) (d : FileData)
    → sent_count r (with_sent x d) ≡ (if str_eq x r then suc_ℤ (sent_count r d) else sent_count r d)
sent_count-with_sent x r d =
    ground
      (arith, lookup-insert x r (suc_ℤ (sent_count x d)) (get_or d.seq_send []), str_eq_iff x r)

abbrev add_result : Result ℤ → List ℤ → List ℤ
add_result (ok n) ns = n ∷ ns
add_result (err e) ns = ns

-- The numbers that `r` gets when `next_send_seq` runs for each recipient of a list in turn.
pub numbers : Env → Str → List Str → State → List ℤ
numbers E r [] s = []
numbers E r (x ∷ xs) s =
    let rest = numbers E r xs (next_send_seq E x s).1 in
    if str_eq x r then add_result (next_send_seq E x s).0 rest else rest

-- `n + 1`, `n + 2`, and so on.
pub count_from : ℕ → ℤ → List ℤ
count_from zero n = []
count_from (suc k) n = suc_ℤ n ∷ count_from k (suc_ℤ n)

pub occurrences : Str → List Str → ℕ
occurrences r [] = 0
occurrences r (x ∷ xs) = let rest = occurrences r xs in if str_eq x r then suc rest else rest

-- Where the keystore's file can be loaded: however the sends to several recipients are mixed, the
-- numbers that one recipient gets are consecutive and begin one above the number that the file
-- records for it: none is used twice and none is left out.
pub numbers_consecutive :
    (E : Env) (r : Str) (xs : List Str) (s : State) (d : FileData)
    → Holds s d
    → numbers E r xs s ≡ count_from (occurrences r xs) (sent_count r d)
unfolding numbers count_from occurrences
numbers_consecutive E r [] s d h = refl
numbers_consecutive E r (x ∷ xs) s d h =
    let (given, held) = next_send_seq-ok E x s d h in
    ground (
      arith,
      given,
      numbers_consecutive E r xs (next_send_seq E x s).1 (with_sent x d) held,
      sent_count-with_sent x r d,
      str_eq_iff x r,
    )
