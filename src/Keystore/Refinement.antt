-- ===== src/Keystore/Refinement.antt =====
-- What the pins and counters of client/src/crypto/keystore.py promise, without the file: a book of
-- three functions.
use cs4455_epic.Base.{
  ◌≡◌, refl, sym, ap, ap₂, ◌&&◌, Option, some, List, [], ◌∷◌, map, arith, if◌then◌else◌,
}
use cs4455_epic.Base.Int.{ℤ, suc_ℤ}
use cs4455_epic.Base.Dict.{lookup, lookup-insert, get_or}
use cs4455_epic.Base.Text.{Str, str_eq, str_eq_iff}
use cs4455_epic.Errors.{Result, ok}
use cs4455_epic.Env.{Env}
use cs4455_epic.Py.{FileData, State, Py, pure, ◌>>=◌, ◌>>◌}
use cs4455_epic.Keystore.{
  pin_of, pin_peer_key, pinned_peer_key, next_send_seq, last_recv_seq, set_recv_seq,
}
use cs4455_epic.Keystore.Atomic.{save_frame}
use cs4455_epic.Keystore.Loading.{Holds}
use cs4455_epic.Keystore.Pins.{with_pin, pin_of-with_pin, Holds-pin_peer_key, pin_peer_key-eq}
use cs4455_epic.Keystore.Counters.{
  sent_count, with_sent, with_recv, next_send_seq-ok, set_recv_seq-ok, sent_count-with_sent,
}

pub record Book : Type 0 where
  pub pins : Str → Str → Option Str
  pub sent : Str → ℤ
  pub received : Str → Option ℤ

-- A call, with its arguments.
pub data Call : Type 0 where
  pin : Str → Str → Str → Call
  pinned : Str → Str → Call
  next : Str → Call
  last : Str → Call
  set_last : Str → ℤ → Call

-- What a call returns.
pub data Answer : Type 0 where
  nothing : Answer
  key : Option Str → Answer
  number : ℤ → Answer
  last_number : Option ℤ → Answer

unfoldable pub book_call : Call → Book → Answer × Book
book_call (pin u k p) b =
    (nothing, record b { pins = λ v kt. if str_eq u v && str_eq k kt then some p else b.pins v kt })
book_call (pinned u k) b = (key (b.pins u k), b)
book_call (next r) b =
    let n = suc_ℤ (b.sent r) in
    (number n, record b { sent = λ x. if str_eq r x then n else b.sent x })
book_call (last u) b = (last_number (b.received u), b)
book_call (set_last u n) b =
    (nothing, record b { received = λ v. if str_eq u v then some n else b.received v })

unfoldable pub book_answers : List Call → Book → List Answer
unfolding book_call
book_answers [] b = []
book_answers (c ∷ cs) b = (book_call c b).0 ∷ book_answers cs (book_call c b).1

module _ (E : Env) where
  unfoldable pub keystore_call : Call → Py Answer
  keystore_call (pin u k p) = do pin_peer_key E u k p; pure nothing
  keystore_call (pinned u k) = do p ← pinned_peer_key u k; pure (key p)
  keystore_call (next r) = do n ← next_send_seq E r; pure (number n)
  keystore_call (last u) = do n ← last_recv_seq u; pure (last_number n)
  keystore_call (set_last u n) = do set_recv_seq E u n; pure nothing

  unfoldable pub keystore_answers : List Call → State → List (Result Answer)
  unfolding keystore_call
  keystore_answers [] s = []
  keystore_answers (c ∷ cs) s = (keystore_call c s).0 ∷ keystore_answers cs (keystore_call c s).1

-- The book that a file holds. It forgets the order of the entries and the rest of the file.
abbrev pub book_of : FileData → Book
book_of d = record {
  pins = λ v kt. pin_of v kt d;
  sent = λ r. sent_count r d;
  received = λ v. lookup v (get_or d.seq_recv []);
}

book_of-with_pin :
    (u k p : Str) (d : FileData)
    → book_of (with_pin u k p d) ≡ (book_call (pin u k p) (book_of d)).1
unfolding book_call
book_of-with_pin u k p d = λ i. record (book_of d) { pins = λ v kt. pin_of-with_pin u k p v kt d i }

book_of-with_sent :
    (r : Str) (d : FileData) → book_of (with_sent r d) ≡ (book_call (next r) (book_of d)).1
unfolding book_call
book_of-with_sent r d =
    let at : (x : Str)
        → sent_count x (with_sent r d)
          ≡ (if str_eq r x then suc_ℤ (sent_count r d) else sent_count x d) =
      λ x. ground (arith, sent_count-with_sent r x d, str_eq_iff r x) in
    λ i. record (book_of d) { sent = λ x. at x i }

book_of-with_recv :
    (u : Str) (n : ℤ) (d : FileData)
    → book_of (with_recv u n d) ≡ (book_call (set_last u n) (book_of d)).1
unfolding book_call
book_of-with_recv u n d =
    λ i. record (book_of d) { received = λ v. lookup-insert u v n (get_or d.seq_recv []) i }

module _ (E : Env) (s : State) (d : FileData) (holds : Holds s d) where
  -- One call answers as the book does, and leaves a file that holds the book's next state.
  abbrev Simulates : Call → Type 0
  Simulates c =
      ((keystore_call E c s).0 ≡ ok (book_call c (book_of d)).0)
      × (d' : FileData) × Holds (keystore_call E c s).1 d'
      × (book_of d' ≡ (book_call c (book_of d)).1)

  module _ {A : Type 0} (m : Py A) (a : A) (d' : FileData) (given : (m s).0 ≡ ok a)
      (held : Holds (m s).1 d') where
    answered :
        (f : A → Answer)
        → (((m >>= λ x. pure (f x)) s).0 ≡ ok (f a)) × Holds ((m >>= λ x. pure (f x)) s).1 d'
    answered f = ground arith

    answered_nothing : (((m >> pure nothing) s).0 ≡ ok nothing) × Holds ((m >> pure nothing) s).1 d'
    answered_nothing = ground arith

  pin_peer_key-ok : (u k p : Str) → (pin_peer_key E u k p s).0 ≡ ok tt
  pin_peer_key-ok u k p =
      ground (arith, pin_peer_key-eq E u k p s d holds, save_frame E (with_pin u k p d) s)

  pinned_peer_key-read : (u k : Str) → pinned_peer_key u k s ≡ (ok (pin_of u k d), s)
  unfolding pinned_peer_key
  pinned_peer_key-read u k = ground arith

  last_recv_seq-read : (u : Str) → last_recv_seq u s ≡ (ok ((book_of d).received u), s)
  unfolding last_recv_seq
  last_recv_seq-read u = ground arith

  call-Simulates : (c : Call) → Simulates c
  unfolding keystore_call book_call
  call-Simulates (pin u k p) =
      let d' = with_pin u k p d in
      let (same, held) =
        answered_nothing (pin_peer_key E u k p) tt d' (pin_peer_key-ok u k p)
          (Holds-pin_peer_key E u k p s d holds) in
      (same, d', held, book_of-with_pin u k p d)
  call-Simulates (pinned u k) =
      let (same, held) =
        answered (pinned_peer_key u k) (pin_of u k d) d (ap (λ q. q.0) (pinned_peer_key-read u k))
          (rw (pinned_peer_key-read u k) holds) key in
      (same, d, held, refl)
  call-Simulates (next r) =
      let (given, kept) = next_send_seq-ok E r s d holds in
      let (same, held) =
        answered (next_send_seq E r) (suc_ℤ (sent_count r d)) (with_sent r d) given kept number in
      (same, with_sent r d, held, book_of-with_sent r d)
  call-Simulates (last u) =
      let (same, held) =
        answered (last_recv_seq u) ((book_of d).received u) d (ap (λ q. q.0) (last_recv_seq-read u))
          (rw (last_recv_seq-read u) holds) last_number in
      (same, d, held, refl)
  call-Simulates (set_last u n) =
      let (given, kept) = set_recv_seq-ok E u s d holds n in
      let (same, held) = answered_nothing (set_recv_seq E u n) tt (with_recv u n d) given kept in
      (same, with_recv u n d, held, book_of-with_recv u n d)

-- Where the keystore's file can be loaded: any sequence of calls of `pin_peer_key`,
-- `pinned_peer_key`, `next_send_seq`, `last_recv_seq` and `set_recv_seq` gives the answers that the
-- book of the file gives, and no call raises.
pub keystore_refines_book :
    (E : Env) (calls : List Call) (s : State) (d : FileData)
    → Holds s d
    → keystore_answers E calls s ≡ map ok (book_answers calls (book_of d))
unfolding keystore_answers book_answers
keystore_refines_book E [] s d h = refl
keystore_refines_book E (c ∷ cs) s d h =
    let (same, d', held, book) = call-Simulates E s d h c in
    let later = keystore_refines_book E cs (keystore_call E c s).1 d' held in
    ap₂ (λ a rest. a ∷ rest) same (rw (sym book) later)
