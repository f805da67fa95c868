-- ===== src/Services/KeyService/Publishing.antt =====
-- What `publish_own_keys` of client/src/services/key_service.py sends.
use mathlib.Core.Path.{subst}
use mathlib.Core.List.{append-nil, append_assoc}
use cs4455_epic.Base.{
  ◌≡◌, refl, arith, true, some, List, [], ◌∷◌, ◌++◌, All, All-append, All-mono, Option-cases, ◌∙◌,
  ap, sym,
}
use cs4455_epic.Base.Dict.{Dict, lookup}
use cs4455_epic.Base.Text.{Str, lit}
use cs4455_epic.Errors.{Result, ok, err}
use cs4455_epic.Json.{Json, str, bool, obj, obj_of}
use cs4455_epic.Env.{Env, Request, post}
use cs4455_epic.Py.{State, Py, pure, lift, ◌>>=◌, ◌>>◌}
use cs4455_epic.Crypto.Wire.{item}
use cs4455_epic.Keystore.{public_keys}
use cs4455_epic.Keystore.Files.{load}
use cs4455_epic.Keystore.Loading.{load_state}
use cs4455_epic.Services.Growth.Parts.{IsSame}
use cs4455_epic.Api.Client.{build_request, request, post_path}
use cs4455_epic.Api.Endpoints as Api
use cs4455_epic.Services.KeyService.{publish_key, publish_own_keys}

-- The body of the publication of a key.
abbrev pub publication : Str → Str → Json
publication public_key key_type = obj (
    obj_of (
      (lit "publicKey", str public_key)
      ∷ (lit "keyType", str key_type)
      ∷ (lit "acknowledgeRotation", bool true)
      ∷ []))

-- The request publishes one of these keys.
pub record IsKeyOf (keys : Dict Str) (r : Request) : Type 0 where
  pub key_type : Str
  pub public_key : Str
  pub one_of_them : lookup key_type keys ≡ some public_key
  pub body : r.json ≡ some (publication public_key key_type)

-- Where requests were sent on the way from `s` to `t`, they publish these keys.
abbrev Sent : Dict Str → State → State → Type 0
Sent keys s t = (new : List Request) × (t.requests ≡ s.requests ++ new) × All (IsKeyOf keys) new

-- An action that sends nothing but these keys, and changes no file.
record Sending {A : Type 0} (keys : Dict Str) (m : Py A) : Type 0 where
  at : (s : State) → IsSame s (m s).1 × Sent keys s (m s).1

Sent-trans : (keys : Dict Str) (s t u : State) → Sent keys s t → Sent keys t u → Sent keys s u
Sent-trans keys s t u (a, x, p) (b, y, q) = (
  a ++ b,
  y ∙ ap (λ r. r ++ b) x ∙ append_assoc s.requests a b,
  All-append (IsKeyOf keys) a b p q,
)

module _ {A : Type 0} (keys : Dict Str) where
  Sending-pure : (a : A) → Sending keys (pure a)
  Sending-pure a = record { at = λ s. ((refl, refl), ([], sym (append-nil s.requests), tt)) }

  Sending-lift : (r : Result A) → Sending keys (lift r)
  Sending-lift r = record { at = λ s. ((refl, refl), ([], sym (append-nil s.requests), tt)) }

module _ {A B : Type 0} (keys : Dict Str) where
  Sending-then :
      (r : Result A) (f : A → Py B) (s t : State)
      → ((a : A) → Sending keys (f a))
      → IsSame s t × Sent keys s t
      → IsSame s ((lift r >>= f) t).1 × Sent keys s ((lift r >>= f) t).1
  Sending-then (ok a) f s t g (same, sent) =
      let (same', sent') = (g a).at t in ((cc, cc), Sent-trans keys s t (f a t).1 sent sent')
  Sending-then (err e) f s t g h = h

  Sending-bind :
      (m : Py A) (f : A → Py B)
      → Sending keys m
      → ((a : A) → Sending keys (f a))
      → Sending keys (m >>= f)
  Sending-bind m f q g = record { at = λ s. Sending-then (m s).0 f s (m s).1 g (q.at s) }

public_keys-same : (s t : State) → IsSame s t → (public_keys t).0 ≡ (public_keys s).0
unfolding public_keys load
public_keys-same s t same = ground arith

public_keys_state : (s : State) → (public_keys s).1 ≡ s
unfolding public_keys
public_keys_state s = ground (arith, load_state s)

-- Where requests were sent on the way from `s` to `t`, they publish the keys of the keystore file
-- that `t` has.
abbrev pub Published : State → State → Type 0
Published s t =
    (new : List Request) × (t.requests ≡ s.requests ++ new)
    × (All (λ r. (keys : Dict Str) × ((public_keys t).0 ≡ ok keys) × IsKeyOf keys r) new)

module _ (E : Env) where
  publish-Sending :
      (keys : Dict Str) (key_type public_key : Str)
      → lookup key_type keys ≡ some public_key
      → Sending keys (Api.publish E public_key key_type true)
  unfolding Api.publish post_path request build_request
  publish-Sending keys key_type public_key there = record {
    at = λ s.
        let req =
          build_request E post (lit "/api/keys") [] [] (some (publication public_key key_type)) s in
        let is_key : IsKeyOf keys req = record {
          key_type = key_type;
          public_key = public_key;
          one_of_them = there;
          body = refl;
        } in
        ((refl, refl), (req ∷ [], refl, (is_key, tt)));
  }

  publish_found :
      (keys : Dict Str) (key_type : Str) (r : Result Str)
      → item key_type keys ≡ r
      → Sending keys (lift r >>= λ public_key. Api.publish E public_key key_type true)
  unfolding item
  publish_found keys key_type (err e) same = Sending-lift keys (err e)
  publish_found keys key_type (ok public_key) same =
      publish-Sending keys key_type public_key (ground (arith, Option-cases (lookup key_type keys)))

  publish_key-Sending :
      (keys : Dict Str) (key_type : Str) → Sending keys (publish_key E keys key_type)
  unfolding publish_key
  publish_key-Sending keys key_type = publish_found keys key_type (item key_type keys) refl

  publish_both : Dict Str → Py (Unit {0})
  publish_both keys =
      publish_key E keys (lit "x25519") >> (publish_key E keys (lit "ed25519") >> pure tt)

  publish_both-Sending : (keys : Dict Str) → Sending keys (publish_both keys)
  unfolding publish_both
  publish_both-Sending keys = search (Sending-bind, Sending-pure, publish_key-Sending) depth 20

  published :
      (r : Result (Dict Str)) (s : State)
      → public_keys s ≡ (r, s)
      → Published s ((lift r >>= publish_both) s).1
  published (err e) s same = ([], sym (append-nil s.requests), tt)
  published (ok keys) s same =
      let (kept, (new, more, all)) = (publish_both-Sending keys).at s in
      let t = (publish_both keys s).1 in
      let still : (public_keys t).0 ≡ ok keys = cc (same, public_keys-same s t kept) in
      (new, more, All-mono _ _ (λ r is_key. (keys, still, is_key)) new all)

  pub publish_own_keys-Published : (s : State) → Published s (publish_own_keys E s).1
  unfolding publish_own_keys publish_both
  publish_own_keys-Published s =
      let here : public_keys s ≡ ((public_keys s).0, s) =
        λ i. ((public_keys s).0, public_keys_state s i) in
      subst
        (λ p.
          Published s ((λ (m : Result (Dict Str) × State). (lift m.0 >>= publish_both) m.1) p).1)
        (sym here) (published (public_keys s).0 s here)
