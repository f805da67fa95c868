-- ===== src/Crypto/Messaging/Encoding.antt =====
-- `build_aad` and `signed_payload` of client/src/crypto/messaging.py: `|` separates the fields.
use mathlib.Core.List.{append_assoc}
use cs4455_epic.Base.{
  ℕ, suc, ◌<◌, ◌≡◌, ◌≢◌, sym, ap, ◌∙◌, [], ◌∷◌, ◌++◌, arith, All, All-mono, All-append, length,
  append_cancel,
}
use cs4455_epic.Base.Int.{ℤ}
use cs4455_epic.Base.Text.{Str, Bytes}
use cs4455_epic.Codec.Utf8.{encode_ascii}
use cs4455_epic.Codec.Decimal.{show_ℤ, show_ℤ_injective, show_ℤ-IsDecimal, IsDecimal}
use cs4455_epic.Crypto.Messaging.{build_aad, signed_payload}

-- A character of an ASCII text without the delimiter, such as a UUID.
abbrev pub IsPlain : ℕ → Type 0
IsPlain c = (c < 128) × (c ≢ 124)

show_ℤ-IsPlain : (i : ℤ) → All IsPlain (show_ℤ i)
show_ℤ-IsPlain i =
    All-mono IsDecimal IsPlain (λ c d. (omega arith, omega arith)) (show_ℤ i) (show_ℤ-IsDecimal i)

-- The first `|` splits a text in one way.
split_at_bar :
    (a b x y : Str)
    → All IsPlain a
    → All IsPlain b
    → a ++ (124 ∷ x) ≡ b ++ (124 ∷ y)
    → (a ≡ b) × (x ≡ y)
split_at_bar [] [] x y p q h = ground arith
split_at_bar [] (c ∷ b) x y p q h = ground arith
split_at_bar (c ∷ a) [] x y p q h = ground arith
split_at_bar (c ∷ a) (d ∷ b) x y p q h = ground (arith, split_at_bar a b x y p.1 q.1)

plain_ascii : (s : Str) → All IsPlain s → All (λ c. c < 128) s
plain_ascii s h = All-mono IsPlain (λ c. c < 128) (λ c p. p.0) s h

-- A field with the delimiter before the rest.
with_bar :
    (a rest : Str)
    → All IsPlain a
    → All (λ c. c < 128) rest
    → All (λ c. c < 128) (a ++ (124 ∷ rest))
with_bar a rest p q = All-append (λ c. c < 128) a (124 ∷ rest) (plain_ascii a p) (omega arith, q)

module _ (s r s' r' : Str) (i i' : ℤ) (ps : All IsPlain s) (pr : All IsPlain r)
    (ps' : All IsPlain s') (pr' : All IsPlain r') where
  -- Messages whose ids are ASCII and hold no `|` have the same associated data only if sender,
  -- recipient and sequence number are the same.
  pub build_aad_injective : build_aad s r i ≡ build_aad s' r' i' → (s ≡ s') × (r ≡ r') × (i ≡ i')
  unfolding build_aad
  build_aad_injective h =
      let flat =
        sym
          (encode_ascii _ (with_bar s _ ps (with_bar r _ pr (plain_ascii _ (show_ℤ-IsPlain i))))) in
      let flat' =
        encode_ascii _
          (with_bar s' _ ps' (with_bar r' _ pr' (plain_ascii _ (show_ℤ-IsPlain i')))) in
      let first = split_at_bar s s' _ _ ps ps' (flat ∙ h ∙ flat') in
      let second = split_at_bar r r' _ _ pr pr' first.1 in
      (first.0, second.0, show_ℤ_injective i i' second.1)

module _ (s r : Str) (ps : All IsPlain s) (pr : All IsPlain r) where
  header_plain : (i : ℤ) → All (λ c. c < 128) (s ++ (124 ∷ (r ++ (124 ∷ (show_ℤ i ++ (124 ∷ []))))))
  header_plain i = with_bar s _ ps (with_bar r _ pr (with_bar (show_ℤ i) [] (show_ℤ-IsPlain i) tt))

module _ (s r : Str) (i : ℤ) (ciphertext nonce : Bytes) (ps : All IsPlain s)
    (pr : All IsPlain r) where
  -- The signed bytes as one list, field by field.
  signed_payload_flat :
      signed_payload s r i ciphertext nonce
      ≡ s ++ (124 ∷ (r ++ (124 ∷ (show_ℤ i ++ (124 ∷ (ciphertext ++ (124 ∷ nonce)))))))
  unfolding signed_payload
  signed_payload_flat =
      ap (λ h. h ++ (ciphertext ++ (124 ∷ nonce))) (encode_ascii _ (header_plain s r ps pr i))
      ∙ simp append_assoc

module _ (s r s' r' : Str) (i i' : ℤ) (ciphertext nonce ciphertext' nonce' : Bytes)
    (ps : All IsPlain s) (pr : All IsPlain r) (ps' : All IsPlain s') (pr' : All IsPlain r') where
  -- For ids that are ASCII and hold no `|`, and nonces of one length, two messages have the same
  -- signed bytes only if they agree in sender, recipient, sequence number, ciphertext and nonce.
  pub signed_payload_injective :
      length nonce ≡ length nonce'
      → signed_payload s r i ciphertext nonce ≡ signed_payload s' r' i' ciphertext' nonce'
      → (s ≡ s') × (r ≡ r') × (i ≡ i') × (ciphertext ≡ ciphertext') × (nonce ≡ nonce')
  signed_payload_injective same h =
      let flat = sym (signed_payload_flat s r i ciphertext nonce ps pr) in
      let flat' = signed_payload_flat s' r' i' ciphertext' nonce' ps' pr' in
      let first = split_at_bar s s' _ _ ps ps' (flat ∙ h ∙ flat') in
      let second = split_at_bar r r' _ _ pr pr' first.1 in
      let third =
        split_at_bar (show_ℤ i) (show_ℤ i') _ _ (show_ℤ-IsPlain i) (show_ℤ-IsPlain i') second.1 in
      let last =
        append_cancel ciphertext ciphertext' (124 ∷ nonce) (124 ∷ nonce') (ap suc same) third.1 in
      (first.0, second.0, show_ℤ_injective i i' third.0, last.0, ground (arith, last.1))
