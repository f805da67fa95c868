-- ===== src/Config/Paths.antt =====
-- `keystore_path_for` of client/src/config.py: which accounts share a keystore.
use cs4455_epic.Base.{
  ◌≡◌, ◌≢◌, ◌↔◌, refl, ap, sym, ◌∙◌, true, [], ◌∷◌, ◌++◌, map, arith, All, append_cancel,
}
use cs4455_epic.Base.Text.{Str, lit, strip}
use cs4455_epic.Env.{Env}
use cs4455_epic.Config.{is_safe, safe_char, or_default, safe_name, keystore_path_for, folder}

map-safe : (s : Str) → All (λ c. is_safe c ≡ true) (map safe_char s)
map-safe [] = tt
map-safe (c ∷ s) = (ground arith, map-safe s)

or_default_nonempty : (s : Str) → s ≢ [] → or_default s ≡ s
unfolding or_default
or_default_nonempty [] h = absurd (h refl)
or_default_nonempty (c ∷ s) h = refl

or_default_safe :
    (s : Str)
    → All (λ c. is_safe c ≡ true) s
    → All (λ c. is_safe c ≡ true) (or_default s) × (or_default s ≢ [])
unfolding or_default
or_default_safe [] h = (map-safe (lit "default"), λ e. ground arith)
or_default_safe (c ∷ s) h = (h, λ e. ground arith)

-- A name of safe characters alone is kept.
map-safe_id : (s : Str) → All (λ c. is_safe c ≡ true) s → map safe_char s ≡ s
map-safe_id [] h = refl
map-safe_id (c ∷ s) h = ground (arith, h.0, map-safe_id s h.1)

module _ (E : Env) where
  -- A user name that sanitising has nothing to do on.
  pub record IsCanonical (username : Str) : Type 0 where
    pub lowered : E.lower (strip username) ≡ username
    pub safe : All (λ c. is_safe c ≡ true) username
    pub nonempty : username ≢ []

  safe_name_canonical : (u : Str) → IsCanonical u → safe_name E u ≡ u
  unfolding safe_name
  safe_name_canonical u c =
      let e : map safe_char (E.lower (strip u)) ≡ u =
        ap (map safe_char) c.lowered ∙ map-safe_id u c.safe in
      rw e (or_default_nonempty u c.nonempty)

  -- Whatever the user name is, the directory of its keystore has a name of lower-case ASCII letters,
  -- digits, `_` and `-`, with at least one character: it holds no `/` and no `.`.
  pub safe_name_safe :
      (username : Str)
      → All (λ c. is_safe c ≡ true) (safe_name E username) × (safe_name E username ≢ [])
  unfolding safe_name
  safe_name_safe username =
      or_default_safe (map safe_char (E.lower (strip username)))
        (map-safe (E.lower (strip username)))

  append_left : (p x y : Str) → p ++ x ≡ p ++ y → x ≡ y
  append_left [] x y h = h
  append_left (c ∷ p) x y h = append_left p x y (ground arith)

  -- Two accounts have the same keystore exactly when their sanitised names are the same.
  pub keystore_path_for_iff :
      (dir file u v : Str)
      → (keystore_path_for E dir file u ≡ keystore_path_for E dir file v)
        ↔ (safe_name E u ≡ safe_name E v)
  unfolding keystore_path_for
  keystore_path_for_iff dir file u v =
      (λ h. (append_cancel _ _ _ _ refl (append_left (folder dir) _ _ h)).0, λ h. rw h refl)

  -- Two accounts with different canonical names, such as the lower-case names that the server
  -- takes, have different keystores.
  pub keystore_paths_apart :
      (dir file u v : Str)
      → IsCanonical u
      → IsCanonical v
      → u ≢ v
      → keystore_path_for E dir file u ≢ keystore_path_for E dir file v
  keystore_paths_apart dir file u v cu cv apart same = apart (
      sym (safe_name_canonical u cu)
      ∙ (keystore_path_for_iff dir file u v).0 same
      ∙ safe_name_canonical v cv)
