-- ===== src/Ui/Archive/Rekeying.antt =====
-- `rekey_archive` of client/src/ui/message_frame.py.
use cs4455_epic.Base.{
  zero, suc, ◌∙◌, ◌≢◌, ◌≡◌, ◌↔◌, ◌⊎◌, inl, inr, true, false, Bool-cases, Option-cases, some, none,
  arith, sym,
}
use cs4455_epic.Base.Int.{ℤ, pos, negsuc}
use cs4455_epic.Base.Text.{Str}
use cs4455_epic.Errors.{ok}
use cs4455_epic.Ui.Archive.{System, resolve_store_binary, outcome_of, needs_rekey, rekey_archive}

module _ (T : System) (archive old_key new_key : Str) where
  -- The store's binary was found, and changed the key with exit code 0.
  pub record IsRekeyed : Type 0 where
    pub binary : Str
    pub found : resolve_store_binary T ≡ some binary
    pub succeeded : (T.rekey binary archive old_key new_key).0 ≡ pos 0

  outcome_of-ok : (r : ℤ × Str) → (outcome_of T r ≡ ok tt) ↔ (r.0 ≡ pos 0)
  unfolding outcome_of
  outcome_of-ok (pos zero, text) = (λ h. ground arith, λ h. ground arith)
  outcome_of-ok (pos (suc n), text) = (λ h. ground arith, λ h. ground arith)
  outcome_of-ok (negsuc n, text) = (λ h. ground arith, λ h. ground arith)

  not_needed :
      needs_rekey T archive old_key new_key ≡ false
      → rekey_archive T archive old_key new_key ≡ ok tt
  unfolding rekey_archive
  not_needed h = ground arith

  module _ (needed : needs_rekey T archive old_key new_key ≡ true) where
    missing : resolve_store_binary T ≡ none → rekey_archive T archive old_key new_key ≢ ok tt
    unfolding rekey_archive
    missing h = ground arith

    ran :
        (binary : Str)
        → resolve_store_binary T ≡ some binary
        → rekey_archive T archive old_key new_key
          ≡ outcome_of T (T.rekey binary archive old_key new_key)
    unfolding rekey_archive
    ran binary h = ground arith

    rekeyed_of_ok : rekey_archive T archive old_key new_key ≡ ok tt → IsRekeyed
    rekeyed_of_ok h = elim (Option-cases (resolve_store_binary T)) [
      | inl absent ↦ absurd (missing absent h)
      | inr (binary, there) ↦ record {
        binary = binary;
        found = there;
        succeeded =
            (outcome_of-ok (T.rekey binary archive old_key new_key)).0 (sym (ran binary there) ∙ h);
      }
    ]

    ok_of_rekeyed : IsRekeyed → rekey_archive T archive old_key new_key ≡ ok tt
    ok_of_rekeyed r =
        ran r.binary r.found
        ∙ (outcome_of-ok (T.rekey r.binary archive old_key new_key)).1 r.succeeded

  ok_of_either :
      (needs_rekey T archive old_key new_key ≡ false) ⊎ IsRekeyed
      → rekey_archive T archive old_key new_key ≡ ok tt
  ok_of_either (inl h) = not_needed h
  ok_of_either (inr r) = elim (Bool-cases (needs_rekey T archive old_key new_key)) [
    | inl needed ↦ ok_of_rekeyed needed r
    | inr h ↦ not_needed h
  ]

  -- Changing the archive's key reports success exactly when there was nothing to change (no
  -- archive, an empty key, or the same key), or the store's binary was found and succeeded: a
  -- failure is never passed over.
  pub rekey_archive-ok :
      (rekey_archive T archive old_key new_key ≡ ok tt)
      ↔ ((needs_rekey T archive old_key new_key ≡ false) ⊎ IsRekeyed)
  rekey_archive-ok = (
    λ h. elim (Bool-cases (needs_rekey T archive old_key new_key)) [
      | inl needed ↦ inr (rekeyed_of_ok needed h)
      | inr n ↦ inl n
    ],
    ok_of_either,
  )
