-- ===== src/Keystore/Atomic.antt =====
-- `_write_json_secure` of client/src/crypto/keystore.py: the temporary file, and what a crash or
-- an exception leaves behind.
use cs4455_epic.Base.{
  ℕ, zero, suc, ◌≡◌, ◌≢◌, refl, ap, ◌∙◌, ◌⊎◌, inl, inr, some, none, [], take, length, length-append,
  arith, if◌then◌else◌,
}
use cs4455_epic.Base.Dict.{
  Dict, lookup, insert, erase, lookup-insert, lookup-insert_self, lookup-erase,
}
use cs4455_epic.Base.Text.{Str, Bytes, str_eq, str_eq_iff, str_eq_refl}
use cs4455_epic.Errors.{ok}
use cs4455_epic.Env.{Env}
use cs4455_epic.Py.{FileData, Content, json, other, State}
use cs4455_epic.Keystore.Files.{
  FileOp, run_ops, write_ops, failed_ops, tmp_path, write_json_secure, save,
}

-- The temporary name is longer than the name of the file.
pub tmp_path-ne : (pid : ℕ) (path : Str) (random : Bytes) → tmp_path pid path random ≢ path
unfolding tmp_path
tmp_path-ne pid path random h = absurd (omega (arith, ap length h, length-append path _))

take-nil : (n : ℕ) → take {A = FileOp} n [] ≡ []
take-nil zero = refl
take-nil (suc n) = refl

module _ (tmp path : Str) (content : Content) (apart : tmp ≢ path) (files : Dict Content) where
  pub lookup-write_ops :
      (j : Str)
      → lookup j (run_ops (write_ops tmp path content) files)
        ≡ (if str_eq path j then some content else if str_eq tmp j then none else lookup j files)
  unfolding run_ops
  lookup-write_ops j =
      let made = insert tmp content (insert tmp other files) in
      ground (
        arith,
        lookup-insert_self tmp content (insert tmp other files),
        lookup-insert path j content (erase tmp made),
        lookup-erase tmp j made,
        lookup-insert tmp j content (insert tmp other files),
        lookup-insert tmp j other files,
      )

  untouched : (c : Content) (d : Dict Content) → lookup path (insert tmp c d) ≡ lookup path d
  untouched c d = ground (arith, lookup-insert tmp path c d, str_eq_iff tmp path)

  -- If the process dies after any number of the system calls, the file holds what it held before
  -- or the new content, and never a part of it.
  pub write_ops_atomic :
      (n : ℕ)
      → (lookup path (run_ops (take n (write_ops tmp path content)) files) ≡ lookup path files)
        ⊎ (lookup path (run_ops (take n (write_ops tmp path content)) files) ≡ some content)
  unfolding run_ops
  write_ops_atomic zero = inl refl
  write_ops_atomic (suc zero) = inl (untouched other files)
  write_ops_atomic (suc (suc zero)) =
      inl (untouched content (insert tmp other files) ∙ untouched other files)
  write_ops_atomic (suc (suc (suc n))) =
      inr (rw take-nil (lookup-write_ops path ∙ rw (str_eq_refl path)))

-- If writing the temporary file raises, that file is removed and every other file is untouched.
pub failed_ops_harmless :
    (tmp j : Str) (files : Dict Content)
    → lookup j (run_ops (failed_ops tmp) files) ≡ (if str_eq tmp j then none else lookup j files)
unfolding run_ops
failed_ops_harmless tmp j files = simp (lookup-insert, lookup-erase) (ground (arith))

module _ (E : Env) (path : Str) (data' : FileData) (s : State) where
  -- A finished write puts the dict under its path, leaves no temporary file, and changes no other
  -- file; it draws one random value, and touches nothing else of the state.
  pub lookup-write_json_secure :
      (j : Str)
      → lookup j (write_json_secure E path data' s).1.files ≡ (
          if str_eq path j
          then some (json data')
          else if str_eq (tmp_path E.pid path (E.urandom s.drawn 6)) j
          then none
          else lookup j s.files)
  unfolding write_json_secure
  lookup-write_json_secure j =
      lookup-write_ops _ path (json data') (tmp_path-ne E.pid path _) s.files j

  -- A write changes the files and the number of draws alone.
  pub write_frame :
      ((write_json_secure E path data' s).0 ≡ ok tt)
      × ((write_json_secure E path data' s).1.keystore ≡ s.keystore)
      × ((write_json_secure E path data' s).1.session ≡ s.session)
      × ((write_json_secure E path data' s).1.requests ≡ s.requests)
  unfolding write_json_secure
  write_frame = (refl, refl, refl, refl)

module _ (E : Env) (data' : FileData) (s : State) where
  pub lookup-save : lookup s.keystore.path (save E data' s).1.files ≡ some (json data')
  unfolding save
  lookup-save =
      lookup-write_json_secure E s.keystore.path data' s s.keystore.path
      ∙ rw (str_eq_refl s.keystore.path)

  -- Saving changes the files and the number of draws alone.
  pub save_frame :
      ((save E data' s).0 ≡ ok tt)
      × ((save E data' s).1.keystore ≡ s.keystore)
      × ((save E data' s).1.session ≡ s.session)
      × ((save E data' s).1.requests ≡ s.requests)
  unfolding save
  save_frame = write_frame E s.keystore.path data' s
