-- ===== src/Ui/Account/Registering.antt =====
-- `_submit` of client/src/ui/register_frame.py: what a form must have before anything is sent.
use cs4455_epic.Base.{◌≡◌, ◌≢◌, ◌⊎◌, inl, inr, arith, ◌≤◌, none, some, Option-cases, [], length}
use cs4455_epic.Base.Text.{Str, str_eq_iff, strip}
use cs4455_epic.Errors.{ok}
use cs4455_epic.Env.{Env}
use cs4455_epic.Py.{State}
use cs4455_epic.Ui.Account.{App, Problem, form_problem, rejected, register_run, submit}

-- The first field is filled in, the password is long enough, and it is repeated exactly.
pub record IsComplete (first password confirm : Str) : Type 0 where
  pub filled : first ≢ []
  pub long : 12 ≤ length password
  pub repeated : password ≡ confirm

pub form_problem-none :
    (first password confirm : Str)
    → form_problem first password confirm ≡ none
    → IsComplete first password confirm
unfolding form_problem
form_problem-none first password confirm h = record {
  filled = λ e. ground (arith, str_eq_iff first []);
  long = ground arith;
  repeated = ground (arith, str_eq_iff password confirm);
}

pub form_problem-some :
    (first password confirm : Str) (p : Problem)
    → form_problem first password confirm ≡ some p
    → ¬ (IsComplete first password confirm)
unfolding form_problem
form_problem-some first password confirm p h c = ground (
  arith,
  c.filled,
  c.long,
  c.repeated,
  str_eq_iff first [],
  str_eq_iff password [],
  str_eq_iff password confirm,
)

module _ (E : Env) (dir file user pw confirm : Str) (app : App) (s : State) where
  -- With the white space around the three fields removed: either the user name is missing, the
  -- password has fewer than 12 characters or the repeated password differs, and the form is
  -- rejected without any change of the state; or none of these is so, and the account is registered
  -- with the trimmed name and password.
  pub submit_checked :
      (¬ (IsComplete (strip user) (strip pw) (strip confirm))
        × (p : Problem) × (submit E dir file user pw confirm app s ≡ (ok (app, rejected p), s)))
      ⊎ (IsComplete (strip user) (strip pw) (strip confirm)
          × (submit E dir file user pw confirm app s
              ≡ register_run E dir file (strip user) (strip pw) app s))
  unfolding submit
  submit_checked = elim (Option-cases (form_problem (strip user) (strip pw) (strip confirm))) [
    | inl h ↦ inr (form_problem-none (strip user) (strip pw) (strip confirm) h, ground arith)
    | inr (p, h) ↦
        inl (form_problem-some (strip user) (strip pw) (strip confirm) p h, p, ground arith)
  ]
