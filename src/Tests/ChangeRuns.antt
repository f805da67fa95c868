-- ===== src/Tests/ChangeRuns.antt =====
-- The change of the password at a server that accepts it and a disk that fails.
use cs4455_epic.Base.{◌≡◌, refl, true, none, some, [], ◌++◌}
use cs4455_epic.Base.Int.{pos}
use cs4455_epic.Base.Dict.{lookup}
use cs4455_epic.Base.Text.{Str, Bytes, lit}
use cs4455_epic.Errors.{value_error}
use cs4455_epic.Env.{Env, IsLawful, response}
use cs4455_epic.Env.Toy.{toy, toy-IsLawful}
use cs4455_epic.Py.{FileData, State}
use cs4455_epic.Keystore.{create}
use cs4455_epic.Keystore.Loading.{Holds}
use cs4455_epic.Keystore.Unlocking.{Opens, made_data, made_x, made_ed, Holds-create, create-Opens}
use cs4455_epic.Keystore.Failing.{works, dump_fails}
use cs4455_epic.Ui.Archive.{System}
use cs4455_epic.Ui.Account.{change_run}
use cs4455_epic.Ui.Account.Changing.{HasEnded, change_run-HasEnded}
use cs4455_epic.Tests.Data.{new_client}

abbrev accepting : Env
accepting = toy λ before req.
    response (record { ok = true; status_code = 204; content = []; text = []; json = none })

accepting-IsLawful : IsLawful accepting
accepting-IsLawful = toy-IsLawful _

abbrev word : Str
word = lit "secret"

abbrev client : State
client = record new_client {
  session = record {
    token = some (lit "t");
    user_id = some (lit "7");
    username = some (lit "ann");
  };
}

no_file : lookup (lit "keys") client.files ≡ none
unfolding lookup
no_file = refl

abbrev created : State
created = (create accepting word client).1

abbrev made : FileData
made = made_data accepting accepting-IsLawful word client

abbrev both_keys : Bytes
both_keys =
    made_x accepting accepting-IsLawful client ++ made_ed accepting accepting-IsLawful client

created-Holds : Holds created made
created-Holds = Holds-create accepting accepting-IsLawful word client no_file

abbrev created-Opens : Opens accepting word made both_keys
created-Opens = create-Opens accepting accepting-IsLawful word client

abbrev system : System
system = record {
  override = none;
  exists = λ p. true;
  built = lit "/opt/message-store";
  which = none;
  rekey = λ binary archive old_key new_key. (pos 1, lit "bad key");
}

change_run-HasEnded_example :
    HasEnded accepting accepting-IsLawful system
      (dump_fails value_error)
      works
      word
      (lit "better")
      created
      made
      both_keys
      created-Holds
      created-Opens
      (change_run accepting system (dump_fails value_error) works word (lit "better") created)
change_run-HasEnded_example =
    change_run-HasEnded accepting accepting-IsLawful system (dump_fails value_error) works word
      (lit "better") created made both_keys created-Holds created-Opens
