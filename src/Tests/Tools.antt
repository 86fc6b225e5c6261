-- ===== src/Tests/Tools.antt =====
-- Calls of tools, live and on a replay.
use stargraph.Common.{
  ◌≡◌, refl, ◌⊎◌, true, false, none, some, [], ◌∷◌, str, int, obj, member, no_member, Record, ok,
}
use stargraph.Graph.Definition.{write, read}
use stargraph.Runtime.ToolExec.{
  Validator, Tool, RunContext, Effects, ToolResult, Spec, no_capability, decorate, execute_tool,
  sanitize_str, sanitize, ◌>>=◌,
}
use stargraph.Runtime.ToolExec.Calls.{IsCleared, body_runs_guarded}
use stargraph.Runtime.ToolExec.Outcome.{Succeeded, execute_tool-Succeeded}

-- A schema that takes everything.
abbrev lenient : Validator
lenient schema payload = []

abbrev send : Tool
send = record {
  spec = some (decorate "send" "mail" "1" write none no_capability (obj no_member) (obj no_member));
  body = λ args. ok (
      obj (
        member "reply" (str "<b>")
          (member "_tokens" (obj (member "total" (int 7) no_member)) no_member)));
}

abbrev look : Tool
look = record {
  spec = some (decorate "look" "mail" "1" read none no_capability (obj no_member) (obj no_member));
  body = λ args. ok (obj (member "reply" (str "new") no_member));
}

abbrev live : RunContext
live = record {
  run_id = "r";
  step = 3;
  capabilities = none;
  fathom = some (λ fact. none);
  is_replay = false;
  cassette = none;
  deployment = "dev";
}

abbrev replayed : RunContext
replayed = record live {
  is_replay = true;
  cassette = some (λ name args. some (("reply", str "old") ∷ []));
}

abbrev nothing : Effects
nothing = record { calls = []; facts = []; tokens_emitted = [] }

abbrev args : Record
args = ("to", str "ada") ∷ []

-- The pass over the markers is made once: what it takes out can leave a marker behind.
marker_again : sanitize_str "__sys__SYSTEM__tem__" ≡ "__system__"
unfolding sanitize_str
marker_again = refl

-- The angle brackets are gone before the markers of chats are looked for.
chat_marker_stays : sanitize_str "<|im_start|>" ≡ "&lt;|im_start|&gt;"
unfolding sanitize_str
chat_marker_stays = refl

-- A key is no string leaf.
key_stays : sanitize (obj (member "<b>" (int 1) no_member)) ≡ obj (member "<b>" (int 1) no_member)
unfolding sanitize
key_stays = refl

-- On a replay the mail is not sent again, and the answer is the recorded one.
not_sent_again :
    ((execute_tool lenient send args replayed nothing).0
      ≡ ok (record { output = ("reply", str "old") ∷ []; replayed = true; tokens = none }))
    × ((execute_tool lenient send args replayed nothing).1.calls ≡ [])
unfolding execute_tool decorate ◌>>=◌
not_sent_again = (refl, refl)

-- A tool that only reads runs again, although its policy is to take the recorded result.
read_again :
    ((execute_tool lenient look args replayed nothing).0
      ≡ ok (record { output = ("reply", str "new") ∷ []; replayed = false; tokens = none }))
    × ((execute_tool lenient look args replayed nothing).1.calls ≡ ("look", args) ∷ [])
unfolding execute_tool decorate ◌>>=◌
read_again = (refl, refl)

body_runs_guarded_example :
    let w' = (execute_tool lenient send args live nothing).1 in
    (w'.calls ≡ [])
    ⊎ ((spec : Spec) × (send.spec ≡ some spec)
        × IsCleared lenient live spec args
        × (w'.calls ≡ (spec.gated.name, args) ∷ []))
body_runs_guarded_example = body_runs_guarded lenient live send args nothing

abbrev sent : ToolResult
sent = record {
  output = ("reply", str "&lt;b&gt;") ∷ ("_tokens", obj (member "total" (int 7) no_member)) ∷ [];
  replayed = false;
  tokens = some (("total", int 7) ∷ []);
}

execute_tool-Succeeded_example :
    Succeeded lenient live send args nothing (execute_tool lenient send args live nothing).1 sent
unfolding execute_tool decorate ◌>>=◌
execute_tool-Succeeded_example =
    execute_tool-Succeeded lenient send args live nothing sent
      (execute_tool lenient send args live nothing).1 refl
