-- ===== src/Examples/Processes.antt =====
-- The theorems on logs and configuration at work.
use slay_push.Config.Consistent.{validate-IsConsistent, IsConsistent}
use slay_push.Base.Json.{end, str, field}
use slay_push.Errors.{ok}
use slay_push.Config.{validate}
use slay_push.Platform.{tick, new_seq_writer, run_writer, line, Event, SeqCodec}
use slay_push.Config.{load, Variables, Printers}
use slay_push.Platform.Refines.{run_writer-Represents, Represents}
use slay_push.Platform.Log.{lines_of, accepted, empty_log, LogTrace, Log}
use slay_push.Base.{true, [], ◌∷◌, ◌↔◌, ◌≡◌, none, List}

abbrev seq_codec : SeqCodec
seq_codec = record {
  unmarshal = λ b. ok (field "time" (str "0") end);
  marshal = λ fs. ok (1 ∷ 2 ∷ []);
  url_parses = true;
  delivers = λ n. true;
}

abbrev events : List Event
events = line (1 ∷ []) ∷ tick ∷ line (2 ∷ []) ∷ []

run_writer-Represents_example :
    (b : Log) × LogTrace seq_codec events empty_log b
    × Represents seq_codec (run_writer seq_codec events new_seq_writer) b
    × (lines_of b ≡ accepted seq_codec events)
run_writer-Represents_example = run_writer-Represents seq_codec events

abbrev printers : Printers
printers = record { quote = λ s. s; int_text = λ z. "0" }

-- Nothing is set.
abbrev bare_variables : Variables
bare_variables = record { lookup = λ k. none; atoi = λ s. none; parse_bool = λ s. none }

validate-IsConsistent_example :
    (validate printers (load bare_variables) ≡ none) ↔ IsConsistent (load bare_variables)
validate-IsConsistent_example = validate-IsConsistent printers (load bare_variables)
