-- ===== src/Platform.antt =====
-- internal/platform/seq_writer.go: log lines on their way to Seq. encoding/json and net/http are
-- parameters; the mutex lets one call at a time at the batch.
pub mod Log
pub mod Refines
pub mod Health
use slay_push.Base.Text.{str_eq}
use slay_push.Provider.Apns.{set_field}
use slay_push.Errors.{ok, err, Result}
use slay_push.Base.{length, leb, ℕ, ◌&&◌, ◌∷◌, if◌then◌else◌, Bool, ◌++◌, [], String, List}
use slay_push.Base.Json.{end, field, Fields}
use slay_push.Crypto.{Bytes}

pub record SeqCodec : Type 0 where
  pub unmarshal : Bytes → Result Fields
  pub marshal : Fields → Result Bytes
  -- http.NewRequestWithContext takes the URL; the n-th request gets an answer.
  pub url_parses : Bool
  pub delivers : ℕ → Bool

-- A request to Seq, and whether it was answered; the writer asks no more of it.
pub record Post : Type 0 where
  pub payload : Bytes
  pub delivered : Bool

-- `seqWriter`, with the requests that it has made, oldest first.
pub record SeqWriter : Type 0 where
  pub batch : Bytes
  pub posts : List Post

abbrev pub new_seq_writer : SeqWriter
new_seq_writer = record { batch = []; posts = [] }

-- The switch on a field's name.
abbrev pub clef_name : String → String
clef_name k =
    if str_eq k "time"
    then "@t"
    else if str_eq k "level"
    then "@l"
    else if str_eq k "message"
    then "@m"
    else k

-- The loop, in the order in which it goes through the map.
unfoldable pub rename_fields : Fields → Fields → Fields
rename_fields clef end = clef
rename_fields clef (field k v fs) = rename_fields (set_field (clef_name k) v clef) fs

unfoldable pub to_clef : SeqCodec → Bytes → Result Bytes
to_clef c line = elim (c.unmarshal line) [
  | err e ↦ err e
  | ok fields ↦ c.marshal (rename_fields end fields)
]

-- A batch with no bytes is left; the others are reset, and posted if the request can be built.
unfoldable pub flush_batch : SeqCodec → Bytes → List Post → SeqWriter
flush_batch c [] posts = record { batch = []; posts = posts }
flush_batch c (b ∷ bs) posts = record {
  batch = [];
  posts =
      if c.url_parses
      then posts ++ record { payload = b ∷ bs; delivered = c.delivers (length posts) } ∷ []
      else posts;
}

unfoldable pub flush : SeqCodec → SeqWriter → SeqWriter
flush c w = flush_batch c w.batch w.posts

abbrev pub add_line : Bytes → SeqWriter → SeqWriter
add_line clef w = record w { batch = w.batch ++ (clef ++ 10 ∷ []) }

-- `lines` is the batch's length in bytes.
unfoldable pub add_clef : SeqCodec → Result Bytes → SeqWriter → SeqWriter
add_clef c (err e) w = w
add_clef c (ok clef) w =
    let added = add_line clef w in if leb 200 (length added.batch) then flush c added else added

unfoldable pub write : SeqCodec → Bytes → SeqWriter → SeqWriter
write c line w = add_clef c (to_clef c line) w

-- A call of Write, or a tick of flushLoop.
pub data Event : Type 0 where
  line : Bytes → Event
  tick : Event

unfoldable pub handle : SeqCodec → Event → SeqWriter → SeqWriter
handle c (line p) w = write c p w
handle c tick w = flush c w

unfoldable pub run_writer : SeqCodec → List Event → SeqWriter → SeqWriter
run_writer c [] w = w
run_writer c (e ∷ es) w = run_writer c es (handle c e w)
