-- ===== src/Ingest.antt =====
-- internal/ingest: events enter a tenant's Redis stream (handler.go) and the workers take them out
-- (consumer.go). A message's handling is its status and its effects in order.
pub mod Consumer
pub mod Effects
pub mod First
pub mod Retries
pub mod Entry
mod Tests
use iter.Common.{
  ℕ, zero, suc, ◌+◌, ◌≡◌, ◌≤◌, Bool, true, false, not, ◌||◌, ◌&&◌, Option, none, some, List, [],
  ◌∷◌, ◌++◌, String, str_eq, ltb, leb, ◌==◌, if◌then◌else◌, length, drop, any,
}
use iter.Common.Int.{ℤ, pos, max_int}
use iter.Gateway.{Ack, Envelope, Stamp, new_ack, new_error_ack}

abbrev pub max_retries : ℕ
max_retries = 5

-- A stream's name is its bytes; the prefix is "ingest:queue:".
abbrev pub Name : Type 0
Name = List ℕ

abbrev pub stream_prefix : Name
stream_prefix = 105 ∷ 110 ∷ 103 ∷ 101 ∷ 115 ∷ 116 ∷ 58 ∷ 113 ∷ 117 ∷ 101 ∷ 117 ∷ 101 ∷ 58 ∷ []

-- "ingest:queue:dlq:" and "unknown".
abbrev pub dlq_prefix : Name
dlq_prefix = stream_prefix ++ 100 ∷ 108 ∷ 113 ∷ 58 ∷ []

abbrev pub unknown : Name
unknown = 117 ∷ 110 ∷ 107 ∷ 110 ∷ 111 ∷ 119 ∷ 110 ∷ []

unfoldable pub stream_name : Name → Name
stream_name tenant_text = stream_prefix ++ tenant_text

unfoldable pub dlq_name : Name → Name
dlq_name tenant_text = dlq_prefix ++ tenant_text

unfoldable pub dlq_name_from_stream : Name → Name
dlq_name_from_stream stream =
    if leb (length stream) (length stream_prefix)
    then dlq_prefix ++ unknown
    else dlq_prefix ++ drop (length stream_prefix) stream

abbrev pub event_types : List String
event_types =
    "prompt_sent" ∷ "tool_call" ∷ "subagent_spawned" ∷ "turn_completed" ∷ "session_completed"
    ∷ "user_override" ∷ "git_commit" ∷ "git_revert" ∷ "pr_opened" ∷ "pr_merged" ∷ "pr_reverted"
    ∷ "incident_linked" ∷ "peer_reuse" ∷ "self_reuse" ∷ "suggestion_accepted"
    ∷ "suggestion_rejected" ∷ []

unfoldable pub parse_event_type : String → Option String
parse_event_type v = if any (str_eq v) event_types then some v else none

-- Identifiers are numbers, the nil UUID is 0; the zero time is 0. Raw JSON is text.
pub record QueuedEvent : Type 0 where
  pub tenant_id : ℕ
  pub user_id : ℕ
  pub msg_id : ℕ
  pub session_id : ℕ
  pub event_id : ℕ
  pub event_type : String
  pub occurred_at : ℕ
  pub payload : String
  pub received_at : ℕ

-- A field of a stream entry.
pub data Value : Type 0 where
  text : String → Value
  raw_bytes : String → Value
  int : ℤ → Value

abbrev pub Values : Type 0
Values = List (String × Value)

abbrev pub get_value : String → Values → Option Value
get_value key [] = none
get_value key (field ∷ values) = if str_eq field.0 key then some field.1 else get_value key values

abbrev pub put_value : String → Value → Values → Values
put_value key v [] = (key, v) ∷ []
put_value key v (field ∷ values) =
    let rest = put_value key v values in
    if str_eq field.0 key then (key, v) ∷ values else field ∷ rest

-- encoding/json, strconv, uuid and time, with what they document of what they wrote themselves.
pub record Codec : Type 1 where
  pub unmarshal : String → Option QueuedEvent
  pub marshal : QueuedEvent → String
  -- What strconv.Atoi returns, be it next to an error: 0 for a text that is no number, and the bound
  -- that is exceeded for one out of range.
  pub atoi : String → ℤ
  pub itoa : ℤ → String
  pub parse_uuid : String → Option ℕ
  pub parse_time : String → Option ℕ
  pub atoi-itoa : (n : ℕ) → n ≤ max_int → atoi (itoa (pos n)) ≡ pos n

unfoldable pub read_retries : Codec → Values → ℤ
read_retries codec values = by_type (get_value "retries" values)
  where
    by_type : Option Value → ℤ
    by_type none = pos 0
    by_type (some (int n)) = n
    by_type (some (text s)) = codec.atoi s
    by_type (some (raw_bytes s)) = pos 0

-- Redis keeps every field as text.
abbrev pub wire : Codec → Values → Values
wire codec [] = []
wire codec ((key, int n) ∷ values) = (key, text (codec.itoa n)) ∷ wire codec values
wire codec ((key, raw_bytes s) ∷ values) = (key, text s) ∷ wire codec values
wire codec ((key, text s) ∷ values) = (key, text s) ∷ wire codec values

abbrev pub ids_present : QueuedEvent → Bool
ids_present q = not (q.tenant_id == 0 || q.user_id == 0 || q.session_id == 0 || q.event_id == 0)

abbrev check_ids : Option QueuedEvent → Option QueuedEvent
check_ids none = none
check_ids (some q) = if ids_present q then some q else none

unfoldable pub decode_queued_event : Codec → Values → Option QueuedEvent
decode_queued_event codec values = by_type (get_value "message" values)
  where
    by_type : Option Value → Option QueuedEvent
    by_type none = none
    by_type (some (text s)) = check_ids (codec.unmarshal s)
    by_type (some (raw_bytes s)) = check_ids (codec.unmarshal s)
    by_type (some (int n)) = none

-- The decoded payload, as far as its fields are looked at: a text, an array with its texts, other.
pub data Field : Type 0 where
  text_field : String → Field
  array_field : List (Option String) → Field
  other_field : Field

abbrev pub Payload : Type 0
Payload = String → Option Field

abbrev nonempty_text : Option Field → Option String
nonempty_text (some (text_field s)) = if str_eq s "" then none else some s
nonempty_text (some (array_field items)) = none
nonempty_text (some other_field) = none
nonempty_text none = none

abbrev pub optional_string : Payload → String → Option String
optional_string m key = nonempty_text (m key)

abbrev pub string_field : Payload → String → String → String
string_field m key fallback = elim (nonempty_text (m key)) [ some v ↦ v | none ↦ fallback ]

abbrev pub first_string_field : Payload → String → List String → String
first_string_field m fallback [] = fallback
first_string_field m fallback (key ∷ keys) =
    let rest = first_string_field m fallback keys in
    elim (nonempty_text (m key)) [ some v ↦ v | none ↦ rest ]

abbrev texts_of : List (Option String) → List String
texts_of [] = []
texts_of (none ∷ items) = texts_of items
texts_of (some s ∷ items) = let rest = texts_of items in if str_eq s "" then rest else s ∷ rest

abbrev pub string_slice_field : Payload → String → List String
string_slice_field m key = elim (m key) [
  | none ↦ []
  | some f ↦ elim f [ text_field s ↦ [] | array_field items ↦ texts_of items | other_field ↦ [] ]
]

pub record SessionProjection : Type 0 where
  pub harness : String
  pub model : String
  pub effort : Option String
  pub tools : List String
  pub repo_hash : Option String
  pub git_branch : Option String
  pub redacted_prompt : String
  pub redacted_system : Option String
  pub parent_id : Option ℕ
  pub started_at : ℕ
  pub ended_at : Option ℕ

abbrev parsed : (String → Option ℕ) → Option String → Option ℕ
parsed parse none = none
parsed parse (some s) = parse s

unfoldable pub project_session : Codec → ℕ → QueuedEvent → Payload → SessionProjection
project_session codec now q payload = record {
  harness = string_field payload "harness" "unknown";
  model = string_field payload "model" "unknown";
  effort = optional_string payload "effort";
  tools = string_slice_field payload "tools";
  repo_hash = optional_string payload "repo_hash";
  git_branch = optional_string payload "git_branch";
  redacted_prompt =
      first_string_field payload "[prompt unavailable]" ("redacted_prompt" ∷ "prompt" ∷ []);
  redacted_system = optional_string payload "redacted_system";
  parent_id = parsed codec.parse_uuid (optional_string payload "parent_session_id");
  started_at =
      if q.occurred_at == 0
      then if q.received_at == 0 then now else q.received_at
      else q.occurred_at;
  ended_at = parsed codec.parse_time (optional_string payload "ended_at");
}
