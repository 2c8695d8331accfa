-- ===== src/Claude.antt =====
-- server/src/claude/parser.rs: the events of `claude --output-format stream-json`, and what the
-- server accumulates of them. A `serde_json::Value`, an amount in dollars and the parser of a line are
-- parameters.
pub mod Totals
use oxmux.Prelude.{
  ℕ, ◌+◌, ◌%◌, ◌^◌, Bool, true, false, List, [], ◌∷◌, ◌++◌, ◌||◌, Option, none, some, if◌then◌else◌,
  is_empty, unwrap_or,
}
use oxmux.Prelude.Text.{Text, codes, text_eq, trim}

pub record TokenUsage : Type 0 where
  pub input_tokens : Option ℕ
  pub output_tokens : Option ℕ
  pub cache_read_input_tokens : Option ℕ
  pub cache_creation_input_tokens : Option ℕ

-- the sums are of `u32`
unfoldable pub context_used : TokenUsage → ℕ
context_used u =
    ((unwrap_or u.input_tokens 0 + unwrap_or u.cache_read_input_tokens 0) % 2 ^ 32
      + unwrap_or u.cache_creation_input_tokens 0)
    % 2 ^ 32

-- `f32` and `f64` stand as `Usd`
pub record Amounts (Usd : Type 0) : Type 0 where
  pub zero_usd : Usd
  pub add_usd : Usd → Usd → Usd

-- `Value::get` and `Value::as_str`
pub record JsonValue (Json : Type 0) : Type 0 where
  pub get_value : Json → Text → Option Json
  pub as_str : Json → Option Text

pub data ToolResultContent (Json : Type 0) : Type 0 where
  text_content : (text : Text) → ToolResultContent Json
  image : (source : Json) → ToolResultContent Json

pub data ContentBlock (Json : Type 0) : Type 0 where
  text : (text : Text) → ContentBlock Json
  tool_use : (id name : Text) (input : Json) → ContentBlock Json
  tool_result :
      (tool_use_id : Text) (is_error : Bool) (content : List (ToolResultContent Json))
      → ContentBlock Json

pub record AssistantMessage (Json : Type 0) : Type 0 where
  pub id : Option Text
  pub model : Option Text
  pub content : List (ContentBlock Json)
  pub usage : Option TokenUsage

pub record UserMessage (Json : Type 0) : Type 0 where
  pub content : List (ContentBlock Json)

pub data ClaudeEvent (Json Usd : Type 0) : Type 0 where
  system : (subtype : Text) (extra : Json) → ClaudeEvent Json Usd
  assistant : (message : AssistantMessage Json) → ClaudeEvent Json Usd
  user : (message : UserMessage Json) → ClaudeEvent Json Usd
  result :
      (subtype : Text) (cost_usd : Option Usd) (duration_ms num_turns : ℕ)
      (usage : Option TokenUsage) (is_error : Bool) (result_text : Option Text)
      → ClaudeEvent Json Usd

pub data FileChangeKind : Type 0 where
  create_file edit_file delete_file : FileChangeKind

pub record FileChange : Type 0 where
  pub tool : Text
  pub path : Text
  pub kind : FileChangeKind

-- `or_else`, then `and_then(as_str)`
abbrev or_else {ℓ} : {A : Type ℓ} → Option A → Option A → Option A
or_else none b = b
or_else (some a) b = some a

unfoldable pub tool_path : {Json : Type 0} → JsonValue Json → Json → Option Text
tool_path json input =
    elim (or_else (json.get_value input (codes "file_path"))
      (json.get_value input (codes "path"))) [ none ↦ none | some v ↦ json.as_str v ]

unfoldable pub change_kind : Text → Option FileChangeKind
change_kind name =
    if text_eq name (codes "Write")
    then some create_file
    else if text_eq name (codes "Edit") || text_eq name (codes "MultiEdit")
    then some edit_file
    else none

unfoldable pub from_tool_use : {Json : Type 0} → JsonValue Json → Text → Json → Option FileChange
unfolding tool_path change_kind
from_tool_use json name input = elim (tool_path json input) [
  | none ↦ none
  | some path ↦ elim (change_kind name) [
    | none ↦ none
    | some kind ↦ some (record { tool = name; path = path; kind = kind })
  ]
]

pub record SessionAccumulator (Usd : Type 0) : Type 0 where
  pub session_id : Text
  pub total_cost_usd : Usd
  pub turn_count : ℕ
  pub file_changes : List FileChange
  pub last_usage : Option TokenUsage
  pub is_complete : Bool
  pub is_error : Bool
  pub duration : Option ℕ

-- the accumulator, and the events that were sent on `tx`, all of them: of a receiver that is more than
-- 256 behind, the channel of the library drops the oldest
pub record ClaudeStreamParser (Json Usd : Type 0) : Type 0 where
  pub tx : List (ClaudeEvent Json Usd)
  pub accumulator : SessionAccumulator Usd

unfoldable pub new : {Json Usd : Type 0} → Amounts Usd → Text → ClaudeStreamParser Json Usd
new amounts session_id = record {
  tx = [];
  accumulator = record {
    session_id = session_id;
    total_cost_usd = amounts.zero_usd;
    turn_count = 0;
    file_changes = [];
    last_usage = none;
    is_complete = false;
    is_error = false;
    duration = none;
  };
}

-- the loop over the blocks of a message
unfoldable pub push_changes :
    {Json : Type 0} → JsonValue Json → List (ContentBlock Json) → List FileChange → List FileChange
push_changes json [] changes = changes
push_changes json (tool_use id name input ∷ blocks) changes = elim (from_tool_use json name input) [
  | none ↦ push_changes json blocks changes
  | some change ↦ push_changes json blocks (changes ++ change ∷ [])
]
push_changes json (_ ∷ blocks) changes = push_changes json blocks changes

abbrev pub or_keep {ℓ} : {A : Type ℓ} → Option A → Option A → Option A
or_keep none old = old
or_keep (some a) old = some a

abbrev pub add_cost : {Usd : Type 0} → Amounts Usd → Option Usd → Usd → Usd
add_cost amounts none total = total
add_cost amounts (some cost) total = amounts.add_usd total cost

-- "Update accumulator"
unfoldable pub accumulate :
    {Json Usd : Type 0}
    → JsonValue Json
    → Amounts Usd
    → ClaudeEvent Json Usd
    → SessionAccumulator Usd
    → SessionAccumulator Usd
unfolding push_changes
accumulate json amounts (assistant message) a = record a {
  turn_count = (a.turn_count + 1) % 2 ^ 32;
  last_usage = or_keep message.usage a.last_usage;
  file_changes = push_changes json message.content a.file_changes;
}
accumulate json amounts (result subtype cost_usd duration_ms num_turns usage is_error result_text)
      a =
    record a {
      total_cost_usd = add_cost amounts cost_usd a.total_cost_usd;
      duration = some duration_ms;
      is_complete = true;
      is_error = is_error;
    }
accumulate json amounts (system subtype extra) a = a
accumulate json amounts (user message) a = a

-- `from_str` is `serde_json::from_str`; the text of its error goes to the log only.
unfoldable pub process_line :
    {Json Usd : Type 0}
    → JsonValue Json
    → Amounts Usd
    → (Text → Option (ClaudeEvent Json Usd))
    → Text
    → ClaudeStreamParser Json Usd
    → Option (ClaudeEvent Json Usd) × ClaudeStreamParser Json Usd
unfolding accumulate
process_line json amounts from_str line p =
    let trimmed = trim line in
    if is_empty trimmed then (none, p) else elim (from_str trimmed) [
      | none ↦ (none, p)
      | some event ↦ (
        some event,
        record {
          tx = p.tx ++ event ∷ [];
          accumulator = accumulate json amounts event p.accumulator;
        },
      )
    ]

unfoldable pub process_lines :
    {Json Usd : Type 0}
    → JsonValue Json
    → Amounts Usd
    → (Text → Option (ClaudeEvent Json Usd))
    → List Text
    → ClaudeStreamParser Json Usd
    → ClaudeStreamParser Json Usd
unfolding process_line
process_lines json amounts from_str [] p = p
process_lines json amounts from_str (line ∷ lines) p =
    process_lines json amounts from_str lines (process_line json amounts from_str line p).1
