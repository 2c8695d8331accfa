-- ===== src/Claude/Totals.antt =====
-- server/src/claude/parser.rs: the accumulator as a summary of the lines.
use oxmux.Prelude.{
  ℕ, suc, ◌+◌, ◌%◌, ◌^◌, Bool, ◌||◌, List, [], ◌∷◌, ◌++◌, Option, none, some, if◌then◌else◌,
  is_empty, not,
}
use oxmux.Prelude.Text.{Text, trim}
use oxmux.Claude.{
  TokenUsage, Amounts, JsonValue, ContentBlock, tool_use, ClaudeEvent, assistant, result,
  FileChange, from_tool_use, SessionAccumulator,
}

-- the changes that the tools of a message made, in their order
unfoldable pub block_changes :
    {Json : Type 0} → JsonValue Json → List (ContentBlock Json) → List FileChange
block_changes json [] = []
block_changes json (tool_use id name input ∷ blocks) = elim (from_tool_use json name input) [
  | none ↦ block_changes json blocks
  | some change ↦ change ∷ block_changes json blocks
]
block_changes json (_ ∷ blocks) = block_changes json blocks

module _ {Json Usd : Type 0} where
  -- the number of turns
  unfoldable pub turns : List (ClaudeEvent Json Usd) → ℕ
  turns [] = 0
  turns (assistant message ∷ es) = suc (turns es)
  turns (_ ∷ es) = turns es

  -- the usage that the last message with one reports
  unfoldable pub usage_after : List (ClaudeEvent Json Usd) → Option TokenUsage → Option TokenUsage
  usage_after [] u = u
  usage_after (assistant message ∷ es) u = elim message.usage [
    | none ↦ usage_after es u
    | some reported ↦ usage_after es (some reported)
  ]
  usage_after (_ ∷ es) u = usage_after es u

  -- the results of the stream: the error flag and the duration
  unfoldable pub results : List (ClaudeEvent Json Usd) → List (Bool × ℕ)
  results [] = []
  results (result subtype cost duration_ms num_turns usage is_error t ∷ es) =
      (is_error, duration_ms) ∷ results es
  results (_ ∷ es) = results es

  unfoldable pub changes : JsonValue Json → List (ClaudeEvent Json Usd) → List FileChange
  unfolding block_changes
  changes json [] = []
  changes json (assistant message ∷ es) = block_changes json message.content ++ changes json es
  changes json (_ ∷ es) = changes json es

  -- the costs, added from the left
  unfoldable pub cost_after : Amounts Usd → List (ClaudeEvent Json Usd) → Usd → Usd
  cost_after amounts [] total = total
  cost_after amounts (result subtype cost duration_ms num_turns usage is_error t ∷ es) total =
      elim cost [
        | none ↦ cost_after amounts es total
        | some spent ↦ cost_after amounts es (amounts.add_usd total spent)
      ]
  cost_after amounts (_ ∷ es) total = cost_after amounts es total

  -- what the lines are as events: blank lines and lines that do not parse are none
  unfoldable pub events :
      (Text → Option (ClaudeEvent Json Usd)) → List Text → List (ClaudeEvent Json Usd)
  events from_str [] = []
  events from_str (line ∷ lines) =
      if is_empty (trim line) then events from_str lines else elim (from_str (trim line)) [
        | none ↦ events from_str lines
        | some event ↦ event ∷ events from_str lines
      ]

abbrev pub error_after : List (Bool × ℕ) → Bool → Bool
error_after [] e = e
error_after ((e, d) ∷ rs) old = error_after rs e

abbrev pub duration_after : List (Bool × ℕ) → Option ℕ → Option ℕ
duration_after [] d = d
duration_after ((e, d) ∷ rs) old = duration_after rs (some d)

module _ {Json Usd : Type 0} (json : JsonValue Json) (amounts : Amounts Usd) where
  -- the accumulator after the events, field by field
  abbrev pub summary : List (ClaudeEvent Json Usd) → SessionAccumulator Usd → SessionAccumulator Usd
  summary es a = record {
    session_id = a.session_id;
    total_cost_usd = cost_after amounts es a.total_cost_usd;
    turn_count = (a.turn_count + turns es) % 2 ^ 32;
    file_changes = a.file_changes ++ changes json es;
    last_usage = usage_after es a.last_usage;
    is_complete = a.is_complete || not (is_empty (results es));
    is_error = error_after (results es) a.is_error;
    duration = duration_after (results es) a.duration;
  }
