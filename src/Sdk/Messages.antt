-- ===== src/Sdk/Messages.antt =====
-- tools/claude_agent_sdk_tool.py: the SDK's messages and what the live transcript shows of them.
use ai_dev_swarm.Common.{
  ℕ, ◌+◌, ◌-◌, leb, Bool, List, [], ◌∷◌, ◌++◌, Option, none, some, Text, text, length, take, str,
  map, if◌then◌else◌,
}
use ai_dev_swarm.Slugs.{Characters, strip_spaces}
use ai_dev_swarm.Steering.{blank}
use ai_dev_swarm.Steering.Renderer.{join}
use ai_dev_swarm.Observability.{TranscriptEntry, transcript, Extra, words, flag}

-- The token counts of a `usage` dictionary; a missing key is 0.
pub record Usage : Type 0 where
  pub input_tokens : ℕ
  pub output_tokens : ℕ
  pub cache_creation_input_tokens : ℕ
  pub cache_read_input_tokens : ℕ

-- An item of a tool result's list: a dictionary with a `text`, or what `str` makes of it.
pub data Part : Type 0 where
  with_text : Text → Part
  other_part : (shown : Text) → Part

-- A text, a list, or what `str` makes of it.
pub data ResultContent : Type 0 where
  plain : Text → ResultContent
  parts : List Part → ResultContent
  other_content : (shown : Text) → ResultContent

-- A block of content; a tool's input is its JSON text.
pub data Block : Type 0 where
  text_block : (body : Text) → Block
  thinking_block : (thinking : Text) → Block
  tool_use_block : (name input : Text) → Block
  tool_result_block : (content : ResultContent) (is_error : Bool) → Block
  other_block : Block

-- `ResultMessage`, the closing message.
pub record ResultMessage : Type 0 where
  pub session_id : Text
  pub total_cost_usd : Option ℕ
  pub num_turns : ℕ
  pub is_error : Bool
  pub stop_reason : Option Text
  pub errors : List Text
  pub subtype : Text
  pub result : Option Text
  pub usage : Option Usage

-- The content of a user's message is a list of blocks, or a text.
pub data Message : Type 0 where
  assistant : (session_id : Option Text) (usage : Option Usage) (content : List Block) → Message
  user : (content : Option (List Block)) → Message
  closing : ResultMessage → Message
  other_message : Message

-- `_accumulate_usage`
unfoldable pub accumulate_usage : Usage → Option Usage → Usage
accumulate_usage acc none = acc
accumulate_usage acc (some usage) = record {
  input_tokens = acc.input_tokens + usage.input_tokens;
  output_tokens = acc.output_tokens + usage.output_tokens;
  cache_creation_input_tokens = acc.cache_creation_input_tokens + usage.cache_creation_input_tokens;
  cache_read_input_tokens = acc.cache_read_input_tokens + usage.cache_read_input_tokens;
}

abbrev pub no_usage : Usage
no_usage = record {
  input_tokens = 0;
  output_tokens = 0;
  cache_creation_input_tokens = 0;
  cache_read_input_tokens = 0;
}

abbrev pub cut : ℕ → Text → Text
cut limit t =
    if leb (length t) limit
    then t
    else take limit t ++ (text "… (+" ++ (str (length t - limit) ++ text " chars)"))

-- `_short`
unfoldable pub short : Characters → Text → ℕ → Text
short ch t limit = cut limit (strip_spaces ch t)

-- `_stringify`
abbrev pub part_text : Part → Text
part_text (with_text t) = t
part_text (other_part t) = t

unfoldable pub stringify : ResultContent → Text
stringify (plain t) = t
stringify (parts ps) = join (text "\n") (map part_text ps)
stringify (other_content t) = t

-- `_entry`, whose limit is `_TRANSCRIPT_MAX`.
abbrev pub transcript_max : ℕ
transcript_max = 2000

unfoldable pub entry :
    Characters → (role : Text) → ℕ → Text → Text → List (Text × Extra) → TranscriptEntry
entry ch role project_id kind body extra = record {
  topic = transcript;
  project_id = some project_id;
  role = some role;
  kind = kind;
  text = short ch body transcript_max;
  extra = extra;
}

-- `_block_entry`
unfoldable pub block_entry : Characters → (role : Text) → ℕ → Block → Option TranscriptEntry
block_entry ch role i (text_block body) =
    if blank (strip_spaces ch body) then none else some (entry ch role i (text "assistant") body [])
block_entry ch role i (thinking_block thinking) =
    if blank (strip_spaces ch thinking)
    then none
    else some (entry ch role i (text "thinking") thinking [])
block_entry ch role i (tool_use_block name input) =
    some (entry ch role i (text "tool_use") name ((text "args", words (short ch input 400)) ∷ []))
block_entry ch role i (tool_result_block content is_error) = some (
    entry ch role i (text "tool_result") (stringify content)
      ((text "is_error", flag is_error) ∷ []))
block_entry ch role i other_block = none

abbrev pub keep_some : Option TranscriptEntry → List TranscriptEntry → List TranscriptEntry
keep_some none rest = rest
keep_some (some e) rest = e ∷ rest

abbrev pub block_entries : Characters → (role : Text) → ℕ → List Block → List TranscriptEntry
block_entries ch role i [] = []
block_entries ch role i (b ∷ bs) = keep_some (block_entry ch role i b) (block_entries ch role i bs)

-- `_as_blocks`
abbrev pub as_blocks : Option (List Block) → List Block
as_blocks none = []
as_blocks (some bs) = bs

-- `_entries_for`
unfoldable pub entries_for : Characters → (role : Text) → ℕ → Message → List TranscriptEntry
entries_for ch role i (assistant session_id usage content) = block_entries ch role i content
entries_for ch role i (user content) = block_entries ch role i (as_blocks content)
entries_for ch role i (closing final) = []
entries_for ch role i other_message = []
