-- ===== src/Journal.antt =====
-- What internal/journal/analyze.go finds in the decoded body of a request. A text that the code cuts
-- is a list of bytes. `capture` is captureMessageText: true (text_debug.go) or false, in the hardened
-- build (text_hardened.go).
pub mod Blocks
pub mod Signals
use Prim.Native.Char.{Char, code}
use Prim.Native.String.{◌++◌ as text_append}
use llm_proxy.Base.{
  ℕ, ◌+◌, ◌*◌, ◌/◌, ◌<◌, zero, suc, Bool, true, false, ◌&&◌, ◌||◌, Option, none, some, String, List,
  [], ◌∷◌, ◌++◌, length, take, ltb, leb, if◌then◌else◌, ◌==◌, text_eq, number_eq,
}
use llm_proxy.Base.Text.{bytes, trim_space, split_at, chars}
use llm_proxy.Json.{
  Value, Items, Object, null, bool, num, int, str, arr, obj, nil, cons, end, field, get,
  text_or_empty, as_text, items_or_nil, is_true,
}

pub record Entry (N : Type 0) : Type 0 where
  pub request_id : String
  pub virtual_model : String
  pub real_model : String
  pub backend : String
  pub protocol : String
  pub streaming : Bool
  pub message_count : ℕ
  pub system_chars : ℕ
  pub last_user_chars : ℕ
  pub total_chars : ℕ
  pub est_tokens : ℕ
  pub has_tools : Bool
  pub has_tool_choice : Bool
  pub code_fences : ℕ
  pub json_blocks : ℕ
  pub is_multimodal : Bool
  pub system_text : List ℕ
  pub last_user_text : List ℕ
  pub params : Object N

abbrev pub max_system_text : ℕ
max_system_text = 2048

abbrev pub max_last_user_text : ℕ
max_last_user_text = 8192

unfoldable pub truncate : List ℕ → ℕ → List ℕ
truncate s max_bytes =
    if leb (length s) max_bytes then s else take max_bytes s ++ bytes "[truncated]"

-- strings.Count(text, "```") after `run` backticks that are not part of a fence
unfoldable pub count_fences : ℕ → String → ℕ
count_fences run String.[] = 0
count_fences run (String.◌∷◌ c s) =
    let tick = code c == 0x60 in
    let full = tick && run == 2 in
    let later = count_fences (if tick && ltb run 2 then suc run else 0) s in
    if full then suc later else later

abbrev pub count_code_fences : String → ℕ
count_code_fences text = count_fences 0 text / 2

-- What follows an opening fence, up to the closing one and after it.
unfoldable pub up_to_fence : Option (String × String) → Option (String × String)
unfolding split_at
up_to_fence none = none
up_to_fence (some (_, rest)) = split_at "```" rest

-- One round of `countJSONBlocks`: a block's text and what comes after it, or the loop's `break`.
unfoldable pub next_block : String → Option (String × String)
unfolding split_at up_to_fence
next_block text = up_to_fence (split_at "```json" text)

abbrev pub block_count : String → ℕ
block_count block = if ltb 50 (length (bytes (trim_space block))) then 1 else 0

unfoldable pub count_blocks : ℕ → String → ℕ
unfolding next_block
count_blocks zero text = 0
count_blocks (suc fuel) text = elim (next_block text) [
  | none ↦ 0
  | some (block, rest) ↦ block_count block + count_blocks fuel rest
]

-- `countJSONBlocks`; a round takes characters off the text.
unfoldable pub count_json_blocks : String → ℕ
unfolding count_blocks chars
count_json_blocks text = count_blocks (suc (chars text)) text

abbrev is_media : String → Bool
is_media type =
    type == "image_url"
    || type == "image"
    || type == "video_url"
    || type == "video"
    || type == "document"
    || type == "file"

module _ {N : Type 0} where
  abbrev has : String → Object N → Bool
  has k m = elim (get k m) [ some _ ↦ true | none ↦ false ]

  -- The loop over the parts of a content: their text, and whether one is not a text.
  unfoldable pub parts_text : Items N → String × Bool
  parts_text nil = (String.[], false)
  parts_text (cons (obj p) ps) =
      let (text, media) = parts_text ps in
      let type = text_or_empty (get "type" p) in
      if type == "text"
      then (text_append (text_or_empty (get "text" p)) text, media)
      else (text, is_media type || media)
  parts_text (cons _ ps) = parts_text ps

  unfoldable pub extract_message_text : Option (Value N) → String × Bool
  unfolding parts_text
  extract_message_text (some (str s)) = (s, false)
  extract_message_text (some (arr parts)) = parts_text parts
  extract_message_text _ = (String.[], false)

  unfoldable pub add_signals : String → Entry N → Entry N
  unfolding count_fences count_json_blocks
  add_signals text e = record e {
    code_fences = e.code_fences + count_code_fences text;
    json_blocks = e.json_blocks + count_json_blocks text;
  }

  -- The switch on the message's role.
  unfoldable pub add_role : Bool → String → String → Entry N → Entry N
  unfolding truncate
  add_role capture role text e =
      let size = length (bytes text) in
      if role == "system"
      then record e {
        system_chars = e.system_chars + size;
        system_text = if capture then truncate (bytes text) max_system_text else e.system_text;
      }
      else if role == "user"
      then record e {
        last_user_chars = size;
        last_user_text =
            if capture then truncate (bytes text) max_last_user_text else e.last_user_text;
      }
      else e

  unfoldable pub analyze_message : Bool → Object N → Entry N → Entry N
  unfolding extract_message_text add_role add_signals
  analyze_message capture msg e =
      let (text, multimodal) = extract_message_text (get "content" msg) in
      add_signals text (
        add_role capture (text_or_empty (get "role" msg)) text (record e {
          total_chars = e.total_chars + length (bytes text);
          is_multimodal = multimodal || e.is_multimodal;
        }))

  unfoldable pub analyze_messages : Bool → Items N → Entry N → Entry N
  unfolding analyze_message
  analyze_messages capture nil e = e
  analyze_messages capture (cons (obj m) ms) e =
      analyze_messages capture ms (analyze_message capture m e)
  analyze_messages capture (cons _ ms) e = analyze_messages capture ms e

  abbrev count_items : Items N → ℕ
  count_items nil = 0
  count_items (cons _ ms) = suc (count_items ms)

  -- The entry before the loop: the top-level fields, without the system text.
  unfoldable pub start_entry : Object N → String → Entry N
  start_entry body protocol = record {
    request_id = "";
    virtual_model = "";
    real_model = "";
    backend = "";
    protocol = protocol;
    streaming = is_true (get "stream" body);
    message_count = count_items (items_or_nil (get "messages" body));
    system_chars = 0;
    last_user_chars = 0;
    total_chars = 0;
    est_tokens = 0;
    has_tools = has "tools" body;
    has_tool_choice = has "tool_choice" body;
    code_fences = 0;
    json_blocks = 0;
    is_multimodal = false;
    system_text = [];
    last_user_text = [];
    params = end;
  }

  -- Anthropic's system prompt
  unfoldable pub add_system : Bool → Option String → Entry N → Entry N
  unfolding add_signals truncate
  add_system capture none e = e
  add_system capture (some sys) e = add_signals sys (record e {
    system_chars = length (bytes sys);
    total_chars = e.total_chars + length (bytes sys);
    system_text = if capture then truncate (bytes sys) max_system_text else e.system_text;
  })

  unfoldable pub analyze : Bool → Object N → String → Entry N
  unfolding start_entry add_system analyze_messages
  analyze capture body protocol =
      let e =
        analyze_messages capture (items_or_nil (get "messages" body))
          (add_system capture (as_text (get "system" body)) (start_entry body protocol)) in
      record e { est_tokens = e.total_chars / 4 }
