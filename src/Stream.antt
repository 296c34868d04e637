-- ===== src/Stream.antt =====
-- internal/api/sse.go: ForwardSSE over the lines that its scanner finds. A line is its bytes. What the
-- events are read for (usage, the collector of the body) is what `processed` lists, in order; `sent`
-- is what is written to the client, and an error of the scanner is an argument.
pub mod Limits
pub mod Events
use one_llm_router.Prelude.{
  ℕ, ◌+◌, Bool, true, false, not, ◌&&◌, Option, none, some, List, [], ◌∷◌, ◌++◌, ◌==◌, ltb, length,
  if◌then◌else◌,
}

abbrev pub Line : Type 0
Line = List ℕ

abbrev pub data_field : Line
data_field = 100 ∷ 97 ∷ 116 ∷ 97 ∷ []

-- strings.HasPrefix, with the rest of the line
abbrev pub strip_field : Line → Line → Option Line
strip_field line [] = some line
strip_field [] (f ∷ field) = none
strip_field (b ∷ line) (f ∷ field) =
    let rest = strip_field line field in if b == f then rest else none

-- strings.TrimPrefix(value, " ")
abbrev pub trim_space_byte : Line → Line
trim_space_byte [] = []
trim_space_byte (b ∷ value) = if b == 32 then value else b ∷ value

abbrev pub value_of : Option Line → Option Line
value_of none = none
value_of (some []) = some []
value_of (some (b ∷ rest)) = if b == 58 then some (trim_space_byte rest) else none

-- sseField
unfoldable pub sse_field : Line → Line → Option Line
sse_field line field = value_of (strip_field line field)

abbrev pub is_comment : Line → Bool
is_comment [] = false
is_comment (b ∷ line) = b == 58

abbrev pub is_blank : Line → Bool
is_blank [] = true
is_blank (b ∷ line) = false

pub record Forwarding : Type 0 where
  pub event_data : Line
  pub event_too_large : Bool
  pub processed : List Line
  pub sent : Line
  pub too_large_seen : Bool

abbrev pub start_forwarding : Forwarding
start_forwarding = record {
  event_data = [];
  event_too_large = false;
  processed = [];
  sent = [];
  too_large_seen = false;
}

-- the event data with one more data line
abbrev pub joined : Line → Line → Line
joined event_data value = if is_blank event_data then value else event_data ++ 10 ∷ value

module _ (max_sse_event_bytes : ℕ) where
  abbrev pub add_data : Line → Forwarding → Forwarding
  add_data value s =
      if s.event_too_large
      then s
      else if ltb max_sse_event_bytes (length (joined s.event_data value))
      then record s { event_data = []; event_too_large = true; too_large_seen = true }
      else record s { event_data = joined s.event_data value }

  -- an event at a blank line or at the end of the stream
  abbrev pub process_event : Forwarding → Forwarding
  process_event s =
      if not s.event_too_large && not (is_blank s.event_data)
      then record s { processed = s.processed ++ s.event_data ∷ [] }
      else s

  abbrev pub end_event : Forwarding → Forwarding
  end_event s = record (process_event s) { event_data = []; event_too_large = false }

  abbrev pub use_field : Option Line → Line → Forwarding → Forwarding
  use_field (some value) line s = add_data value s
  use_field none line s = if is_blank line then end_event s else s

  abbrev pub send_line : Line → Forwarding → Forwarding
  send_line line s = record s { sent = s.sent ++ (line ++ 10 ∷ []) }

  -- the body of the loop over the lines
  unfoldable pub forward_line : Line → Forwarding → Forwarding
  forward_line line s =
      if is_comment line
      then send_line line s
      else use_field (sse_field line data_field) line (send_line line s)

  unfoldable pub forward_lines : List Line → Forwarding → Forwarding
  forward_lines [] s = s
  forward_lines (line ∷ lines) s = forward_lines lines (forward_line line s)

  -- ForwardSSE up to the error of the scanner
  unfoldable pub forward_sse : List Line → Forwarding
  forward_sse lines = process_event (forward_lines lines start_forwarding)
