-- ===== src/Mcp/Channel.antt =====
-- mcp.rs: the messages that are pushed into a running session. `channel_safe` keeps the text of a peer
-- inside the wrapper that the session puts around it.
pub mod Laws
use agora_protocol.Base.{
  ℕ, Bool, ◌&&◌, List, [], ◌∷◌, ◌++◌, Option, none, some, Text, codes, join_with, starts_with,
  to_lowercase, trim_start, is_whitespace, ◌==◌, if◌then◌else◌,
}
use agora_protocol.Node.Types.{Event, FileNote}

abbrev skip_spaces : Text → Text
skip_spaces = trim_start is_whitespace

unfoldable pub skip_slash : Text → Text
skip_slash [] = []
skip_slash (c ∷ s) = if c == b'/' then s else c ∷ s

-- Whether `\s*/?\s*channel` matches at the start of a text. The ASCII letters of the word have no other
-- case than their ASCII one.
unfoldable pub opens_tag : Text → Bool
unfolding skip_slash
opens_tag s =
    starts_with (codes "channel") (to_lowercase (skip_spaces (skip_slash (skip_spaces s))))

-- A match holds no further `<`, so going on behind its `<` finds the same matches as going on
-- behind its end.
unfoldable pub channel_safe : Text → Text
unfolding opens_tag
channel_safe [] = []
channel_safe (c ∷ s) =
    let rest = channel_safe s in if c == b'<' && opens_tag s then codes "&lt;" ++ rest else c ∷ rest

pub record Meta : Type 0 where
  pub from : Text
  pub id : Text
  pub thread : Option Text
  pub redacted : Option Text
  pub file : Option Text

pub record ChannelEvent : Type 0 where
  pub content : Text
  pub meta : Meta

redacted_meta : List Text → Option Text
redacted_meta [] = none
redacted_meta (t ∷ ts) = some (join_with (codes ",") (t ∷ ts))

shown_path : Option FileNote → Option Text
shown_path none = none
shown_path (some f) = some f.path

unfoldable pub channel_event : Event → ChannelEvent
unfolding redacted_meta shown_path
channel_event ev = record {
  content = channel_safe ev.body;
  meta = record {
    from = ev.from;
    id = ev.id;
    thread = ev.thread;
    redacted = redacted_meta ev.redacted;
    file = shown_path ev.file;
  };
}
