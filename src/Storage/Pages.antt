-- ===== src/Storage/Pages.antt =====
-- internal/storage/storage.go: history queries and `PaginateVersions`.
-- A negative limit is none, as 0 is; so is a negative time bound. `Kind` is normalized: its zero value
-- is that of messages.
pub mod Reading
use ably_server.Base.{
  ℕ, zero, suc, ◌+◌, ◌-◌, ◌≤◌, ◌<◌, ◌≡◌, refl, sym, ap, ◌∙◌, inl, inr, Bool, true, false, not, ◌&&◌,
  ◌||◌, List, [], ◌∷◌, ◌++◌, append-nil, append_assoc, Option, none, some, Bytes, arith,
  if◌then◌else◌, Bool-cases, length, length-append, ltb, leb, lex_lt, lex_lt_irrefl, lex_lt_asymm,
  ◌==◌,
}
use mathlib.Core.Path.{subst}
use ably_server.Protocol.{Message, ChannelMessage}
use ably_server.Storage.{version_serial_of, create_channel_serial}

pub data Kind : Type 0 where
  kind_message kind_presence kind_annotation : Kind

pub record HistoryQuery : Type 0 where
  pub kind : Kind
  pub forwards : Bool
  pub start : ℕ
  pub end : ℕ
  pub cursor : Bytes
  pub after_channel_serial : Bytes
  pub end_channel_serial : Bytes
  pub limit : ℕ
  pub collapse : Bool

pub record HistoryPage : Type 0 where
  pub channel_messages : List ChannelMessage
  pub has_more : Bool

-- Whether a serial is past the cursor in the direction of the scan.
unfoldable pub passes : Bool → Bytes → Bytes → Bool
passes forwards [] s = true
passes true (c ∷ cs) s = lex_lt (c ∷ cs) s
passes false (c ∷ cs) s = lex_lt s (c ∷ cs)

unfoldable pub version_message : Message → ChannelMessage
version_message m = record {
  id = [];
  channel_serial = create_channel_serial (version_serial_of m);
  messages = m ∷ [];
  presence = [];
  annotations = [];
}

abbrev pub full_page : HistoryPage
full_page = record { channel_messages = []; has_more = true }

abbrev pub with_message : Message → HistoryPage → HistoryPage
with_message m page = record page { channel_messages = version_message m ∷ page.channel_messages }

-- The scan, with the messages that are left and the number that has been emitted.
unfoldable pub emit_all : HistoryQuery → ℕ → List Message → HistoryPage
emit_all q count [] = record { channel_messages = []; has_more = false }
emit_all q count (m ∷ ms) =
    let skipped = emit_all q count ms in
    let page = with_message m (emit_all q (count + 1) ms) in
    if not (passes q.forwards q.cursor (version_serial_of m))
    then skipped
    else if ltb 0 q.limit && leb q.limit count
    then full_page
    else page

abbrev pub reversed : {A : Type 0} → List A → List A
reversed [] = []
reversed (m ∷ ms) = reversed ms ++ m ∷ []

abbrev pub scanned : {A : Type 0} → Bool → List A → List A
scanned forwards versions = if forwards then versions else reversed versions

unfoldable pub paginate_versions : List Message → HistoryQuery → HistoryPage
paginate_versions versions q = emit_all q 0 (scanned q.forwards versions)
