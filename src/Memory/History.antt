-- ===== src/Memory/History.antt =====
-- internal/storage/memory/memory.go: `History` and `collapsedHistory`;
-- internal/storage/storage.go: `CMItems`.
-- A row of the log that is missing is `none`: the source would panic there. A map is walked through
-- its sorted keys.
pub mod Walk
pub mod Bounds
pub mod Reading
use ably_server.Base.{
  ℕ, zero, suc, ◌+◌, Bool, true, false, not, ◌&&◌, ◌||◌, List, [], ◌∷◌, ◌++◌, Option, none, some,
  Bytes, if◌then◌else◌, ltb, leb, lex_lt, bytes_eq, length, take, drop, Assoc, lookup, Result, ok,
  err,
}
use ably_server.Serial.{timestamp_bounds}
use ably_server.Protocol.{Message, PresenceMessage, ChannelMessage}
use ably_server.Protocol.Summaries.{Annotation}
use ably_server.Storage.{StorageError, context_done, is_blank, create_channel_serial}
use ably_server.Storage.Pages.{
  Kind, kind_message, kind_presence, kind_annotation, HistoryQuery, HistoryPage, passes, scanned,
  reversed,
}
use ably_server.Memory.{ChannelStore}

-- HistItem
pub data Item : Type 0 where
  message : Message → Item
  presence : PresenceMessage → Item
  annotation : Annotation → Item

abbrev pub serial_of : Item → Bytes
serial_of (message m) = m.serial
serial_of (presence p) = p.serial
serial_of (annotation a) = a.serial

abbrev pub messages_of : List Message → List Item
messages_of [] = []
messages_of (m ∷ ms) = message m ∷ messages_of ms

abbrev pub presences_of : List PresenceMessage → List Item
presences_of [] = []
presences_of (p ∷ ps) = presence p ∷ presences_of ps

abbrev pub annotations_of : List Annotation → List Item
annotations_of [] = []
annotations_of (a ∷ anns) = annotation a ∷ annotations_of anns

-- CMItems
abbrev pub cm_items : Kind → ChannelMessage → List Item
cm_items kind_message cm = messages_of cm.messages
cm_items kind_presence cm = presences_of cm.presence
cm_items kind_annotation cm = annotations_of cm.annotations

-- The Append of a HistItem
abbrev pub append_item : Item → ChannelMessage → ChannelMessage
append_item (message m) cm = record cm { messages = cm.messages ++ m ∷ [] }
append_item (presence p) cm = record cm { presence = cm.presence ++ p ∷ [] }
append_item (annotation a) cm = record cm { annotations = cm.annotations ++ a ∷ [] }

abbrev pub blank_message : Bytes → ChannelMessage
blank_message channel_serial = record {
  id = [];
  channel_serial = channel_serial;
  messages = [];
  presence = [];
  annotations = [];
}

-- The item goes onto the last entry if that is of the same serial, and onto a new one otherwise.
unfoldable pub put_item : Bytes → Item → List ChannelMessage → List ChannelMessage
put_item s it [] = append_item it (blank_message s) ∷ []
put_item s it (cm ∷ []) =
    if bytes_eq cm.channel_serial s
    then append_item it cm ∷ []
    else cm ∷ append_item it (blank_message s) ∷ []
put_item s it (cm ∷ d ∷ cms) = cm ∷ put_item s it (d ∷ cms)

-- The walk over items, each with the serial of its entry: `entries` and `count` is what has been
-- emitted.
unfoldable pub walk : HistoryQuery → ℕ → List ChannelMessage → List (Bytes × Item) → HistoryPage
walk q count entries [] = record { channel_messages = entries; has_more = false }
walk q count entries ((s, it) ∷ rest) =
    let skipped = walk q count entries rest in
    let emitted = walk q (count + 1) (put_item s it entries) rest in
    if not (passes q.forwards q.cursor (serial_of it))
    then skipped
    else if ltb 0 q.limit && leb q.limit count
    then record { channel_messages = entries; has_more = true }
    else emitted

-- sort.SearchStrings: the first index of a sorted list that is not before `x`.
abbrev pub search_strings : List Bytes → Bytes → ℕ
search_strings [] x = 0
search_strings (s ∷ ss) x = let rest = search_strings ss x in if lex_lt s x then suc rest else 0

unfoldable pub lower_index : HistoryQuery → List Bytes → ℕ
lower_index q order =
    let lower = (timestamp_bounds q.start q.end).0 in
    let lo = if is_blank lower then 0 else search_strings order lower in
    let after = search_strings order (q.after_channel_serial ++ 0 ∷ []) in
    if is_blank q.after_channel_serial then lo else if ltb lo after then after else lo

unfoldable pub upper_index : HistoryQuery → List Bytes → ℕ
upper_index q order =
    let upper = (timestamp_bounds q.start q.end).1 in
    let hi = if is_blank upper then length order else search_strings order upper in
    let end' = search_strings order (q.end_channel_serial ++ 0 ∷ []) in
    if is_blank q.end_channel_serial then hi else if ltb end' hi then end' else hi

-- The rows of the log between the bounds.
abbrev pub rows_of : List Bytes → Assoc ChannelMessage → Option (List ChannelMessage)
rows_of [] by_cs = some []
rows_of (s ∷ ss) by_cs = elim (lookup s by_cs) [
  | none ↦ none
  | some cm ↦ elim (rows_of ss by_cs) [ none ↦ none | some cms ↦ some (cm ∷ cms) ]
]

abbrev pub tagged : Bytes → List Item → List (Bytes × Item)
tagged s [] = []
tagged s (it ∷ items) = (s, it) ∷ tagged s items

-- The items of the rows in the order of the walk.
abbrev pub row_items : Bool → Kind → List ChannelMessage → List (Bytes × Item)
row_items forwards kind [] = []
row_items forwards kind (cm ∷ cms) =
    tagged cm.channel_serial (scanned forwards (cm_items kind cm)) ++ row_items forwards kind cms

unfoldable pub raw_history : HistoryQuery → ChannelStore → Option HistoryPage
raw_history q cs =
    elim (rows_of (drop (lower_index q cs.order) (take (upper_index q cs.order) cs.order))
      cs.by_cs) [
        | none ↦ none
        | some rows ↦ some (walk q 0 [] (row_items q.forwards q.kind (scanned q.forwards rows)))
      ]

-- sort.Strings
abbrev pub insert_sorted : Bytes → List Bytes → List Bytes
insert_sorted x [] = x ∷ []
insert_sorted x (y ∷ ys) =
    let rest = insert_sorted x ys in if lex_lt y x then y ∷ rest else x ∷ y ∷ ys

abbrev pub sorted_ids : Assoc Message → List Bytes
sorted_ids [] = []
sorted_ids ((id, m) ∷ latest) = insert_sorted id (sorted_ids latest)

-- inBounds
unfoldable pub in_bounds : HistoryQuery → Bytes → Bool
in_bounds q id =
    let (lower, upper) = timestamp_bounds q.start q.end in
    (is_blank lower || not (lex_lt id lower))
    && (is_blank upper || lex_lt id upper)
    && (is_blank q.end_channel_serial
        || not (lex_lt q.end_channel_serial (create_channel_serial id)))

-- The latest versions that the query selects, each under the serial of its create.
abbrev pub collapsed_items : HistoryQuery → Assoc Message → List Bytes → List (Bytes × Item)
collapsed_items q latest [] = []
collapsed_items q latest (id ∷ ids) =
    let rest = collapsed_items q latest ids in
    if in_bounds q id && passes q.forwards q.cursor id
    then elim (lookup id latest) [
      | none ↦ rest
      | some m ↦ (create_channel_serial m.serial, message m) ∷ rest
    ]
    else rest

unfoldable pub collapsed_history : HistoryQuery → ChannelStore → HistoryPage
collapsed_history q cs =
    walk (record q { cursor = [] }) 0 []
      (collapsed_items q cs.latest (scanned q.forwards (sorted_ids cs.latest)))

abbrev pub is_message : Kind → Bool
is_message kind_message = true
is_message _ = false

-- History
unfoldable pub history :
    Bool → HistoryQuery → ChannelStore → Result StorageError (Option HistoryPage)
history true q cs = err context_done
history false q cs =
    if q.collapse && is_message q.kind
    then ok (some (collapsed_history q cs))
    else ok (raw_history q cs)
