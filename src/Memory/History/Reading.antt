-- ===== src/Memory/History/Reading.antt =====
-- internal/storage/memory/memory.go: what `History` returns of a consistent channel.
use ably_server.Base.{
  ◌≡◌, refl, ap, ◌∙◌, inl, inr, Bool, true, false, ◌&&◌, List, [], ◌∷◌, ◌++◌, none, some, Bytes,
  Bool-cases, length, take, drop, ltb, Assoc, lookup,
}
use ably_server.Protocol.{Message, PresenceMessage, ChannelMessage}
use ably_server.Protocol.Summaries.{Annotation}
use ably_server.Storage.Pages.{
  Kind, kind_message, kind_presence, kind_annotation, HistoryQuery, HistoryPage, reversed, scanned,
}
use ably_server.Memory.{ChannelStore}
use ably_server.Memory.Invariant.{Stored, IsConsistent}
use ably_server.Memory.History.{
  Item, messages_of, presences_of, annotations_of, cm_items, walk, lower_index, upper_index,
  rows_of, tagged, row_items, raw_history,
}
use ably_server.Memory.History.Walk.{kind_of, AllOf, page_items, survivors, limited, walk_lem}
use ably_server.Memory.History.Bounds.{filtered, is_between, slice-is_between}

abbrev AllKind : Kind → List Item → Type 0
AllKind kind [] = Unit {0}
AllKind kind (it ∷ items) = (kind_of it ≡ kind) × AllKind kind items

messages_of-AllKind : (ms : List Message) → AllKind kind_message (messages_of ms)
messages_of-AllKind [] = tt
messages_of-AllKind (m ∷ ms) = (refl, messages_of-AllKind ms)

presences_of-AllKind : (ps : List PresenceMessage) → AllKind kind_presence (presences_of ps)
presences_of-AllKind [] = tt
presences_of-AllKind (p ∷ ps) = (refl, presences_of-AllKind ps)

annotations_of-AllKind : (anns : List Annotation) → AllKind kind_annotation (annotations_of anns)
annotations_of-AllKind [] = tt
annotations_of-AllKind (a ∷ anns) = (refl, annotations_of-AllKind anns)

cm_items-AllKind : (kind : Kind) (cm : ChannelMessage) → AllKind kind (cm_items kind cm)
cm_items-AllKind kind_message cm = messages_of-AllKind cm.messages
cm_items-AllKind kind_presence cm = presences_of-AllKind cm.presence
cm_items-AllKind kind_annotation cm = annotations_of-AllKind cm.annotations

AllKind-append :
    (kind : Kind) (xs ys : List Item) → AllKind kind xs → AllKind kind ys → AllKind kind (xs ++ ys)
AllKind-append kind [] ys h k = k
AllKind-append kind (x ∷ xs) ys h k = (h.0, AllKind-append kind xs ys h.1 k)

AllKind-reversed : (kind : Kind) (xs : List Item) → AllKind kind xs → AllKind kind (reversed xs)
AllKind-reversed kind [] h = tt
AllKind-reversed kind (x ∷ xs) h =
    AllKind-append kind (reversed xs) (x ∷ []) (AllKind-reversed kind xs h.1) (h.0, tt)

AllKind-scanned :
    (forwards : Bool) (kind : Kind) (xs : List Item)
    → AllKind kind xs
    → AllKind kind (scanned forwards xs)
AllKind-scanned true kind xs h = h
AllKind-scanned false kind xs h = AllKind-reversed kind xs h

tagged-AllOf :
    (kind : Kind) (s : Bytes) (xs : List Item) (rest : List (Bytes × Item))
    → AllKind kind xs
    → AllOf kind rest
    → AllOf kind (tagged s xs ++ rest)
tagged-AllOf kind s [] rest h k = k
tagged-AllOf kind s (x ∷ xs) rest h k = (h.0, tagged-AllOf kind s xs rest h.1 k)

pub row_items-AllOf :
    (forwards : Bool) (kind : Kind) (cms : List ChannelMessage)
    → AllOf kind (row_items forwards kind cms)
row_items-AllOf forwards kind [] = tt
row_items-AllOf forwards kind (cm ∷ cms) =
    tagged-AllOf kind cm.channel_serial (scanned forwards (cm_items kind cm))
      (row_items forwards kind cms)
      (AllKind-scanned forwards kind (cm_items kind cm) (cm_items-AllKind kind cm))
      (row_items-AllOf forwards kind cms)

-- The messages that are persisted under the serials of a list.
abbrev pub found : List Bytes → Assoc ChannelMessage → List ChannelMessage
found [] by_cs = []
found (s ∷ ss) by_cs = elim (lookup s by_cs) [
  | none ↦ found ss by_cs
  | some cm ↦ cm ∷ found ss by_cs
]

pub Stored-filtered :
    (m : Assoc ChannelMessage) (p : Bytes → Bool) (ss : List Bytes)
    → Stored m ss
    → Stored m (filtered p ss)
Stored-filtered m p [] h = tt
Stored-filtered m p (s ∷ ss) h = elim (Bool-cases (p s)) [
  | inl kept ↦ rw kept (h.0, Stored-filtered m p ss h.1)
  | inr left ↦ rw left (Stored-filtered m p ss h.1)
]

rows_of-found :
    (m : Assoc ChannelMessage) (ss : List Bytes) → Stored m ss → rows_of ss m ≡ some (found ss m)
rows_of-found m [] h = refl
rows_of-found m (s ∷ ss) h =
    let (cm, e, same) = h.0 in rw (e, rows_of, found) (rw (rows_of-found m ss h.1, rows_of) refl)

-- What a history read should give: of the log's rows between the bounds of the query, in the order
-- of the query, the items of its kind that are past the cursor.
abbrev pub wanted : HistoryQuery → ChannelStore → List (Bytes × Item)
wanted q cs = survivors q (
    row_items q.forwards q.kind
      (scanned q.forwards (found (filtered (is_between q) cs.order) cs.by_cs)))

-- On a consistent channel, an uncollapsed history read returns a page. Its items, each with the
-- serial of its entry, are those of the log that are between the time bounds and the serial bounds
-- of the query, are of its kind and are past the cursor, in the order of the query and as many as
-- the limit allows; it has more exactly when the limit leaves some out.
pub raw_history-wanted :
    (q : HistoryQuery) (cs : ChannelStore)
    → IsConsistent cs
    → (page : HistoryPage) × (raw_history q cs ≡ some page)
      × (page_items q.kind page.channel_messages ≡ limited q.limit (wanted q cs))
      × (page.has_more ≡ (ltb 0 q.limit && ltb q.limit (length (wanted q cs))))
unfolding raw_history
raw_history-wanted q cs v =
    let rows = found (filtered (is_between q) cs.order) cs.by_cs in
    let items = row_items q.forwards q.kind (scanned q.forwards rows) in
    let (shown, more) =
      walk_lem q items (row_items-AllOf q.forwards q.kind (scanned q.forwards rows)) in
    let read : rows_of (drop (lower_index q cs.order) (take (upper_index q cs.order) cs.order))
          cs.by_cs
        ≡ some rows =
      ap (λ ss. rows_of ss cs.by_cs) (slice-is_between q cs.order v.sorted)
      ∙ rows_of-found cs.by_cs (filtered (is_between q) cs.order)
          (Stored-filtered cs.by_cs (is_between q) cs.order v.stored) in
    (walk q 0 [] items, rw (read, raw_history) refl, shown, more)
