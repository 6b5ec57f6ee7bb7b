-- ===== src/Memory/Queries.antt =====
-- internal/storage/memory/memory.go: `Annotations`, `Members` and the map of channels;
-- internal/storage/storage.go: `PaginateAnnotations`.
use ably_server.Base.{
  ℕ, zero, suc, ◌+◌, ◌≡◌, refl, ap, ◌∙◌, inl, inr, Bool, true, false, not, ◌&&◌, List, [], ◌∷◌,
  none, some, Bytes, arith, if◌then◌else◌, Bool-cases, length, take, ltb, leb, lex_lt, Assoc,
  lookup, Result, ok, err,
}
use ably_server.Protocol.{PresenceMessage, ChannelMessage}
use ably_server.Protocol.Summaries.{Annotation}
use ably_server.Storage.{StorageError, context_done, create_channel_serial}
use ably_server.Storage.Pages.{HistoryQuery, HistoryPage, passes, scanned}
use ably_server.Memory.{ChannelStore}

abbrev pub annotation_entry : Annotation → ChannelMessage
annotation_entry a = record {
  id = [];
  channel_serial = create_channel_serial a.serial;
  messages = [];
  presence = [];
  annotations = a ∷ [];
}

-- The scan, with the annotations that are left and the number that has been emitted.
unfoldable pub emit_annotations : HistoryQuery → ℕ → List Annotation → HistoryPage
emit_annotations q count [] = record { channel_messages = []; has_more = false }
emit_annotations q count (a ∷ anns) =
    let skipped = emit_annotations q count anns in
    let page = emit_annotations q (count + 1) anns in
    if not (passes q.forwards q.cursor a.serial)
    then skipped
    else if ltb 0 q.limit && leb q.limit count
    then record { channel_messages = []; has_more = true }
    else record page { channel_messages = annotation_entry a ∷ page.channel_messages }

-- PaginateAnnotations
unfoldable pub paginate_annotations : List Annotation → HistoryQuery → HistoryPage
paginate_annotations all q = emit_annotations q 0 (scanned q.forwards all)

-- Annotations: an unknown target has none.
unfoldable pub read_annotations :
    Bool → Bytes → HistoryQuery → ChannelStore → Result StorageError HistoryPage
read_annotations true target q cs = err context_done
read_annotations false target q cs =
    ok (paginate_annotations (elim (lookup target cs.annotations) [ none ↦ [] | some all ↦ all ]) q)

-- sort.Slice by serial
abbrev pub insert_member : PresenceMessage → List PresenceMessage → List PresenceMessage
insert_member p [] = p ∷ []
insert_member p (x ∷ xs) =
    let rest = insert_member p xs in if lex_lt x.serial p.serial then x ∷ rest else p ∷ x ∷ xs

abbrev pub sorted_members : Assoc PresenceMessage → List PresenceMessage
sorted_members [] = []
sorted_members ((k, p) ∷ members) = insert_member p (sorted_members members)

abbrev pub watermark : List Bytes → Bytes
watermark [] = []
watermark (s ∷ []) = s
watermark (s ∷ t ∷ ss) = watermark (t ∷ ss)

-- Members, with the serial that they are as of.
unfoldable pub read_members :
    Bool → ChannelStore → Result StorageError (List PresenceMessage × Bytes)
read_members true cs = err context_done
read_members false cs = ok (sorted_members cs.members, watermark cs.order)

-- The annotations past the cursor.
abbrev annotations_past : HistoryQuery → List Annotation → List Annotation
annotations_past q [] = []
annotations_past q (a ∷ anns) =
    let rest = annotations_past q anns in
    if passes q.forwards q.cursor a.serial then a ∷ rest else rest

abbrev entries_of : List Annotation → List ChannelMessage
entries_of [] = []
entries_of (a ∷ anns) = annotation_entry a ∷ entries_of anns

emit_annotations-limited :
    (q : HistoryQuery) (count room : ℕ) (anns : List Annotation)
    → ltb 0 q.limit ≡ true
    → q.limit ≡ count + room
    → ((emit_annotations q count anns).channel_messages
        ≡ entries_of (take room (annotations_past q anns)))
      × ((emit_annotations q count anns).has_more ≡ ltb room (length (annotations_past q anns)))
unfolding emit_annotations
emit_annotations-limited q count zero [] l e = (refl, ground arith)
emit_annotations-limited q count (suc room) [] l e = (refl, ground arith)
emit_annotations-limited q count zero (a ∷ anns) l e =
    let full : (ltb 0 q.limit && leb q.limit count) ≡ true = ground (arith, l, e) in
    elim (Bool-cases (passes q.forwards q.cursor a.serial)) [
      | inl past ↦ rw (past, full) (refl, ground arith)
      | inr before ↦ rw before (emit_annotations-limited q count zero anns l e)
    ]
emit_annotations-limited q count (suc room) (a ∷ anns) l e =
    let (shown, more) = emit_annotations-limited q (count + 1) room anns l (omega (arith, e)) in
    let open_end : (ltb 0 q.limit && leb q.limit count) ≡ false = ground (arith, e) in
    elim (Bool-cases (passes q.forwards q.cursor a.serial)) [
      | inl past ↦ rw (past, open_end) (ap (◌∷◌ (annotation_entry a)) shown, more ∙ ground arith)
      | inr before ↦ rw before (emit_annotations-limited q count (suc room) anns l e)
    ]

-- With a limit, a page of annotations has an entry of its own for each of the first annotations past
-- the cursor in the order of the query, as many as the limit allows, and more exactly when some
-- are left.
pub paginate_annotations-limited :
    (q : HistoryQuery) (all : List Annotation)
    → ltb 0 q.limit ≡ true
    → ((paginate_annotations all q).channel_messages
        ≡ entries_of (take q.limit (annotations_past q (scanned q.forwards all))))
      × ((paginate_annotations all q).has_more
          ≡ ltb q.limit (length (annotations_past q (scanned q.forwards all))))
unfolding paginate_annotations
paginate_annotations-limited q all l =
    emit_annotations-limited q 0 q.limit (scanned q.forwards all) l (omega arith)
