-- ===== src/Memory/History/Walk.antt =====
-- internal/storage/memory/memory.go: what the walk of `History` puts on a page.
use ably_server.Base.{
  ℕ, zero, suc, ◌+◌, ◌≡◌, refl, sym, ap, ◌∙◌, inl, inr, true, false, ◌&&◌, List, [], ◌∷◌, ◌++◌,
  Bytes, arith, if◌then◌else◌, Bool-cases, bytes_eq, bytes_eq_iff, append_assoc, append-nil, length,
  take, ltb, leb,
}
use ably_server.Protocol.{Message, PresenceMessage, ChannelMessage}
use ably_server.Protocol.Summaries.{Annotation}
use ably_server.Storage.Pages.{
  Kind, kind_message, kind_presence, kind_annotation, HistoryQuery, passes,
}
use ably_server.Memory.History.{
  Item, message, presence, annotation, serial_of, messages_of, presences_of, annotations_of,
  cm_items, append_item, blank_message, put_item, walk, tagged,
}

abbrev pub kind_of : Item → Kind
kind_of (message m) = kind_message
kind_of (presence p) = kind_presence
kind_of (annotation a) = kind_annotation

-- All items are of one kind.
abbrev pub AllOf : Kind → List (Bytes × Item) → Type 0
AllOf kind [] = Unit {0}
AllOf kind ((s, it) ∷ rest) = (kind_of it ≡ kind) × AllOf kind rest

-- The items of a page, each with the serial of its entry.
abbrev pub page_items : Kind → List ChannelMessage → List (Bytes × Item)
page_items kind [] = []
page_items kind (cm ∷ cms) = tagged cm.channel_serial (cm_items kind cm) ++ page_items kind cms

-- The items past the cursor.
abbrev pub survivors : HistoryQuery → List (Bytes × Item) → List (Bytes × Item)
survivors q [] = []
survivors q ((s, it) ∷ rest) =
    let more = survivors q rest in
    if passes q.forwards q.cursor (serial_of it) then (s, it) ∷ more else more

-- As many as the limit allows, which is 0 if there is none.
abbrev pub limited : {A : Type 0} → ℕ → List A → List A
limited zero xs = xs
limited (suc n) xs = take (suc n) xs

messages_of-snoc :
    (ms : List Message) (m : Message)
    → messages_of (ms ++ m ∷ []) ≡ messages_of ms ++ message m ∷ []
messages_of-snoc [] m = refl
messages_of-snoc (x ∷ ms) m = ap (◌∷◌ (message x)) (messages_of-snoc ms m)

presences_of-snoc :
    (ps : List PresenceMessage) (p : PresenceMessage)
    → presences_of (ps ++ p ∷ []) ≡ presences_of ps ++ presence p ∷ []
presences_of-snoc [] p = refl
presences_of-snoc (x ∷ ps) p = ap (◌∷◌ (presence x)) (presences_of-snoc ps p)

annotations_of-snoc :
    (anns : List Annotation) (a : Annotation)
    → annotations_of (anns ++ a ∷ []) ≡ annotations_of anns ++ annotation a ∷ []
annotations_of-snoc [] a = refl
annotations_of-snoc (x ∷ anns) a = ap (◌∷◌ (annotation x)) (annotations_of-snoc anns a)

cm_items-append_item :
    (kind : Kind) (it : Item) (cm : ChannelMessage)
    → kind_of it ≡ kind
    → cm_items kind (append_item it cm) ≡ cm_items kind cm ++ it ∷ []
cm_items-append_item kind_message (message m) cm h = messages_of-snoc cm.messages m
cm_items-append_item kind_presence (presence p) cm h = presences_of-snoc cm.presence p
cm_items-append_item kind_annotation (annotation a) cm h = annotations_of-snoc cm.annotations a
cm_items-append_item kind_message (presence p) cm h = absurd (ground arith)
cm_items-append_item kind_message (annotation a) cm h = absurd (ground arith)
cm_items-append_item kind_presence (message m) cm h = absurd (ground arith)
cm_items-append_item kind_presence (annotation a) cm h = absurd (ground arith)
cm_items-append_item kind_annotation (message m) cm h = absurd (ground arith)
cm_items-append_item kind_annotation (presence p) cm h = absurd (ground arith)

append_item-channel_serial :
    (it : Item) (cm : ChannelMessage) → (append_item it cm).channel_serial ≡ cm.channel_serial
append_item-channel_serial (message m) cm = refl
append_item-channel_serial (presence p) cm = refl
append_item-channel_serial (annotation a) cm = refl

cm_items-blank : (kind : Kind) (s : Bytes) → cm_items kind (blank_message s) ≡ []
cm_items-blank kind_message s = refl
cm_items-blank kind_presence s = refl
cm_items-blank kind_annotation s = refl

pub tagged-append :
    (s : Bytes) (xs ys : List Item) → tagged s (xs ++ ys) ≡ tagged s xs ++ tagged s ys
tagged-append s [] ys = refl
tagged-append s (x ∷ xs) ys = ap (◌∷◌ (s, x)) (tagged-append s xs ys)

-- An entry that is extended, and a new one.
extended :
    (kind : Kind) (it : Item) (cm : ChannelMessage)
    → kind_of it ≡ kind
    → page_items kind (append_item it cm ∷ [])
      ≡ page_items kind (cm ∷ []) ++ (cm.channel_serial, it) ∷ []
extended kind it cm h =
    rw
      (
        append_item-channel_serial,
        cm_items-append_item kind it cm h,
        tagged-append,
        append-nil,
        append-nil,
      )
      refl

started :
    (kind : Kind) (s : Bytes) (it : Item)
    → kind_of it ≡ kind
    → page_items kind (append_item it (blank_message s) ∷ []) ≡ (s, it) ∷ []
started kind s it h = extended kind it (blank_message s) h ∙ rw (cm_items-blank kind s) refl

page_items-put_item :
    (kind : Kind) (s : Bytes) (it : Item) (entries : List ChannelMessage)
    → kind_of it ≡ kind
    → page_items kind (put_item s it entries) ≡ page_items kind entries ++ (s, it) ∷ []
unfolding put_item
page_items-put_item kind s it [] h = started kind s it h
page_items-put_item kind s it (cm ∷ []) h = elim (Bool-cases (bytes_eq cm.channel_serial s)) [
  | inl same ↦ rw same (extended kind it cm h ∙ rw ((bytes_eq_iff cm.channel_serial s).0 same) refl)
  | inr other ↦ rw other (
      ap (λ x. tagged cm.channel_serial (cm_items kind cm) ++ x) (started kind s it h)
      ∙ ap (λ x. x ++ (s, it) ∷ [])
          (sym (append-nil (tagged cm.channel_serial (cm_items kind cm)))))
]
page_items-put_item kind s it (cm ∷ d ∷ cms) h =
    ap (λ x. tagged cm.channel_serial (cm_items kind cm) ++ x)
      (page_items-put_item kind s it (d ∷ cms) h)
    ∙ sym (
        append_assoc (tagged cm.channel_serial (cm_items kind cm)) (page_items kind (d ∷ cms))
          ((s, it) ∷ []))

-- The walk with no limit, and with `room` left of one.
walk-unlimited :
    (q : HistoryQuery) (count : ℕ) (entries : List ChannelMessage) (items : List (Bytes × Item))
    → q.limit ≡ 0
    → AllOf q.kind items
    → (page_items q.kind (walk q count entries items).channel_messages
        ≡ page_items q.kind entries ++ survivors q items)
      × ((walk q count entries items).has_more ≡ false)
unfolding walk
walk-unlimited q count entries [] e h = (sym (append-nil (page_items q.kind entries)), refl)
walk-unlimited q count entries ((s, it) ∷ rest) e (k, h) =
    let (skipped, none_left) = walk-unlimited q count entries rest e h in
    let (emitted, none_left') = walk-unlimited q (count + 1) (put_item s it entries) rest e h in
    let open_end : (ltb 0 q.limit && leb q.limit count) ≡ false = rw e refl in
    elim (Bool-cases (passes q.forwards q.cursor (serial_of it))) [
      | inl past ↦
          rw (past, open_end)
            (
              emitted
                  ∙ ap (λ x. x ++ survivors q rest) (page_items-put_item q.kind s it entries k)
                  ∙ append_assoc (page_items q.kind entries) ((s, it) ∷ []) (survivors q rest),
              none_left',
            )
      | inr before ↦ rw before (skipped, none_left)
    ]

walk-limited :
    (q : HistoryQuery) (count room : ℕ) (entries : List ChannelMessage)
    (items : List (Bytes × Item))
    → ltb 0 q.limit ≡ true
    → q.limit ≡ count + room
    → AllOf q.kind items
    → (page_items q.kind (walk q count entries items).channel_messages
        ≡ page_items q.kind entries ++ take room (survivors q items))
      × ((walk q count entries items).has_more ≡ ltb room (length (survivors q items)))
unfolding walk
walk-limited q count zero entries [] l e h = (sym (append-nil (page_items q.kind entries)), refl)
walk-limited q count (suc room) entries [] l e h =
    (sym (append-nil (page_items q.kind entries)), ground arith)
walk-limited q count zero entries ((s, it) ∷ rest) l e (k, h) =
    let (skipped, none_left) = walk-limited q count zero entries rest l e h in
    let full : (ltb 0 q.limit && leb q.limit count) ≡ true = ground (arith, l, e) in
    elim (Bool-cases (passes q.forwards q.cursor (serial_of it))) [
      | inl past ↦ rw (past, full) (sym (append-nil (page_items q.kind entries)), ground arith)
      | inr before ↦ rw before (skipped, none_left)
    ]
walk-limited q count (suc room) entries ((s, it) ∷ rest) l e (k, h) =
    let (skipped, none_left) = walk-limited q count (suc room) entries rest l e h in
    let (emitted, none_left') =
      walk-limited q (count + 1) room (put_item s it entries) rest l (omega (arith, e)) h in
    let open_end : (ltb 0 q.limit && leb q.limit count) ≡ false = ground (arith, e) in
    elim (Bool-cases (passes q.forwards q.cursor (serial_of it))) [
      | inl past ↦
          rw (past, open_end)
            (
              emitted
                  ∙ ap (λ x. x ++ take room (survivors q rest))
                      (page_items-put_item q.kind s it entries k)
                  ∙ append_assoc (page_items q.kind entries) ((s, it) ∷ [])
                      (take room (survivors q rest)),
              none_left' ∙ ground arith,
            )
      | inr before ↦ rw before (skipped, none_left)
    ]

-- From an empty page, the walk emits the items past the cursor, up to the limit, and has more when
-- some of them are left.
pub walk_lem :
    (q : HistoryQuery) (items : List (Bytes × Item))
    → AllOf q.kind items
    → (page_items q.kind (walk q 0 [] items).channel_messages ≡ limited q.limit (survivors q items))
      × ((walk q 0 [] items).has_more ≡ (ltb 0 q.limit && ltb q.limit (length (survivors q items))))
walk_lem q items h = by_limit q.limit refl
  where
    by_limit :
        (n : ℕ)
        → q.limit ≡ n
        → (page_items q.kind (walk q 0 [] items).channel_messages
            ≡ limited q.limit (survivors q items))
          × ((walk q 0 [] items).has_more
              ≡ (ltb 0 q.limit && ltb q.limit (length (survivors q items))))
    by_limit zero e =
        let (a, b) = walk-unlimited q 0 [] items e h in
        (
          a ∙ ap (λ n. limited n (survivors q items)) (sym e),
          b ∙ ap (λ n. ltb 0 n && ltb n (length (survivors q items))) (sym e),
        )
    by_limit (suc n) e =
        let (a, b) = walk-limited q 0 (suc n) [] items (ground (arith, e)) (ground (arith, e)) h in
        (a ∙ ap (λ n. limited n (survivors q items)) (sym e), b ∙ ground (arith, e))
