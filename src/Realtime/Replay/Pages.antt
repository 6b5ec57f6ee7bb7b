-- ===== src/Realtime/Replay/Pages.antt =====
-- internal/realtime/attachment.go: the items of the entries that a resume reads and replays.
use ably_server.Base.{
  ℕ, suc, ◌+◌, ◌≤◌, ◌<◌, ◌≡◌, refl, sym, ap, ap₂, ◌∙◌, inl, inr, Bool, true, false, not, ◌&&◌, List,
  [], ◌∷◌, ◌++◌, append-nil, append_assoc, Option, none, some, Bytes, arith, if◌then◌else◌,
  Bool-cases, lex_lt, bytes_eq, length, length-append, take, drop, any, ltb, leb,
}
use mathlib.Core.Path.{subst}
use ably_server.Protocol.{Message, ChannelMessage}
use ably_server.Storage.Pages.{kind_message, HistoryQuery, HistoryPage, passes, reversed, scanned}
use ably_server.Memory.{ChannelStore}
use ably_server.Memory.History.{
  Item, message, serial_of, messages_of, append_item, blank_message, put_item, walk, tagged,
  rows_of, row_items, lower_index, upper_index, raw_history,
}
use ably_server.Memory.History.Walk.{kind_of, AllOf, page_items, tagged-append}
use ably_server.Memory.History.Reading.{row_items-AllOf}
use ably_server.Realtime.Replay.{normalised, all_normalised, reverse_and_normalise, newer}

abbrev pub Tagged : Type 0
Tagged = List (Bytes × Item)

pub reversed-append :
    {A : Type 0} (xs ys : List A) → reversed (xs ++ ys) ≡ reversed ys ++ reversed xs
reversed-append [] ys = sym (append-nil (reversed ys))
reversed-append (x ∷ xs) ys =
    ap (λ l. l ++ x ∷ []) (reversed-append xs ys)
    ∙ append_assoc (reversed ys) (reversed xs) (x ∷ [])

pub reversed-reversed : {A : Type 0} (xs : List A) → reversed (reversed xs) ≡ xs
reversed-reversed [] = refl
reversed-reversed (x ∷ xs) =
    reversed-append (reversed xs) (x ∷ []) ∙ ap (◌∷◌ x) (reversed-reversed xs)

pub length-reversed : {A : Type 0} (xs : List A) → length (reversed xs) ≡ length xs
length-reversed [] = refl
length-reversed (x ∷ xs) = omega (arith, length-append (reversed xs) (x ∷ []), length-reversed xs)

messages_of-append : (a b : List Message) → messages_of (a ++ b) ≡ messages_of a ++ messages_of b
messages_of-append [] b = refl
messages_of-append (m ∷ a) b = ap (◌∷◌ (message m)) (messages_of-append a b)

messages_of-reversed : (ms : List Message) → messages_of (reversed ms) ≡ reversed (messages_of ms)
messages_of-reversed [] = refl
messages_of-reversed (m ∷ ms) =
    messages_of-append (reversed ms) (m ∷ [])
    ∙ ap (λ l. l ++ message m ∷ []) (messages_of-reversed ms)

pub tagged-reversed :
    (s : Bytes) (items : List Item) → tagged s (reversed items) ≡ reversed (tagged s items)
tagged-reversed s [] = refl
tagged-reversed s (it ∷ items) =
    tagged-append s (reversed items) (it ∷ [])
    ∙ ap (λ l. l ++ (s, it) ∷ []) (tagged-reversed s items)

page_items-append :
    (a b : List ChannelMessage)
    → page_items kind_message (a ++ b) ≡ page_items kind_message a ++ page_items kind_message b
page_items-append [] b = refl
page_items-append (cm ∷ a) b =
    ap (λ l. tagged cm.channel_serial (messages_of cm.messages) ++ l) (page_items-append a b)
    ∙ sym (
        append_assoc (tagged cm.channel_serial (messages_of cm.messages))
          (page_items kind_message a) (page_items kind_message b))

page_items-normalised :
    (cm : ChannelMessage)
    → page_items kind_message (normalised cm ∷ [])
      ≡ reversed (tagged cm.channel_serial (messages_of cm.messages))
page_items-normalised cm =
    append-nil (tagged cm.channel_serial (messages_of (reversed cm.messages)))
    ∙ ap (tagged cm.channel_serial) (messages_of-reversed cm.messages)
    ∙ tagged-reversed cm.channel_serial (messages_of cm.messages)

-- What a page holds newest first, its replay holds oldest first.
pub page_items-reverse_and_normalise :
    (cms : List ChannelMessage)
    → page_items kind_message (reverse_and_normalise cms) ≡ reversed (page_items kind_message cms)
unfolding reverse_and_normalise
page_items-reverse_and_normalise [] = refl
page_items-reverse_and_normalise (cm ∷ cms) =
    page_items-append (reversed (all_normalised cms)) (normalised cm ∷ [])
    ∙ ap₂ ◌++◌ (page_items-reverse_and_normalise cms) (page_items-normalised cm)
    ∙ sym (
        reversed-append (tagged cm.channel_serial (messages_of cm.messages))
          (page_items kind_message cms))

-- The items of a tagged list before the first one that is not past a serial, and whether there is one.
abbrev pub past_prefix : Bytes → Tagged → Tagged
past_prefix s [] = []
past_prefix s ((t, it) ∷ rest) =
    let more = past_prefix s rest in if lex_lt s t then (t, it) ∷ more else []

abbrev pub any_behind : Bytes → Tagged → Bool
any_behind s = any (λ (x : Bytes × Item). not (lex_lt s x.0))

-- Each entry has messages.
abbrev pub Filled : List ChannelMessage → Type 0
Filled [] = Unit {0}
Filled (cm ∷ cms) = (0 < length cm.messages) × Filled cms

tagged_past :
    (s t : Bytes) (items : List Item) (rest : Tagged)
    → lex_lt s t ≡ true
    → (past_prefix s (tagged t items ++ rest) ≡ tagged t items ++ past_prefix s rest)
      × (any_behind s (tagged t items ++ rest) ≡ any_behind s rest)
tagged_past s t [] rest h = (refl, refl)
tagged_past s t (it ∷ items) rest h =
    let (a, b) = tagged_past s t items rest h in rw h (ap (◌∷◌ (t, it)) a, b)

tagged_behind :
    (s t : Bytes) (ms : List Message) (rest : Tagged)
    → 0 < length ms
    → lex_lt s t ≡ false
    → (past_prefix s (tagged t (messages_of ms) ++ rest) ≡ [])
      × (any_behind s (tagged t (messages_of ms) ++ rest) ≡ true)
tagged_behind s t [] rest l h = absurd (omega arith)
tagged_behind s t (m ∷ ms) rest l h = rw h (refl, refl)

-- The entries that `newer` keeps have the items of the page up to the first that is behind.
pub page_items-newer :
    (s : Bytes) (cms : List ChannelMessage)
    → Filled cms
    → (page_items kind_message (newer s cms).0 ≡ past_prefix s (page_items kind_message cms))
      × ((newer s cms).1 ≡ any_behind s (page_items kind_message cms))
unfolding newer
page_items-newer s [] f = (refl, refl)
page_items-newer s (cm ∷ cms) f =
    let (a, b) = page_items-newer s cms f.1 in
    let items = messages_of cm.messages in
    elim (Bool-cases (lex_lt s cm.channel_serial)) [
      | inl past ↦
          let (x, y) = tagged_past s cm.channel_serial items (page_items kind_message cms) past in
          rw past (ap (λ l. tagged cm.channel_serial items ++ l) a ∙ sym x, b ∙ sym y)
      | inr behind ↦
          let (x, y) =
            tagged_behind s cm.channel_serial cm.messages (page_items kind_message cms) f.0
              behind in
          rw behind (sym x, sym y)
    ]

pub newer-eq :
    (s : Bytes) (cms : List ChannelMessage) → (newer s cms).1 ≡ false → (newer s cms).0 ≡ cms
unfolding newer
newer-eq s [] h = refl
newer-eq s (cm ∷ cms) h = elim (Bool-cases (lex_lt s cm.channel_serial)) [
  | inl past ↦ rw past (ap (◌∷◌ cm) (newer-eq s cms (ground (arith, h, past))))
  | inr behind ↦ absurd (ground (arith, h, behind))
]

append_item-filled :
    (it : Item) (cm : ChannelMessage)
    → kind_of it ≡ kind_message
    → 0 < length (append_item it cm).messages
append_item-filled (message m) cm h = omega (arith, length-append cm.messages (m ∷ []))
append_item-filled (Item.presence p) cm h = absurd (ground (arith, h))
append_item-filled (Item.annotation a) cm h = absurd (ground (arith, h))

put_item-Filled :
    (s : Bytes) (it : Item) (entries : List ChannelMessage)
    → kind_of it ≡ kind_message
    → Filled entries
    → Filled (put_item s it entries)
unfolding put_item
put_item-Filled s it [] k f = (append_item-filled it (blank_message s) k, tt)
put_item-Filled s it (cm ∷ []) k f = elim (Bool-cases (bytes_eq cm.channel_serial s)) [
  | inl same ↦ rw same (append_item-filled it cm k, tt)
  | inr other ↦ rw other (f.0, (append_item-filled it (blank_message s) k, tt))
]
put_item-Filled s it (cm ∷ d ∷ cms) k f = (f.0, put_item-Filled s it (d ∷ cms) k f.1)

walk-Filled :
    (q : HistoryQuery) (count : ℕ) (entries : List ChannelMessage) (items : Tagged)
    → AllOf kind_message items
    → Filled entries
    → Filled (walk q count entries items).channel_messages
unfolding walk
walk-Filled q count entries [] k f = f
walk-Filled q count entries ((s, it) ∷ rest) (k, ks) f =
    let skipped = walk-Filled q count entries rest ks f in
    let emitted =
      walk-Filled q (count + 1) (put_item s it entries) rest ks
        (put_item-Filled s it entries k f) in
    elim (Bool-cases (passes q.forwards q.cursor (serial_of it))) [
      | inr before ↦ rw before skipped
      | inl past ↦ elim (Bool-cases (ltb 0 q.limit && leb q.limit count)) [
        | inl full ↦ rw (past, full) f
        | inr room ↦ rw (past, room) emitted
      ]
    ]

-- A page of messages has messages in each entry.
pub raw_history-Filled :
    (q : HistoryQuery) (cs : ChannelStore) (page : HistoryPage)
    → q.kind ≡ kind_message
    → raw_history q cs ≡ some page
    → Filled page.channel_messages
unfolding raw_history
raw_history-Filled q cs page k h =
    go (rows_of (drop (lower_index q cs.order) (take (upper_index q cs.order) cs.order)) cs.by_cs)
      refl
  where
    go :
        (r : Option (List ChannelMessage))
        → rows_of (drop (lower_index q cs.order) (take (upper_index q cs.order) cs.order)) cs.by_cs
          ≡ r
        → Filled page.channel_messages
    go none e = absurd (ground (arith, h, e))
    go (some rows) e =
        let items = row_items q.forwards q.kind (scanned q.forwards rows) in
        let shown : (walk q 0 [] items).channel_messages ≡ page.channel_messages =
          ground (arith, h, e) in
        let of_kind = row_items-AllOf q.forwards kind_message (scanned q.forwards rows) in
        subst Filled shown (
          walk-Filled q 0 [] items
            (subst
              (λ kind. AllOf kind_message (row_items q.forwards kind (scanned q.forwards rows)))
              (sym k) of_kind)
            tt)

length-tagged_messages :
    (s : Bytes) (ms : List Message) → length (tagged s (messages_of ms)) ≡ length ms
length-tagged_messages s [] = refl
length-tagged_messages s (m ∷ ms) = ap suc (length-tagged_messages s ms)

-- There are at least as many items as entries.
pub length-page_items :
    (cms : List ChannelMessage) → Filled cms → length cms ≤ length (page_items kind_message cms)
length-page_items [] f = omega arith
length-page_items (cm ∷ cms) f = omega (
  arith,
  f.0,
  length-append (tagged cm.channel_serial (messages_of cm.messages)) (page_items kind_message cms),
  length-tagged_messages cm.channel_serial cm.messages,
  length-page_items cms f.1,
)
