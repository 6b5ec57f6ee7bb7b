-- ===== src/Realtime/Replay/Gaps.antt =====
-- internal/realtime/attachment.go: what a resume replays of a consistent channel.
use ably_server.Base.{
  ◌≡◌, refl, sym, ap, ap₂, ◌∙◌, inl, inr, Bool, true, false, not, ◌&&◌, List, [], ◌∷◌, ◌++◌,
  append-nil, append_assoc, Bytes, arith, Bool-cases, lex_lt, lex_lt_trans, Assoc,
}
use ably_server.Protocol.{ChannelMessage}
use ably_server.Storage.Pages.{Kind, HistoryQuery, passes, reversed}
use ably_server.Memory.{ChannelStore}
use ably_server.Memory.Invariant.{Above, Sorted}
use ably_server.Memory.History.{tagged, cm_items, row_items}
use ably_server.Memory.History.Walk.{survivors}
use ably_server.Memory.History.Bounds.{filtered}
use ably_server.Memory.History.Reading.{found, wanted}
use ably_server.Realtime.Replay.{backwards_query}
use ably_server.Realtime.Replay.Pages.{Tagged, reversed-append, tagged-reversed}

-- What a client has missed: the messages after its cursor, up to the anchor, in the log's order.
abbrev pub gap_query : Bytes → Bytes → HistoryQuery
gap_query resume_from anchor = record (backwards_query 0 anchor 0) {
  forwards = true;
  after_channel_serial = resume_from;
}

abbrev pub missed : Bytes → Bytes → ChannelStore → Tagged
missed resume_from anchor cs = wanted (gap_query resume_from anchor) cs

abbrev pub behind : Bytes → Bytes → Bool
behind s t = not (lex_lt s t)

Above-filtered :
    (x : Bytes) (p : Bytes → Bool) (ss : List Bytes) → Above x ss → Above x (filtered p ss)
Above-filtered x p [] h = tt
Above-filtered x p (s ∷ ss) h = elim (Bool-cases (p s)) [
  | inl kept ↦ rw kept (h.0, Above-filtered x p ss h.1)
  | inr left ↦ rw left (Above-filtered x p ss h.1)
]

pub Sorted-filtered : (p : Bytes → Bool) (ss : List Bytes) → Sorted ss → Sorted (filtered p ss)
Sorted-filtered p [] h = tt
Sorted-filtered p (s ∷ ss) h = elim (Bool-cases (p s)) [
  | inl kept ↦ rw kept (Above-filtered s p ss h.0, Sorted-filtered p ss h.1)
  | inr left ↦ rw left (Sorted-filtered p ss h.1)
]

pub filtered-filtered :
    (p r : Bytes → Bool) (ss : List Bytes)
    → filtered r (filtered p ss) ≡ filtered (λ t. p t && r t) ss
filtered-filtered p r [] = refl
filtered-filtered p r (s ∷ ss) = ground (arith, filtered-filtered p r ss)

pub filtered_same :
    (p r : Bytes → Bool) (ss : List Bytes)
    → ((t : Bytes) → p t ≡ r t)
    → filtered p ss ≡ filtered r ss
filtered_same p r [] h = refl
filtered_same p r (s ∷ ss) h = ground (arith, h s, filtered_same p r ss h)

all_past :
    (s x : Bytes) (ss : List Bytes)
    → lex_lt s x ≡ true
    → Above x ss
    → (filtered (behind s) ss ≡ []) × (filtered (lex_lt s) ss ≡ ss)
all_past s x [] h a = (refl, refl)
all_past s x (y ∷ ss) h a =
    let past = lex_lt_trans s x y h a.0 in
    let (none_behind, all) = all_past s x ss h a.1 in rw past (none_behind, ap (◌∷◌ y) all)

-- A sorted list is what is behind a serial, and then what is past it.
pub Sorted-split :
    (s : Bytes) (ss : List Bytes)
    → Sorted ss
    → ss ≡ filtered (behind s) ss ++ filtered (lex_lt s) ss
Sorted-split s [] h = refl
Sorted-split s (x ∷ ss) h = elim (Bool-cases (lex_lt s x)) [
  | inl past ↦
      let (none_behind, all) = all_past s x ss past h.0 in
      rw past (sym (ap₂ ◌++◌ none_behind (ap (◌∷◌ x) all)))
  | inr not_past ↦ rw not_past (ap (◌∷◌ x) (Sorted-split s ss h.1))
]

pub found-append :
    (a b : List Bytes) (m : Assoc ChannelMessage) → found (a ++ b) m ≡ found a m ++ found b m
found-append [] b m = refl
found-append (s ∷ a) b m = ground (arith, found-append a b m)

pub row_items-append :
    (kind : Kind) (a b : List ChannelMessage)
    → row_items true kind (a ++ b) ≡ row_items true kind a ++ row_items true kind b
row_items-append kind [] b = refl
row_items-append kind (cm ∷ a) b =
    ap (λ l. tagged cm.channel_serial (cm_items kind cm) ++ l) (row_items-append kind a b)
    ∙ sym (
        append_assoc (tagged cm.channel_serial (cm_items kind cm)) (row_items true kind a)
          (row_items true kind b))

row_items-snoc :
    (kind : Kind) (a : List ChannelMessage) (cm : ChannelMessage)
    → row_items false kind (a ++ cm ∷ [])
      ≡ row_items false kind a ++ tagged cm.channel_serial (reversed (cm_items kind cm))
row_items-snoc kind [] cm = append-nil (tagged cm.channel_serial (reversed (cm_items kind cm)))
row_items-snoc kind (x ∷ a) cm =
    ap (λ l. tagged x.channel_serial (reversed (cm_items kind x)) ++ l) (row_items-snoc kind a cm)
    ∙ sym (
        append_assoc (tagged x.channel_serial (reversed (cm_items kind x))) (row_items false kind a)
          (tagged cm.channel_serial (reversed (cm_items kind cm))))

-- Read backwards, the rows have their items in the reverse order.
pub row_items-reversed :
    (kind : Kind) (rows : List ChannelMessage)
    → row_items false kind (reversed rows) ≡ reversed (row_items true kind rows)
row_items-reversed kind [] = refl
row_items-reversed kind (cm ∷ rows) =
    row_items-snoc kind (reversed rows) cm
    ∙ ap₂ ◌++◌ (row_items-reversed kind rows) (tagged-reversed cm.channel_serial (cm_items kind cm))
    ∙ sym (reversed-append (tagged cm.channel_serial (cm_items kind cm)) (row_items true kind rows))

pub no_cursor : (q : HistoryQuery) (items : Tagged) → q.cursor ≡ [] → survivors q items ≡ items
unfolding passes
no_cursor q [] h = refl
no_cursor q ((s, it) ∷ items) h = rw h (ap (◌∷◌ (s, it)) (no_cursor q items h))
