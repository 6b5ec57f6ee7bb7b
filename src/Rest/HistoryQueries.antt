-- ===== src/Rest/HistoryQueries.antt =====
-- internal/rest/server.go: `parseHistoryQuery`, and the query that HandleHistory makes of it.
-- `values` is the first value of each key of the query string; ParseInt and Atoi are one function,
-- since an int has 64 bits.
mod Tests
use ably_server.Base.{
  ℕ, zero, suc, ◌+◌, ◌≤◌, ◌≡◌, refl, sym, ap, ◌∙◌, inl, inr, Bool, true, false, ◌&&◌, List, [], ◌∷◌,
  Option, none, some, Bytes, arith, if◌then◌else◌, Bool-cases, Option-cases, text, length, take,
  leb, bytes_eq, ℤ, pos, negsuc, atoi, Assoc, lookup, Result, ok, err, ◌>>=◌, bind_ok,
}
use mathlib.Core.Path.{subst}
use ably_server.Protocol.{Message}
use ably_server.Storage.{is_blank, create_channel_serial}
use ably_server.Storage.Pages.{Kind, kind_message, HistoryQuery, HistoryPage, passes, scanned}
use ably_server.Memory.{ChannelStore}
use ably_server.Memory.History.{
  Item, message, sorted_ids, in_bounds, collapsed_items, collapsed_history,
}
use ably_server.Memory.History.Walk.{AllOf, page_items, survivors, limited, walk_lem}

pub data QueryError : Type 0 where
  bad_direction bad_start bad_end bad_limit : QueryError

-- values.Get
abbrev pub value : Bytes → Assoc Bytes → Bytes
value key values = elim (lookup key values) [ none ↦ [] | some v ↦ v ]

unfoldable pub parse_direction : Bytes → Result QueryError Bool
parse_direction v =
    if is_blank v
    then ok false
    else if bytes_eq v (text "backwards")
    then ok false
    else if bytes_eq v (text "forwards")
    then ok true
    else err bad_direction

abbrev pub not_negative : QueryError → Option ℤ → Result QueryError ℕ
not_negative e (some (pos n)) = ok n
not_negative e (some (negsuc n)) = err e
not_negative e none = err e

unfoldable pub parse_time : QueryError → Bytes → Result QueryError ℕ
parse_time e v = if is_blank v then ok 0 else not_negative e (atoi v)

abbrev pub in_range : Option ℤ → Result QueryError ℕ
in_range (some (pos n)) = if leb 1 n && leb n 1000 then ok n else err bad_limit
in_range (some (negsuc n)) = err bad_limit
in_range none = err bad_limit

unfoldable pub parse_limit : Bytes → Result QueryError ℕ
parse_limit v = if is_blank v then ok 100 else in_range (atoi v)

abbrev pub or_else : Bytes → Bytes → Bytes
or_else v w = if is_blank v then w else v

-- parseHistoryQuery
unfoldable pub parse_history_query : Assoc Bytes → Result QueryError HistoryQuery
parse_history_query values = parse_direction (value (text "direction") values) >>= λ forwards.
    parse_time bad_start (value (text "start") values) >>= λ start.
    parse_time bad_end (value (text "end") values) >>= λ end.
    parse_limit (value (text "limit") values) >>= λ limit. ok (record {
      kind = kind_message;
      forwards = forwards;
      start = start;
      end = end;
      cursor = value (text "from") values;
      after_channel_serial = [];
      end_channel_serial =
          or_else (value (text "fromSerial") values) (value (text "from_serial") values);
      limit = limit;
      collapse = false;
    })

-- The query of HandleHistory
abbrev pub message_history : HistoryQuery → HistoryQuery
message_history q = record q { collapse = true }

in_range-bounds : (o : Option ℤ) (n : ℕ) → in_range o ≡ ok n → (1 ≤ n) × (n ≤ 1000)
in_range-bounds none n h = absurd (ground arith)
in_range-bounds (some (negsuc k)) n h = absurd (ground arith)
in_range-bounds (some (pos k)) n h = ground arith

parse_limit-bounds : (v : Bytes) (n : ℕ) → parse_limit v ≡ ok n → (1 ≤ n) × (n ≤ 1000)
unfolding parse_limit
parse_limit-bounds v n h = elim (Bool-cases (is_blank v)) [
  | inl blank ↦ ground arith
  | inr given ↦ in_range-bounds (atoi v) n (ground arith)
]

parsed-bounds :
    (values : Assoc Bytes) (q : HistoryQuery)
    → parse_history_query values ≡ ok q
    → (q.kind ≡ kind_message) × ((1 ≤ q.limit) × (q.limit ≤ 1000))
unfolding parse_history_query
parsed-bounds values q h =
    let (forwards, _, h1) = bind_ok (parse_direction (value (text "direction") values)) _ h in
    let (start, _, h2) = bind_ok (parse_time bad_start (value (text "start") values)) _ h1 in
    let (end', _, h3) = bind_ok (parse_time bad_end (value (text "end") values)) _ h2 in
    let (limit, bounded, h4) = bind_ok (parse_limit (value (text "limit") values)) _ h3 in
    let same : limit ≡ q.limit = ground (arith, h4) in
    let kind : kind_message ≡ q.kind = ground (arith, h4) in
    (sym kind, subst (λ n. (1 ≤ n) × (n ≤ 1000)) same (parse_limit-bounds _ limit bounded))

collapsed_items-AllOf :
    (q : HistoryQuery) (latest : Assoc Message) (ids : List Bytes)
    → AllOf kind_message (collapsed_items q latest ids)
collapsed_items-AllOf q latest [] = tt
collapsed_items-AllOf q latest (id ∷ ids) =
    go (in_bounds q id && passes q.forwards q.cursor id) (lookup id latest)
      (collapsed_items-AllOf q latest ids)
  where
    go :
        (b : Bool) (o : Option Message)
        → AllOf kind_message (collapsed_items q latest ids)
        → AllOf kind_message (
            if b
            then elim o [
              | none ↦ collapsed_items q latest ids
              | some m ↦ (create_channel_serial m.serial, message m) ∷ collapsed_items q latest ids
            ]
            else collapsed_items q latest ids)
    go false o h = h
    go true none h = h
    go true (some m) h = (refl, h)

length-take : {A : Type 0} (n : ℕ) (xs : List A) → length (take n xs) ≤ n
length-take zero xs = omega arith
length-take (suc n) [] = omega arith
length-take (suc n) (x ∷ xs) = omega (arith, length-take n xs)

length-limited : {A : Type 0} (n : ℕ) (xs : List A) → 1 ≤ n → length (limited n xs) ≤ n
length-limited zero xs h = absurd (omega arith)
length-limited (suc n) xs h = length-take (suc n) xs

-- A query string that is accepted asks for at least one message and at most 1,000, and the page of
-- the message history that it leads to has no more messages than it asks for.
pub parse_history_query-bounds :
    (values : Assoc Bytes) (q : HistoryQuery) (cs : ChannelStore)
    → parse_history_query values ≡ ok q
    → (1 ≤ q.limit)
      × (q.limit ≤ 1000)
      × (length
            (page_items kind_message (collapsed_history (message_history q) cs).channel_messages)
          ≤ q.limit)
unfolding collapsed_history
parse_history_query-bounds values q cs h =
    let (kind, (least, most)) = parsed-bounds values q h in
    let items =
      collapsed_items (message_history q) cs.latest (scanned q.forwards (sorted_ids cs.latest)) in
    let all_of : AllOf q.kind items =
      subst (λ k. AllOf k items) (sym kind)
        (collapsed_items-AllOf (message_history q) cs.latest
          (scanned q.forwards (sorted_ids cs.latest))) in
    let (shown, more) = walk_lem (record (message_history q) { cursor = [] }) items all_of in
    let q' : HistoryQuery = record (message_history q) { cursor = [] } in
    let few : length (page_items q.kind (collapsed_history (message_history q) cs).channel_messages)
        ≤ q.limit =
      subst (λ (xs : List (Bytes × Item)). length xs ≤ q.limit) (sym shown)
        (length-limited q.limit (survivors q' items) least) in
    (
      least,
      most,
      subst
          (λ k.
            length (page_items k (collapsed_history (message_history q) cs).channel_messages)
            ≤ q.limit)
          kind few,
    )
