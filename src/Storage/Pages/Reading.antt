-- ===== src/Storage/Pages/Reading.antt =====
-- internal/storage/storage.go: a client that follows the pages of `PaginateVersions`.
use ably_server.Base.{
  ℕ, zero, suc, ◌+◌, ◌-◌, ◌<◌, ◌≡◌, refl, sym, ap, ◌∙◌, inl, inr, Bool, true, false, List, [], ◌∷◌,
  ◌++◌, append-nil, append_assoc, Bytes, arith, if◌then◌else◌, Bool-cases, length, length-append,
  ltb, leb, lex_lt, lex_lt_irrefl, lex_lt_asymm, ◌==◌,
}
use mathlib.Core.Path.{subst}
use ably_server.Protocol.{Message, ChannelMessage}
use ably_server.Storage.{version_serial_of}
use ably_server.Storage.Pages.{
  HistoryQuery, HistoryPage, passes, version_message, full_page, with_message, emit_all, scanned,
  paginate_versions,
}

-- The messages past the cursor.
abbrev survivors : Bool → Bytes → List Message → List Message
survivors forwards cursor [] = []
survivors forwards cursor (m ∷ ms) =
    let rest = survivors forwards cursor ms in
    if passes forwards cursor (version_serial_of m) then m ∷ rest else rest

-- A page of messages that are all past the cursor, `room` of which fit.
abbrev page_of : ℕ → List Message → HistoryPage
page_of room [] = record { channel_messages = []; has_more = false }
page_of zero (m ∷ ms) = full_page
page_of (suc room) (m ∷ ms) = with_message m (page_of room ms)

emit_all-survivors :
    (q : HistoryQuery) (count room : ℕ) (ms : List Message)
    → ltb 0 q.limit ≡ true
    → q.limit ≡ count + room
    → emit_all q count ms ≡ page_of room (survivors q.forwards q.cursor ms)
unfolding emit_all
emit_all-survivors q count room [] h e = refl
emit_all-survivors q count zero (m ∷ ms) h e =
    let full : leb q.limit count ≡ true = ground arith in
    ground (arith, full, emit_all-survivors q count zero ms h e)
emit_all-survivors q count (suc room) (m ∷ ms) h e =
    let more : leb q.limit count ≡ false = ground arith in
    ground (
      arith,
      more,
      emit_all-survivors q count (suc room) ms h e,
      emit_all-survivors q (count + 1) room ms h (omega arith),
    )

-- The messages of a page, and the cursor that it leads to.
abbrev pub items : List ChannelMessage → List Message
items [] = []
items (cm ∷ cms) = cm.messages ++ items cms

abbrev pub last_serial : Bytes → List Message → Bytes
last_serial s [] = s
last_serial s (m ∷ ms) = last_serial (version_serial_of m) ms

-- A client that asks for page after page, each from the serial of the last message before.
unfoldable pub read_pages : ℕ → HistoryQuery → List Message → List Message
read_pages zero q versions = []
read_pages (suc n) q versions =
    let page = paginate_versions versions q in
    let got = items page.channel_messages in
    let rest = read_pages n (record q { cursor = last_serial q.cursor got }) versions in
    if page.has_more then got ++ rest else got

abbrev pub before : Bool → Bytes → Bytes → Bool
before true s t = lex_lt s t
before false s t = lex_lt t s

abbrev pub AllPast : Bool → Bytes → List Message → Type 0
AllPast forwards s [] = Unit {0}
AllPast forwards s (m ∷ ms) =
    (before forwards s (version_serial_of m) ≡ true) × AllPast forwards s ms

-- The version serials are strictly in the order of the scan, and not empty.
abbrev pub InOrder : Bool → List Message → Type 0
InOrder forwards [] = Unit {0}
InOrder forwards (m ∷ ms) =
    ((length (version_serial_of m) == 0) ≡ false)
    × AllPast forwards (version_serial_of m) ms
    × InOrder forwards ms

passes-before :
    (forwards : Bool) (s t : Bytes)
    → (length s == 0) ≡ false
    → passes forwards s t ≡ before forwards s t
unfolding passes
passes-before forwards [] t h = absurd (ground arith)
passes-before true (c ∷ s) t h = refl
passes-before false (c ∷ s) t h = refl

before_irrefl : (forwards : Bool) (s : Bytes) → before forwards s s ≡ false
before_irrefl true s = lex_lt_irrefl s
before_irrefl false s = lex_lt_irrefl s

before_asymm :
    (forwards : Bool) (s t : Bytes) → before forwards s t ≡ true → before forwards t s ≡ false
before_asymm true s t h = lex_lt_asymm s t h
before_asymm false s t h = lex_lt_asymm t s h

survivors-all : (forwards : Bool) (ms : List Message) → survivors forwards [] ms ≡ ms
unfolding passes
survivors-all forwards [] = refl
survivors-all forwards (m ∷ ms) = ap (◌∷◌ m) (survivors-all forwards ms)

survivors-past :
    (forwards : Bool) (s : Bytes) (ms : List Message)
    → (length s == 0) ≡ false
    → AllPast forwards s ms
    → survivors forwards s ms ≡ ms
survivors-past forwards s [] h k = refl
survivors-past forwards s (m ∷ ms) h k = ground (
  arith,
  passes-before forwards s (version_serial_of m) h,
  k.0,
  survivors-past forwards s ms h k.1,
)

past_at :
    (forwards : Bool) (s : Bytes) (ps : List Message) (x : Message) (ms : List Message)
    → AllPast forwards s (ps ++ x ∷ ms)
    → before forwards s (version_serial_of x) ≡ true
past_at forwards s [] x ms h = h.0
past_at forwards s (p ∷ ps) x ms h = past_at forwards s ps x ms h.1

inhabited_at :
    (forwards : Bool) (ps : List Message) (x : Message) (ms : List Message)
    → InOrder forwards (ps ++ x ∷ ms)
    → (length (version_serial_of x) == 0) ≡ false
inhabited_at forwards [] x ms h = h.0
inhabited_at forwards (p ∷ ps) x ms h = inhabited_at forwards ps x ms h.2

survivors-after :
    (forwards : Bool) (ps : List Message) (x : Message) (ms : List Message)
    → InOrder forwards (ps ++ x ∷ ms)
    → survivors forwards (version_serial_of x) (ps ++ x ∷ ms) ≡ ms
survivors-after forwards [] x ms h = ground (
  arith,
  passes-before forwards (version_serial_of x) (version_serial_of x) h.0,
  before_irrefl forwards (version_serial_of x),
  survivors-past forwards (version_serial_of x) ms h.0 h.1,
)
survivors-after forwards (p ∷ ps) x ms h = ground (
  arith,
  passes-before forwards (version_serial_of x) (version_serial_of p)
      (inhabited_at forwards ps x ms h.2),
  before_asymm forwards (version_serial_of p) (version_serial_of x)
      (past_at forwards (version_serial_of p) ps x ms h.1),
  survivors-after forwards ps x ms h.2,
)

survivors-last :
    (forwards : Bool) (ps : List Message) (c : Bytes) (y : Message) (got ms : List Message)
    → InOrder forwards (ps ++ ((y ∷ got) ++ ms))
    → survivors forwards (last_serial c (y ∷ got)) (ps ++ ((y ∷ got) ++ ms)) ≡ ms
survivors-last forwards ps c y [] ms h = survivors-after forwards ps y ms h
survivors-last forwards ps c y (z ∷ got) ms h =
    let e : (ps ++ y ∷ []) ++ ((z ∷ got) ++ ms) ≡ ps ++ ((y ∷ z ∷ got) ++ ms) =
      append_assoc ps (y ∷ []) ((z ∷ got) ++ ms) in
    ap (survivors forwards (last_serial (version_serial_of y) (z ∷ got))) (sym e)
    ∙ survivors-last forwards (ps ++ y ∷ []) (version_serial_of y) z got ms
        (subst (InOrder forwards) (sym e) h)

-- A page is a first part of what is past the cursor, and all of it unless there is more.
record IsPart (page : HistoryPage) (ms : List Message) : Type 0 where
  got : List Message
  left : List Message
  items_got : items page.channel_messages ≡ got
  all_of : ms ≡ got ++ left
  no_more : page.has_more ≡ false → left ≡ []

page_of-IsPart : (room : ℕ) (ms : List Message) → IsPart (page_of room ms) ms
unfolding version_message
page_of-IsPart room [] = record {
  got = [];
  left = [];
  items_got = refl;
  all_of = refl;
  no_more = λ h. refl;
}
page_of-IsPart zero (m ∷ ms) = record {
  got = [];
  left = m ∷ ms;
  items_got = refl;
  all_of = refl;
  no_more = λ h. absurd (ground arith);
}
page_of-IsPart (suc room) (m ∷ ms) =
    let v = page_of-IsPart room ms in
    record {
      got = m ∷ v.got;
      left = v.left;
      items_got = ap (◌∷◌ m) v.items_got;
      all_of = ap (◌∷◌ m) v.all_of;
      no_more = v.no_more;
    }

read_step :
    (n k : ℕ) (q : HistoryQuery) (versions ps : List Message) (y : Message) (rest : List Message)
    (page : HistoryPage)
    → ((ps' : List Message) (s : Bytes) (ms : List Message)
        → scanned q.forwards versions ≡ ps' ++ ms
        → survivors q.forwards s (ps' ++ ms) ≡ ms
        → length ms < n
        → read_pages n (record q { cursor = s }) versions ≡ ms)
    → scanned q.forwards versions ≡ ps ++ y ∷ rest
    → InOrder q.forwards (ps ++ y ∷ rest)
    → length (y ∷ rest) < suc n
    → paginate_versions versions q ≡ with_message y page
    → IsPart page rest
    → read_pages (suc n) q versions ≡ y ∷ rest
unfolding read_pages version_message
read_step n k q versions ps y rest page ih e o f g v =
    let whole : ps ++ y ∷ rest ≡ ps ++ ((y ∷ v.got) ++ v.left) = ap (λ r. ps ++ y ∷ r) v.all_of in
    let split : ps ++ y ∷ rest ≡ (ps ++ y ∷ v.got) ++ v.left =
      whole ∙ sym (append_assoc ps (y ∷ v.got) v.left) in
    let s : Bytes = last_serial q.cursor (y ∷ v.got) in
    let past : survivors q.forwards s ((ps ++ y ∷ v.got) ++ v.left) ≡ v.left =
      ap (survivors q.forwards s) (append_assoc ps (y ∷ v.got) v.left)
      ∙ survivors-last q.forwards ps q.cursor y v.got v.left (subst (InOrder q.forwards) whole o) in
    let shorter : length v.left < n =
      omega (arith, f, length-append v.got v.left, ap length v.all_of) in
    let next : read_pages n (record q { cursor = s }) versions ≡ v.left =
      ih (ps ++ y ∷ v.got) s v.left (e ∙ split) past shorter in
    elim (Bool-cases page.has_more) [
      | inl more ↦ rw (g, more, v.items_got, next) (ap (◌∷◌ y) (sym v.all_of))
      | inr none_left ↦
          rw (g, none_left, v.items_got)
            (ap (◌∷◌ y)
              (sym (v.all_of ∙ ap (λ l. v.got ++ l) (v.no_more none_left) ∙ append-nil v.got)))
    ]

read_either :
    (n k : ℕ) (q : HistoryQuery) (versions ps ms : List Message)
    → ((ps' : List Message) (s : Bytes) (ms' : List Message)
        → scanned q.forwards versions ≡ ps' ++ ms'
        → survivors q.forwards s (ps' ++ ms') ≡ ms'
        → length ms' < n
        → read_pages n (record q { cursor = s }) versions ≡ ms')
    → scanned q.forwards versions ≡ ps ++ ms
    → InOrder q.forwards (scanned q.forwards versions)
    → length ms < suc n
    → paginate_versions versions q ≡ page_of (suc k) ms
    → read_pages (suc n) q versions ≡ ms
unfolding read_pages
read_either n k q versions ps [] ih e o f page = rw page refl
read_either n k q versions ps (y ∷ rest) ih e o f page =
    read_step n k q versions ps y rest (page_of k rest) ih e (subst (InOrder q.forwards) e o) f page
      (page_of-IsPart k rest)

read_from :
    (n k : ℕ) (q : HistoryQuery) (versions ps ms : List Message)
    → q.limit ≡ suc k
    → InOrder q.forwards (scanned q.forwards versions)
    → scanned q.forwards versions ≡ ps ++ ms
    → survivors q.forwards q.cursor (ps ++ ms) ≡ ms
    → length ms < n
    → read_pages n q versions ≡ ms
unfolding paginate_versions
read_from zero k q versions ps ms h o e g f = absurd (omega arith)
read_from (suc n) k q versions ps ms h o e g f =
    read_either n k q versions ps ms
      (λ ps' s ms' e' g' f'. read_from n k (record q { cursor = s }) versions ps' ms' h o e' g' f')
      e o f
      (emit_all-survivors q 0 (suc k) (scanned q.forwards versions) (ground arith) (omega arith)
        ∙ ap (λ l. page_of (suc k) (survivors q.forwards q.cursor l)) e
        ∙ ap (page_of (suc k)) g)

-- A client that follows the pages of a version list, in either direction and with any limit of one
-- or more, reads every version once, in the direction's order, if the version serials are strictly
-- in that order and not empty; one request more than there are versions is enough.
pub read_pages-all :
    (q : HistoryQuery) (versions : List Message)
    → 0 < q.limit
    → q.cursor ≡ []
    → InOrder q.forwards (scanned q.forwards versions)
    → read_pages (suc (length (scanned q.forwards versions))) q versions
      ≡ scanned q.forwards versions
read_pages-all q versions h e o =
    read_from (suc (length (scanned q.forwards versions))) (q.limit - 1) q versions []
      (scanned q.forwards versions) (omega arith) o refl
      (ap (λ c. survivors q.forwards c (scanned q.forwards versions)) e
        ∙ survivors-all q.forwards (scanned q.forwards versions))
      (omega arith)
