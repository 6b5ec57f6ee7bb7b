-- ===== src/Memory/Invariant.antt =====
-- internal/storage/memory/memory.go: the log's invariant, and the log write.
use ably_server.Base.{
  ◌≡◌, refl, ap, ◌⊎◌, inl, inr, true, false, List, [], ◌∷◌, ◌++◌, Option, none, some, Bytes, arith,
  if◌then◌else◌, Bool-cases, bytes_eq, bytes_eq_iff, lex_lt, lex_lt_irrefl, lex_lt_trans,
  lex_lt_asymm, lex_trichotomy, Assoc, lookup, insert, lookup-insert, lookup-insert_self,
}
use ably_server.Serial.{Generator, format}
use ably_server.Serial.Order.{IsValid}
use ably_server.Protocol.{ChannelMessage}
use ably_server.Storage.{is_blank}
use ably_server.Memory.{ChannelStore, deliver, index_ids, persist}

-- Each serial of a list is before `s`.
abbrev pub Below : List Bytes → Bytes → Type 0
Below [] s = Unit {0}
Below (x ∷ xs) s = (lex_lt x s ≡ true) × Below xs s

-- No serial of a list is after `s`.
abbrev pub AtMost : List Bytes → Bytes → Type 0
AtMost [] s = Unit {0}
AtMost (x ∷ xs) s = (lex_lt s x ≡ false) × AtMost xs s

-- Each serial of a list is after `s`.
abbrev pub Above : Bytes → List Bytes → Type 0
Above s [] = Unit {0}
Above s (x ∷ xs) = (lex_lt s x ≡ true) × Above s xs

abbrev pub Sorted : List Bytes → Type 0
Sorted [] = Unit {0}
Sorted (x ∷ xs) = Above x xs × Sorted xs

-- Each serial of a list leads to a persisted message of that serial.
abbrev pub Stored : Assoc ChannelMessage → List Bytes → Type 0
Stored m [] = Unit {0}
Stored m (s ∷ ss) =
    ((cm : ChannelMessage) × (lookup s m ≡ some cm) × (cm.channel_serial ≡ s)) × Stored m ss

abbrev pub serials : List ChannelMessage → List Bytes
serials [] = []
serials (cm ∷ cms) = cm.channel_serial ∷ serials cms

-- The log is strictly sorted and behind the generator; each of its serials is persisted; an indexed
-- id leads to a persisted message; the appender has received the log's messages, once each and in
-- order.
pub record IsConsistent (cs : ChannelStore) : Type 0 where
  pub generator : IsValid cs.gen
  pub sorted : Sorted cs.order
  pub below : AtMost cs.order (format cs.gen)
  pub stored : Stored cs.by_cs cs.order
  pub indexed :
      (id s : Bytes)
      → lookup id cs.by_id ≡ some s
      → (cm : ChannelMessage) × (lookup s cs.by_cs ≡ some cm)
  pub delivered :
      (received : List ChannelMessage) → cs.appender ≡ some received → serials received ≡ cs.order

lt_of_le_of_lt : (x t s : Bytes) → lex_lt t x ≡ false → lex_lt t s ≡ true → lex_lt x s ≡ true
lt_of_le_of_lt x t s h k = elim (lex_trichotomy x t) [
  | inl less ↦ lex_lt_trans x t s less k
  | inr (inl same) ↦ rw same k
  | inr (inr more) ↦ ground (arith, h, more)
]

Below-of_AtMost : (xs : List Bytes) (t s : Bytes) → AtMost xs t → lex_lt t s ≡ true → Below xs s
Below-of_AtMost [] t s h k = tt
Below-of_AtMost (x ∷ xs) t s h k = (lt_of_le_of_lt x t s h.0 k, Below-of_AtMost xs t s h.1 k)

AtMost-snoc : (xs : List Bytes) (s : Bytes) → Below xs s → AtMost (xs ++ s ∷ []) s
AtMost-snoc [] s h = (lex_lt_irrefl s, tt)
AtMost-snoc (x ∷ xs) s h = (lex_lt_asymm x s h.0, AtMost-snoc xs s h.1)

-- The bound may move on.
pub AtMost-mono : (xs : List Bytes) (t s : Bytes) → AtMost xs t → lex_lt t s ≡ true → AtMost xs s
AtMost-mono [] t s h k = tt
AtMost-mono (x ∷ xs) t s h k =
    (lex_lt_asymm x s (lt_of_le_of_lt x t s h.0 k), AtMost-mono xs t s h.1 k)

Above-snoc :
    (a : Bytes) (xs : List Bytes) (s : Bytes)
    → Above a xs
    → lex_lt a s ≡ true
    → Above a (xs ++ s ∷ [])
Above-snoc a [] s h k = (k, tt)
Above-snoc a (x ∷ xs) s h k = (h.0, Above-snoc a xs s h.1 k)

Sorted-snoc : (xs : List Bytes) (s : Bytes) → Sorted xs → Below xs s → Sorted (xs ++ s ∷ [])
Sorted-snoc [] s h k = (tt, tt)
Sorted-snoc (x ∷ xs) s h k = (Above-snoc x xs s h.0 k.0, Sorted-snoc xs s h.1 k.1)

ne_of_lt : (s t : Bytes) → lex_lt s t ≡ true → bytes_eq t s ≡ false
ne_of_lt s t h = elim (Bool-cases (bytes_eq t s)) [
  | inl e ↦ ground (arith, bytes_eq_iff t s, lex_lt_irrefl s)
  | inr e ↦ e
]

Stored-snoc :
    (m : Assoc ChannelMessage) (xs : List Bytes) (cm : ChannelMessage)
    → Stored m xs
    → Below xs cm.channel_serial
    → Stored (insert cm.channel_serial cm m) (xs ++ cm.channel_serial ∷ [])
Stored-snoc m [] cm h k = ((cm, lookup-insert_self cm.channel_serial cm m, refl), tt)
Stored-snoc m (x ∷ xs) cm h k =
    let (c, found, same) = h.0 in
    (
      (
        c,
        ground (arith, lookup-insert cm.channel_serial x cm m, ne_of_lt x cm.channel_serial k.0),
        same,
      ),
      Stored-snoc m xs cm h.1 k.1,
    )

serials-snoc :
    (cms : List ChannelMessage) (cm : ChannelMessage)
    → serials (cms ++ cm ∷ []) ≡ serials cms ++ cm.channel_serial ∷ []
serials-snoc [] cm = refl
serials-snoc (c ∷ cms) cm = ap (◌∷◌ c.channel_serial) (serials-snoc cms cm)

indexed-insert :
    (s : Bytes) (cm : ChannelMessage) (m : Assoc ChannelMessage) (t : Bytes)
    → (c : ChannelMessage) × (lookup t m ≡ some c)
    → (c : ChannelMessage) × (lookup t (insert s cm m) ≡ some c)
indexed-insert s cm m t (c, h) = elim (Bool-cases (bytes_eq s t)) [
  | inl same ↦ (cm, ground (arith, lookup-insert s t cm m))
  | inr other ↦ (c, ground (arith, lookup-insert s t cm m))
]

-- Where the id index leads after a publish.
lookup-index_ids :
    (s : Bytes) (ids : List Bytes) (m : Assoc Bytes) (id t : Bytes)
    → lookup id (index_ids s ids m) ≡ some t
    → (t ≡ s) ⊎ (lookup id m ≡ some t)
unfolding index_ids
lookup-index_ids s [] m id t h = inr h
lookup-index_ids s (x ∷ ids) m id t h =
    elim (lookup-index_ids s ids (if is_blank x then m else insert x s m) id t h) [
      | inl e ↦ inl e
      | inr e ↦ ground (arith, lookup-insert x id s m)
    ]

module _ (cm : ChannelMessage) (ids : List Bytes) (gen : Generator) (cs : ChannelStore) where
  pub persist-IsConsistent :
      IsConsistent cs
      → lex_lt (format cs.gen) cm.channel_serial ≡ true
      → cm.channel_serial ≡ format gen
      → IsValid gen
      → IsConsistent (persist cm ids gen cs)
  unfolding persist
  persist-IsConsistent v less same w =
      let below : Below cs.order cm.channel_serial =
        Below-of_AtMost cs.order (format cs.gen) cm.channel_serial v.below less in
      record {
        generator = w;
        sorted = Sorted-snoc cs.order cm.channel_serial v.sorted below;
        below = rw (← same) (AtMost-snoc cs.order cm.channel_serial below);
        stored = Stored-snoc cs.by_cs cs.order cm v.stored below;
        indexed = λ id s h. elim (lookup-index_ids cm.channel_serial ids cs.by_id id s h) [
          | inl e ↦ (cm, rw e (lookup-insert_self cm.channel_serial cm cs.by_cs))
          | inr e ↦ indexed-insert cm.channel_serial cm cs.by_cs s (v.indexed id s e)
        ];
        delivered = λ received h. received_all cs.appender received v.delivered h;
      }
    where
      received_all :
          (a : Option (List ChannelMessage)) (received : List ChannelMessage)
          → ((r : List ChannelMessage) → a ≡ some r → serials r ≡ cs.order)
          → deliver cm a ≡ some received
          → serials received ≡ cs.order ++ cm.channel_serial ∷ []
      received_all none received f h = ground arith
      received_all (some r) received f h =
          let e : r ++ cm ∷ [] ≡ received = ground arith in
          rw (← e, serials-snoc) (ap (λ x. x ++ cm.channel_serial ∷ []) (f r refl))
