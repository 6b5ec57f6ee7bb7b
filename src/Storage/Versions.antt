-- ===== src/Storage/Versions.antt =====
-- internal/storage/storage.go: what a mutation makes of a message, and the collapsed versions.
use ably_server.Base.{
  ◌≡◌, refl, sym, ap, ap₂, ◌∙◌, Bool, true, false, List, [], ◌∷◌, ◌++◌, append_assoc, append-nil,
  Option, none, some, Bytes, arith, if◌then◌else◌, Result, ok, err, ◌>>=◌,
}
use ably_server.Protocol.{
  Payload, string, MessageAction, message_create, message_update, message_delete, message_summary,
  message_append, MessageVersion, Message, has_append_delta,
}
use ably_server.Storage.{
  StorageError, timestamp_or_zero, concat_data, with_append, merge_append, merge_fields, merge_by,
  merge_version, starts_with_append, collapse_append_versions,
}

abbrev pub stored_action : MessageAction → MessageAction
stored_action message_delete = message_delete
stored_action _ = message_update

abbrev pub is_append : MessageAction → Bool
is_append message_append = true
is_append _ = false

-- What every version keeps of the message, and what it says of itself.
pub record IsVersionOf (current mut : Message) (version_serial : Bytes) (v : Message) : Type 0 where
  pub serial : v.serial ≡ current.serial
  pub creator : v.client_id ≡ current.client_id
  pub connection : v.connection_id ≡ current.connection_id
  pub id : v.id ≡ current.id
  pub created : v.timestamp ≡ current.timestamp
  pub action : v.action ≡ stored_action mut.action
  pub version :
      (w : MessageVersion) × (v.version ≡ some w)
      × (w.serial ≡ version_serial)
      × (w.timestamp ≡ timestamp_or_zero version_serial)
      × (w.client_id ≡ mut.client_id)
  pub delta : has_append_delta v ≡ is_append mut.action

module _ (current mut : Message) (s : Bytes) where
  fields-IsVersionOf :
      (a : MessageAction)
      → stored_action mut.action ≡ a
      → is_append mut.action ≡ false
      → IsVersionOf current mut s (merge_fields a current mut s)
  unfolding merge_fields has_append_delta
  fields-IsVersionOf a e d = record {
    serial = refl;
    creator = refl;
    connection = refl;
    id = refl;
    created = refl;
    action = sym e;
    version = (_, refl, refl, refl, refl);
    delta = sym d;
  }

  append-IsVersionOf :
      (v : Message)
      → mut.action ≡ message_append
      → merge_append current mut s ≡ ok v
      → IsVersionOf current mut s v
  unfolding merge_append has_append_delta
  append-IsVersionOf v e h = appended (concat_data current.payload mut.payload) h
    where
      appended :
          (r : Result StorageError Payload)
          → (r >>= λ data'. ok (with_append current mut s data')) ≡ ok v
          → IsVersionOf current mut s v
      appended (err x) h' = absurd (cc)
      appended (ok p) h' =
          let same : with_append current mut s p ≡ v = ground arith in
          rw (← same) (record {
            serial = refl;
            creator = refl;
            connection = refl;
            id = refl;
            created = refl;
            action = rw e;
            version = (_, refl, refl, refl, refl);
            delta = rw e;
          })

  by-IsVersionOf :
      (a : MessageAction) (v : Message)
      → mut.action ≡ a
      → merge_by a current mut s ≡ ok v
      → IsVersionOf current mut s v
  unfolding merge_by
  by-IsVersionOf message_append v e h = append-IsVersionOf v e h
  by-IsVersionOf message_delete v e h =
      let same : merge_fields message_delete current mut s ≡ v = ground arith in
      rw (← same) (fields-IsVersionOf message_delete (rw e) (rw e))
  by-IsVersionOf message_create v e h =
      let same : merge_fields message_update current mut s ≡ v = ground arith in
      rw (← same) (fields-IsVersionOf message_update (rw e) (rw e))
  by-IsVersionOf message_update v e h =
      let same : merge_fields message_update current mut s ≡ v = ground arith in
      rw (← same) (fields-IsVersionOf message_update (rw e) (rw e))
  by-IsVersionOf message_summary v e h =
      let same : merge_fields message_update current mut s ≡ v = ground arith in
      rw (← same) (fields-IsVersionOf message_update (rw e) (rw e))

-- A merge gives a complete message: identity, creator and create time are kept, the version is the
-- mutation's own, the action is update or delete, and only an append carries a delta.
pub merge_version-IsVersionOf :
    (current mut : Message) (version_serial : Bytes) (v : Message)
    → merge_version current mut version_serial ≡ ok v
    → IsVersionOf current mut version_serial v
unfolding merge_version
merge_version-IsVersionOf current mut version_serial v h =
    by-IsVersionOf current mut version_serial mut.action v refl h

-- A message mutated by one mutation after another, each with the serial of its publish.
unfoldable pub merge_all : Message → List (Message × Bytes) → Result StorageError Message
merge_all current [] = ok current
merge_all current ((mut, s) ∷ muts) = merge_version current mut s >>= λ v. merge_all v muts

-- Appends of text, and the texts that they append.
pub data Appends : List (Message × Bytes) → List Bytes → Type 0 where
  none_left : Appends [] []
  one_more :
      {mut : Message} {s t : Bytes} {muts : List (Message × Bytes)} {ts : List Bytes}
      → mut.action ≡ message_append
      → mut.payload ≡ string t
      → Appends muts ts
      → Appends ((mut, s) ∷ muts) (t ∷ ts)

abbrev pub concat : List Bytes → Bytes
concat [] = []
concat (t ∷ ts) = t ++ concat ts

append_string :
    (current mut : Message) (s c t : Bytes)
    → current.payload ≡ string c
    → mut.action ≡ message_append
    → mut.payload ≡ string t
    → merge_version current mut s ≡ ok (with_append current mut s (string (c ++ t)))
unfolding merge_version merge_by merge_append concat_data
append_string current mut s c t h a e =
    let k : concat_data current.payload mut.payload ≡ ok (string (c ++ t)) = ap₂ concat_data h e in
    ap (λ x. merge_by x current mut s) a
    ∙ ap (λ (r : Result StorageError Payload). r >>= λ p. ok (with_append current mut s p)) k

payload-with_append :
    (current mut : Message) (s : Bytes) (p : Payload) → (with_append current mut s p).payload ≡ p
unfolding with_append
payload-with_append current mut s p = refl

-- Any number of text appends to a text message succeeds, and the last version's text is the first
-- text followed by all the appended ones in order.
pub merge_all-Appends :
    (current : Message) (c : Bytes) (muts : List (Message × Bytes)) (ts : List Bytes)
    → current.payload ≡ string c
    → Appends muts ts
    → (v : Message) × (merge_all current muts ≡ ok v) × (v.payload ≡ string (c ++ concat ts))
unfolding merge_all
merge_all-Appends current c muts ts h none_left =
    (current, refl, h ∙ ap string (sym (append-nil c)))
merge_all-Appends current c muts ts h
      (one_more {mut = mut} {s = s} {t = t} {muts = rest} {ts = us} a e more) =
    let p : Bytes = c ++ t in
    let n : Message = with_append current mut s (string p) in
    let q : n.payload ≡ string p = payload-with_append current mut s (string p) in
    let (v, run, last) = merge_all-Appends n p rest us q more in
    (
      v,
      ap (λ (r : Result StorageError Message). r >>= λ v. merge_all v rest)
            (append_string current mut s c t h a e)
          ∙ run,
      last ∙ ap string (append_assoc c t (concat us)),
    )

abbrev pub kept : List Message → List Message
kept [] = []
kept (m ∷ ms) = let rest = kept ms in if has_append_delta m then rest else m ∷ rest

abbrev pub first? : List Message → Option Message
first? [] = none
first? (m ∷ ms) = some m

abbrev pub last? : List Message → Option Message
last? [] = none
last? (m ∷ []) = some m
last? (m ∷ n ∷ ms) = last? (n ∷ ms)

-- No append aggregate stands there.
abbrev pub IsOther : Option Message → Type 0
IsOther none = Unit {0}
IsOther (some m) = has_append_delta m ≡ false

abbrev pub AllAppended : List Message → Type 0
AllAppended [] = Unit {0}
AllAppended (m ∷ ms) = (has_append_delta m ≡ true) × AllAppended ms

starts-IsOther : (ms : List Message) → IsOther (first? ms) → starts_with_append ms ≡ false
unfolding starts_with_append
starts-IsOther [] h = refl
starts-IsOther (m ∷ ms) h = h

starts-run :
    (run : List Message) (v : Message) (rest : List Message)
    → AllAppended run
    → has_append_delta v ≡ true
    → starts_with_append (run ++ v ∷ rest) ≡ true
unfolding starts_with_append
starts-run [] v rest h k = k
starts-run (m ∷ run) v rest h k = h.0

collapse-run :
    (run : List Message) (v : Message) (rest : List Message)
    → AllAppended run
    → has_append_delta v ≡ true
    → IsOther (first? rest)
    → collapse_append_versions (run ++ v ∷ rest) ≡ v ∷ collapse_append_versions rest
unfolding collapse_append_versions
collapse-run [] v rest h k o = ground (arith, starts-IsOther rest o)
collapse-run (m ∷ run) v rest h k o =
    ground (arith, h.0, starts-run run v rest h.1 k, collapse-run run v rest h.1 k o)

collapse-append :
    (ms ns : List Message)
    → IsOther (last? ms)
    → collapse_append_versions (ms ++ ns)
      ≡ collapse_append_versions ms ++ collapse_append_versions ns
unfolding collapse_append_versions starts_with_append
collapse-append [] ns h = refl
collapse-append (m ∷ []) ns h = ground (arith, h)
collapse-append (m ∷ n ∷ ms) ns h = ground (arith, collapse-append (n ∷ ms) ns h)

collapse-kept : (ms : List Message) → kept (collapse_append_versions ms) ≡ kept ms
unfolding collapse_append_versions
collapse-kept [] = refl
collapse-kept (m ∷ ms) = ground (arith, collapse-kept ms)

-- Of a run of append aggregates that no other one borders on, exactly the last is left, between what
-- is left of the versions before the run and of those after it; and every version that is no append
-- aggregate is kept, in order.
pub collapse_append_versions_lem :
    (before run rest : List Message) (v : Message)
    → IsOther (last? before)
    → AllAppended run
    → has_append_delta v ≡ true
    → IsOther (first? rest)
    → (collapse_append_versions (before ++ (run ++ v ∷ rest))
        ≡ collapse_append_versions before ++ v ∷ collapse_append_versions rest)
      × (kept (collapse_append_versions (before ++ (run ++ v ∷ rest)))
          ≡ kept (before ++ (run ++ v ∷ rest)))
collapse_append_versions_lem before run rest v b h k o = (
  collapse-append before (run ++ v ∷ rest) b
      ∙ ap (◌++◌ (collapse_append_versions before)) (collapse-run run v rest h k o),
  collapse-kept (before ++ (run ++ v ∷ rest)),
)
