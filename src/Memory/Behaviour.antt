-- ===== src/Memory/Behaviour.antt =====
-- internal/storage/memory/memory.go: what the operations return and change.
use ably_server.Base.{
  ℕ, ◌≡◌, refl, sym, ap, ◌∙◌, inl, inr, Bool, true, false, not, List, [], ◌∷◌, ◌++◌, Option, none,
  some, Bytes, arith, if◌then◌else◌, Bool-cases, Option-cases, bytes_eq, bytes_eq_iff,
  bytes_eq_refl, Assoc, lookup, insert, lookup-insert, lookup-insert_self, Result, ok, err, text,
  cut_suffix,
}
use ably_server.Serial.{Generator, mint, message_serial}
use ably_server.Protocol.{Message, ChannelMessage, is_mutation}
use ably_server.Storage.{
  StorageError, target_not_found, not_a_mutation, no_target, context_done, is_blank,
  message_base_id, stamp_message_ids, stamp_create_version, merge_version,
}
use ably_server.Memory.Logging.{IsLogged, persist-IsLogged}
use ably_server.Memory.{
  ChannelStore, Reply, find_duplicate, index_ids, persist, stamp_creates, register, create_message,
  store_fresh, store_stamped, store, append_version, mutate_merged, mutate_checked, mutate,
  latest_version,
}

-- A publish of one message with an id, and its outcome.
pub stamp-single :
    (fresh : Bytes) (m : Message)
    → is_blank m.id ≡ false
    → (b : Bytes) × (stamp_message_ids fresh (m ∷ []) ≡ ok (b, m ∷ []))
unfolding stamp_message_ids message_base_id
stamp-single fresh m h =
    let base : Bytes = elim (cut_suffix m.id (text ":0")) [ none ↦ m.id | some p ↦ p ] in
    (base, rw h)

store-single :
    (now : ℕ) (fresh : Bytes) (m : Message) (cs : ChannelStore)
    → is_blank m.id ≡ false
    → (b : Bytes) × (store false now fresh (m ∷ []) cs ≡ store_stamped now b (m ∷ []) cs)
store-single now fresh m cs h =
    let (b, e) = stamp-single fresh m h in (b, unfold store in rw (e, store))

find-single :
    (id : Bytes) (cs : ChannelStore) (s : Bytes)
    → is_blank id ≡ false
    → lookup id cs.by_id ≡ some s
    → find_duplicate (id ∷ []) cs ≡ some (lookup s cs.by_cs)
unfolding find_duplicate
find-single id cs s h e = ground arith

-- The outcome of a repeat.
abbrev pub again : Reply → Reply
again (ok (cm, idempotent)) = ok (cm, true)
again (err e) = err e

fresh_found :
    (b s : Bytes) (gen : Generator) (m : Message) (cs : ChannelStore)
    → is_blank m.id ≡ false
    → find_duplicate (m.id ∷ []) (store_fresh b (m ∷ []) (s, gen) cs).1
      ≡ some (some (store_fresh b (m ∷ []) (s, gen) cs).0)
unfolding store_fresh create_message register persist stamp_creates index_ids stamp_create_version
fresh_found b s gen m cs h =
    let cm : ChannelMessage = (store_fresh b (m ∷ []) (s, gen) cs).0 in
    let d : ChannelStore = (store_fresh b (m ∷ []) (s, gen) cs).1 in
    let by_id : lookup m.id d.by_id ≡ some s = ground (arith, lookup-insert_self m.id s cs.by_id) in
    find-single m.id d s h by_id ∙ ap some (lookup-insert_self s cm cs.by_cs)

stamped_again :
    (now : ℕ) (b : Bytes) (m : Message) (cs : ChannelStore) (cm : Option ChannelMessage)
    → find_duplicate (m.id ∷ []) cs ≡ some cm
    → store_stamped now b (m ∷ []) cs ≡ (ok (cm, true), cs)
unfolding store_stamped
stamped_again now b m cs cm f = rw (f, store_stamped)

-- The first publish found nothing, or an earlier one.
repeated :
    (now now' : ℕ) (b b' : Bytes) (m m' : Message) (cs : ChannelStore)
    → is_blank m.id ≡ false
    → m.id ≡ m'.id
    → store_stamped now' b' (m' ∷ []) (store_stamped now b (m ∷ []) cs).1
      ≡ (again (store_stamped now b (m ∷ []) cs).0, (store_stamped now b (m ∷ []) cs).1)
repeated now now' b b' m m' cs h e = elim (Option-cases (find_duplicate (m.id ∷ []) cs)) [
  | inl f ↦
      let (cm, d) = store_fresh b (m ∷ []) (mint cs.gen now) cs in
      let first : store_stamped now b (m ∷ []) cs ≡ (ok (some cm, false), d) =
        unfold store_stamped in rw (f, store_stamped) in
      rw first (
        stamped_again now' b' m' d (some cm) (
          ap (λ x. find_duplicate (x ∷ []) d) (sym e)
          ∙ fresh_found b (mint cs.gen now).0 (mint cs.gen now).1 m cs h))
  | inr (cm, f) ↦
      let first : store_stamped now b (m ∷ []) cs ≡ (ok (cm, true), cs) =
        stamped_again now b m cs cm f in
      rw first (stamped_again now' b' m' cs cm (ap (λ x. find_duplicate (x ∷ []) cs) (sym e) ∙ f))
]

-- Publishing one message and then another with the same id, which is not empty, changes nothing the
-- second time: the state stays, and the reply is that of the first publish, marked as a repeat.
pub store_repeated :
    (now now' : ℕ) (fresh fresh' : Bytes) (m m' : Message) (cs : ChannelStore)
    → is_blank m.id ≡ false
    → m.id ≡ m'.id
    → store false now' fresh' (m' ∷ []) (store false now fresh (m ∷ []) cs).1
      ≡ (again (store false now fresh (m ∷ []) cs).0, (store false now fresh (m ∷ []) cs).1)
store_repeated now now' fresh fresh' m m' cs h e =
    let (b, first) = store-single now fresh m cs h in
    let (b', second) =
      store-single now' fresh' m' (store_stamped now b (m ∷ []) cs).1 (ap is_blank (sym e) ∙ h) in
    rw first (second ∙ repeated now now' b b' m m' cs h e)

-- What a successful mutation does.
pub record IsMutation (now : ℕ) (mut : Message) (cs : ChannelStore) (cm : ChannelMessage)
    (d : ChannelStore) : Type 0 where
  pub logged : IsLogged now cm (mut.id ∷ []) cs d
  pub current : Message
  pub version : Message
  pub target : lookup mut.serial cs.latest ≡ some current
  pub merged : merge_version current mut (message_serial cm.channel_serial 0) ≡ ok version
  pub contents : cm ≡ record {
    id = [];
    channel_serial = cm.channel_serial;
    messages = version ∷ [];
    presence = [];
    annotations = [];
  }
  pub latest :
      (s : Bytes)
      → latest_version false s d
        ≡ (if bytes_eq mut.serial s then ok version else latest_version false s cs)
  pub history :
      (s : Bytes)
      → lookup s d.versions ≡ (
          if bytes_eq mut.serial s
          then some
              (elim (lookup s cs.versions) [ none ↦ version ∷ [] | some vs ↦ vs ++ version ∷ [] ])
          else lookup s cs.versions)
  pub members : d.members ≡ cs.members
  pub annotations : d.annotations ≡ cs.annotations

lookup-append_version :
    (serial : Bytes) (v : Message) (m : Assoc (List Message)) (t : Bytes)
    → lookup t (append_version serial v m) ≡ (
        if bytes_eq serial t
        then some (elim (lookup t m) [ none ↦ v ∷ [] | some vs ↦ vs ++ v ∷ [] ])
        else lookup t m)
unfolding append_version
lookup-append_version serial v m t = elim (Bool-cases (bytes_eq serial t)) [
  | inl same ↦ rw (← (bytes_eq_iff serial t).0 same, bytes_eq_refl serial, lookup-insert_self) refl
  | inr other ↦ rw (lookup-insert, other)
]

merged-IsMutation :
    (now : ℕ) (mut current : Message) (s : Bytes) (gen : Generator) (cs : ChannelStore)
    (cm : ChannelMessage) (r : Result StorageError Message)
    → mint cs.gen now ≡ (s, gen)
    → lookup mut.serial cs.latest ≡ some current
    → merge_version current mut (message_serial s 0) ≡ r
    → (mutate_merged mut s gen cs r).0 ≡ ok (some cm, false)
    → IsMutation now mut cs cm (mutate_merged mut s gen cs r).1
unfolding mutate_merged create_message append_version persist
merged-IsMutation now mut current s gen cs cm (err e) m found eq h = ground arith
merged-IsMutation now mut current s gen cs cm (ok v) m found eq h =
    let same : create_message [] s (v ∷ []) ≡ cm = ground arith in
    rw (← same) (record {
      logged =
          persist-IsLogged now (create_message [] s (v ∷ [])) (mut.id ∷ []) gen cs cs.members
            (insert mut.serial v cs.latest) (append_version mut.serial v cs.versions) cs.annotations
            m;
      members = refl;
      annotations = refl;
      current = current;
      version = v;
      target = found;
      merged = eq;
      contents = refl;
      latest = λ t. unfold latest_version in ground (arith, lookup-insert mut.serial t v cs.latest);
      history = λ t. lookup-append_version mut.serial v cs.versions t;
    })

checked-IsMutation :
    (now : ℕ) (mut : Message) (cs : ChannelStore) (cm : ChannelMessage) (o : Option Message)
    → lookup mut.serial cs.latest ≡ o
    → find_duplicate (mut.id ∷ []) cs ≡ none
    → (mutate_checked now mut cs).0 ≡ ok (some cm, false)
    → IsMutation now mut cs cm (mutate_checked now mut cs).1
checked-IsMutation now mut cs cm none e f h =
    let eq : mutate_checked now mut cs ≡ (err target_not_found, cs) =
      unfold mutate_checked in rw (f, mutate_checked) (rw (e, mutate_checked)) in
    absurd (ground (arith, eq, ap (λ (r : Reply × ChannelStore). r.0) eq))
checked-IsMutation now mut cs cm (some current) e f h =
    let (s, gen) = mint cs.gen now in
    let r : Result StorageError Message = merge_version current mut (message_serial s 0) in
    let eq : mutate_checked now mut cs ≡ mutate_merged mut s gen cs r =
      unfold mutate_checked in rw (f, mutate_checked) (rw (e, mutate_checked)) in
    rw eq (
      merged-IsMutation now mut current s gen cs cm r refl e refl
        (ap (λ (x : Reply × ChannelStore). x.0) (sym eq) ∙ h))

-- A mutation that succeeds and is no repeat merges the mutation into the target's latest version. It
-- adds one message to the log, which holds the merged message alone: under a newly minted serial, at
-- the end of the order, found by the mutation's id if that is not empty, and handed to the appender.
-- It makes the merged message the target's latest version and the last of its history, and leaves
-- every other message's versions, the rest of the log, the members and the annotations as they were.
pub mutate-IsMutation :
    (done : Bool) (now : ℕ) (mut : Message) (cs : ChannelStore) (cm : ChannelMessage)
    → (mutate done now mut cs).0 ≡ ok (some cm, false)
    → IsMutation now mut cs cm (mutate done now mut cs).1
unfolding mutate mutate_checked
mutate-IsMutation done now mut cs cm h =
    tests (not (is_mutation mut.action)) (is_blank mut.serial) done h
  where
    checked :
        (mutate_checked now mut cs).0 ≡ ok (some cm, false)
        → IsMutation now mut cs cm (mutate_checked now mut cs).1
    checked k = elim (Option-cases (find_duplicate (mut.id ∷ []) cs)) [
      | inl f ↦ checked-IsMutation now mut cs cm (lookup mut.serial cs.latest) refl f k
      | inr (c, f) ↦
          let eq : mutate_checked now mut cs ≡ (ok (c, true), cs) = rw (f, mutate_checked) in
          absurd (ground (arith, eq, ap (λ (r : Reply × ChannelStore). r.0) eq))
    ]

    tests :
        (a b c : Bool)
        → (if a
            then (err not_a_mutation, cs)
            else if b
            then (err no_target, cs)
            else if c
            then (err context_done, cs)
            else mutate_checked now mut cs).0
          ≡ ok (some cm, false)
        → IsMutation now mut cs cm
            (if a
              then (err not_a_mutation, cs)
              else if b
              then (err no_target, cs)
              else if c
              then (err context_done, cs)
              else mutate_checked now mut cs).1
    tests true b c k = absurd (ground arith)
    tests false true c k = absurd (ground arith)
    tests false false true k = absurd (ground arith)
    tests false false false k = checked k
