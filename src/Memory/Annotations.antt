-- ===== src/Memory/Annotations.antt =====
-- internal/storage/memory/memory.go: annotations, and the summaries that they fold into.
use ably_server.Base.{
  ℕ, ◌+◌, ◌≡◌, refl, sym, ap, ◌∙◌, inl, inr, Bool, true, false, List, [], ◌∷◌, ◌++◌, Option, none,
  some, Bytes, arith, if◌then◌else◌, Bool-cases, Option-cases, bytes_eq, bytes_eq_iff, Assoc,
  lookup, insert, lookup-insert, ok, err, append_assoc, append-nil,
}
use mathlib.Core.Path.{subst}
use ably_server.Serial.{Generator, mint, message_serial}
use ably_server.Protocol.{Message, ChannelMessage}
use ably_server.Protocol.Summaries.{
  Annotation, Summary, apply, fold_by, fold_distinct, fold_unique, fold_multiple, fold_flag,
  fold_total,
}
use ably_server.Storage.{target_not_found, no_messages, context_done}
use ably_server.Memory.Logging.{IsLogged, persist-IsLogged}
use ably_server.Memory.{ChannelStore, Reply, find_duplicate, persist}

abbrev pub annotation_ids : List Annotation → List Bytes
annotation_ids [] = []
annotation_ids (a ∷ anns) = a.id ∷ annotation_ids anns

-- Whether each target is known.
unfoldable pub targets_known : List Annotation → Assoc Message → Bool
targets_known [] latest = true
targets_known (a ∷ anns) latest =
    let rest = targets_known anns latest in
    elim (lookup a.message_serial latest) [ none ↦ false | some m ↦ rest ]

-- foldSummary
unfoldable pub fold_summary : Annotation → Assoc Message → Annotation × Assoc Message
fold_summary a latest = elim (lookup a.message_serial latest) [
  | none ↦ (a, latest)
  | some cur ↦
      let folded = apply cur.summary a in
      (
        record a { summary = folded },
        insert a.message_serial (record cur { summary = folded }) latest,
      )
]

-- The loop that stamps and folds, from index `i` on.
unfoldable pub stamp_annotations :
    Bytes → ℕ → List Annotation → Assoc Message → List Annotation × Assoc Message
stamp_annotations channel_serial i [] latest = ([], latest)
stamp_annotations channel_serial i (a ∷ anns) latest =
    let (folded, latest') =
      fold_summary (record a { serial = message_serial channel_serial i }) latest in
    let (rest, latest'') = stamp_annotations channel_serial (i + 1) anns latest' in
    (folded ∷ rest, latest'')

-- cs.annotations[a.MessageSerial] = append(cs.annotations[a.MessageSerial], a)
unfoldable pub index_annotations :
    List Annotation → Assoc (List Annotation) → Assoc (List Annotation)
index_annotations [] m = m
index_annotations (a ∷ anns) m = index_annotations anns (
    insert a.message_serial
      (elim (lookup a.message_serial m) [ none ↦ a ∷ [] | some l ↦ l ++ a ∷ [] ]) m)

unfoldable pub annotation_fresh :
    List Annotation → Bytes × Generator → ChannelStore → ChannelMessage × ChannelStore
annotation_fresh anns (channel_serial, gen) cs =
    let (stamped, latest) = stamp_annotations channel_serial 0 anns cs.latest in
    let cm : ChannelMessage = record {
      id = [];
      channel_serial = channel_serial;
      messages = [];
      presence = [];
      annotations = stamped;
    } in
    (
      cm,
      record (persist cm (annotation_ids stamped) gen cs) {
        latest = latest;
        annotations = index_annotations stamped cs.annotations;
      },
    )

unfoldable pub annotation_checked : ℕ → List Annotation → ChannelStore → Reply × ChannelStore
annotation_checked now anns cs =
    if targets_known anns cs.latest
    then (let (cm, cs') = annotation_fresh anns (mint cs.gen now) cs in (ok (some cm, false), cs'))
    else (err target_not_found, cs)

-- StoreAnnotation
unfoldable pub store_annotation : Bool → ℕ → List Annotation → ChannelStore → Reply × ChannelStore
unfolding annotation_checked
store_annotation done now [] cs = (err no_messages, cs)
store_annotation true now (a ∷ anns) cs = (err context_done, cs)
store_annotation false now (a ∷ anns) cs = elim (find_duplicate (annotation_ids (a ∷ anns)) cs) [
  | some cm ↦ (ok (cm, true), cs)
  | none ↦ annotation_checked now (a ∷ anns) cs
]

-- A message's summary with its annotations of a list folded in, in order.
abbrev pub summed : Bytes → List Annotation → Option Message → Option Message
summed s [] o = o
summed s (a ∷ anns) o = summed s anns (
    if bytes_eq a.message_serial s
    then elim o [ none ↦ none | some m ↦ some (record m { summary = apply m.summary a }) ]
    else o)

-- The annotations of a list that are to one message.
abbrev pub attached : Bytes → List Annotation → List Annotation
attached s [] = []
attached s (a ∷ anns) =
    let rest = attached s anns in if bytes_eq a.message_serial s then a ∷ rest else rest

apply-serial :
    (s : Summary) (a : Annotation) (x : Bytes) → apply s (record a { serial = x }) ≡ apply s a
unfolding apply fold_by fold_distinct fold_unique fold_multiple fold_flag fold_total
apply-serial s a x = refl

lookup-fold_summary :
    (s x : Bytes) (a : Annotation) (latest : Assoc Message)
    → lookup s (fold_summary (record a { serial = x }) latest).1
      ≡ summed s (a ∷ []) (lookup s latest)
unfolding fold_summary
lookup-fold_summary s x a latest = elim (Option-cases (lookup a.message_serial latest)) [
  | inl e ↦ ground (arith, e, bytes_eq_iff a.message_serial s)
  | inr (m, e) ↦ elim (Bool-cases (bytes_eq a.message_serial s)) [
    | inl same ↦
        let found : lookup s latest ≡ some m =
          ap (λ t. lookup t latest) (sym ((bytes_eq_iff a.message_serial s).0 same)) ∙ e in
        rw (e, fold_summary) (rw (lookup-insert, same, found, apply-serial) refl)
    | inr other ↦ rw (e, fold_summary) (rw (lookup-insert, other) refl)
  ]
]

lookup-stamp_annotations :
    (s cs : Bytes) (i : ℕ) (anns : List Annotation) (latest : Assoc Message)
    → lookup s (stamp_annotations cs i anns latest).1 ≡ summed s anns (lookup s latest)
unfolding stamp_annotations
lookup-stamp_annotations s cs i [] latest = refl
lookup-stamp_annotations s cs i (a ∷ anns) latest =
    lookup-stamp_annotations s cs (i + 1) anns
      (fold_summary (record a { serial = message_serial cs i }) latest).1
    ∙ ap (summed s anns) (lookup-fold_summary s (message_serial cs i) a latest)

abbrev pub or_nil : Option (List Annotation) → List Annotation
or_nil none = []
or_nil (some l) = l

or_nil-insert :
    (s : Bytes) (a : Annotation) (m : Assoc (List Annotation))
    → or_nil (
        lookup s (
          insert a.message_serial
            (elim (lookup a.message_serial m) [ none ↦ a ∷ [] | some l ↦ l ++ a ∷ [] ])
            m))
      ≡ or_nil (lookup s m) ++ attached s (a ∷ [])
or_nil-insert s a m = elim (Bool-cases (bytes_eq a.message_serial s)) [
  | inl same ↦ elim (Option-cases (lookup a.message_serial m)) [
    | inl e ↦
        let found : lookup s m ≡ none =
          ap (λ t. lookup t m) (sym ((bytes_eq_iff a.message_serial s).0 same)) ∙ e in
        rw (lookup-insert, same, e, found) refl
    | inr (l, e) ↦
        let found : lookup s m ≡ some l =
          ap (λ t. lookup t m) (sym ((bytes_eq_iff a.message_serial s).0 same)) ∙ e in
        rw (lookup-insert, same, e, found) refl
  ]
  | inr other ↦ rw (lookup-insert, other) (sym (append-nil (or_nil (lookup s m))))
]

attached-cons :
    (s : Bytes) (a : Annotation) (anns : List Annotation)
    → attached s (a ∷ anns) ≡ attached s (a ∷ []) ++ attached s anns
attached-cons s a anns = ground arith

lookup-index_annotations :
    (s : Bytes) (anns : List Annotation) (m : Assoc (List Annotation))
    → or_nil (lookup s (index_annotations anns m)) ≡ or_nil (lookup s m) ++ attached s anns
unfolding index_annotations
lookup-index_annotations s [] m = sym (append-nil (or_nil (lookup s m)))
lookup-index_annotations s (a ∷ anns) m =
    lookup-index_annotations s anns _
    ∙ ap (λ l. l ++ attached s anns) (or_nil-insert s a m)
    ∙ append_assoc (or_nil (lookup s m)) (attached s (a ∷ [])) (attached s anns)
    ∙ ap (λ l. or_nil (lookup s m) ++ l) (sym (attached-cons s a anns))

-- The annotations as they were sent, but for the serials of one publish and for the summaries: each
-- has the one that its target then has. `at` gives the messages before.
abbrev pub AllStamped :
    Bytes → ℕ → (Bytes → Option Message) → List Annotation → List Annotation → Type 0
AllStamped x i at [] [] = Unit {0}
AllStamped x i at [] (s ∷ ss) = ⊥
AllStamped x i at (a ∷ anns) [] = ⊥
AllStamped x i at (a ∷ anns) (s ∷ ss) =
    ((m : Message) × (at a.message_serial ≡ some m)
      × (s ≡ record a { serial = message_serial x i; summary = apply m.summary a }))
    × AllStamped x (i + 1) (λ k. summed k (a ∷ []) (at k)) anns ss

-- Each target stands among the messages.
abbrev pub AllKnown : List Annotation → (Bytes → Option Message) → Type 0
AllKnown [] at = Unit {0}
AllKnown (a ∷ anns) at = ((m : Message) × (at a.message_serial ≡ some m)) × AllKnown anns at

targets_known-AllKnown :
    (anns : List Annotation) (latest : Assoc Message)
    → targets_known anns latest ≡ true
    → AllKnown anns (λ k. lookup k latest)
unfolding targets_known
targets_known-AllKnown [] latest h = tt
targets_known-AllKnown (a ∷ anns) latest h = elim (Option-cases (lookup a.message_serial latest)) [
  | inl e ↦ absurd (ground (arith, h, e))
  | inr (m, e) ↦ ((m, e), targets_known-AllKnown anns latest (ground (arith, h, e)))
]

summed-known :
    (k : Bytes) (a : Annotation) (o : Option Message) (m : Message)
    → o ≡ some m
    → (n : Message) × (summed k (a ∷ []) o ≡ some n)
summed-known k a none m h = absurd (ground (arith, h))
summed-known k a (some n) m h = elim (Bool-cases (bytes_eq a.message_serial k)) [
  | inl same ↦ (record n { summary = apply n.summary a }, rw same refl)
  | inr other ↦ (n, rw other refl)
]

AllKnown-summed :
    (a : Annotation) (anns : List Annotation) (at : Bytes → Option Message)
    → AllKnown anns at
    → AllKnown anns (λ k. summed k (a ∷ []) (at k))
AllKnown-summed a [] at h = tt
AllKnown-summed a (b ∷ anns) at h = (
  summed-known b.message_serial a (at b.message_serial) h.0.0 h.0.1,
  AllKnown-summed a anns at h.1,
)

folded_one :
    (x : Bytes) (a : Annotation) (latest : Assoc Message) (m : Message)
    → lookup a.message_serial latest ≡ some m
    → (fold_summary (record a { serial = x }) latest).0
      ≡ record a { serial = x; summary = apply m.summary a }
unfolding fold_summary
folded_one x a latest m h =
    rw (h, fold_summary)
      (ap (λ y. record a { serial = x; summary = y }) (apply-serial m.summary a x))

stamp_annotations-AllStamped :
    (x : Bytes) (i : ℕ) (anns : List Annotation) (latest : Assoc Message)
    (at : Bytes → Option Message)
    → ((k : Bytes) → lookup k latest ≡ at k)
    → AllKnown anns at
    → AllStamped x i at anns (stamp_annotations x i anns latest).0
unfolding stamp_annotations
stamp_annotations-AllStamped x i [] latest at same known = tt
stamp_annotations-AllStamped x i (a ∷ anns) latest at same ((m, e), known) = (
  (m, e, folded_one (message_serial x i) a latest m (same a.message_serial ∙ e)),
  stamp_annotations-AllStamped x (i + 1) anns
      (fold_summary (record a { serial = message_serial x i }) latest).1
      (λ k. summed k (a ∷ []) (at k))
      (λ k. lookup-fold_summary k (message_serial x i) a latest ∙ ap (summed k (a ∷ [])) (same k))
      (AllKnown-summed a anns at known),
)

-- What an annotation publish has done.
pub record IsAnnotated (now : ℕ) (anns : List Annotation) (cs : ChannelStore) (cm : ChannelMessage)
    (d : ChannelStore) : Type 0 where
  pub logged : IsLogged now cm (annotation_ids cm.annotations) cs d
  pub contents : cm ≡ record {
    id = [];
    channel_serial = cm.channel_serial;
    messages = [];
    presence = [];
    annotations = cm.annotations;
  }
  pub known : AllKnown anns (λ k. lookup k cs.latest)
  pub stamped : AllStamped cm.channel_serial 0 (λ k. lookup k cs.latest) anns cm.annotations
  pub latest : (s : Bytes) → lookup s d.latest ≡ summed s anns (lookup s cs.latest)
  pub indexed :
      (s : Bytes)
      → or_nil (lookup s d.annotations)
        ≡ or_nil (lookup s cs.annotations) ++ attached s cm.annotations
  pub members : d.members ≡ cs.members
  pub versions : d.versions ≡ cs.versions

fresh-IsAnnotated :
    (now : ℕ) (anns : List Annotation) (x : Bytes) (gen : Generator) (cs : ChannelStore)
    → mint cs.gen now ≡ (x, gen)
    → targets_known anns cs.latest ≡ true
    → IsAnnotated now anns cs
        (annotation_fresh anns (x, gen) cs).0
        (annotation_fresh anns (x, gen) cs).1
unfolding annotation_fresh persist
fresh-IsAnnotated now anns x gen cs e h = record {
  logged =
      persist-IsLogged now (annotation_fresh anns (x, gen) cs).0
        (annotation_ids (stamp_annotations x 0 anns cs.latest).0) gen cs cs.members
        (stamp_annotations x 0 anns cs.latest).1 cs.versions
        (index_annotations (stamp_annotations x 0 anns cs.latest).0 cs.annotations) e;
  contents = refl;
  known = targets_known-AllKnown anns cs.latest h;
  stamped =
      stamp_annotations-AllStamped x 0 anns cs.latest (λ k. lookup k cs.latest) (λ k. refl)
        (targets_known-AllKnown anns cs.latest h);
  latest = λ s. lookup-stamp_annotations s x 0 anns cs.latest;
  indexed = λ s. lookup-index_annotations s (stamp_annotations x 0 anns cs.latest).0 cs.annotations;
  members = refl;
  versions = refl;
}

checked-IsAnnotated :
    (now : ℕ) (anns : List Annotation) (cs : ChannelStore) (cm : ChannelMessage)
    → (annotation_checked now anns cs).0 ≡ ok (some cm, false)
    → IsAnnotated now anns cs cm (annotation_checked now anns cs).1
unfolding annotation_checked
checked-IsAnnotated now anns cs cm h = elim (Bool-cases (targets_known anns cs.latest)) [
  | inl known ↦
      let (c, d) = annotation_fresh anns (mint cs.gen now) cs in
      let eq : annotation_checked now anns cs ≡ (ok (some c, false), d) = rw known refl in
      let same : c ≡ cm = ground (arith, eq, h, ap (λ (r : Reply × ChannelStore). r.0) eq) in
      rw known (
        subst (λ y. IsAnnotated now anns cs y d) same
          (fresh-IsAnnotated now anns (mint cs.gen now).0 (mint cs.gen now).1 cs refl known))
  | inr unknown ↦ absurd (ground (arith, unknown, h))
]

-- An annotation publish that succeeds and is no repeat had a known message as the target of each
-- annotation. It adds to the log one message of its annotations, which are as they were sent but for
-- their serials and for the summary, that of the target with the annotations up to it folded in:
-- under a newly minted serial, at the end of the order, found by the ids that are not empty, and
-- handed to the appender. Each message's summary is then its earlier one with the annotations to it
-- folded in, in order, and nothing else of a latest version changes; the stamped annotations stand
-- after the earlier ones of their targets; the rest of the log, members and version histories stay.
pub store_annotation-IsAnnotated :
    (done : Bool) (now : ℕ) (anns : List Annotation) (cs : ChannelStore) (cm : ChannelMessage)
    → (store_annotation done now anns cs).0 ≡ ok (some cm, false)
    → IsAnnotated now anns cs cm (store_annotation done now anns cs).1
unfolding store_annotation
store_annotation-IsAnnotated done now [] cs cm h = absurd (ground arith)
store_annotation-IsAnnotated true now (a ∷ anns) cs cm h = absurd (ground arith)
store_annotation-IsAnnotated false now (a ∷ anns) cs cm h =
    elim (Option-cases (find_duplicate (annotation_ids (a ∷ anns)) cs)) [
      | inl f ↦
          let eq : store_annotation false now (a ∷ anns) cs ≡ annotation_checked now (a ∷ anns) cs =
            rw (f, store_annotation) refl in
          rw eq (
            checked-IsAnnotated now (a ∷ anns) cs cm
              (ap (λ (r : Reply × ChannelStore). r.0) (sym eq) ∙ h))
      | inr (c, f) ↦
          let eq : store_annotation false now (a ∷ anns) cs ≡ (ok (c, true), cs) =
            rw (f, store_annotation) refl in
          absurd (ground (arith, eq, ap (λ (r : Reply × ChannelStore). r.0) eq))
    ]
