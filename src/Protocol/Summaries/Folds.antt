-- ===== src/Protocol/Summaries/Folds.antt =====
-- internal/protocol/summary.go: who stands under which value after the folds of distinct.v1 and
-- unique.v1.
use ably_server.Base.{
  ◌≡◌, refl, sym, ap, ◌∙◌, inl, inr, Bool, true, false, not, ◌&&◌, ◌||◌, List, [], ◌∷◌, Option,
  none, some, Bytes, arith, if◌then◌else◌, Bool-cases, Option-cases, length, ◌==◌, lookup-insert,
  lookup-delete, bytes_eq, bytes_eq_iff, Assoc, lookup,
}
use ably_server.Protocol.Summaries.{
  AnnotationAction, annotation_create, annotation_delete, annotation_unknown, ClientIdList,
  Aggregation, Annotation, remove_value, leave_others, distinct_values, unique_values,
  fold_distinct, fold_unique, new_aggregation, or_new, fold_by, is_drained, apply_method, apply,
  parse_annotation_type, Summary,
}
use ably_server.Protocol.Summaries.Clients.{
  AllClients, AllClients-lookup, AllClients-add_value, AllClients-remove_value,
  AllClients-leave_others, holds, under, under-left_of, under-add_value, lookup-remove_value,
  lookup-leave_others,
}

holds-remove_value :
    (value id v c : Bytes) (m : Assoc ClientIdList)
    → AllClients m
    → holds (remove_value value id m) v c ≡ (holds m v c && not (bytes_eq value v && bytes_eq id c))
holds-remove_value value id v c m k = ground (
  arith,
  ap (λ o. under o c) (lookup-remove_value value id v m),
  under-left_of id c (lookup v m) (λ lst e. AllClients-lookup v lst m k e),
)

holds-leave_others :
    (value id v c : Bytes) (m : Assoc ClientIdList)
    → AllClients m
    → holds (leave_others value id m) v c
      ≡ (holds m v c && (bytes_eq value v || not (bytes_eq id c)))
holds-leave_others value id v c m k = ground (
  arith,
  ap (λ o. under o c) (lookup-leave_others value id v m),
  under-left_of id c (lookup v m) (λ lst e. AllClients-lookup v lst m k e),
)

-- Whether `c` stands under `v` after an annotation of distinct.v1.
abbrev pub after_distinct : AnnotationAction → (same_value same_client before : Bool) → Bool
after_distinct annotation_create same_value same_client before =
    before || (same_value && same_client)
after_distinct annotation_delete same_value same_client before =
    before && not (same_value && same_client)
after_distinct annotation_unknown same_value same_client before = before

-- Whether `c` stands under `v` after an annotation of unique.v1.
abbrev pub after_unique : AnnotationAction → (same_value same_client before : Bool) → Bool
after_unique annotation_create same_value same_client before =
    if same_client then same_value else before
after_unique annotation_delete same_value same_client before =
    before && not (same_value && same_client)
after_unique annotation_unknown same_value same_client before = before

distinct-holds :
    (action : AnnotationAction) (value id v c : Bytes) (m : Assoc ClientIdList)
    → AllClients m
    → AllClients (distinct_values action value id m)
      × (holds (distinct_values action value id m) v c
          ≡ after_distinct action (bytes_eq value v) (bytes_eq id c) (holds m v c))
unfolding distinct_values
distinct-holds annotation_create value id v c m k =
    (AllClients-add_value value id m k, under-add_value value id v c m)
distinct-holds annotation_delete value id v c m k =
    (AllClients-remove_value value id m k, holds-remove_value value id v c m k)
distinct-holds annotation_unknown value id v c m k = (k, refl)

unique-holds :
    (action : AnnotationAction) (value id v c : Bytes) (m : Assoc ClientIdList)
    → AllClients m
    → AllClients (unique_values action value id m)
      × (holds (unique_values action value id m) v c
          ≡ after_unique action (bytes_eq value v) (bytes_eq id c) (holds m v c))
unfolding unique_values
unique-holds annotation_create value id v c m k = (
  AllClients-add_value value id (leave_others value id m) (AllClients-leave_others value id m k),
  ground (
    arith,
    under-add_value value id v c (leave_others value id m),
    holds-leave_others value id v c m k,
  ),
)
unique-holds annotation_delete value id v c m k =
    (AllClients-remove_value value id m k, holds-remove_value value id v c m k)
unique-holds annotation_unknown value id v c m k = (k, refl)

-- A distinct.v1 fold adds the client to the annotated value on a create, takes it away on a delete,
-- and moves no other client and no other value; if before it every list had its clients once, its
-- total right and no list was empty, then so after it.
pub holds-fold_distinct :
    (agg : Aggregation) (a : Annotation) (value v c : Bytes)
    → AllClients agg.values
    → AllClients (fold_distinct agg a value).values
      × (holds (fold_distinct agg a value).values v c
          ≡ after_distinct a.action
              (bytes_eq value v)
              (bytes_eq a.client_id c)
              (holds agg.values v c))
unfolding fold_distinct
holds-fold_distinct agg a value v c k = distinct-holds a.action value a.client_id v c agg.values k

-- A unique.v1 fold moves the client to the annotated value on a create, away from every other one,
-- takes it off the annotated value on a delete, and moves no other client; if before it every list
-- had its clients once, its total right and no list was empty, then so after it.
holds-fold_unique :
    (agg : Aggregation) (a : Annotation) (value v c : Bytes)
    → AllClients agg.values
    → AllClients (fold_unique agg a value).values
      × (holds (fold_unique agg a value).values v c
          ≡ after_unique a.action
              (bytes_eq value v)
              (bytes_eq a.client_id c)
              (holds agg.values v c))
unfolding fold_unique
holds-fold_unique agg a value v c k = unique-holds a.action value a.client_id v c agg.values k

-- The folds of a list of annotations, oldest first.
unfoldable pub fold_uniques : Aggregation → List Annotation → Aggregation
fold_uniques agg [] = agg
fold_uniques agg (a ∷ anns) = fold_uniques (fold_unique agg a a.name) anns

-- No client stands under two values.
record IsUnique (agg : Aggregation) : Type 0 where
  clients : AllClients agg.values
  one : (v w c : Bytes) → holds agg.values v c ≡ true → holds agg.values w c ≡ true → v ≡ w

after_unique-one :
    (action : AnnotationAction) (value v w : Bytes) (same before_v before_w : Bool)
    → (before_v ≡ true → before_w ≡ true → v ≡ w)
    → after_unique action (bytes_eq value v) same before_v ≡ true
    → after_unique action (bytes_eq value w) same before_w ≡ true
    → v ≡ w
after_unique-one annotation_create value v w true bv bw f h k =
    ground (arith, bytes_eq_iff value v, bytes_eq_iff value w)
after_unique-one annotation_create value v w false bv bw f h k = f h k
after_unique-one annotation_delete value v w same bv bw f h k = f (ground arith) (ground arith)
after_unique-one annotation_unknown value v w same bv bw f h k = f h k

fold_unique-IsUnique :
    (agg : Aggregation) (a : Annotation) (value : Bytes)
    → IsUnique agg
    → IsUnique (fold_unique agg a value)
fold_unique-IsUnique agg a value u = record {
  clients = (holds-fold_unique agg a value [] [] u.clients).0;
  one = λ v w c h k.
      after_unique-one a.action value v w (bytes_eq a.client_id c) (holds agg.values v c)
        (holds agg.values w c) (u.one v w c)
        (sym (holds-fold_unique agg a value v c u.clients).1 ∙ h)
        (sym (holds-fold_unique agg a value w c u.clients).1 ∙ k);
}

fold_uniques-IsUnique :
    (agg : Aggregation) (anns : List Annotation) → IsUnique agg → IsUnique (fold_uniques agg anns)
unfolding fold_uniques
fold_uniques-IsUnique agg [] u = u
fold_uniques-IsUnique agg (a ∷ anns) u =
    fold_uniques-IsUnique (fold_unique agg a a.name) anns (fold_unique-IsUnique agg a a.name u)

-- However unique.v1 annotations follow one another from nothing, no client stands under two values.
pub fold_uniques_one :
    (method : Bytes) (anns : List Annotation) (v w c : Bytes)
    → holds (fold_uniques (new_aggregation method) anns).values v c ≡ true
    → holds (fold_uniques (new_aggregation method) anns).values w c ≡ true
    → v ≡ w
fold_uniques_one method anns v w c h k =
    (fold_uniques-IsUnique (new_aggregation method) anns
        (record { clients = tt; one = λ x y d p q. absurd (unfold lookup in ground arith) })).one
      v w c h k

-- What the summary keeps under the annotation's type.
abbrev pub entry_after : Bytes → Annotation → Option Aggregation → Option Aggregation
entry_after method a entry = elim (fold_by method (or_new method entry) a) [
  | none ↦ entry
  | some agg ↦ if is_drained agg then none else some agg
]

applied :
    (method : Bytes) (s : Summary) (a : Annotation) (t : Bytes)
    → lookup t (apply_method method s a)
      ≡ (if bytes_eq a.type t then entry_after method a (lookup t s) else lookup t s)
unfolding apply_method
applied method s a t = elim (Option-cases (fold_by method (or_new method (lookup a.type s)) a)) [
  | inl e ↦ ground (arith, e, bytes_eq_iff a.type t)
  | inr (agg, e) ↦
      ground
        (arith, e, bytes_eq_iff a.type t, lookup-insert a.type t agg s, lookup-delete a.type t s)
]

-- An annotation changes the summary under its own type only, where the entry is that of the type's
-- method folded, dropped when nothing is left in it; a type that names no method changes nothing.
lookup-apply :
    (s : Summary) (a : Annotation) (t name method : Bytes)
    → parse_annotation_type a.type ≡ some (name, method)
    → lookup t (apply s a) ≡ (
        if bytes_eq a.type t && not (length method == 0)
        then entry_after method a (lookup t s)
        else lookup t s)
unfolding apply
lookup-apply s a t name method e =
    rw (e, apply)
      (elim (Bool-cases (length method == 0)) [
        | inl f ↦ ground (arith, f)
        | inr f ↦ ground (arith, f, applied method s a t)
      ])
