-- ===== src/Protocol/Validation.antt =====
-- internal/protocol/annotation.go: `Validate`, before an annotation is published.
use ably_server.Base.{
  ◌≡◌, inl, inr, Bool, true, false, not, ◌&&◌, List, [], ◌∷◌, Option, none, some, Bytes, text,
  arith, if◌then◌else◌, ◌==◌, length, Option-cases, bytes_eq_comm, ap, Result, ok, err, pos,
}
use ably_server.Protocol.Summaries.{
  Annotation, Aggregation, parse_annotation_type, is_listed, is_zero, fold_by,
}

pub data AnnotationError : Type 0 where
  missing_message missing_type malformed_type unknown_aggregation not_for_anonymous :
      AnnotationError

abbrev pub annotation_aggregations : List Bytes
annotation_aggregations =
    text "distinct.v1"
    ∷ text "unique.v1"
    ∷ text "multiple.v1"
    ∷ text "flag.v1"
    ∷ text "total.v1"
    ∷ []

abbrev pub annotation_anonymous_aggregations : List Bytes
annotation_anonymous_aggregations = text "multiple.v1" ∷ text "total.v1" ∷ []

abbrev pub annotation_aggregations_using_count : List Bytes
annotation_aggregations_using_count = text "multiple.v1" ∷ []

-- The count that is set when it counts and is missing.
abbrev pub counted : Bytes → Annotation → Annotation
counted aggregation a =
    if is_listed aggregation annotation_aggregations_using_count && is_zero a.count
    then record a { count = pos 1 }
    else a

unfoldable pub validate_aggregation : Bytes → Annotation → Result AnnotationError Annotation
validate_aggregation aggregation a =
    if length aggregation == 0
    then ok a
    else if not (is_listed aggregation annotation_aggregations)
    then err unknown_aggregation
    else if length a.client_id == 0 && not (is_listed aggregation annotation_anonymous_aggregations)
    then err not_for_anonymous
    else ok (counted aggregation a)

validate_type : Option (Bytes × Bytes) → Annotation → Result AnnotationError Annotation
validate_type none a = err malformed_type
validate_type (some (name, aggregation)) a = validate_aggregation aggregation a

-- Validate, which may set the count.
unfoldable pub validate : Annotation → Result AnnotationError Annotation
unfolding validate_type
validate a =
    if length a.message_serial == 0
    then err missing_message
    else if length a.type == 0
    then err missing_type
    else validate_type (parse_annotation_type a.type) a

abbrev pub is_some {ℓ} : {A : Type ℓ} → Option A → Bool
is_some none = false
is_some (some x) = true

fold_by-is_some :
    (method : Bytes) (agg : Aggregation) (a : Annotation)
    → is_some (fold_by method agg a) ≡ is_listed method annotation_aggregations
unfolding fold_by
fold_by-is_some method agg a = ground (
  arith,
  bytes_eq_comm method (text "distinct.v1"),
  bytes_eq_comm method (text "unique.v1"),
  bytes_eq_comm method (text "multiple.v1"),
  bytes_eq_comm method (text "flag.v1"),
  bytes_eq_comm method (text "total.v1"),
)

-- What an accepted annotation is good for: its type reads, and if it names a method, then the
-- summary folds it, and an annotation without a client has a method that takes one.
pub record IsFoldable (a b : Annotation) : Type 0 where
  pub name : Bytes
  pub method : Bytes
  pub parsed : parse_annotation_type a.type ≡ some (name, method)
  pub folded :
      (agg : Aggregation) → (length method == 0) ≡ false → is_some (fold_by method agg b) ≡ true
  pub named :
      (length method == 0) ≡ false
      → (length a.client_id == 0) ≡ true
      → is_listed method annotation_anonymous_aggregations ≡ true

accepted :
    (a b : Annotation) (name method : Bytes)
    → parse_annotation_type a.type ≡ some (name, method)
    → validate_aggregation method a ≡ ok b
    → IsFoldable a b
unfolding validate_aggregation
accepted a b name method e h = record {
  name = name;
  method = method;
  parsed = e;
  folded = λ agg k. ground (arith, fold_by-is_some method agg b);
  named = λ k n. ground arith;
}

-- An annotation that validation accepts is never passed over by the summary for its method: its
-- type reads, a method that it names is one that the summary folds, and where it has no client the
-- method is one that counts anonymous clients.
validate-IsFoldable : (a b : Annotation) → validate a ≡ ok b → IsFoldable a b
unfolding validate
validate-IsFoldable a b h = elim (Option-cases (parse_annotation_type a.type)) [
  | inl e ↦ absurd (ground (arith, h, ap (λ o. validate_type o a) e))
  | inr ((name, method), e) ↦
      accepted a b name method e (ground (arith, h, ap (λ o. validate_type o a) e))
]
