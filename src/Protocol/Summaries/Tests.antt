-- ===== src/Protocol/Summaries/Tests.antt =====
-- internal/protocol/summary.go on concrete input.
use ably_server.Base.{
  ◌-◌, ◌^◌, ◌≡◌, refl, List, [], ◌∷◌, none, some, Bytes, pos, negsuc, text, bytes_eq, cut, lookup,
  insert, delete,
}
use ably_server.Protocol.Data.{absent}
use ably_server.Protocol.Summaries.{
  AnnotationAction, annotation_create, Annotation, Aggregation, add_int, negate_int,
  new_aggregation, parse_annotation_type, fold_unique, add_value, add_client_id, leave_others,
  remove_client_id, remove_first,
}
use ably_server.Protocol.Summaries.Folds.{fold_uniques, fold_uniques_one}

abbrev annotation : AnnotationAction → Bytes → Bytes → Annotation
annotation action client_id name = record {
  id = [];
  serial = [];
  action = action;
  client_id = client_id;
  connection_id = [];
  type = text "votes:unique.v1";
  name = name;
  message_serial = text "m";
  count = pos 0;
  payload = absent;
  encoding = [];
  extras = none;
  timestamp = pos 0;
  summary = [];
}

abbrev blank : Aggregation
blank = new_aggregation (text "unique.v1")

abbrev vote : Annotation
vote = annotation annotation_create (text "alice") (text "yes")

ints_wrap :
    (add_int (pos (2 ^ 63 - 1)) (pos 1) ≡ negsuc (2 ^ 63 - 1))
    × (add_int (pos 3) (negsuc 4) ≡ negsuc 1)
    × (negate_int (pos 5) ≡ negsuc 4)
unfolding add_int negate_int
ints_wrap = (refl, refl, refl)

types_are_read :
    (parse_annotation_type (text "votes:unique.v1") ≡ some (text "votes", text "unique.v1"))
    × (parse_annotation_type (text ":unique.v1") ≡ none)
    × (parse_annotation_type (text "a:b:c") ≡ none)
    × (parse_annotation_type (text "votes") ≡ some (text "votes", []))
unfolding parse_annotation_type cut
types_are_read = (refl, refl, refl, refl)

-- A vote that is changed.
abbrev votes : List Annotation
votes = annotation annotation_create (text "alice") (text "no") ∷ vote ∷ []

fold_uniques_one_example : text "yes" ≡ text "yes"
unfolding fold_uniques fold_unique add_value add_client_id lookup insert bytes_eq leave_others
    remove_client_id remove_first delete
fold_uniques_one_example =
    fold_uniques_one (text "unique.v1") votes (text "yes") (text "yes") (text "alice") refl refl
