-- ===== src/Protocol/Summaries.antt =====
-- internal/protocol/annotation.go and summary.go: annotations and the summary that they fold into.
-- A map is an association list, and a copy of a value is the value. A nil map and an empty one are
-- told apart nowhere. The wire formats are not modelled.
pub mod Clients
pub mod Folds
mod Tests
use ably_server.Base.{
  ℕ, suc, ◌+◌, ◌-◌, ◌%◌, ◌^◌, Bool, true, false, not, ◌&&◌, ◌||◌, List, [], ◌∷◌, ◌++◌, Option, none,
  some, Bytes, text, if◌then◌else◌, ltb, ◌==◌, any, length, bytes_eq, cut, contains, Assoc, lookup,
  insert, delete, ℤ, pos, negsuc,
}
use ably_server.Protocol.Data.{Payload, JsonObject}

pub data AnnotationAction : Type 0 where
  annotation_create annotation_delete annotation_unknown : AnnotationAction

-- A list of client ids; `total` is its length.
pub record ClientIdList : Type 0 where
  pub total : ℕ
  pub client_ids : List Bytes
  pub clipped : Bool

pub record ClientIdCounts : Type 0 where
  pub total : ℤ
  pub client_ids : Assoc ℤ
  pub total_unidentified : ℤ
  pub clipped : Bool
  pub total_client_ids : ℕ

pub record Aggregation : Type 0 where
  pub method : Bytes
  pub values : Assoc ClientIdList
  pub counts : Assoc ClientIdCounts
  pub flag : Option ClientIdList
  pub total : Option ℤ

-- By annotation type
abbrev pub Summary : Type 0
Summary = Assoc Aggregation

pub record Annotation : Type 0 where
  pub id : Bytes
  pub serial : Bytes
  pub action : AnnotationAction
  pub client_id : Bytes
  pub connection_id : Bytes
  pub type : Bytes
  pub name : Bytes
  pub message_serial : Bytes
  pub count : ℤ
  pub payload : Payload
  pub encoding : Bytes
  pub extras : Option JsonObject
  pub timestamp : ℤ
  pub summary : Summary

-- An int as its 64 bits, and back.
unfoldable pub to_word : ℤ → ℕ
to_word (pos n) = n % 2 ^ 64
to_word (negsuc n) = 2 ^ 64 - 1 - n % 2 ^ 64

unfoldable pub from_word : ℕ → ℤ
from_word n = if ltb n (2 ^ 63) then pos n else negsuc (2 ^ 64 - 1 - n)

-- a + b
unfoldable pub add_int : ℤ → ℤ → ℤ
unfolding to_word from_word
add_int a b = from_word ((to_word a + to_word b) % 2 ^ 64)

-- -a
unfoldable pub negate_int : ℤ → ℤ
unfolding to_word from_word
negate_int a = from_word ((2 ^ 64 - to_word a) % 2 ^ 64)

-- v > 0
unfoldable pub is_positive : ℤ → Bool
is_positive (pos n) = ltb 0 n
is_positive (negsuc n) = false

-- ParseAnnotationType; `none` is not ok.
unfoldable pub parse_annotation_type : Bytes → Option (Bytes × Bytes)
parse_annotation_type [] = none
parse_annotation_type (c ∷ cs) = elim (cut b':' (c ∷ cs)) [
  | none ↦ some (c ∷ cs, [])
  | some (name, aggregation) ↦
      if length name == 0 || contains b':' aggregation then none else some (name, aggregation)
]

abbrev pub is_listed : Bytes → List Bytes → Bool
is_listed id ids = any (λ x. bytes_eq x id) ids

unfoldable pub remove_first : Bytes → List Bytes → List Bytes
remove_first id [] = []
remove_first id (x ∷ xs) = let rest = x ∷ remove_first id xs in if bytes_eq x id then xs else rest

abbrev pub with_ids : ClientIdList → List Bytes → ClientIdList
with_ids lst ids = record lst { total = length ids; client_ids = ids }

unfoldable pub add_client_id : ClientIdList → Bytes → ClientIdList
add_client_id lst id =
    with_ids lst (if is_listed id lst.client_ids then lst.client_ids else lst.client_ids ++ id ∷ [])

unfoldable pub remove_client_id : ClientIdList → Bytes → ClientIdList
remove_client_id lst id = with_ids lst (remove_first id lst.client_ids)

abbrev pub no_clients : ClientIdList
no_clients = record { total = 0; client_ids = []; clipped = false }

abbrev pub or_no_clients : Option ClientIdList → ClientIdList
or_no_clients none = no_clients
or_no_clients (some lst) = lst

-- The create of a per-value set.
unfoldable pub add_value : Bytes → Bytes → Assoc ClientIdList → Assoc ClientIdList
add_value value id m = insert value (add_client_id (or_no_clients (lookup value m)) id) m

-- Its delete.
unfoldable pub remove_value : Bytes → Bytes → Assoc ClientIdList → Assoc ClientIdList
remove_value value id m = elim (lookup value m) [
  | none ↦ m
  | some lst ↦
      let left = remove_client_id lst id in
      if length left.client_ids == 0 then delete value m else insert value left m
]

-- The loop of foldUnique: the client leaves every other value.
unfoldable pub leave_others : Bytes → Bytes → Assoc ClientIdList → Assoc ClientIdList
leave_others value id [] = []
leave_others value id ((v, lst) ∷ m) =
    let rest = leave_others value id m in
    let left = remove_client_id lst id in
    if bytes_eq v value
    then (v, lst) ∷ rest
    else if length left.client_ids == 0
    then delete v rest
    else (v, left) ∷ rest

distinct_values : AnnotationAction → Bytes → Bytes → Assoc ClientIdList → Assoc ClientIdList
distinct_values annotation_create value id m = add_value value id m
distinct_values annotation_delete value id m = remove_value value id m
distinct_values annotation_unknown value id m = m

unique_values : AnnotationAction → Bytes → Bytes → Assoc ClientIdList → Assoc ClientIdList
unique_values annotation_create value id m = add_value value id (leave_others value id m)
unique_values annotation_delete value id m = remove_value value id m
unique_values annotation_unknown value id m = m

unfoldable pub fold_distinct : Aggregation → Annotation → Bytes → Aggregation
unfolding distinct_values
fold_distinct agg a value = record agg {
  values = distinct_values a.action value a.client_id agg.values;
}

unfoldable pub fold_unique : Aggregation → Annotation → Bytes → Aggregation
unfolding unique_values
fold_unique agg a value = record agg {
  values = unique_values a.action value a.client_id agg.values;
}

abbrev pub is_delete : AnnotationAction → Bool
is_delete annotation_delete = true
is_delete _ = false

abbrev pub is_zero : ℤ → Bool
is_zero (pos n) = n == 0
is_zero (negsuc n) = false

abbrev or_zero : Option ℤ → ℤ
or_zero none = pos 0
or_zero (some n) = n

-- The per-client counts after a contribution.
abbrev pub add_count : Bytes → ℤ → Assoc ℤ → Assoc ℤ
add_count id delta m =
    let sum = add_int (or_zero (lookup id m)) delta in
    if is_positive sum then insert id sum m else delete id m

abbrev pub contribute : ClientIdCounts → Bytes → ℤ → ClientIdCounts
contribute cc id delta =
    let anonymous = length id == 0 in
    let client_ids = if anonymous then cc.client_ids else add_count id delta cc.client_ids in
    record cc {
      total = add_int cc.total delta;
      client_ids = client_ids;
      total_unidentified =
          if anonymous then add_int cc.total_unidentified delta else cc.total_unidentified;
      total_client_ids = length client_ids;
    }

abbrev pub is_spent : ClientIdCounts → Bool
is_spent cc =
    not (is_positive cc.total)
    && length cc.client_ids == 0
    && not (is_positive cc.total_unidentified)

abbrev pub no_counts : ClientIdCounts
no_counts = record {
  total = pos 0;
  client_ids = [];
  total_unidentified = pos 0;
  clipped = false;
  total_client_ids = 0;
}

-- The counts after the contribution of `cc` to a value, which is dropped when nothing is left.
put_counts : Bytes → ClientIdCounts → Assoc ClientIdCounts → Assoc ClientIdCounts
put_counts value cc m = if is_spent cc then delete value m else insert value cc m

abbrev pub delta_of : Annotation → ℤ
delta_of a =
    let count = if is_zero a.count then pos 1 else a.count in
    if is_delete a.action then negate_int count else count

unfoldable pub fold_multiple : Aggregation → Annotation → Bytes → Aggregation
unfolding put_counts
fold_multiple agg a value = elim (lookup value agg.counts) [
  | none ↦ if is_delete a.action then agg else record agg {
    counts = put_counts value (contribute no_counts a.client_id (delta_of a)) agg.counts;
  }
  | some cc ↦ record agg {
    counts = put_counts value (contribute cc a.client_id (delta_of a)) agg.counts;
  }
]

abbrev flag_clients : AnnotationAction → ClientIdList → Bytes → ClientIdList
flag_clients annotation_create lst id = add_client_id lst id
flag_clients annotation_delete lst id = remove_client_id lst id
flag_clients annotation_unknown lst id = lst

unfoldable pub fold_flag : Aggregation → Annotation → Aggregation
fold_flag agg a = record agg {
  flag = some (flag_clients a.action (or_no_clients agg.flag) a.client_id);
}

abbrev tallied : AnnotationAction → ℤ → ℤ
tallied annotation_create n = add_int n (pos 1)
tallied annotation_delete n = add_int n (negsuc 0)
tallied annotation_unknown n = n

unfoldable pub fold_total : Aggregation → Annotation → Aggregation
fold_total agg a = record agg { total = some (tallied a.action (or_zero agg.total)) }

-- Aggregation.empty
unfoldable pub is_drained : Aggregation → Bool
is_drained agg =
    if bytes_eq agg.method (text "distinct.v1") || bytes_eq agg.method (text "unique.v1")
    then length agg.values == 0
    else if bytes_eq agg.method (text "multiple.v1")
    then length agg.counts == 0
    else if bytes_eq agg.method (text "flag.v1")
    then length (or_no_clients agg.flag).client_ids == 0
    else if bytes_eq agg.method (text "total.v1")
    then not (is_positive (or_zero agg.total))
    else true

-- The fold of a method; `none` is an unknown one.
unfoldable pub fold_by : Bytes → Aggregation → Annotation → Option Aggregation
fold_by method agg a =
    if bytes_eq method (text "distinct.v1")
    then some (fold_distinct agg a a.name)
    else if bytes_eq method (text "unique.v1")
    then some (fold_unique agg a a.name)
    else if bytes_eq method (text "multiple.v1")
    then some (fold_multiple agg a a.name)
    else if bytes_eq method (text "flag.v1")
    then some (fold_flag agg a)
    else if bytes_eq method (text "total.v1")
    then some (fold_total agg a)
    else none

abbrev pub new_aggregation : Bytes → Aggregation
new_aggregation method = record {
  method = method;
  values = [];
  counts = [];
  flag = none;
  total = none;
}

abbrev pub or_new : Bytes → Option Aggregation → Aggregation
or_new method none = new_aggregation method
or_new method (some agg) = agg

-- Apply once the type is read.
apply_method : Bytes → Summary → Annotation → Summary
apply_method method s a = elim (fold_by method (or_new method (lookup a.type s)) a) [
  | none ↦ s
  | some agg ↦ if is_drained agg then delete a.type s else insert a.type agg s
]

-- Summary.Apply
unfoldable pub apply : Summary → Annotation → Summary
unfolding apply_method
apply s a = elim (parse_annotation_type a.type) [
  | none ↦ s
  | some (name, method) ↦ if length method == 0 then s else apply_method method s a
]
