-- ===== src/Auth/Capability/Texts.antt =====
-- internal/auth/capability.go: `ParseCapability` and `String`. The JSON library is a parameter. A map
-- holds a resource once, and each operation of it once: where a list here repeats one, `canonical`
-- joins them.
use ably_server.Base.{
  List, [], ◌∷◌, Option, none, some, Bytes, if◌then◌else◌, bytes_eq, lex_lt, ok, err,
}
use ably_server.Auth.Capability.{Op, Capability}
use ably_server.Auth.Capability.Requests.{Raw, parse_capability}

-- json.Unmarshal into a map of lists, and json.Marshal of a map whose keys are in order.
pub record Json : Type 0 where
  pub unmarshal : Bytes → Option Raw
  pub marshal : Raw → Bytes

unfoldable pub insert_op : Op → List Op → List Op
insert_op o [] = o ∷ []
insert_op o (p ∷ ops) =
    let rest = insert_op o ops in
    if lex_lt o p then o ∷ p ∷ ops else if bytes_eq o p then p ∷ ops else p ∷ rest

unfoldable pub add_sorted : List Op → List Op → List Op
add_sorted [] sorted = sorted
add_sorted (o ∷ ops) sorted = insert_op o (add_sorted ops sorted)

unfoldable pub insert_resource : Bytes → List Op → Raw → Raw
insert_resource r ops [] = (r, add_sorted ops []) ∷ []
insert_resource r ops ((s, sorted) ∷ raw) =
    let rest = insert_resource r ops raw in
    if lex_lt r s
    then (r, add_sorted ops []) ∷ (s, sorted) ∷ raw
    else if bytes_eq r s
    then (s, add_sorted ops sorted) ∷ raw
    else (s, sorted) ∷ rest

-- Resources and operations, each in order.
unfoldable pub canonical : Capability → Raw
canonical [] = []
canonical ((r, ops) ∷ c) = insert_resource r ops (canonical c)

abbrev pub string_of : Json → Capability → Bytes
string_of json c = json.marshal (canonical c)

abbrev pub parse_text : Json → Bytes → Option Capability
parse_text json s = elim (parse_capability (json.unmarshal s)) [ ok c ↦ some c | err e ↦ none ]
