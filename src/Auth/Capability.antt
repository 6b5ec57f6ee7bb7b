-- ===== src/Auth/Capability.antt =====
-- internal/auth/capability.go: capability sets, resource patterns and their intersection.
-- A Go map is a list of its entries; the code only asks whether some entry has a property, or adds
-- to the entry of a key, so the order of a map's iteration does not show. A set of operations is
-- the list of its elements. Decoding JSON is not modelled: the functions start from the decoded
-- map, `none` standing for text that does not decode.
pub mod Paths
pub mod PathMeets
pub mod Ops
pub mod Resources
pub mod ResourceMeets
pub mod Narrowing
pub mod Requests
pub mod Texts
pub mod Brackets
mod Tests
use ably_server.Base.{
  ℕ, Bool, true, false, not, ◌&&◌, ◌||◌, List, [], ◌∷◌, ◌++◌, map, Option, none, some, Bytes, ltb,
  ◌==◌, if◌then◌else◌, length, any, all, text, bytes_eq, cut, split, join, Result, ok, err,
}

abbrev pub Op : Type 0
Op = Bytes

abbrev pub op_wildcard : Op
op_wildcard = text "*"

-- perms: the resource patterns and the operations granted on each.
abbrev pub Capability : Type 0
Capability = List (Bytes × List Op)

abbrev pub allow_all : Capability
allow_all = (text "*", op_wildcard ∷ []) ∷ []

abbrev pub contains_op : Op → List Op → Bool
contains_op o ops = any (λ x. bytes_eq x o) ops

abbrev pub Segments : Type 0
Segments = List Bytes

abbrev pub is_star : Bytes → Bool
is_star p = bytes_eq p op_wildcard

-- The qualifier's type: what stands before "=param" or "?query".
unfoldable pub qualifier_type : Bytes → Bytes
qualifier_type [] = []
qualifier_type (c ∷ cs) =
    let rest = c ∷ qualifier_type cs in if c == b'=' || c == b'?' then [] else rest

-- A leading bracket that is closed is cut off; one that is not belongs to the name.
closed_bracket : Bytes → Option (Bytes × Bytes) → Bytes × Segments
closed_bracket res none = ([], split b':' res)
closed_bracket res (some (qualifier, name)) = (qualifier_type qualifier, split b':' name)

unfoldable pub parse_resource : Bytes → Bytes × Segments
unfolding closed_bracket
parse_resource [] = ([], split b':' [])
parse_resource (c ∷ cs) =
    if c == b'[' then closed_bracket (c ∷ cs) (cut b']' cs) else ([], split b':' (c ∷ cs))

unfoldable pub qualifier_matches : Bytes → Bytes → Bool
qualifier_matches x y = bytes_eq x y || is_star x || is_star y

-- The loop of `pathsMatch` at the segments that are left of both.
unfoldable pub paths_match : Segments → Segments → Bool
paths_match [] [] = true
paths_match [] (c ∷ cs) = false
paths_match (p ∷ []) [] = is_star p
paths_match (p ∷ q ∷ ps) [] = false
paths_match (p ∷ []) (c ∷ cs) =
    let rest = paths_match [] cs in if is_star p then true else bytes_eq c p && rest
paths_match (p ∷ q ∷ ps) (c ∷ cs) =
    let rest = paths_match (q ∷ ps) cs in if is_star p then rest else bytes_eq c p && rest

unfoldable pub match_resource : Bytes → Bytes → Bool
match_resource pattern channel =
    let (qual, segments) = parse_resource pattern in
    qualifier_matches qual [] && paths_match segments (split b':' channel)

abbrev pub grants : List Op → Op → Bool
grants ops op = contains_op op_wildcard ops || contains_op op ops

unfoldable pub permits : Capability → Bytes → Op → Bool
permits [] channel op = false
permits ((pattern, ops) ∷ c) channel op =
    (match_resource pattern channel && grants ops op) || permits c channel op

pub data MutationOutcome : Type 0 where
  denied_capability allowed needs_ownership : MutationOutcome

unfoldable pub mutation_grant : Capability → Bytes → Op → Op → MutationOutcome
mutation_grant c channel own_op any_op =
    if permits c channel any_op
    then allowed
    else if permits c channel own_op
    then needs_ownership
    else denied_capability

unfoldable pub is_empty : Capability → Bool
is_empty [] = true
is_empty ((pattern, []) ∷ c) = is_empty c
is_empty ((pattern, o ∷ ops) ∷ c) = false

unfoldable pub intersect_qualifier : Bytes → Bytes → Option Bytes
intersect_qualifier l r =
    if is_star l
    then some r
    else if is_star r
    then some l
    else if bytes_eq l r
    then some l
    else none

unfoldable pub encode_resource : Bytes → Segments → Bytes
encode_resource [] path = join b':' path
encode_resource (c ∷ cs) path = b'[' ∷ ((c ∷ cs) ++ b']' ∷ join b':' path)

-- The elements of `a` that are in `b`.
unfoldable pub common_ops : List Op → List Op → List Op
common_ops [] b = []
common_ops (o ∷ a) b = let rest = common_ops a b in if contains_op o b then o ∷ rest else rest

unfoldable pub intersect_ops : List Op → List Op → List Op
intersect_ops a b =
    if contains_op op_wildcard a && contains_op op_wildcard b
    then op_wildcard ∷ []
    else if contains_op op_wildcard a
    then b
    else if contains_op op_wildcard b
    then a
    else common_ops a b

abbrev prepend : Bytes → Option Segments → Option Segments
prepend p none = none
prepend p (some ps) = some (p ∷ ps)

-- The loop over two paths of which the first is not longer; an index past the second does not come.
unfoldable pub intersect_loop : Segments → Segments → Option Segments
intersect_loop [] rs = some []
intersect_loop (l ∷ ls) [] = none
intersect_loop (l ∷ []) (r ∷ rs) =
    let rest = intersect_loop [] rs in
    if is_star l then some (r ∷ rs) else if is_star r || bytes_eq l r then prepend l rest else none
intersect_loop (l ∷ l' ∷ ls) (r ∷ rs) =
    let rest = intersect_loop (l' ∷ ls) rs in
    if is_star l then prepend r rest else if is_star r || bytes_eq l r then prepend l rest else none

-- l[len(l)-1] == "*"; `split` gives no empty path.
unfoldable pub last_is_star : Segments → Bool
last_is_star [] = false
last_is_star (p ∷ []) = is_star p
last_is_star (p ∷ q ∷ ps) = last_is_star (q ∷ ps)

unfoldable pub intersect_ordered : Segments → Segments → Option Segments
intersect_ordered l r =
    if not (length r == length l) && not (last_is_star l) then none else intersect_loop l r

unfoldable pub intersect_path : Segments → Segments → Option Segments
intersect_path l r =
    if ltb (length r) (length l) then intersect_ordered r l else intersect_ordered l r

-- out.perms[joined], created when missing, with `ops` added.
unfoldable pub add_ops : Bytes → List Op → Capability → Capability
add_ops joined ops [] = (joined, ops) ∷ []
add_ops joined ops ((pattern, granted) ∷ c) =
    if bytes_eq pattern joined
    then (pattern, granted ++ ops) ∷ c
    else (pattern, granted) ∷ add_ops joined ops c

-- The resource that two patterns have in common, if any.
unfoldable pub intersect_resource : Bytes → Bytes → Option Bytes
intersect_resource l r =
    let (l_qual, l_path) = parse_resource l in
    let (r_qual, r_path) = parse_resource r in
    elim (intersect_qualifier l_qual r_qual) [
      | none ↦ none
      | some qual ↦ elim (intersect_path l_path r_path) [
        | none ↦ none
        | some path ↦ some (encode_resource qual path)
      ]
    ]

abbrev pub add_common : List Op → Option Bytes → Capability → Capability
add_common [] resource out = out
add_common (o ∷ ops) none out = out
add_common (o ∷ ops) (some joined) out = add_ops joined (o ∷ ops) out

unfoldable pub intersect_row : Bytes → List Op → Capability → Capability → Capability
intersect_row l l_ops [] out = out
intersect_row l l_ops ((r, r_ops) ∷ other) out =
    intersect_row l l_ops other
      (add_common (intersect_ops l_ops r_ops) (intersect_resource l r) out)

unfoldable pub intersect_onto : Capability → Capability → Capability → Capability
intersect_onto [] other out = out
intersect_onto ((l, l_ops) ∷ c) other out = intersect_onto c other (intersect_row l l_ops other out)

unfoldable pub intersect : Capability → Capability → Capability
intersect c other = intersect_onto c other []
