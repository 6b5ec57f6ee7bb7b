-- ===== src/Protocol/Summaries/Clients.antt =====
-- internal/protocol/summary.go: lists of clients under values, and what adding and removing a client
-- does to them.
use ably_server.Base.{
  ◌≡◌, refl, inl, inr, Bool, true, false, not, ◌&&◌, ◌||◌, List, [], ◌∷◌, ◌++◌, Option, none, some,
  Bytes, arith, if◌then◌else◌, Bool-cases, Option-cases, ◌==◌, any-append, length, bytes_eq,
  bytes_eq_iff, Assoc, lookup, insert, delete, lookup-insert, lookup-delete,
}
use ably_server.Protocol.Summaries.{
  ClientIdList, is_listed, remove_first, add_client_id, remove_client_id, or_no_clients, add_value,
  remove_value, leave_others,
}

-- No id stands twice.
abbrev pub NoDup : List Bytes → Type 0
NoDup [] = Unit {0}
NoDup (x ∷ xs) = (is_listed x xs ≡ false) × NoDup xs

listed-remove_first :
    (id c : Bytes) (ids : List Bytes)
    → NoDup ids
    → is_listed c (remove_first id ids) ≡ (is_listed c ids && not (bytes_eq id c))
unfolding remove_first
listed-remove_first id c [] h = refl
listed-remove_first id c (x ∷ xs) h = ground (
  arith,
  listed-remove_first id c xs h.1,
  bytes_eq_iff x id,
  bytes_eq_iff x c,
  bytes_eq_iff id c,
  h.0,
)

NoDup-remove_first : (id : Bytes) (ids : List Bytes) → NoDup ids → NoDup (remove_first id ids)
unfolding remove_first
NoDup-remove_first id [] h = tt
NoDup-remove_first id (x ∷ xs) h = elim (Bool-cases (bytes_eq x id)) [
  | inl same ↦ rw same (h.1)
  | inr other ↦
      rw other (ground (arith, listed-remove_first id x xs h.1, h.0), NoDup-remove_first id xs h.1)
]

NoDup-snoc :
    (id : Bytes) (ids : List Bytes) → NoDup ids → is_listed id ids ≡ false → NoDup (ids ++ id ∷ [])
NoDup-snoc id [] h k = (refl, tt)
NoDup-snoc id (x ∷ xs) h k = (
  ground (
    arith,
    any-append (λ y. bytes_eq y x) xs (id ∷ []),
    bytes_eq_iff x id,
    bytes_eq_iff id x,
    h.0,
  ),
  NoDup-snoc id xs h.1 (ground arith),
)

-- A list of clients: no id twice, the total is their number, and there is one.
pub record IsClients (lst : ClientIdList) : Type 0 where
  pub distinct : NoDup lst.client_ids
  pub total : lst.total ≡ length lst.client_ids
  pub inhabited : (length lst.client_ids == 0) ≡ false

abbrev pub AllClients : Assoc ClientIdList → Type 0
AllClients [] = Unit {0}
AllClients ((v, lst) ∷ m) = IsClients lst × AllClients m

pub AllClients-insert :
    (v : Bytes) (lst : ClientIdList) (m : Assoc ClientIdList)
    → IsClients lst
    → AllClients m
    → AllClients (insert v lst m)
unfolding insert
AllClients-insert v lst [] h k = (h, tt)
AllClients-insert v lst ((w, l) ∷ m) h k = elim (Bool-cases (bytes_eq w v)) [
  | inl e ↦ rw e (h, k.1)
  | inr e ↦ rw e (k.0, AllClients-insert v lst m h k.1)
]

AllClients-delete : (v : Bytes) (m : Assoc ClientIdList) → AllClients m → AllClients (delete v m)
unfolding delete
AllClients-delete v [] k = tt
AllClients-delete v ((w, l) ∷ m) k = elim (Bool-cases (bytes_eq w v)) [
  | inl e ↦ rw e (AllClients-delete v m k.1)
  | inr e ↦ rw e (k.0, AllClients-delete v m k.1)
]

pub AllClients-lookup :
    (v : Bytes) (lst : ClientIdList) (m : Assoc ClientIdList)
    → AllClients m
    → lookup v m ≡ some lst
    → IsClients lst
unfolding lookup
AllClients-lookup v lst [] k h = absurd (cc)
AllClients-lookup v lst ((w, l) ∷ m) k h = elim (Bool-cases (bytes_eq w v)) [
  | inl e ↦ let same : l ≡ lst = ground arith in rw (← same) k.0
  | inr e ↦ AllClients-lookup v lst m k.1 (ground arith)
]

-- Whether a client stands under a value.
abbrev pub holds : Assoc ClientIdList → Bytes → Bytes → Bool
holds m v c = is_listed c (or_no_clients (lookup v m)).client_ids

-- What is left of a value's entry.
abbrev pub left_of : Bytes → Option ClientIdList → Option ClientIdList
left_of id none = none
left_of id (some lst) =
    if length (remove_client_id lst id).client_ids == 0
    then none
    else some (remove_client_id lst id)

abbrev pub under : Option ClientIdList → Bytes → Bool
under o c = is_listed c (or_no_clients o).client_ids

is_listed-nil : (c : Bytes) (ids : List Bytes) → (length ids == 0) ≡ true → is_listed c ids ≡ false
is_listed-nil c [] h = refl
is_listed-nil c (x ∷ xs) h = absurd (ground arith)

pub under-left_of :
    (id c : Bytes) (o : Option ClientIdList)
    → ((lst : ClientIdList) → o ≡ some lst → IsClients lst)
    → under (left_of id o) c ≡ (under o c && not (bytes_eq id c))
unfolding remove_client_id
under-left_of id c none h = refl
under-left_of id c (some lst) h = ground (
  arith,
  listed-remove_first id c lst.client_ids (h lst refl).distinct,
  is_listed-nil c (remove_first id lst.client_ids),
)

pub lookup-remove_value :
    (value id v : Bytes) (m : Assoc ClientIdList)
    → lookup v (remove_value value id m)
      ≡ (if bytes_eq value v then left_of id (lookup v m) else lookup v m)
unfolding remove_value
lookup-remove_value value id v m = elim (Option-cases (lookup value m)) [
  | inl e ↦ ground (arith, e, bytes_eq_iff value v)
  | inr (lst, e) ↦ ground (
    arith,
    e,
    bytes_eq_iff value v,
    lookup-insert value v (remove_client_id lst id) m,
    lookup-delete value v m,
  )
]

pub lookup-leave_others :
    (value id v : Bytes) (m : Assoc ClientIdList)
    → lookup v (leave_others value id m)
      ≡ (if bytes_eq value v then lookup v m else left_of id (lookup v m))
unfolding leave_others lookup
lookup-leave_others value id v [] = ground arith
lookup-leave_others value id v ((w, lst) ∷ m) = ground (
  arith,
  lookup-leave_others value id v m,
  lookup-delete w v (leave_others value id m),
  bytes_eq_iff w value,
  bytes_eq_iff w v,
  bytes_eq_iff value v,
)

IsClients-remove :
    (id : Bytes) (lst : ClientIdList)
    → IsClients lst
    → (length (remove_client_id lst id).client_ids == 0) ≡ false
    → IsClients (remove_client_id lst id)
unfolding remove_client_id
IsClients-remove id lst v h = record {
  distinct = NoDup-remove_first id lst.client_ids v.distinct;
  total = refl;
  inhabited = h;
}

pub AllClients-remove_value :
    (value id : Bytes) (m : Assoc ClientIdList)
    → AllClients m
    → AllClients (remove_value value id m)
unfolding remove_value
AllClients-remove_value value id m k = elim (Option-cases (lookup value m)) [
  | inl e ↦ rw (e, remove_value) k
  | inr (lst, e) ↦ elim (Bool-cases (length (remove_client_id lst id).client_ids == 0)) [
    | inl f ↦ rw (e, remove_value) (rw f (AllClients-delete value m k))
    | inr f ↦
        rw (e, remove_value)
          (rw f (
            AllClients-insert value (remove_client_id lst id) m
              (IsClients-remove id lst (AllClients-lookup value lst m k e) f) k))
  ]
]

pub AllClients-leave_others :
    (value id : Bytes) (m : Assoc ClientIdList)
    → AllClients m
    → AllClients (leave_others value id m)
unfolding leave_others
AllClients-leave_others value id [] k = tt
AllClients-leave_others value id ((w, lst) ∷ m) k = elim (Bool-cases (bytes_eq w value)) [
  | inl e ↦ rw e (k.0, AllClients-leave_others value id m k.1)
  | inr e ↦ elim (Bool-cases (length (remove_client_id lst id).client_ids == 0)) [
    | inl f ↦
        rw (e, f)
          (AllClients-delete w (leave_others value id m) (AllClients-leave_others value id m k.1))
    | inr f ↦ rw (e, f) (IsClients-remove id lst k.0 f, AllClients-leave_others value id m k.1)
  ]
]

listed-add :
    (lst : ClientIdList) (id c : Bytes)
    → is_listed c (add_client_id lst id).client_ids ≡ (is_listed c lst.client_ids || bytes_eq id c)
unfolding add_client_id
listed-add lst id c =
    ground (arith, any-append (λ x. bytes_eq x c) lst.client_ids (id ∷ []), bytes_eq_iff id c)

-- Where a value's clients stand after one was added.
pub under-add_value :
    (value id v c : Bytes) (m : Assoc ClientIdList)
    → holds (add_value value id m) v c ≡ (holds m v c || (bytes_eq value v && bytes_eq id c))
unfolding add_value
under-add_value value id v c m = ground (
  arith,
  lookup-insert value v (add_client_id (or_no_clients (lookup value m)) id) m,
  listed-add (or_no_clients (lookup value m)) id c,
  bytes_eq_iff value v,
)

distinct_of :
    (o : Option ClientIdList)
    → ((lst : ClientIdList) → o ≡ some lst → IsClients lst)
    → NoDup (or_no_clients o).client_ids
distinct_of none h = tt
distinct_of (some lst) h = (h lst refl).distinct

length-cons : (id : Bytes) (ids : List Bytes) → (length (ids ++ id ∷ []) == 0) ≡ false
length-cons id [] = refl
length-cons id (x ∷ xs) = ground arith

inhabited-listed :
    (id : Bytes) (ids : List Bytes) → is_listed id ids ≡ true → (length ids == 0) ≡ false
inhabited-listed id [] h = absurd (ground arith)
inhabited-listed id (x ∷ xs) h = ground arith

IsClients-add :
    (lst : ClientIdList) (id : Bytes) → NoDup lst.client_ids → IsClients (add_client_id lst id)
unfolding add_client_id
IsClients-add lst id d = elim (Bool-cases (is_listed id lst.client_ids)) [
  | inl e ↦
      rw e (record { distinct = d; total = refl; inhabited = inhabited-listed id lst.client_ids e })
  | inr e ↦ rw e (record {
    distinct = NoDup-snoc id lst.client_ids d e;
    total = refl;
    inhabited = length-cons id lst.client_ids;
  })
]

pub AllClients-add_value :
    (value id : Bytes) (m : Assoc ClientIdList) → AllClients m → AllClients (add_value value id m)
unfolding add_value
AllClients-add_value value id m k =
    AllClients-insert value (add_client_id (or_no_clients (lookup value m)) id) m
      (IsClients-add (or_no_clients (lookup value m)) id
        (distinct_of (lookup value m) (λ lst e. AllClients-lookup value lst m k e)))
      k
