-- ===== src/Storage/MessageIds.antt =====
-- internal/storage/storage.go: the ids that a publish is stamped with.
use ably_server.Base.{
  ℕ, zero, suc, ◌+◌, ◌≡◌, refl, ap, ◌∙◌, inl, inr, Bool, true, false, List, [], ◌∷◌, ◌++◌, some,
  Bytes, arith, Bool-cases, Option-cases, bytes_eq, bytes_eq_iff, bytes_eq_refl, cut_suffix,
  itoa_digit, text, Result, ok, err, ◌>>=◌, get_elem?,
}
use ably_server.Protocol.{Message}
use ably_server.Storage.{
  StorageError, scan_ids, indexed_id, check_ids, base_of_batch, message_base_id, stamp_ids,
  stamp_missing, stamp_message_ids,
}

cut_suffix-eq-some : (s t p : Bytes) → cut_suffix s t ≡ some p → s ≡ p ++ t
unfolding cut_suffix
cut_suffix-eq-some [] t p h = ground (arith, bytes_eq_iff [] t)
cut_suffix-eq-some (x ∷ s) t p h = elim (Bool-cases (bytes_eq (x ∷ s) t)) [
  | inl whole ↦ ground (arith, bytes_eq_iff (x ∷ s) t)
  | inr part ↦ elim (Option-cases (cut_suffix s t)) [
    | inl e ↦ ground arith
    | inr (q, e) ↦ ground (arith, cut_suffix-eq-some s t q e)
  ]
]

check_ids-stamp_ids :
    (base : Bytes) (i : ℕ) (ms : List Message) → check_ids base i (stamp_ids base i ms) ≡ true
unfolding check_ids stamp_ids
check_ids-stamp_ids base i [] = refl
check_ids-stamp_ids base i (m ∷ ms) =
    ground (arith, bytes_eq_refl (indexed_id base i), check_ids-stamp_ids base (i + 1) ms)

zero_id : (base : Bytes) → base ++ text ":0" ≡ indexed_id base 0
zero_id base = rw (itoa_digit 0 (omega arith))

supplied :
    (id0 : Bytes) (rest : List Message) (has_id : Bool) (base : Bytes)
    → base_of_batch id0 rest has_id ≡ ok (base, true)
    → (id0 ≡ indexed_id base 0) × (check_ids base 1 rest ≡ true)
unfolding base_of_batch
supplied id0 rest false base h = ground arith
supplied id0 rest true base h = elim (Option-cases (cut_suffix id0 (text ":0"))) [
  | inl e ↦ absurd (ground (arith, e))
  | inr (p, e) ↦
      let f : id0 ≡ p ++ text ":0" = cut_suffix-eq-some id0 (text ":0") p e in
      let g : p ≡ base = ground (arith, e) in
      let k : check_ids p 1 rest ≡ true = ground (arith, e) in rw (← g) (f ∙ zero_id p, k)
]

checked :
    (base : Bytes) (m : Message) (ms : List Message)
    → m.id ≡ indexed_id base 0
    → check_ids base 1 ms ≡ true
    → check_ids base 0 (m ∷ ms) ≡ true
unfolding check_ids
checked base m ms h k = ground (arith, bytes_eq_iff m.id (indexed_id base 0))

stamped_by :
    (fresh : Bytes) (m n : Message) (ms : List Message) (has_id : Bool)
    (r : Result StorageError (Bytes × Bool))
    → base_of_batch m.id (n ∷ ms) has_id ≡ r
    → (base : Bytes) (out : List Message)
    → (r >>= stamp_missing fresh (m ∷ n ∷ ms)) ≡ ok (base, out)
    → check_ids base 0 out ≡ true
unfolding stamp_missing
stamped_by fresh m n ms has_id (err e) eq base out h = ground arith
stamped_by fresh m n ms has_id (ok (b, false)) eq base out h =
    let same : stamp_ids fresh 0 (m ∷ n ∷ ms) ≡ out = ground arith in
    let key : fresh ≡ base = ground arith in
    rw (← same, ← key) (check_ids-stamp_ids fresh 0 (m ∷ n ∷ ms))
stamped_by fresh m n ms has_id (ok (b, true)) eq base out h =
    let same : m ∷ n ∷ ms ≡ out = ground arith in
    let key : b ≡ base = ground arith in
    let (first, rest) = supplied m.id (n ∷ ms) has_id b eq in
    rw (← same, ← key) (checked b m (n ∷ ms) first rest)

stamped :
    (fresh : Bytes) (m n : Message) (ms : List Message) (scan : Result StorageError Bool)
    (base : Bytes) (out : List Message)
    → (scan >>= base_of_batch m.id (n ∷ ms) >>= stamp_missing fresh (m ∷ n ∷ ms)) ≡ ok (base, out)
    → check_ids base 0 out ≡ true
stamped fresh m n ms (err e) base out h = ground arith
stamped fresh m n ms (ok has_id) base out h =
    stamped_by fresh m n ms has_id (base_of_batch m.id (n ∷ ms) has_id) refl base out h

id_at :
    (base : Bytes) (k i : ℕ) (ms : List Message) (m : Message)
    → check_ids base k ms ≡ true
    → get_elem? ms i ≡ some m
    → m.id ≡ indexed_id base (k + i)
unfolding check_ids
id_at base k i [] m h e = ground arith
id_at base k zero (x ∷ ms) m h e =
    let f : k + 0 ≡ k = omega arith in rw f (ground (arith, bytes_eq_iff x.id (indexed_id base k)))
id_at base k (suc i) (x ∷ ms) m h e =
    let f : k + suc i ≡ k + 1 + i = omega arith in rw f (id_at base (k + 1) i ms m (ground arith) e)

-- In an accepted publish of two messages or more, message i of the result has the id "<base>:<i>",
-- whether the client supplied the ids or none did.
id-stamp_message_ids :
    (fresh : Bytes) (m n : Message) (ms : List Message) (base : Bytes) (out : List Message) (i : ℕ)
    (x : Message)
    → stamp_message_ids fresh (m ∷ n ∷ ms) ≡ ok (base, out)
    → get_elem? out i ≡ some x
    → x.id ≡ indexed_id base i
unfolding stamp_message_ids message_base_id
id-stamp_message_ids fresh m n ms base out i x h e =
    id_at base 0 i out x (stamped fresh m n ms (scan_ids false (m ∷ n ∷ ms)) base out h) e
    ∙ ap (indexed_id base) (omega arith)
