-- ===== src/Memory/History/Bounds.antt =====
-- internal/storage/memory/memory.go: the rows of the log that `History` walks.
use ably_server.Base.{
  ℕ, zero, suc, ◌≡◌, refl, sym, ap, ◌∙◌, inl, inr, Bool, true, false, not, ◌&&◌, ◌||◌, List, [],
  ◌∷◌, ◌++◌, Bytes, arith, if◌then◌else◌, Bool-cases, length, take, drop, ltb, lex_lt, lex_lt_trans,
}
use ably_server.Serial.{timestamp_bounds}
use ably_server.Storage.{is_blank}
use ably_server.Storage.Pages.{HistoryQuery}
use ably_server.Memory.Invariant.{Above, Sorted}
use ably_server.Memory.History.{search_strings, lower_index, upper_index}

-- The serials of a list that pass a test.
abbrev pub filtered : (Bytes → Bool) → List Bytes → List Bytes
filtered p [] = []
filtered p (s ∷ ss) = let rest = filtered p ss in if p s then s ∷ rest else rest

not_before : (y s x : Bytes) → lex_lt y s ≡ true → lex_lt y x ≡ false → lex_lt s x ≡ false
not_before y s x h e = elim (Bool-cases (lex_lt s x)) [
  | inl before ↦ absurd (ground (arith, lex_lt_trans y s x h before, e))
  | inr after ↦ after
]

double_negation : (b : Bool) → not (not b) ≡ b
double_negation true = refl
double_negation false = refl

and_true : (b : Bool) → b ≡ (b && true)
and_true true = refl
and_true false = refl

not_and : (a b : Bool) → (not a || not b) ≡ not (a && b)
not_and true b = refl
not_and false b = refl

-- A test that fails before an index and holds from it on.
abbrev pub Splits : (Bytes → Bool) → ℕ → List Bytes → Type 0
Splits p n [] = Unit {0}
Splits p zero (s ∷ ss) = (p s ≡ true) × Splits p zero ss
Splits p (suc n) (s ∷ ss) = (p s ≡ false) × Splits p n ss

Splits-same :
    (p r : Bytes → Bool)
    → ((s : Bytes) → p s ≡ r s)
    → (n : ℕ) (ss : List Bytes) → Splits p n ss
    → Splits r n ss
Splits-same p r e n [] h = tt
Splits-same p r e zero (s ∷ ss) h = (sym (e s) ∙ h.0, Splits-same p r e zero ss h.1)
Splits-same p r e (suc n) (s ∷ ss) h = (sym (e s) ∙ h.0, Splits-same p r e n ss h.1)

from_start :
    (p : Bytes → Bool) (x y : Bytes) (ss : List Bytes)
    → Above y ss
    → lex_lt y x ≡ false
    → Splits (λ s. not (lex_lt s x)) 0 ss
from_start p x y [] h e = tt
from_start p x y (s ∷ ss) h e = (ap not (not_before y s x h.0 e), from_start p x y ss h.1 e)

-- What sort.SearchStrings finds.
search_strings-Splits :
    (x : Bytes) (ss : List Bytes)
    → Sorted ss
    → Splits (λ s. not (lex_lt s x)) (search_strings ss x) ss
search_strings-Splits x [] h = tt
search_strings-Splits x (s ∷ ss) h = elim (Bool-cases (lex_lt s x)) [
  | inl before ↦ rw before (ap not before, search_strings-Splits x ss h.1)
  | inr after ↦ rw after (ap not after, from_start (λ t. true) x s ss h.0 after)
]

-- The later of two indexes is that of both tests, the earlier that of one of them.
later-Splits :
    (p r : Bytes → Bool) (a b : ℕ) (ss : List Bytes)
    → Splits p a ss
    → Splits r b ss
    → Splits (λ s. p s && r s) (if ltb a b then b else a) ss
later-Splits p r a b [] h k = tt
later-Splits p r zero zero (s ∷ ss) h k =
    (rw (h.0, k.0) refl, later-Splits p r zero zero ss h.1 k.1)
later-Splits p r zero (suc b) (s ∷ ss) h k =
    let e : (if ltb 0 (suc b) then suc b else 0) ≡ suc (if ltb 0 b then b else 0) = ground arith in
    rw e (rw (h.0, k.0) refl, later-Splits p r zero b ss h.1 k.1)
later-Splits p r (suc a) zero (s ∷ ss) h k =
    let e : (if ltb (suc a) 0 then 0 else suc a) ≡ suc (if ltb a 0 then 0 else a) = ground arith in
    rw e (rw h.0 refl, later-Splits p r a zero ss h.1 k.1)
later-Splits p r (suc a) (suc b) (s ∷ ss) h k =
    let e : (if ltb (suc a) (suc b) then suc b else suc a) ≡ suc (if ltb a b then b else a) =
      ground arith in
    rw e (rw h.0 refl, later-Splits p r a b ss h.1 k.1)

earlier-Splits :
    (p r : Bytes → Bool) (a b : ℕ) (ss : List Bytes)
    → Splits p a ss
    → Splits r b ss
    → Splits (λ s. p s || r s) (if ltb b a then b else a) ss
earlier-Splits p r a b [] h k = tt
earlier-Splits p r zero zero (s ∷ ss) h k = (rw h.0 refl, earlier-Splits p r zero zero ss h.1 k.1)
earlier-Splits p r zero (suc b) (s ∷ ss) h k =
    let e : (if ltb (suc b) 0 then suc b else 0) ≡ 0 = ground arith in
    let f : (if ltb b 0 then b else 0) ≡ 0 = ground arith in
    rw e (rw h.0 refl, rw f at (earlier-Splits p r zero b ss h.1 k.1))
earlier-Splits p r (suc a) zero (s ∷ ss) h k =
    let e : (if ltb 0 (suc a) then 0 else suc a) ≡ 0 = ground arith in
    let f : (if ltb 0 a then 0 else a) ≡ 0 = ground arith in
    rw e (rw (h.0, k.0) refl, rw f at (earlier-Splits p r a zero ss h.1 k.1))
earlier-Splits p r (suc a) (suc b) (s ∷ ss) h k =
    let e : (if ltb (suc b) (suc a) then suc b else suc a) ≡ suc (if ltb b a then b else a) =
      ground arith in
    rw e (rw (h.0, k.0) refl, earlier-Splits p r a b ss h.1 k.1)

nothing :
    (l u : Bytes → Bool) (ss : List Bytes)
    → Splits (λ s. not (u s)) 0 ss
    → filtered (λ s. l s && u s) ss ≡ []
nothing l u [] h = refl
nothing l u (s ∷ ss) h = ground (arith, h.0, nothing l u ss h.1)

-- The part of a list between two indexes.
slice-filtered :
    (l u : Bytes → Bool) (a b : ℕ) (ss : List Bytes)
    → Splits l a ss
    → Splits (λ s. not (u s)) b ss
    → drop a (take b ss) ≡ filtered (λ s. l s && u s) ss
slice-filtered l u zero zero ss h k = sym (nothing l u ss k)
slice-filtered l u (suc a) zero ss h k = sym (nothing l u ss k)
slice-filtered l u zero (suc b) [] h k = refl
slice-filtered l u (suc a) (suc b) [] h k = refl
slice-filtered l u zero (suc b) (s ∷ ss) h k =
    let e : u s ≡ true = ground (arith, k.0) in
    rw (h.0, e) (ap (◌∷◌ s) (slice-filtered l u zero b ss h.1 k.1))
slice-filtered l u (suc a) (suc b) (s ∷ ss) h k = rw h.0 (slice-filtered l u a b ss h.1 k.1)

lex_lt-successor : (a s : Bytes) → lex_lt s (a ++ 0 ∷ []) ≡ not (lex_lt a s)
unfolding lex_lt
lex_lt-successor [] [] = refl
lex_lt-successor [] (x ∷ s) = ground arith
lex_lt-successor (x ∷ a) [] = refl
lex_lt-successor (x ∷ a) (y ∷ s) = ground (arith, lex_lt-successor a s)

-- Whether a row of the log is in the time bounds of a query and after and up to its serials.
unfoldable pub is_between : HistoryQuery → Bytes → Bool
is_between q s =
    ((is_blank (timestamp_bounds q.start q.end).0
        || not (lex_lt s (timestamp_bounds q.start q.end).0))
      && (is_blank q.after_channel_serial || lex_lt q.after_channel_serial s))
    && ((is_blank (timestamp_bounds q.start q.end).1 || lex_lt s (timestamp_bounds q.start q.end).1)
        && (is_blank q.end_channel_serial || not (lex_lt q.end_channel_serial s)))

all_split : (p : Bytes → Bool) (ss : List Bytes) → ((s : Bytes) → p s ≡ true) → Splits p 0 ss
all_split p [] h = tt
all_split p (s ∷ ss) h = (h s, all_split p ss h)

none_split :
    (p : Bytes → Bool) (ss : List Bytes) → ((s : Bytes) → p s ≡ false) → Splits p (length ss) ss
none_split p [] h = tt
none_split p (s ∷ ss) h = (h s, none_split p ss h)

-- Two bounds, of which each may be missing.
lower_of :
    (b c : Bool) (p r : Bytes → Bool) (i j : ℕ) (ss : List Bytes)
    → Splits p i ss
    → Splits r j ss
    → Splits
        (λ s. (b || p s) && (c || r s))
        (if c
          then (if b then 0 else i)
          else if ltb (if b then 0 else i) j
          then j
          else (if b then 0 else i))
        ss
lower_of true true p r i j ss h k = all_split _ ss (λ s. refl)
lower_of true false p r i j ss h k =
    later-Splits (λ s. true) r 0 j ss (all_split _ ss (λ s. refl)) k
lower_of false true p r i j ss h k = Splits-same p _ (λ s. and_true (p s)) i ss h
lower_of false false p r i j ss h k = later-Splits p r i j ss h k

upper_of :
    (b c : Bool) (p r : Bytes → Bool) (i j : ℕ) (ss : List Bytes)
    → Splits (λ s. not (p s)) i ss
    → Splits (λ s. not (r s)) j ss
    → Splits
        (λ s. not ((b || p s) && (c || r s)))
        (if c
          then (if b then length ss else i)
          else if ltb j (if b then length ss else i)
          then j
          else (if b then length ss else i))
        ss
upper_of true true p r i j ss h k = none_split _ ss (λ s. refl)
upper_of true false p r i j ss h k =
    earlier-Splits (λ s. false) _ (length ss) j ss (none_split _ ss (λ s. refl)) k
upper_of false true p r i j ss h k = Splits-same _ _ (λ s. ap not (and_true (p s))) i ss h
upper_of false false p r i j ss h k =
    Splits-same _ _ (λ s. not_and (p s) (r s)) _ ss (earlier-Splits _ _ i j ss h k)

module _ (q : HistoryQuery) (order : List Bytes) (sorted : Sorted order) where
  -- The successor of a serial is what adds a byte 0 to it.
  successor-Splits : (a : Bytes) → Splits (lex_lt a) (search_strings order (a ++ 0 ∷ [])) order
  successor-Splits a =
      Splits-same _ (lex_lt a) (λ s. rw (lex_lt-successor a s) (double_negation (lex_lt a s))) _
        order (search_strings-Splits (a ++ 0 ∷ []) order sorted)

  lower_index-Splits :
      Splits
        (λ s.
          (is_blank (timestamp_bounds q.start q.end).0
            || not (lex_lt s (timestamp_bounds q.start q.end).0))
          && (is_blank q.after_channel_serial || lex_lt q.after_channel_serial s))
        (lower_index q order)
        order
  unfolding lower_index
  lower_index-Splits =
      lower_of (is_blank (timestamp_bounds q.start q.end).0) (is_blank q.after_channel_serial) _
        (lex_lt q.after_channel_serial) _ _ order
        (search_strings-Splits (timestamp_bounds q.start q.end).0 order sorted)
        (successor-Splits q.after_channel_serial)

  upper_index-Splits :
      Splits
        (λ s. not (
          (is_blank (timestamp_bounds q.start q.end).1
            || lex_lt s (timestamp_bounds q.start q.end).1)
          && (is_blank q.end_channel_serial || not (lex_lt q.end_channel_serial s))))
        (upper_index q order)
        order
  unfolding upper_index
  upper_index-Splits =
      upper_of (is_blank (timestamp_bounds q.start q.end).1) (is_blank q.end_channel_serial)
        (λ s. lex_lt s (timestamp_bounds q.start q.end).1)
        (λ s. not (lex_lt q.end_channel_serial s)) _ _ order
        (search_strings-Splits (timestamp_bounds q.start q.end).1 order sorted)
        (Splits-same _ _ (λ s. sym (double_negation (lex_lt q.end_channel_serial s))) _ order
          (successor-Splits q.end_channel_serial))

  -- The rows that the two searches single out are those between the bounds of the query.
  pub slice-is_between :
      drop (lower_index q order) (take (upper_index q order) order) ≡ filtered (is_between q) order
  unfolding is_between
  slice-is_between =
      slice-filtered _ _ (lower_index q order) (upper_index q order) order lower_index-Splits
        upper_index-Splits
