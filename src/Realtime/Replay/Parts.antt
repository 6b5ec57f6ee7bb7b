-- ===== src/Realtime/Replay/Parts.antt =====
-- internal/realtime/attachment.go: what was missed within a backwards read.
use ably_server.Base.{
  ℕ, zero, suc, ◌≤◌, ◌<◌, ◌≡◌, refl, sym, ap, ◌∙◌, inl, inr, Bool, true, false, not, ◌&&◌, ◌||◌,
  List, [], ◌∷◌, ◌++◌, Bytes, arith, Bool-cases, lex_lt, bytes_eq, length, take, Assoc,
}
use mathlib.Core.Path.{subst}
use ably_server.Serial.{timestamp_bounds}
use ably_server.Protocol.{ChannelMessage}
use ably_server.Storage.{is_blank}
use ably_server.Storage.Pages.{Kind, kind_message, reversed}
use ably_server.Memory.{ChannelStore}
use ably_server.Memory.Invariant.{Stored, IsConsistent}
use ably_server.Memory.History.{Item, tagged, cm_items, row_items}
use ably_server.Memory.History.Bounds.{filtered, is_between}
use ably_server.Memory.History.Reading.{found, wanted, Stored-filtered}
use ably_server.Realtime.Replay.{backwards_query}
use ably_server.Realtime.Replay.Pages.{Tagged, reversed-append, past_prefix, any_behind}
use ably_server.Realtime.Replay.Gaps.{
  gap_query, missed, behind, filtered_same, filtered-filtered, Sorted-split, Sorted-filtered,
  found-append, row_items-append, row_items-reversed, no_cursor,
}

-- All items are under serials that pass a test.
abbrev pub AllUnder : (Bytes → Bool) → Tagged → Type 0
AllUnder p [] = Unit {0}
AllUnder p ((t, it) ∷ rest) = (p t ≡ true) × AllUnder p rest

AllUnder-append :
    (p : Bytes → Bool) (a b : Tagged) → AllUnder p a → AllUnder p b → AllUnder p (a ++ b)
AllUnder-append p [] b h k = k
AllUnder-append p ((t, it) ∷ a) b h k = (h.0, AllUnder-append p a b h.1 k)

AllUnder-reversed : (p : Bytes → Bool) (a : Tagged) → AllUnder p a → AllUnder p (reversed a)
AllUnder-reversed p [] h = tt
AllUnder-reversed p ((t, it) ∷ a) h =
    AllUnder-append p (reversed a) ((t, it) ∷ []) (AllUnder-reversed p a h.1) (h.0, tt)

AllUnder-tagged :
    (p : Bytes → Bool) (t : Bytes) (items : List Item) → p t ≡ true → AllUnder p (tagged t items)
AllUnder-tagged p t [] h = tt
AllUnder-tagged p t (it ∷ items) h = (h, AllUnder-tagged p t items h)

-- The rows of the serials that pass a test have their items under such serials.
rows_under :
    (p : Bytes → Bool) (kind : Kind) (m : Assoc ChannelMessage) (ss : List Bytes)
    → Stored m ss
    → AllUnder p (row_items true kind (found (filtered p ss) m))
rows_under p kind m [] h = tt
rows_under p kind m (s ∷ ss) h =
    let (cm, e, same) = h.0 in
    elim (Bool-cases (p s)) [
      | inr left ↦ rw left (rows_under p kind m ss h.1)
      | inl kept ↦ rw kept (
          rw (e, found)
            (AllUnder-append p (tagged cm.channel_serial (cm_items kind cm))
              (row_items true kind (found (filtered p ss) m))
              (AllUnder-tagged p cm.channel_serial (cm_items kind cm) (ap p same ∙ kept))
              (rows_under p kind m ss h.1)))
    ]

-- A list of which a first part is past a serial and the rest behind it.
pub prefix_of :
    (s : Bytes) (a b : Tagged)
    → AllUnder (lex_lt s) a
    → AllUnder (behind s) b
    → past_prefix s (a ++ b) ≡ a
prefix_of s [] [] h k = refl
prefix_of s [] ((t, it) ∷ b) h k = ground (arith, k.0)
prefix_of s ((t, it) ∷ a) b h k = rw h.0 (ap (◌∷◌ (t, it)) (prefix_of s a b h.1 k))

pub prefix_of_take :
    (s : Bytes) (n : ℕ) (xs : Tagged)
    → any_behind s (take n xs) ≡ true
    → past_prefix s (take n xs) ≡ past_prefix s xs
prefix_of_take s zero xs h = absurd (ground (arith, h))
prefix_of_take s (suc n) [] h = refl
prefix_of_take s (suc n) ((t, it) ∷ xs) h = elim (Bool-cases (lex_lt s t)) [
  | inl past ↦ rw past (ap (◌∷◌ (t, it)) (prefix_of_take s n xs (ground (arith, h, past))))
  | inr not_past ↦ rw not_past refl
]

-- Where nothing behind is among the first items, and there is room, nothing is behind.
pub none_behind :
    (s : Bytes) (n : ℕ) (a b : Tagged)
    → AllUnder (behind s) b
    → any_behind s (take n (a ++ b)) ≡ false
    → length a < n
    → b ≡ []
none_behind s zero a b k h l = absurd (omega arith)
none_behind s (suc n) [] [] k h l = refl
none_behind s (suc n) [] ((t, it) ∷ b) k h l = absurd (ground (arith, k.0, h))
none_behind s (suc n) ((t, it) ∷ a) b k h l =
    none_behind s n a b k (ground (arith, h)) (omega arith)

pub take_short : (n : ℕ) (xs : Tagged) → length xs ≤ n → take n xs ≡ xs
take_short zero [] h = refl
take_short zero (x ∷ xs) h = absurd (omega arith)
take_short (suc n) [] h = refl
take_short (suc n) (x ∷ xs) h = ap (◌∷◌ x) (take_short n xs (omega arith))

pub take_within : (n : ℕ) (a b : Tagged) → n ≤ length a → take n (a ++ b) ≡ take n a
take_within zero a b h = refl
take_within (suc n) [] b h = absurd (omega arith)
take_within (suc n) (x ∷ a) b h = ap (◌∷◌ x) (take_within n a b (omega arith))

-- What a backwards read up to the anchor wants is what the client has missed and then the rest,
-- newest first.
pub record IsSplit (resume_from anchor : Bytes) (n : ℕ) (cs : ChannelStore) : Type 0 where
  pub older : Tagged
  pub old : AllUnder (behind resume_from) older
  pub new : AllUnder (lex_lt resume_from) (reversed (missed resume_from anchor cs))
  pub parts :
      wanted (backwards_query 0 anchor n) cs ≡ reversed (missed resume_from anchor cs) ++ older

shuffled : (a b c : Bool) → ((a && (false || b)) && c) ≡ (((a && (true || false)) && c) && b)
shuffled true true true = refl
shuffled true true false = refl
shuffled true false true = refl
shuffled true false false = refl
shuffled false b c = refl

between-gap :
    (resume_from anchor t : Bytes) (n : ℕ)
    → is_blank resume_from ≡ false
    → is_between (gap_query resume_from anchor) t
      ≡ (is_between (backwards_query 0 anchor n) t && lex_lt resume_from t)
unfolding is_between bytes_eq
between-gap resume_from anchor t n h = rw h (
    shuffled (is_blank lower || not (lex_lt t lower)) (lex_lt resume_from t)
      ((is_blank upper || lex_lt t upper) && (is_blank anchor || not (lex_lt anchor t))))
  where
    lower : Bytes
    lower = (timestamp_bounds 0 0).0

    upper : Bytes
    upper = (timestamp_bounds 0 0).1

pub wanted-IsSplit :
    (resume_from anchor : Bytes) (n : ℕ) (cs : ChannelStore)
    → IsConsistent cs
    → is_blank resume_from ≡ false
    → IsSplit resume_from anchor n cs
wanted-IsSplit resume_from anchor n cs v h =
    let q = backwards_query 0 anchor n in
    let log = filtered (is_between q) cs.order in
    let stored = Stored-filtered cs.by_cs (is_between q) cs.order v.stored in
    let items = λ (ss : List Bytes). row_items true kind_message (found ss cs.by_cs) in
    let after : missed resume_from anchor cs ≡ items (filtered (lex_lt resume_from) log) =
      no_cursor (gap_query resume_from anchor) _ refl
      ∙ ap items (
          filtered_same _ _ cs.order (λ t. between-gap resume_from anchor t n h)
          ∙ sym (filtered-filtered (is_between q) (lex_lt resume_from) cs.order)) in
    let both : items log
        ≡ items (filtered (behind resume_from) log) ++ items (filtered (lex_lt resume_from) log) =
      ap items (Sorted-split resume_from log (Sorted-filtered (is_between q) cs.order v.sorted))
      ∙ ap (row_items true kind_message) (
          found-append (filtered (behind resume_from) log) (filtered (lex_lt resume_from) log)
            cs.by_cs)
      ∙ row_items-append kind_message (found (filtered (behind resume_from) log) cs.by_cs)
          (found (filtered (lex_lt resume_from) log) cs.by_cs) in
    record {
      older = reversed (items (filtered (behind resume_from) log));
      old =
          AllUnder-reversed (behind resume_from) _
            (rows_under (behind resume_from) kind_message cs.by_cs log stored);
      new =
          subst (λ xs. AllUnder (lex_lt resume_from) (reversed xs)) (sym after)
            (AllUnder-reversed (lex_lt resume_from) _
              (rows_under (lex_lt resume_from) kind_message cs.by_cs log stored));
      parts =
          no_cursor q _ refl
          ∙ row_items-reversed kind_message (found log cs.by_cs)
          ∙ ap reversed both
          ∙ reversed-append (items (filtered (behind resume_from) log))
              (items (filtered (lex_lt resume_from) log))
          ∙ ap (λ xs. reversed xs ++ reversed (items (filtered (behind resume_from) log)))
              (sym after);
    }
