-- ===== src/Realtime/Appends.antt =====
-- internal/realtime/attachment.go: `resolveAppends`, which of a frame's appends go out as deltas. The
-- set of serials that the attachment has seen is a list.
mod Tests
use ably_server.Base.{
  ℕ, zero, suc, ◌≡◌, ◌⊎◌, refl, sym, ap, ◌∙◌, inl, inr, Bool, true, false, not, ◌&&◌, ◌||◌, List,
  [], ◌∷◌, Option, none, some, Bytes, arith, if◌then◌else◌, Bool-cases, any, get_elem?, bytes_eq,
}
use ably_server.Protocol.{Message, Delta, has_append_delta}
use ably_server.Storage.{is_blank}

-- A message as it goes out: a full version or the delta under `Alt`.
pub data Delivered : Type 0 where
  full : Message → Delivered
  delta : Delta → Delivered

abbrev pub is_seen : Bytes → List Bytes → Bool
is_seen s seen = any (λ t. bytes_eq t s) seen

-- Whether an append of the frame is to a message that was not seen before it.
unfoldable pub has_unseen : List Bytes → List Message → Bool
has_unseen seen [] = false
has_unseen seen (m ∷ ms) =
    (has_append_delta m && not (is_blank m.serial) && not (is_seen m.serial seen))
    || has_unseen seen ms

unfoldable pub mark_seen : List Bytes → List Message → List Bytes
mark_seen seen [] = seen
mark_seen seen (m ∷ ms) = mark_seen (if is_blank m.serial then seen else m.serial ∷ seen) ms

abbrev pub strip : Message → Message
strip m = record m { alt = none }

unfoldable pub deliver_one : Bool → Message → Delivered
deliver_one as_deltas m = elim m.alt [
  | none ↦ full m
  | some d ↦ if as_deltas then delta d else full (strip m)
]

unfoldable pub deliver_each : Bool → List Message → List Delivered
deliver_each as_deltas [] = []
deliver_each as_deltas (m ∷ ms) = deliver_one as_deltas m ∷ deliver_each as_deltas ms

-- resolveAppends: what goes out, and the serials seen after it.
unfoldable pub resolve_appends :
    (append_mode_full backlog : Bool) → List Bytes → List Message → List Delivered × List Bytes
resolve_appends append_mode_full backlog seen ms = (
  deliver_each (not backlog && not append_mode_full && not (has_unseen seen ms)) ms,
  mark_seen seen ms,
)

-- What may be said of a message that goes out as a delta.
pub record IsDelta (append_mode_full backlog : Bool) (seen : List Bytes) (m : Message) (d : Delta)
    : Type 0 where
  pub carried : m.alt ≡ some d
  pub live : backlog ≡ false
  pub wanted : append_mode_full ≡ false
  pub known : (is_blank m.serial || is_seen m.serial seen) ≡ true

-- What goes out for a message.
abbrev pub Fits : Bool → Bool → List Bytes → Message → Delivered → Type 0
Fits append_mode_full backlog seen m (full v) = v ≡ strip m
Fits append_mode_full backlog seen m (delta d) = IsDelta append_mode_full backlog seen m d

known_at :
    (seen : List Bytes) (ms : List Message) (i : ℕ) (m : Message)
    → has_unseen seen ms ≡ false
    → get_elem? ms i ≡ some m
    → has_append_delta m ≡ true
    → (is_blank m.serial || is_seen m.serial seen) ≡ true
unfolding has_unseen
known_at seen [] i m h g a = absurd (cc)
known_at seen (x ∷ ms) zero m h g a =
    let same : x ≡ m = ground arith in
    let h' =
      ap (λ y. has_append_delta y && not (is_blank y.serial) && not (is_seen y.serial seen)) same in
    ground (arith, h', h, a)
known_at seen (x ∷ ms) (suc i) m h g a = known_at seen ms i m (ground (arith, h)) g a

each_at :
    (as_deltas : Bool) (ms : List Message) (i : ℕ) (m : Message)
    → get_elem? ms i ≡ some m
    → get_elem? (deliver_each as_deltas ms) i ≡ some (deliver_one as_deltas m)
unfolding deliver_each
each_at as_deltas [] i m g = absurd (cc)
each_at as_deltas (x ∷ ms) zero m g =
    let same : x ≡ m = ground arith in ap (λ y. some (deliver_one as_deltas y)) same
each_at as_deltas (x ∷ ms) (suc i) m g = each_at as_deltas ms i m g

one-Fits :
    (append_mode_full backlog : Bool) (seen : List Bytes) (m : Message) (as_deltas : Bool)
    (o : Option Delta)
    → m.alt ≡ o
    → (as_deltas ≡ true
        → has_append_delta m ≡ true
        → (backlog ≡ false)
          × (append_mode_full ≡ false)
          × ((is_blank m.serial || is_seen m.serial seen) ≡ true))
    → Fits append_mode_full backlog seen m (deliver_one as_deltas m)
unfolding deliver_one has_append_delta
one-Fits append_mode_full backlog seen m as_deltas none e h =
    rw (e, deliver_one) (ap (λ o. record m { alt = o }) e)
one-Fits append_mode_full backlog seen m false (some d) e h = rw (e, deliver_one) refl
one-Fits append_mode_full backlog seen m true (some d) e h =
    let (l, w, k) = h refl (rw (e, has_append_delta) refl) in
    rw (e, deliver_one) (record { carried = refl; live = l; wanted = w; known = k })

-- Every message of a frame goes out at its place, as a full version without the internal delta, or
-- as its delta; a delta goes out only live, to a subscriber that did not ask for full versions, and
-- for a message whose serial was seen before the frame or is empty.
pub resolve_appends-Fits :
    (append_mode_full backlog : Bool) (seen : List Bytes) (ms : List Message) (i : ℕ) (m : Message)
    → get_elem? ms i ≡ some m
    → (v : Delivered) × (get_elem? (resolve_appends append_mode_full backlog seen ms).0 i ≡ some v)
      × Fits append_mode_full backlog seen m v
unfolding resolve_appends
resolve_appends-Fits append_mode_full backlog seen ms i m g =
    let as_deltas : Bool = not backlog && not append_mode_full && not (has_unseen seen ms) in
    (
      deliver_one as_deltas m,
      each_at as_deltas ms i m g,
      one-Fits append_mode_full backlog seen m as_deltas m.alt refl
          (λ yes a. (ground arith, ground arith, known_at seen ms i m (ground arith) g a)),
    )
