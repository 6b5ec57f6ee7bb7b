-- ===== src/Core/Channel/Heap.antt =====
-- internal/core/channel.go: the linked list as a list of messages, and one call of Next on it.
use ably_server.Base.{
  ℕ, suc, ◌+◌, ◌≡◌, refl, ap, ◌∙◌, inl, inr, true, false, List, [], ◌∷◌, ◌++◌, append-nil, Option,
  none, some, arith, if◌then◌else◌, Bool-cases, length, length-append, get_elem?,
}
use ably_server.Protocol.{ChannelMessage}
use ably_server.Core.Channel.{
  Entry, Channel, new_entry, modify, has_items, link, append, Wait, received, blocked, follow, next,
}

-- The heap of a list of messages after a sentinel, from address `i` on.
abbrev pub chain : ℕ → Option ChannelMessage → List ChannelMessage → List Entry
chain i cm [] = new_entry cm ∷ []
chain i cm (d ∷ ds) =
    record { cm = cm; notified = true; next = some (i + 1) } ∷ chain (i + 1) (some d) ds

-- The heap holds a sentinel and a list of messages.
pub record IsLinked (c : Channel) (cms : List ChannelMessage) : Type 0 where
  pub sentinel : Option ChannelMessage
  pub heap : c.heap ≡ chain 0 sentinel cms
  pub tail : c.tail ≡ length cms

length-chain :
    (i : ℕ) (s : Option ChannelMessage) (cms : List ChannelMessage)
    → length (chain i s cms) ≡ length cms + 1
length-chain i s [] = refl
length-chain i s (d ∷ ds) = omega (arith, length-chain (i + 1) (some d) ds)

modify-chain :
    (i n : ℕ) (s : Option ChannelMessage) (cms : List ChannelMessage) (cm : ChannelMessage)
    → n ≡ i + length cms + 1
    → modify (λ e. record e { notified = true; next = some n }) (length cms) (chain i s cms)
        ++ new_entry (some cm) ∷ []
      ≡ chain i s (cms ++ cm ∷ [])
modify-chain i n s [] cm h =
    let e : n ≡ i + 1 = omega arith in
    ap (λ k. record { cm = s; notified = true; next = some k } ∷ new_entry (some cm) ∷ []) e
modify-chain i n s (d ∷ ds) cm h =
    ap (◌∷◌ (record { cm = s; notified = true; next = some (i + 1) }))
      (modify-chain (i + 1) n (some d) ds cm (omega arith))

link-IsLinked :
    (c : Channel) (cms : List ChannelMessage) (cm : ChannelMessage)
    → IsLinked c cms
    → IsLinked (link cm c) (cms ++ cm ∷ [])
unfolding link
link-IsLinked c cms cm v =
    let n : length c.heap ≡ length cms + 1 = ap length v.heap ∙ length-chain 0 v.sentinel cms in
    record {
      sentinel = v.sentinel;
      heap =
          rw (v.tail, v.heap)
            (modify-chain 0 _ v.sentinel cms cm (omega (arith, length-chain 0 v.sentinel cms)));
      tail = omega (arith, n, length-append cms (cm ∷ []));
    }

-- What an append adds.
abbrev pub kept : Option ChannelMessage → List ChannelMessage
kept none = []
kept (some cm) = if has_items cm then cm ∷ [] else []

pub append-IsLinked :
    (c : Channel) (cms : List ChannelMessage) (cm : Option ChannelMessage)
    → IsLinked c cms
    → IsLinked (append cm c) (cms ++ kept cm)
unfolding append
append-IsLinked c cms none v = rw (append-nil cms) v
append-IsLinked c cms (some cm) v = elim (Bool-cases (has_items cm)) [
  | inl e ↦ rw (e, append) (link-IsLinked c cms cm v)
  | inr e ↦ rw (e, append) (rw (append-nil cms) v)
]

-- The entry at a cursor, and the one after it.
get-chain_last :
    (i : ℕ) (s : Option ChannelMessage) (before : List ChannelMessage)
    → (cm : Option ChannelMessage) × (get_elem? (chain i s before) (length before)
        ≡ some (new_entry cm))
get-chain_last i s [] = (s, refl)
get-chain_last i s (d ∷ ds) = get-chain_last (i + 1) (some d) ds

get-chain_inner :
    (i : ℕ) (s : Option ChannelMessage) (before : List ChannelMessage) (d : ChannelMessage)
    (ds : List ChannelMessage)
    → (cm : Option ChannelMessage) × (get_elem? (chain i s (before ++ d ∷ ds)) (length before)
        ≡ some (record { cm = cm; notified = true; next = some (i + length before + 1) }))
get-chain_inner i s [] d ds =
    (s, ap (λ k. some (record { cm = s; notified = true; next = some k })) (omega arith))
get-chain_inner i s (b ∷ before) d ds =
    let (cm, e) = get-chain_inner (i + 1) (some b) before d ds in
    (cm, e ∙ ap (λ k. some (record { cm = cm; notified = true; next = some k })) (omega arith))

get-chain_next :
    (i : ℕ) (s : Option ChannelMessage) (before : List ChannelMessage) (d : ChannelMessage)
    (ds : List ChannelMessage)
    → (e : Entry) × (get_elem? (chain i s (before ++ d ∷ ds)) (suc (length before)) ≡ some e)
      × (e.cm ≡ some d)
get-chain_next i s [] d [] = (_, refl, refl)
get-chain_next i s [] d (x ∷ ds) = (_, refl, refl)
get-chain_next i s (b ∷ before) d ds = get-chain_next (i + 1) (some b) before d ds

-- What Next does at a cursor with messages before and after it.
abbrev pub next_outcome : List ChannelMessage → ℕ → Wait (Option ChannelMessage × ℕ)
next_outcome [] cursor = blocked
next_outcome (d ∷ ds) cursor = received (some d, cursor + 1)

-- A stream between the messages before its cursor and the ones after it.
pub record IsBetween (c : Channel) (cursor : ℕ) (before after : List ChannelMessage) : Type 0 where
  pub linked : IsLinked c (before ++ after)
  pub position : cursor ≡ length before

pub next-blocked :
    (c : Channel) (cursor : ℕ) (before : List ChannelMessage)
    → IsBetween c cursor before []
    → next false false cursor c ≡ blocked
unfolding next
next-blocked c cursor before v =
    let (cm, e) = get-chain_last 0 v.linked.sentinel before in
    let at : get_elem? c.heap cursor ≡ some (new_entry cm) =
      rw (v.position, v.linked.heap, append-nil before) e in
    rw (at, next) refl

pub next-received :
    (c : Channel) (cursor : ℕ) (before : List ChannelMessage) (d : ChannelMessage)
    (ds : List ChannelMessage)
    → IsBetween c cursor before (d ∷ ds)
    → next false false cursor c ≡ received (some d, cursor + 1)
unfolding next follow
next-received c cursor before d ds v =
    let (cm, e) = get-chain_inner 0 v.linked.sentinel before d ds in
    let (e', here, says) = get-chain_next 0 v.linked.sentinel before d ds in
    let at : get_elem? c.heap cursor
        ≡ some (record { cm = cm; notified = true; next = some (length before + 1) }) =
      rw (v.position, v.linked.heap)
        (e ∙ ap (λ k. some (record { cm = cm; notified = true; next = some k })) (omega arith)) in
    let after : get_elem? c.heap (length before + 1) ≡ some e' =
      let count : length before + 1 ≡ suc (length before) = omega arith in
      rw (count, v.linked.heap) here in
    rw (at, next) (rw (after, follow) (rw (v.position, says) refl))
