-- ===== src/Core/Channel.antt =====
-- internal/core/channel.go: the live list of a channel and the streams that follow it.
-- The entries are a heap: a pointer is an index, and a new entry stands at the end. A closed
-- `notify` is `notified`. Append and Initialize run under the mutex and are one step each. The calls
-- that only pass on to the store are left out.
pub mod Heap
pub mod Delivery
mod Tests
use ably_server.Base.{
  ℕ, zero, suc, Bool, true, false, not, ◌&&◌, ◌==◌, List, [], ◌∷◌, ◌++◌, Option, none, some, Bytes,
  if◌then◌else◌, length, get_elem?,
}
use ably_server.Protocol.{ChannelMessage}

pub record Entry : Type 0 where
  pub cm : Option ChannelMessage
  pub notified : Bool
  pub next : Option ℕ

pub record Channel : Type 0 where
  pub name : Bytes
  pub ready : Bool
  pub initial_serial : Bytes
  pub heap : List Entry
  pub tail : ℕ

abbrev pub new_entry : Option ChannelMessage → Entry
new_entry cm = record { cm = cm; notified = false; next = none }

unfoldable pub new_channel : Bytes → Channel
new_channel name = record {
  name = name;
  ready = false;
  initial_serial = [];
  heap = new_entry none ∷ [];
  tail = 0;
}

-- A write through a pointer.
abbrev pub modify : (Entry → Entry) → ℕ → List Entry → List Entry
modify f i [] = []
modify f zero (e ∷ es) = f e ∷ es
modify f (suc i) (e ∷ es) = e ∷ modify f i es

abbrev pub watermark : Bytes → ChannelMessage
watermark current = record {
  id = [];
  channel_serial = current;
  messages = [];
  presence = [];
  annotations = [];
}

unfoldable pub initialize : Bytes → Bytes → Channel → Channel
initialize current initial c = if c.ready then c else record c {
  ready = true;
  initial_serial = initial;
  heap = modify (λ e. record e { cm = some (watermark current) }) c.tail c.heap;
}

-- Whether a message carries items.
unfoldable pub has_items : ChannelMessage → Bool
has_items cm =
    not (length cm.messages == 0 && length cm.presence == 0 && length cm.annotations == 0)

-- tail.next = e, close(tail.notify), tail = e
link : ChannelMessage → Channel → Channel
link cm c = record c {
  heap =
      modify (λ e. record e { notified = true; next = some (length c.heap) }) c.tail c.heap
      ++ new_entry (some cm) ∷ [];
  tail = length c.heap;
}

-- `none` is a nil message.
unfoldable pub append : Option ChannelMessage → Channel → Channel
unfolding link
append none c = c
append (some cm) c = if has_items cm then link cm c else c

-- A `select` on a channel and the end of the context: the first case, the second, neither yet, or a
-- nil pointer followed.
pub data Wait (A : Type 0) : Type 0 where
  received : A → Wait A
  cancelled blocked crashed : Wait A

-- `prefers_done` is the choice of a `select` of which both cases are ready.
abbrev pub select : {A : Type 0} → (done prefers_done is_ready : Bool) → Wait A → Wait A
select done prefers_done is_ready taken =
    if is_ready && not (done && prefers_done) then taken else if done then cancelled else blocked

-- The stream that Attach returns, given by its cursor.
unfoldable pub attach : (done prefers_done : Bool) → Channel → Wait ℕ
attach done prefers_done c = select done prefers_done c.ready (received c.tail)

-- The cursor moves on, and the message there is returned.
follow : Channel → Option ℕ → Wait (Option ChannelMessage × ℕ)
follow c none = crashed
follow c (some i) = elim (get_elem? c.heap i) [ none ↦ crashed | some e ↦ received (e.cm, i) ]

-- Stream.Next: the message and the new cursor.
unfoldable pub next : (done prefers_done : Bool) → ℕ → Channel → Wait (Option ChannelMessage × ℕ)
unfolding follow
next done prefers_done cursor c = elim (get_elem? c.heap cursor) [
  | none ↦ crashed
  | some e ↦ select done prefers_done e.notified (follow c e.next)
]

-- Stream.ChannelSerial; `none` is a nil pointer followed.
unfoldable pub channel_serial_at : ℕ → Channel → Option Bytes
channel_serial_at cursor c = elim (get_elem? c.heap cursor) [
  | none ↦ none
  | some e ↦ elim e.cm [ none ↦ none | some cm ↦ some cm.channel_serial ]
]
