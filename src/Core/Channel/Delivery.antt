-- ===== src/Core/Channel/Delivery.antt =====
-- internal/core/channel.go: what a stream delivers.
use ably_server.Base.{
  ℕ, ◌+◌, ◌≡◌, refl, sym, ap, ◌∙◌, inl, inr, true, false, List, [], ◌∷◌, ◌++◌, append-nil,
  append_assoc, Option, none, some, Bytes, arith, Bool-cases, length-append,
}
use ably_server.Protocol.{ChannelMessage}
use ably_server.Core.Channel.{
  Channel, new_channel, initialize, watermark, has_items, link, append, Wait, received, blocked,
  select, attach, next,
}
use ably_server.Core.Channel.Heap.{
  IsLinked, append-IsLinked, kept, IsBetween, next-blocked, next-received, next_outcome,
}

-- A channel, a stream on it, and what the stream has returned.
pub record Subscriber : Type 0 where
  pub channel : Channel
  pub cursor : ℕ
  pub got : List (Option ChannelMessage)

pub data Event : Type 0 where
  arrives : Option ChannelMessage → Event
  takes : Event

abbrev pub take_step : Subscriber → Wait (Option ChannelMessage × ℕ) → Subscriber
take_step s (received (cm, cursor)) = record s { cursor = cursor; got = s.got ++ cm ∷ [] }
take_step s _ = s

abbrev pub step : Event → Subscriber → Subscriber
step (arrives cm) s = record s { channel = append cm s.channel }
step takes s = take_step s (next false false s.cursor s.channel)

abbrev pub play : List Event → Subscriber → Subscriber
play [] s = s
play (e ∷ es) s = play es (step e s)

-- The messages that arrive with items.
abbrev pub arrivals : List Event → List ChannelMessage
arrivals [] = []
arrivals (arrives cm ∷ es) = kept cm ++ arrivals es
arrivals (takes ∷ es) = arrivals es

abbrev pub somes : List ChannelMessage → List (Option ChannelMessage)
somes [] = []
somes (x ∷ xs) = some x ∷ somes xs

somes-append : (xs ys : List ChannelMessage) → somes (xs ++ ys) ≡ somes xs ++ somes ys
somes-append [] ys = refl
somes-append (x ∷ xs) ys = ap (◌∷◌ (some x)) (somes-append xs ys)

-- What is known of a subscriber that has been sent `sent` in all: what it got is a part of it, and
-- the rest waits in the list.
pub record IsServed (sent : List ChannelMessage) (s : Subscriber) : Type 0 where
  pub pending : List ChannelMessage
  pub got : s.got ++ somes pending ≡ somes sent
  pub waiting : next false false s.cursor s.channel ≡ next_outcome pending s.cursor
  pub before : List ChannelMessage
  pub between : IsBetween s.channel s.cursor before pending

next-outcome :
    (c : Channel) (cursor : ℕ) (before pending : List ChannelMessage)
    → IsBetween c cursor before pending
    → next false false cursor c ≡ next_outcome pending cursor
next-outcome c cursor before [] v = next-blocked c cursor before v
next-outcome c cursor before (d ∷ ds) v = next-received c cursor before d ds v

served :
    (sent before pending : List ChannelMessage) (s : Subscriber)
    → s.got ++ somes pending ≡ somes sent
    → IsBetween s.channel s.cursor before pending
    → IsServed sent s
served sent before pending s e v = record {
  pending = pending;
  got = e;
  waiting = next-outcome s.channel s.cursor before pending v;
  before = before;
  between = v;
}

take-IsServed :
    (sent : List ChannelMessage) (s : Subscriber) (v : IsServed sent s)
    (pending : List ChannelMessage)
    → v.pending ≡ pending
    → IsServed sent (step takes s)
take-IsServed sent s v [] e =
    let f : next false false s.cursor s.channel ≡ blocked =
      v.waiting ∙ ap (λ p. next_outcome p s.cursor) e in
    rw f v
take-IsServed sent s v (d ∷ ds) e =
    let f : next false false s.cursor s.channel ≡ received (some d, s.cursor + 1) =
      v.waiting ∙ ap (λ p. next_outcome p s.cursor) e in
    rw f (
      served sent (v.before ++ d ∷ []) ds
        (record s { cursor = s.cursor + 1; got = s.got ++ some d ∷ [] })
        (append_assoc s.got (some d ∷ []) (somes ds) ∙ ap (λ p. s.got ++ somes p) (sym e) ∙ v.got)
        (record {
          linked = rw (append_assoc v.before (d ∷ []) ds, ← e) v.between.linked;
          position = omega (arith, v.between.position, length-append v.before (d ∷ []));
        }))

step-IsServed :
    (sent : List ChannelMessage) (e : Event) (s : Subscriber)
    → IsServed sent s
    → IsServed (sent ++ arrivals (e ∷ [])) (step e s)
step-IsServed sent takes s v = rw (append-nil sent) (take-IsServed sent s v v.pending refl)
step-IsServed sent (arrives cm) s v = rw (append-nil (kept cm)) (
    served (sent ++ kept cm) v.before (v.pending ++ kept cm)
      (record s { channel = append cm s.channel })
      (ap (λ p. s.got ++ p) (somes-append v.pending (kept cm))
        ∙ sym (append_assoc s.got (somes v.pending) (somes (kept cm)))
        ∙ ap (λ p. p ++ somes (kept cm)) v.got
        ∙ sym (somes-append sent (kept cm)))
      (record {
        linked =
            rw (← append_assoc v.before v.pending (kept cm))
              (append-IsLinked s.channel (v.before ++ v.pending) cm v.between.linked);
        position = v.between.position;
      }))

arrivals-cons : (e : Event) (es : List Event) → arrivals (e ∷ es) ≡ arrivals (e ∷ []) ++ arrivals es
arrivals-cons (arrives cm) es = ap (λ p. p ++ arrivals es) (sym (append-nil (kept cm)))
arrivals-cons takes es = refl

play-IsServed :
    (sent : List ChannelMessage) (es : List Event) (s : Subscriber)
    → IsServed sent s
    → IsServed (sent ++ arrivals es) (play es s)
play-IsServed sent [] s v = rw (append-nil sent) v
play-IsServed sent (e ∷ es) s v =
    rw (arrivals-cons e es, ← append_assoc sent (arrivals (e ∷ [])) (arrivals es))
      (play-IsServed (sent ++ arrivals (e ∷ [])) es (step e s) (step-IsServed sent e s v))

append_all : List (Option ChannelMessage) → Channel → Channel
append_all [] c = c
append_all (cm ∷ cms) c = append_all cms (append cm c)

append_all-IsLinked :
    (arrived : List (Option ChannelMessage)) (c : Channel) (cms : List ChannelMessage)
    → IsLinked c cms
    → (more : List ChannelMessage) × IsLinked (append_all arrived c) more
unfolding append_all
append_all-IsLinked [] c cms v = (cms, v)
append_all-IsLinked (cm ∷ arrived) c cms v =
    append_all-IsLinked arrived (append cm c) (cms ++ kept cm) (append-IsLinked c cms cm v)

ready-append_all :
    (arrived : List (Option ChannelMessage)) (c : Channel) → (append_all arrived c).ready ≡ c.ready
unfolding append_all append link
ready-append_all [] c = refl
ready-append_all (none ∷ arrived) c = ready-append_all arrived c
ready-append_all (some cm ∷ arrived) c =
    ready-append_all arrived (append (some cm) c)
    ∙ elim (Bool-cases (has_items cm)) [ inl e ↦ rw (e, append) refl | inr e ↦ rw (e, append) refl ]

-- A channel that the store has initialised, and that some messages have reached.
unfoldable pub live_channel : Bytes → Bytes → Bytes → List (Option ChannelMessage) → Channel
unfolding append_all
live_channel name current initial earlier =
    append_all earlier (initialize current initial (new_channel name))

-- What a stream got and the messages that wait for it are together the messages sent; its next call
-- returns the first that waits, or blocks when none does.
pub record IsDelivered (sent : List ChannelMessage) (s : Subscriber) : Type 0 where
  pub pending : List ChannelMessage
  pub got : s.got ++ somes pending ≡ somes sent
  pub waiting : next false false s.cursor s.channel ≡ next_outcome pending s.cursor

live_channel-IsLinked :
    (name current initial : Bytes) (earlier : List (Option ChannelMessage))
    → (cms : List ChannelMessage) × IsLinked (live_channel name current initial earlier) cms
unfolding live_channel initialize new_channel
live_channel-IsLinked name current initial earlier =
    append_all-IsLinked earlier (initialize current initial (new_channel name)) []
      (record { sentinel = some (watermark current); heap = refl; tail = refl })

-- Attach to an initialised channel returns at once, and however the arrival of messages and the
-- calls of Next interleave from there on, the stream returns every message with items that arrives
-- after the attach, in order and once, and none from before: what it has not returned yet is what
-- its next calls return, and it blocks only when nothing is left.
pub play-attach :
    (name current initial : Bytes) (earlier : List (Option ChannelMessage)) (es : List Event)
    → (cursor : ℕ) × (attach false false (live_channel name current initial earlier)
        ≡ received cursor)
      × IsDelivered (arrivals es) (
          play es (record {
            channel = live_channel name current initial earlier;
            cursor = cursor;
            got = [];
          }))
unfolding attach
play-attach name current initial earlier es =
    let c : Channel = live_channel name current initial earlier in
    let (cms, v) = live_channel-IsLinked name current initial earlier in
    let ready : c.ready ≡ true =
      unfold live_channel initialize new_channel in ready-append_all earlier _ in
    let s : Subscriber = record { channel = c; cursor = c.tail; got = [] } in
    let w : IsServed (arrivals es) (play es s) =
      play-IsServed [] es s
        (served [] cms [] s refl (record { linked = rw (append-nil cms) v; position = v.tail })) in
    (
      c.tail,
      ap (λ b. select false false b (received c.tail)) ready,
      record { pending = w.pending; got = w.got; waiting = w.waiting },
    )
