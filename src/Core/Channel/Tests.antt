-- ===== src/Core/Channel/Tests.antt =====
-- internal/core/channel.go on concrete input.
use ably_server.Base.{ℕ, ◌≡◌, refl, false, List, [], ◌∷◌, none, some, Bytes, text, pos}
use ably_server.Protocol.{ChannelMessage, PresenceMessage, presence_enter, absent}
use ably_server.Core.Channel.{
  Channel, new_channel, initialize, append, has_items, link, attach, next, received, blocked,
  channel_serial_at,
}
use ably_server.Core.Channel.Delivery.{
  Event, arrives, takes, play, arrivals, live_channel, IsDelivered, play-attach,
}

abbrev member : PresenceMessage
member = record {
  id = [];
  serial = [];
  action = presence_enter;
  client_id = text "alice";
  connection_id = text "c1";
  payload = absent;
  encoding = [];
  extras = none;
  timestamp = pos 0;
}

abbrev message : Bytes → ChannelMessage
message s = record {
  id = [];
  channel_serial = s;
  messages = [];
  presence = member ∷ [];
  annotations = [];
}

abbrev no_items : ChannelMessage
no_items = record {
  id = [];
  channel_serial = text "z";
  messages = [];
  presence = [];
  annotations = [];
}

abbrev fresh : Channel
fresh = initialize (text "w") (text "a") (new_channel (text "news"))

not_ready_blocks : attach false false (new_channel (text "news")) ≡ blocked
unfolding attach new_channel
not_ready_blocks = refl

waits_then_reads :
    (next false false 0 fresh ≡ blocked)
    × (next false false 0 (append (some (message (text "b"))) fresh)
        ≡ received (some (message (text "b")), 1))
    × (channel_serial_at 0 fresh ≡ some (text "w"))
unfolding next append initialize new_channel has_items link channel_serial_at
waits_then_reads = (refl, refl, refl)

abbrev events : List Event
events =
    takes
    ∷ arrives (some (message (text "c")))
    ∷ arrives (some no_items)
    ∷ arrives none
    ∷ arrives (some (message (text "d")))
    ∷ takes
    ∷ []

play-attach_example :
    (cursor : ℕ) × (attach false false
        (live_channel (text "news") (text "w") (text "a") (some (message (text "b")) ∷ []))
      ≡ received cursor)
    × IsDelivered (arrivals events) (
        play events (record {
          channel =
              live_channel (text "news") (text "w") (text "a") (some (message (text "b")) ∷ []);
          cursor = cursor;
          got = [];
        }))
play-attach_example =
    play-attach (text "news") (text "w") (text "a") (some (message (text "b")) ∷ []) events
