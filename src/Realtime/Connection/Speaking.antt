-- ===== src/Realtime/Connection/Speaking.antt =====
-- internal/realtime/connection.go: for whom a connection speaks, whatever frames it receives.
use ably_server.Base.{ℕ, ◌≡◌, ◌⊎◌, List, [], ◌∷◌, Bytes}
use ably_server.Core.Name.Breaks.{IsChannelName}
use ably_server.Protocol.{Message}
use ably_server.Auth.Identity.{Principal, IsConcrete, SpeaksFor}
use ably_server.Realtime.Connection.{Task, messages, Connection}

-- What a handler leaves that hands nothing over.
abbrev IsQuiet : Connection → Connection → Type 0
IsQuiet c d = (d.tasks ≡ c.tasks) × (d.id ≡ c.id) × (d.client_id ≡ c.client_id)

-- Messages of a connection, from nobody or from somebody for whom the credential speaks.
abbrev pub AllSpoken : Principal → Bytes → List Message → Type 0
AllSpoken p id [] = Unit {0}
AllSpoken p id (m ∷ ms) =
    ((m.connection_id ≡ id)
      × ((m.client_id ≡ []) ⊎ (IsConcrete m.client_id × SpeaksFor p m.client_id)))
    × AllSpoken p id ms

-- What a task that publishes messages publishes.
abbrev pub IsSpoken : Principal → Bytes → Task → Type 0
IsSpoken p id (messages name ms) = IsChannelName name × AllSpoken p id ms
IsSpoken p id _ = Unit {0}

abbrev pub AllTasks : Principal → Bytes → List (ℕ × Task) → Type 0
AllTasks p id [] = Unit {0}
AllTasks p id ((n, t) ∷ ts) = IsSpoken p id t × AllTasks p id ts

-- A connection whose client id the credential led to, and its tasks.
record Speaks (p : Principal) (param id client_id : Bytes) (c : Connection) : Type 0 where
  same : c.id ≡ id
  same_client : c.client_id ≡ client_id
  spoken : AllTasks p id c.tasks
