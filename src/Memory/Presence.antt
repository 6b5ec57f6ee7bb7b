-- ===== src/Memory/Presence.antt =====
-- internal/storage/memory/memory.go: the membership set that presence operations fold into.
use ably_server.Base.{
  ℕ, ◌+◌, ◌≡◌, refl, ap, ◌∙◌, inl, inr, Bool, true, false, List, [], ◌∷◌, ◌++◌, Option, none, some,
  Bytes, arith, if◌then◌else◌, Bool-cases, Option-cases, bytes_eq, lookup, insert, delete, Assoc,
  lookup-insert, lookup-delete, ok,
}
use mathlib.Core.Path.{subst}
use ably_server.Serial.{Generator, mint, message_serial}
use ably_server.Protocol.{
  PresenceAction, presence_absent, presence_present, presence_enter, presence_leave,
  presence_update, PresenceMessage, ChannelMessage,
}
use ably_server.Storage.{timestamp_or_zero, stamp_presence_member, member_key}
use ably_server.Memory.{
  ChannelStore, Reply, find_duplicate, presence_ids, persist, stamp_members, key_of, is_departure,
  fold_members, presence_fresh, store_presence,
}
use ably_server.Memory.Logging.{IsLogged, persist-IsLogged}

-- The member that one operation leaves.
abbrev pub left_by : PresenceAction → PresenceMessage → Option PresenceMessage
left_by presence_absent p = none
left_by presence_present p = some p
left_by presence_enter p = some p
left_by presence_leave p = none
left_by presence_update p = some p

-- The state of the member of one connection and client after a run of operations: the last
-- operation of that member decides.
abbrev pub state_after :
    Bytes → List PresenceMessage → Option PresenceMessage → Option PresenceMessage
state_after k [] state = state
state_after k (p ∷ ps) state =
    state_after k ps
      (if bytes_eq (p.connection_id ++ b':' ∷ p.client_id) k then left_by p.action p else state)

-- The operations as they were sent, but for the serials of one publish and the timestamps in them.
abbrev pub AllStamped : Bytes → ℕ → List PresenceMessage → List PresenceMessage → Type 0
AllStamped x i [] [] = Unit {0}
AllStamped x i [] (s ∷ ss) = ⊥
AllStamped x i (p ∷ ps) [] = ⊥
AllStamped x i (p ∷ ps) (s ∷ ss) =
    (s ≡ record p {
      serial = message_serial x i;
      timestamp = timestamp_or_zero (message_serial x i);
    })
    × AllStamped x (i + 1) ps ss

stamp_members-AllStamped :
    (x : Bytes) (i : ℕ) (ps : List PresenceMessage) → AllStamped x i ps (stamp_members x i ps)
unfolding stamp_members stamp_presence_member
stamp_members-AllStamped x i [] = tt
stamp_members-AllStamped x i (p ∷ ps) = (refl, stamp_members-AllStamped x (i + 1) ps)

left_by-departure :
    (a : PresenceAction) (p : PresenceMessage)
    → (if is_departure a then none else some p) ≡ left_by a p
left_by-departure presence_absent p = refl
left_by-departure presence_present p = refl
left_by-departure presence_enter p = refl
left_by-departure presence_leave p = refl
left_by-departure presence_update p = refl

folded :
    (k : Bytes) (p : PresenceMessage) (m : Assoc PresenceMessage)
    → lookup k (if is_departure p.action then delete (key_of p) m else insert (key_of p) p m) ≡ (
        if bytes_eq (p.connection_id ++ b':' ∷ p.client_id) k
        then left_by p.action p
        else lookup k m)
unfolding member_key
folded k p m = elim (Bool-cases (is_departure p.action)) [
  | inl leaves ↦ rw (← left_by-departure p.action p, leaves, lookup-delete)
  | inr stays ↦ rw (← left_by-departure p.action p, stays, lookup-insert)
]

lookup-fold_members :
    (k : Bytes) (ps : List PresenceMessage) (m : Assoc PresenceMessage)
    → lookup k (fold_members ps m) ≡ state_after k ps (lookup k m)
unfolding fold_members
lookup-fold_members k [] m = refl
lookup-fold_members k (p ∷ ps) m =
    lookup-fold_members k ps
      (if is_departure p.action then delete (key_of p) m else insert (key_of p) p m)
    ∙ ap (state_after k ps) (folded k p m)

-- What a presence publish has done.
pub record IsEntered (now : ℕ) (ps : List PresenceMessage) (cs : ChannelStore) (cm : ChannelMessage)
    (d : ChannelStore) : Type 0 where
  pub logged : IsLogged now cm (presence_ids cm.presence) cs d
  pub contents : cm ≡ record {
    id = [];
    channel_serial = cm.channel_serial;
    messages = [];
    presence = cm.presence;
    annotations = [];
  }
  pub stamped : AllStamped cm.channel_serial 0 ps cm.presence
  pub members : (k : Bytes) → lookup k d.members ≡ state_after k cm.presence (lookup k cs.members)
  pub latest : d.latest ≡ cs.latest
  pub versions : d.versions ≡ cs.versions
  pub annotations : d.annotations ≡ cs.annotations

fresh-IsEntered :
    (now : ℕ) (ps : List PresenceMessage) (x : Bytes) (gen : Generator) (cs : ChannelStore)
    → mint cs.gen now ≡ (x, gen)
    → IsEntered now ps cs (presence_fresh ps (x, gen) cs).0 (presence_fresh ps (x, gen) cs).1
unfolding presence_fresh persist
fresh-IsEntered now ps x gen cs e = record {
  logged =
      persist-IsLogged now (presence_fresh ps (x, gen) cs).0 (presence_ids (stamp_members x 0 ps))
        gen cs (fold_members (stamp_members x 0 ps) cs.members) cs.latest cs.versions cs.annotations
        e;
  contents = refl;
  stamped = stamp_members-AllStamped x 0 ps;
  members = λ k. lookup-fold_members k (stamp_members x 0 ps) cs.members;
  latest = refl;
  versions = refl;
  annotations = refl;
}

-- A presence publish that succeeds and is no repeat adds to the log one message of its operations,
-- which are as they were sent but for their serials and timestamps: under a newly minted serial, at
-- the end of the order, found by the ids that are not empty, and handed to the appender. Each member,
-- known by its connection and client, is then in the state that the last of its operations in the
-- publish decides, entered for enter, update and present and gone for leave and absent; every other
-- member, the rest of the log, the versions and the annotations stay.
pub store_presence-IsEntered :
    (done : Bool) (now : ℕ) (ps : List PresenceMessage) (cs : ChannelStore) (cm : ChannelMessage)
    → (store_presence done now ps cs).0 ≡ ok (some cm, false)
    → IsEntered now ps cs cm (store_presence done now ps cs).1
unfolding store_presence
store_presence-IsEntered done now [] cs cm h = absurd (ground arith)
store_presence-IsEntered true now (p ∷ ps) cs cm h = absurd (ground arith)
store_presence-IsEntered false now (p ∷ ps) cs cm h =
    elim (Option-cases (find_duplicate (presence_ids (p ∷ ps)) cs)) [
      | inl f ↦
          let (c, d) = presence_fresh (p ∷ ps) (mint cs.gen now) cs in
          let first : store_presence false now (p ∷ ps) cs ≡ (ok (some c, false), d) =
            unfold store_presence in rw (f, store_presence) in
          let same : c ≡ cm =
            ground (arith, first, h, ap (λ (r : Reply × ChannelStore). r.0) first) in
          rw first (
            subst (λ y. IsEntered now (p ∷ ps) cs y d) same
              (fresh-IsEntered now (p ∷ ps) (mint cs.gen now).0 (mint cs.gen now).1 cs refl))
      | inr (c, f) ↦ absurd (ground (arith, f))
    ]
