-- ===== src/Core/Manager.antt =====
-- internal/core/manager.go: the channels of a process. A pointer to a channel is an index into
-- `slots`. GetChannel runs in three parts, between which other calls run: the first section under
-- the mutex, the storage's Channel, which is a parameter that succeeds or fails, and what follows it.
mod Tests
use ably_server.Base.{
  ℕ, zero, suc, ◌+◌, ◌≡◌, refl, sym, ap, ◌∙◌, inl, inr, Bool, true, false, List, [], ◌∷◌, ◌++◌,
  Option, none, some, Bytes, arith, if◌then◌else◌, Option-cases, Bool-cases, ◌==◌, length,
  get_elem?, bytes_eq, Assoc, lookup, insert, delete, lookup-insert, lookup-insert_self,
  lookup-delete, bytes_eq_iff,
}

-- Of a channel, its name and whether `ch.store` is set.
pub record Slot : Type 0 where
  pub name : Bytes
  pub has_store : Bool

pub record Manager : Type 0 where
  pub channels : Assoc ℕ
  pub slots : List Slot

unfoldable pub new_manager : Manager
new_manager = record { channels = []; slots = [] }

-- newChannel, put in the map
unfoldable pub create : Bytes → Manager → Manager
create name m = record {
  channels = insert name (length m.slots) m.channels;
  slots = m.slots ++ record { name = name; has_store = false } ∷ [];
}

-- The first section of GetChannel: a channel that is there is returned at once.
unfoldable pub enter : Bytes → Manager → Option ℕ × Manager
enter name m = elim (lookup name m.channels) [
  | some ch ↦ (some ch, m)
  | none ↦ (none, create name m)
]

unfoldable pub set_store : ℕ → List Slot → List Slot
set_store ch [] = []
set_store zero (s ∷ ss) = record s { has_store = true } ∷ ss
set_store (suc ch) (s ∷ ss) = s ∷ set_store ch ss

-- ch.store = store
unfoldable pub leave : ℕ → Manager → Manager
leave ch m = record m { slots = set_store ch m.slots }

-- The section after an error: the channel is dropped if it is still the one in the map.
unfoldable pub roll_back : Bytes → ℕ → Manager → Manager
roll_back name ch m = record m {
  channels = elim (lookup name m.channels) [
    | none ↦ m.channels
    | some cur ↦ if cur == ch then delete name m.channels else m.channels
  ];
}

-- What other calls may do while opening `name` does not fail.
pub data Step (name : Bytes) (m : Manager) : Manager → Type 0 where
  entered : (other : Bytes) → Step name m (enter other m).1
  opened : (ch : ℕ) → Step name m (leave ch m)
  failed :
      (other : Bytes) (ch : ℕ) → bytes_eq other name ≡ false → Step name m (roll_back other ch m)

pub data Reach (name : Bytes) (m : Manager) : Manager → Type 0 where
  here : Reach name m m
  next : {d e : Manager} → Reach name m d → Step name d e → Reach name m e

lookup-enter :
    (name other : Bytes) (m : Manager) (ch : ℕ)
    → lookup name m.channels ≡ some ch
    → lookup name (enter other m).1.channels ≡ some ch
unfolding enter create
lookup-enter name other m ch h = elim (Option-cases (lookup other m.channels)) [
  | inr (c, e) ↦ rw (e, enter) h
  | inl e ↦
      rw (e, enter)
        (elim (Bool-cases (bytes_eq other name)) [
          | inl same ↦ absurd (ground (arith, e, h, bytes_eq_iff other name))
          | inr different ↦ rw (lookup-insert, different) h
        ])
]

lookup-roll_back :
    (name other : Bytes) (c : ℕ) (m : Manager) (ch : ℕ)
    → bytes_eq other name ≡ false
    → lookup name m.channels ≡ some ch
    → lookup name (roll_back other c m).channels ≡ some ch
unfolding roll_back
lookup-roll_back name other c m ch d h = go (lookup other m.channels)
  where
    go :
        (o : Option ℕ)
        → lookup name (elim o [
          | none ↦ m.channels
          | some cur ↦ if cur == c then delete other m.channels else m.channels
        ])
          ≡ some ch
    go none = h
    go (some cur) = elim (Bool-cases (cur == c)) [
      | inl same ↦ rw same (rw (lookup-delete, d) h)
      | inr left ↦ rw left h
    ]

Step-lookup :
    {name : Bytes} {d e : Manager} (ch : ℕ)
    → Step name d e
    → lookup name d.channels ≡ some ch
    → lookup name e.channels ≡ some ch
unfolding leave
Step-lookup {name = name} {d = d} ch (entered other) h = lookup-enter name other d ch h
Step-lookup ch (opened c) h = h
Step-lookup {name = name} {d = d} ch (failed other c n) h = lookup-roll_back name other c d ch n h

Reach-lookup :
    {name : Bytes} {m e : Manager} (ch : ℕ)
    → Reach name m e
    → lookup name m.channels ≡ some ch
    → lookup name e.channels ≡ some ch
Reach-lookup ch here h = h
Reach-lookup ch (next r s) h = Step-lookup ch s (Reach-lookup ch r h)

created :
    (name : Bytes) (m : Manager) → lookup name (create name m).channels ≡ some (length m.slots)
unfolding create
created name m = lookup-insert_self name (length m.slots) m.channels

-- Once a call of GetChannel has put a channel for a name into the map, every later call for the name
-- returns that instance and leaves the manager as it is, whatever parts of other calls run
-- between them, until opening that name fails.
pub enter-create :
    (name : Bytes) (m e : Manager)
    → Reach name (create name m) e
    → enter name e ≡ (some (length m.slots), e)
unfolding enter
enter-create name m e r = rw (Reach-lookup (length m.slots) r (created name m), enter) refl

last_slot : (ss : List Slot) (s : Slot) → get_elem? (ss ++ s ∷ []) (length ss) ≡ some s
last_slot [] s = refl
last_slot (x ∷ ss) s = last_slot ss s

-- A call of GetChannel for a new name, and another for the same name before the storage has opened
-- it: the second returns at once, with a channel whose `store` is not set.
pub enter-enter :
    (name : Bytes) (m : Manager)
    → lookup name m.channels ≡ none
    → (ch : ℕ) × ((enter name m).0 ≡ none)
      × ((enter name (enter name m).1).0 ≡ some ch)
      × (get_elem? (enter name (enter name m).1).1.slots ch
          ≡ some (record { name = name; has_store = false }))
enter-enter name m h =
    let first : enter name m ≡ (none, create name m) = unfold enter in rw (h, enter) refl in
    let second : enter name (create name m) ≡ (some (length m.slots), create name m) =
      enter-create name m (create name m) here in
    rw (first, second)
      (
        length m.slots,
        refl,
        refl,
        unfold create in last_slot m.slots (record { name = name; has_store = false }),
      )
