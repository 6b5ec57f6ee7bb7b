-- ===== src/Core/Manager/Tests.antt =====
-- internal/core/manager.go on concrete input.
use ably_server.Base.{ℕ, ◌≡◌, refl, false, none, some, Bytes, text, length, get_elem?, lookup}
use ably_server.Core.Manager.{
  Manager, new_manager, create, enter, leave, entered, opened, here, next, enter-create,
  enter-enter,
}

abbrev lobby : Bytes
lobby = text "lobby"

abbrev attic : Bytes
attic = text "attic"

abbrev later : Manager
later = (enter attic (leave 0 (create lobby new_manager))).1

enter-create_example : enter lobby later ≡ (some (length new_manager.slots), later)
enter-create_example =
    enter-create lobby new_manager later (next (next here (opened 0)) (entered attic))

enter-enter_example :
    (ch : ℕ) × ((enter lobby new_manager).0 ≡ none)
    × ((enter lobby (enter lobby new_manager).1).0 ≡ some ch)
    × (get_elem? (enter lobby (enter lobby new_manager).1).1.slots ch
        ≡ some (record { name = lobby; has_store = false }))
unfolding new_manager lookup
enter-enter_example = enter-enter lobby new_manager refl
