-- ===== src/Base.antt =====
-- The names that the modules of this library share: those of the libraries, passed on, and the
-- tests, lists, byte strings and decimal numerals of the modules below.
pub mod Tests
pub mod Lists
pub mod ByteStrings
pub mod Decimal
pub mod Text
pub mod Results
pub mod Maps
unfoldable pub use Tests.*
unfoldable pub use Lists.*
unfoldable pub use ByteStrings.*
unfoldable pub use Decimal.*
unfoldable pub use Text.*
unfoldable pub use Results.*
unfoldable pub use Maps.*
pub use Prim.Native.Nat.{ℕ, zero, suc, ◌+◌, ◌-◌, ◌*◌, ◌/◌, ◌%◌, ◌^◌, ◌≤◌, ◌<◌}
pub use Prim.Native.String.{String}
pub use mathlib.Core.Path.{◌≡◌, refl, sym, ap, ap₂, ◌∙◌, ◌≡⟨◌⟩◌, ◌∎}
pub use mathlib.Core.Logic.{◌≢◌, ◌↔◌, ◌⊎◌, inl, inr}
pub use mathlib.Core.Bool.{Bool, true, false, not, ◌&&◌, ◌||◌}
pub use mathlib.Core.Option.{Option, none, some}
pub use mathlib.Core.List.{List, [], ◌∷◌, ◌++◌, map, append-nil, append_assoc}
pub use native.Mathlib.Omega.{arith}
