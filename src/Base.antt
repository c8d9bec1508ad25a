-- ===== src/Base.antt =====
-- The names that the other modules share: those of the libraries, passed on, and the helpers of the
-- child modules. The children stand for the parts of Python that the scripts use: tests on numbers,
-- lists, `str` and its methods, decimal printing.
pub mod Tests
pub mod Lists
pub mod Text
pub mod Decimal
pub mod Exec
pub mod Disk
pub mod Paths
pub mod Int
pub mod Closure
pub mod Groups
pub use Tests.*
pub use Lists.*
pub use Prim.Native.Nat.{ℕ, zero, suc, ◌+◌, ◌-◌, ◌*◌, ◌/◌, ◌%◌, ◌^◌, ◌≤◌, ◌<◌}
pub use mathlib.Core.Path.{◌≡◌, refl, sym, ap, ◌∙◌}
pub use mathlib.Core.Logic.{◌≢◌, ◌↔◌, ◌⊎◌, inl, inr}
pub use mathlib.Core.Bool.{Bool, true, false, not, ◌&&◌, ◌||◌}
pub use mathlib.Core.Option.{Option, none, some}
pub use mathlib.Core.List.{List, [], ◌∷◌, ◌++◌, map, append_assoc, append-nil}
pub use native.Mathlib.Omega.{arith}
