-- ===== src/Prelude.antt =====
-- The names that every other module shares: the libraries', passed on, and those of the children,
-- the Boolean conditional, Python dicts and the exceptions of the service code.
mod Tests
mod Assoc
mod Raise
mod Effect
pub use Tests.*
pub use Assoc.*
pub use Raise.*
pub use Effect.*
pub use mathlib.Core.Path.{◌≡◌, refl, sym, ap, ◌∙◌, subst}
pub use mathlib.Core.Logic.{◌≢◌, ◌↔◌, ◌⊎◌, inl, inr}
pub use mathlib.Core.Bool.{Bool, true, false, not, ◌&&◌, ◌||◌}
pub use mathlib.Core.Option.{Option, none, some}
pub use mathlib.Core.List.{List, [], ◌∷◌, ◌++◌, map}
pub use native.Mathlib.Omega.{arith}
pub use Prim.Native.Nat.{ℕ, zero, suc}
pub use Prim.Native.String.{String}
unfoldable pub use text.Mathlib.Text.{◌==◌ as str_eq}
pub use text.Mathlib.TextEquality.{eq_iff as str_eq_iff}
