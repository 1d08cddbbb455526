-- ===== src/Runtime/Calls.antt =====
-- crates/santi-runtime: what a call of a port leaves alone.
use santi.Base.{String, refl, List}
use santi.Base.Exec.{Exec}
use santi.Base.Preserving.{Preserving}
use santi.Store.{Db}
use santi.Runtime.{World, call}

abbrev pub held_keys : World → List String
held_keys w = w.held

module _ {F E A : Type 0} (f : F → E) (m : Exec Db F A) where
  -- A call of a port holds and gives back no key.
  pub call_held : Preserving held_keys (call f m)
  call_held w = refl

module _ {X : Type 0} (view : Db → X) where
  abbrev pub view_db : World → X
  view_db w = view w.db

  -- A call keeps what the operation of the port keeps.
  pub call_view :
      {F E A : Type 0} (f : F → E) (m : Exec Db F A)
      → Preserving view m
      → Preserving view_db (call f m)
  call_view f m k w = k w.db
