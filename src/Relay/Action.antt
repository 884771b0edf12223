-- ===== src/Relay/Action.antt =====
-- crates/qvole-relay/src/room.rs: `RegAction`, what a REG handler sends once its locks are released.
use qvole_rs.Base.{Bytes}

pub data RegAction : Type 0 where
  regd : RegAction
  challenge : Bytes → RegAction
  none : RegAction
