-- ===== src/Bounce.antt =====
-- bounce.go: bounces and complaints.
pub mod Report
use gsmail.Prelude.{Bool, true, false}
use gsmail.Prelude.Int.{ℤ}
use gsmail.Prelude.Bytes.{Bytes}

-- The zero value of the type has no constant of its own.
pub data BounceType : Type 0 where
  unset hard soft : BounceType

pub record Bounce : Type 0 where
  pub bounce_type : BounceType
  pub email_address : Bytes
  pub reason : Bytes
  pub status : Bytes
  pub timestamp : ℤ
  pub original_msg_id : Bytes
  pub provider : Bytes

pub record Complaint : Type 0 where
  pub email_address : Bytes
  pub feedback_type : Bytes
  pub timestamp : ℤ
  pub original_msg_id : Bytes
  pub user_agent : Bytes
  pub provider : Bytes

abbrev pub is_hard : BounceType → Bool
is_hard hard = true
is_hard _ = false
