-- ===== src/Ipc.antt =====
-- internal/daemon/types.go: what goes over the daemon's local socket.
pub mod Framing
pub mod Server
pub mod Client
pub mod Subscribers
pub mod Samples
mod Tests
use kin.Base.{ℕ, Option, Bytes}

-- `Request`, `ErrorInfo`, `Response` and `Event` as they are written; `params` and `raw_data` are the
-- raw JSON, which is empty where there is none.
pub record Request : Type 0 where
  pub id : ℕ
  pub method : Bytes
  pub params : Bytes

pub record ErrorInfo : Type 0 where
  pub code : Bytes
  pub message : Bytes

pub record Response : Type 0 where
  pub id : ℕ
  pub error : Option ErrorInfo
  pub raw_data : Bytes

pub record Event : Type 0 where
  pub kind : Bytes
  pub raw_data : Bytes
