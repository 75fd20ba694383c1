-- ===== src/Messages.antt =====
-- proto/kin.proto: the messages that two peers exchange.
use kin.Base.{ℕ, Bool, List, Bytes}
use kin.Base.Ints.{ℤ}
use kin.Catalog.Convert.{CatalogFile}

-- The payloads of an `Envelope` that peers send; `other` is any payload that only a relay reads.
pub data Message : Type 0 where
  file_request : Bytes → Message
  file_response : Bytes → ℤ → Bool → Message
  file_chunk : Bytes → Bytes → Bool → Message
  catalog_offer : List CatalogFile → Message
  catalog_ack : ℕ → Message
  error_message : Bytes → Bytes → Message
  other : Message
