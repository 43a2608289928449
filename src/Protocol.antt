-- ===== src/Protocol.antt =====
-- protocol/partake_protocol.fbs: the enumerations that the daemon's logic uses.
pub data Status : Type 0 where
  ok invalid_request out_of_shmem no_such_segment no_such_object object_busy object_reserved :
      Status

-- A request carries a number of 8 bits that the daemon does not check; here it is one of these.
pub data Policy : Type 0 where
  default primitive : Policy
