-- ===== src/Leader/Renew/Failing.antt =====
-- What failing calls of the storage mean for RenewLeadership.
use k8_highlander.Prelude.{Bool}
