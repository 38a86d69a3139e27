-- ===== src/Leader/Bystander/Tests.antt =====
-- A second instance at the site where "a" holds the lock.
use mathlib.Core.Bool.{false≢true}
use k8_highlander.Prelude.{◌<◌, String, true, false, some, ◌≡◌, ◌≢◌, ◌⊎◌, refl, eq_iff, arith}
use k8_highlander.Storage.Lock.{Lease}
use k8_highlander.Storage.Memory.Laws.{leases}
use k8_highlander.Monitoring.{new_monitoring_server, no_metrics}
use k8_highlander.Leader.{World, new_leader_controller}
use k8_highlander.Leader.Loop.{election_round}
use k8_highlander.Leader.Workloads.{returns}
use k8_highlander.Leader.Renew.Outcome.{Tolerated}
use k8_highlander.Leader.Site.{Site, site, site_lease, site-StorageContract}
use k8_highlander.Leader.Site.Pair.{site-KeepsOrder}
use k8_highlander.Leader.Bystander.Leaders.{one_leader}
use k8_highlander.Leader.Tests.{executable, held_site, or_stay, a≢rival}

instance_b : World Site
unfolding new_leader_controller held_site
instance_b = new_leader_controller held_site "b" "west" (new_monitoring_server no_metrics) "" false

after_round : World Site
after_round = or_stay instance_b (election_round site 30 instance_b)

round_of_b : election_round site 30 instance_b ≡ returns after_round
unfolding executable instance_b held_site after_round
round_of_b = refl

b_follows : after_round.lc.is_leader ≡ false
unfolding executable instance_b held_site after_round
b_follows = refl

b≢rival : ◌≢◌ {A = String} "b" "rival"
b≢rival p = false≢true ((eq_iff "b" "rival").1 p)

b≢a : ◌≢◌ {A = String} "b" "a"
b≢a p = false≢true ((eq_iff "b" "a").1 p)

abbrev lease_of_a : Lease
lease_of_a = record { owner = "a"; until = 1100 }

one_leader_example :
    (1100 < after_round.outside.time)
    ⊎ ((site_lease after_round.outside "highlander-leader-lock:default" ≡ some lease_of_a)
        × (after_round.lc.is_leader ≡ true → Tolerated after_round))
unfolding executable instance_b held_site leases
one_leader_example =
    one_leader site site_lease "a" "b" b≢a (site-StorageContract "b" b≢rival)
      (site-KeepsOrder "a" "b" a≢rival b≢a) 30 instance_b after_round lease_of_a refl refl refl
      (omega arith) round_of_b
