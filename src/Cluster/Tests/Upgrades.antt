-- ===== src/Cluster/Tests/Upgrades.antt =====
-- Runs of the thread that upgrades a cluster, and witnesses of the theorems on it.
use container_service_extens.Common.{◌≡◌, refl, false, some, [], ltb, Bool, not, ◌&&◌, ◌||◌}
use container_service_extens.Cluster.World.{success}
use container_service_extens.Cluster.Upgrade.{
  Version, Software, Parts, parts_to_upgrade, upgrade_cluster_async,
}
use container_service_extens.Cluster.Wanted.{Wanted}
use container_service_extens.Cluster.Upgraded.{Upgraded, upgrade_cluster_async-Upgraded}
use container_service_extens.Cluster.Tests.{new_template, cluster, world, never}

abbrev later_version : Version → Version → Bool
later_version u v = ltb v.major u.major || (not (ltb u.major v.major) && ltb v.minor u.minor)

abbrev old_software : Software
old_software = record {
  docker = "19.03.15";
  kubernetes = record { major = 1; minor = 20; patch = 6 };
  cni = record { major = 2; minor = 8; patch = 1 };
}

abbrev new_software : Software
new_software = record old_software {
  docker = "20.10.7";
  kubernetes = record { major = 1; minor = 21; patch = 2 };
}

upgrade_cluster_async-Upgraded_example :
    (parts : Parts) × Wanted later_version new_software old_software parts
    × Upgraded parts new_template []
        (some cluster)
        (upgrade_cluster_async never later_version new_software old_software new_template world)
upgrade_cluster_async-Upgraded_example =
    upgrade_cluster_async-Upgraded never later_version new_software old_software new_template world

upgraded_task :
    (upgrade_cluster_async never later_version new_software old_software new_template world).1.task
    ≡ some success
unfolding upgrade_cluster_async
upgraded_task = refl

-- Docker's patch 10 comes after its patch 9, but not as a text.
docker_patch :
    (parts_to_upgrade later_version
      (record new_software { docker = "20.10.10" })
      (record new_software { docker = "20.10.9" })).docker
    ≡ false
unfolding parts_to_upgrade
docker_patch = refl
