-- ===== src/Cluster/Wanted.antt =====
-- Which parts of a cluster the versions ask to upgrade.
use Prim.Native.String.{String, compare}
use Prim.Native.Nat.{Ordering}
use container_service_extens.Common.{
  ◌≡◌, refl, Bool, true, false, not, ◌||◌, ℕ, ◌<◌, ltb, ◌↔◌, ◌⊎◌, inl, inr, Bool-cases, arith,
}
use container_service_extens.Cluster.Upgrade.{
  Version, Software, Parts, later_text, parts_to_upgrade,
}

-- The parts that the versions ask for: Docker if the version of the template is the later text, Kubernetes
-- if its version is not an older one, an equal one included, and the CNI if its version is newer, or if
-- Kubernetes comes to a higher major or minor version.
pub record Wanted (newer : Version → Version → Bool) (target current : Software) (parts : Parts)
    : Type 0 where
  pub docker : (parts.docker ≡ true) ↔ (compare target.docker current.docker ≡ Ordering.gt)
  pub kubernetes : (parts.kubernetes ≡ true) ↔ (newer current.kubernetes target.kubernetes ≡ false)
  pub cni : (parts.cni ≡ true) ↔ (
      (newer target.cni current.cni ≡ true)
      ⊎ ((current.kubernetes.major < target.kubernetes.major)
          ⊎ (current.kubernetes.minor < target.kubernetes.minor)))

is_gt : (o : Ordering) → ((elim o [ Ordering.gt ↦ true | _ ↦ false ]) ≡ true) ↔ (o ≡ Ordering.gt)
is_gt Ordering.lt = (λ h. absurd cc, λ h. absurd cc)
is_gt Ordering.eq = (λ h. absurd cc, λ h. absurd cc)
is_gt Ordering.gt = (λ h. refl, λ h. refl)

later_text-gt : (s t : String) → (later_text s t ≡ true) ↔ (compare s t ≡ Ordering.gt)
unfolding later_text
later_text-gt s t = is_gt (compare s t)

is_older : (b : Bool) → (not b ≡ true) ↔ (b ≡ false)
is_older true = (λ h. absurd cc, λ h. absurd cc)
is_older false = (λ h. refl, λ h. refl)

any_of_three :
    (b : Bool) (m n i j : ℕ)
    → ((b || ltb m n || ltb i j) ≡ true) ↔ ((b ≡ true) ⊎ ((m < n) ⊎ (i < j)))
any_of_three b m n i j = (
  λ h. elim (Bool-cases b) [
    | inl t ↦ inl t
    | inr f ↦ elim (Bool-cases (ltb m n)) [
      | inl l ↦ inr (inl (ground (arith, l)))
      | inr k ↦ inr (inr (ground (arith, h, f, k)))
    ]
  ],
  λ h. elim h [
    | inl t ↦ ground (arith, t)
    | inr (inl l) ↦ ground (arith, l)
    | inr (inr l) ↦ ground (arith, l)
  ],
)

pub parts_to_upgrade-Wanted :
    (newer : Version → Version → Bool) (target current : Software)
    → Wanted newer target current (parts_to_upgrade newer target current)
unfolding parts_to_upgrade
parts_to_upgrade-Wanted newer target current = record {
  docker = later_text-gt target.docker current.docker;
  kubernetes = is_older _;
  cni = any_of_three _ _ _ _ _;
}
