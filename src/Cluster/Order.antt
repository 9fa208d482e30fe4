-- ===== src/Cluster/Order.antt =====
-- In which order an upgrade runs its scripts.
use container_service_extens.Common.{
  ◌≡◌, refl, sym, ap, ◌∙◌, String, Bool, true, false, ◌||◌, Option, none, some, List, [], ◌∷◌, ◌++◌,
  if◌then◌else◌, ok, err,
}
use container_service_extens.Cluster.World.{
  Raised, Call, drain_control_plane, upgrade_control_plane, uncordon_control_plane, drain_node,
  upgrade_node, uncordon_node, read_worker_script, drain_all, upgrade_docker, upgrade_cni,
  uncordon_all, World, M, ◌>>◌, continue, answer,
}
use container_service_extens.Cluster.Nodes.{when}
use container_service_extens.Cluster.Ends.{Outcome}
use container_service_extens.Cluster.Upgrade.{
  Parts, run_step, upgrade_nodes, upgrade_kubernetes, upgrade_parts,
}

-- A node is drained, upgraded and uncordoned before the next one is drained.
abbrev pub node_plan : List String → List Call
node_plan [] = []
node_plan (n ∷ ns) = drain_node n ∷ upgrade_node n ∷ uncordon_node n ∷ node_plan ns

abbrev pub plan : Parts → List String → List Call
plan parts workers =
    (if parts.kubernetes
      then drain_control_plane ∷ upgrade_control_plane ∷ uncordon_control_plane ∷ node_plan workers
      else [])
    ++ ((if parts.docker || parts.cni then drain_all ∷ [] else [])
        ++ ((if parts.docker then upgrade_docker ∷ [] else [])
            ++ ((if parts.cni then upgrade_cni ∷ [] else []) ++ (uncordon_all ∷ []))))

-- The scripts that have been run are those of the plan, or, after an exception, the first of them.
pub data Ran (before plan : List Call) : Outcome → Type 0 where
  ran : (w : World) → w.scripts ≡ before ++ plan → Ran before plan (ok tt, w)
  stopped :
      (r : Raised) (w : World) (done left : List Call)
      → w.scripts ≡ before ++ done
      → done ++ left ≡ plan
      → Ran before plan (err r, w)

append_assoc : (xs ys zs : List Call) → ((xs ++ ys) ++ zs) ≡ xs ++ (ys ++ zs)
append_assoc [] ys zs = refl
append_assoc (x ∷ xs) ys zs = ap (λ l. x ∷ l) (append_assoc xs ys zs)

append_empty : (xs : List Call) → (xs ++ []) ≡ xs
append_empty [] = refl
append_empty (x ∷ xs) = ap (λ l. x ∷ l) (append_empty xs)

continue-Ran :
    (before p q : List Call) (x : Outcome) (k : M (Unit {0}))
    → Ran before p x
    → ((w : World) → Ran w.scripts q (k w))
    → Ran before (p ++ q) (continue x λ _. k)
continue-Ran before p q _ k (ran w h) next = shifted (k w) (next w)
  where
    further :
        (v : World) (l : List Call) → v.scripts ≡ w.scripts ++ l → v.scripts ≡ before ++ (p ++ l)
    further v l g = g ∙ (ap (λ m. m ++ l) h ∙ append_assoc before p l)

    shifted : (x : Outcome) → Ran w.scripts q x → Ran before (p ++ q) x
    shifted _ (ran v g) = ran v (further v q g)
    shifted _ (stopped r v done left g e) =
        stopped r v (p ++ done) left (further v done g)
          (append_assoc p done left ∙ ap (λ l. p ++ l) e)
continue-Ran before p q _ k (stopped r w done left h e) next =
    stopped r w done (left ++ q) h (sym (append_assoc done left q) ∙ ap (λ l. l ++ q) e)

module _ (fails : Call → Option Raised) where
  quiet-Ran :
      (o : Option Raised) (q : List Call) (k : M (Unit {0})) (w : World)
      → ((v : World) → Ran v.scripts q (k v))
      → Ran w.scripts q ((answer o >> k) w)
  quiet-Ran none q k w next = next w
  quiet-Ran (some r) q k w next = stopped r w [] q (sym (append_empty w.scripts)) refl

  answer-Ran :
      (o : Option Raised) (c : Call) (before : List Call) (w : World)
      → w.scripts ≡ before ++ (c ∷ [])
      → Ran before (c ∷ []) (answer o w)
  answer-Ran none c before w h = ran w h
  answer-Ran (some r) c before w h = stopped r w (c ∷ []) [] h refl

  run_step-Ran : (c : Call) (w : World) → Ran w.scripts (c ∷ []) (run_step fails c w)
  unfolding run_step
  run_step-Ran c w = answer-Ran (fails c) c w.scripts _ refl

  upgrade_nodes-Ran :
      (ns : List String) (w : World) → Ran w.scripts (node_plan ns) (upgrade_nodes fails ns w)
  unfolding upgrade_nodes
  upgrade_nodes-Ran [] w = ran w (sym (append_empty w.scripts))
  upgrade_nodes-Ran (n ∷ ns) w =
      continue-Ran _ (drain_node n ∷ []) _ _ _ (run_step-Ran (drain_node n) w) λ v.
        continue-Ran _ (upgrade_node n ∷ []) _ _ _ (run_step-Ran (upgrade_node n) v) λ u.
          continue-Ran _ (uncordon_node n ∷ []) _ _ _ (run_step-Ran (uncordon_node n) u)
            (upgrade_nodes-Ran ns)

  upgrade_kubernetes-Ran :
      (ns : List String) (w : World)
      → Ran w.scripts
          (drain_control_plane ∷ upgrade_control_plane ∷ uncordon_control_plane ∷ node_plan ns)
          (upgrade_kubernetes fails ns w)
  unfolding upgrade_kubernetes
  upgrade_kubernetes-Ran ns w =
      continue-Ran _ (drain_control_plane ∷ []) _ _ _ (run_step-Ran drain_control_plane w) λ v.
        continue-Ran _ (upgrade_control_plane ∷ []) _ _ _ (run_step-Ran upgrade_control_plane v)
          λ u.
            continue-Ran _ (uncordon_control_plane ∷ []) _ _ _
              (run_step-Ran uncordon_control_plane u)
              λ t. quiet-Ran (fails read_worker_script) _ _ t (upgrade_nodes-Ran ns)

  when-Ran :
      (b : Bool) (p : List Call) (m : M (Unit {0})) (w : World)
      → ((v : World) → Ran v.scripts p (m v))
      → Ran w.scripts (if b then p else []) (when b m w)
  when-Ran true p m w next = next w
  when-Ran false p m w next = ran w (sym (append_empty w.scripts))

  -- The upgrade of the chosen parts runs its scripts in the order of the plan, in which each node is
  -- drained, upgraded and uncordoned before the next: all of them when it ends without an exception,
  -- and after an exception a first part of them.
  pub upgrade_parts-Ran :
      (parts : Parts) (ns : List String) (w : World)
      → Ran w.scripts (plan parts ns) (upgrade_parts fails parts ns w)
  unfolding upgrade_parts
  upgrade_parts-Ran parts ns w =
      continue-Ran _ _ _ _ _
        (when-Ran parts.kubernetes _ (upgrade_kubernetes fails ns) w (upgrade_kubernetes-Ran ns))
        λ v.
          continue-Ran _ _ _ _ _
            (when-Ran (parts.docker || parts.cni) _ (run_step fails drain_all) v
              (run_step-Ran drain_all))
            λ u.
              continue-Ran _ _ _ _ _
                (when-Ran parts.docker _ (run_step fails upgrade_docker) u
                  (run_step-Ran upgrade_docker))
                λ t.
                  continue-Ran _ _ _ _ _
                    (when-Ran parts.cni _ (run_step fails upgrade_cni) t (run_step-Ran upgrade_cni))
                    (run_step-Ran uncordon_all)
