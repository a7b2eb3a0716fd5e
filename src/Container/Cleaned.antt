-- ===== src/Container/Cleaned.antt =====
-- What the clean-up of the containers of an earlier run leaves as it is.
use brain.Base.{
  ℕ, zero, suc, ◌≡◌, refl, String, Bool, true, false, List, [], ◌∷◌, All, any, arith, is_empty,
  ◌==◌, inl, inr, Bool-cases,
}
use brain.Base.Fueled.{Fueled}
use brain.Base.Fueled.Triples.{Total, Total-bind, Total-if, Total-modify, Total-weaken}
use brain.Base.Result.{Result, ok, err}
use brain.Base.Text.{text_eq_sound}
use brain.Container.Error.{ContainerError}
use brain.Container.Kept.{
  Kept, Keeps, Keeps-bind, Keeps-then, Keeps-from, Keeps-pure, Keeps-throw, Keeps-await, Keeps-if,
  Keeps-learned, Keeps-matched, IsClock,
}
use brain.Container.Model.{
  ContainerRuntime, docker, macos_container, ManagedContainerInfo, PluginMcpContainerConfig,
  OrphanContainerPolicy, checks_for_orphans, gc_containers_enabled,
}
use brain.Container.Orphans.{
  unless_gone, failed_with, remove_existing, stop_existing,
  recreate_existing_managed_plugin_container_if_present, wait_rounds, wait_for_container_gone,
  gc_poll_interval, gc_removal, collect, garbage_collect_managed_containers,
  maybe_handle_managed_container_orphans,
}
use brain.Container.Polling.{Near, Near-Kept, Goes, late_or_again-Total}
use brain.Container.Port.{ContainerId, ContainerPort, Host}
use brain.Container.Spared.{IsGuarded}

-- What holds of every container of a list holds of one that the list has by its name.
All-named :
    (Free : String → Type 0) (name : String) (cs : List ManagedContainerInfo)
    → All (λ c. Free c.name) cs
    → any (λ (c : ManagedContainerInfo). c.name == name) cs ≡ true
    → Free name
All-named Free name [] h e = absurd (ground arith)
All-named Free name (c ∷ cs) h e = elim (Bool-cases (c.name == name)) [
  | inl same ↦ rw (← text_eq_sound c.name name same) h.0
  | inr different ↦ All-named Free name cs h.1 (ground arith)
]

module _ {W : Type 0} (port : ContainerPort W) (host : Host W) (clock : IsClock port host)
    (installation_id : String) (Inv : W → Type 0) (Free : String → Type 0)
    (guarded : IsGuarded port host installation_id Inv Free) where
  unless_gone-Keeps :
      (gone : String → Bool) (wrap : ContainerError → ContainerError)
      (rest : Fueled W ContainerError Unit) (r : Result ContainerError Unit)
      → Keeps Inv rest
      → Keeps Inv (unless_gone port gone wrap rest r)
  unless_gone-Keeps gone wrap rest (ok _) h = h
  unless_gone-Keeps gone wrap rest (err e) h =
      Keeps-if (failed_with gone e) _ _ (λ _. Keeps-pure tt) (λ _. Keeps-throw _)

  remove_existing-Keeps : (id : ContainerId) → Free id → Keeps Inv (remove_existing port id)
  unfolding remove_existing
  remove_existing-Keeps id free =
      Keeps-matched _ _ (λ w. guarded.remove id w free)
        λ r. unless_gone-Keeps _ _ _ r (Keeps-pure tt)

  stop_existing-Keeps : (id : ContainerId) → Free id → Keeps Inv (stop_existing port id)
  unfolding stop_existing
  stop_existing-Keeps id free =
      Keeps-bind _ _ (Keeps-await _ (guarded.kept.is_running id)) λ running.
        Keeps-if running _ _
          (λ _.
            Keeps-matched _ _ (λ w. guarded.stop id w free)
              λ r. unless_gone-Keeps _ _ _ r (remove_existing-Keeps id free))
          (λ _. remove_existing-Keeps id free)

  pub recreate-Keeps :
      (plugin : PluginMcpContainerConfig) (role : String)
      → Keeps Inv
          (recreate_existing_managed_plugin_container_if_present port plugin role installation_id)
  unfolding recreate_existing_managed_plugin_container_if_present
  recreate-Keeps plugin role =
      Keeps-bind _ _ (Keeps-await _ (guarded.kept.exists plugin.name)) λ there.
        Keeps-if there _ _
          (λ _.
            Keeps-learned (All (λ c. Free c.name)) _ _ (guarded.kept.list_managed_containers _)
              (guarded.listed role)
              λ managed free.
                Keeps-if (any (λ (c : ManagedContainerInfo). c.name == plugin.name) managed) _ _
                  (λ named.
                    stop_existing-Keeps plugin.name (All-named Free plugin.name managed free named))
                  (λ _. Keeps-pure tt))
          (λ _. Keeps-pure tt)

  wait_round-Keeps :
      (rounds : ℕ) (id : ContainerId) (deadline : ℕ)
      → Goes clock Inv gc_poll_interval deadline rounds (wait_rounds port host rounds id deadline)
      → Total
          (Near host Inv gc_poll_interval deadline rounds)
          (λ _. Inv)
          (λ _. Inv)
          (wait_rounds port host (suc rounds) id deadline)
  unfolding wait_rounds
  wait_round-Keeps rounds id deadline goes =
      Keeps-then P _ _ (λ w p. p.0) (Keeps-await _ (K.exists id))
        λ there.
          Total-if P _ _ there _ _
            (λ _.
              late_or_again-Total clock Inv gc_poll_interval deadline rounds _ _ guarded.rests
                (Keeps-pure false) goes)
            (λ _. Keeps-from P _ (λ w p. p.0) (Keeps-pure true))
    where
      P : W → Type 0
      P = Near host Inv gc_poll_interval deadline rounds

      K : Kept port host P
      K = Near-Kept clock Inv gc_poll_interval deadline rounds guarded.kept

  wait_rounds-Keeps :
      (rounds : ℕ) (id : ContainerId) (deadline : ℕ)
      → Total
          (Near host Inv gc_poll_interval deadline rounds)
          (λ _. Inv)
          (λ _. Inv)
          (wait_rounds port host (suc rounds) id deadline)
  wait_rounds-Keeps zero id deadline = wait_round-Keeps zero id deadline tt
  wait_rounds-Keeps (suc left) id deadline =
      wait_round-Keeps (suc left) id deadline (wait_rounds-Keeps left id deadline)

  wait_for_container_gone-Keeps :
      (id : ContainerId) → Keeps Inv (wait_for_container_gone port host id)
  unfolding wait_for_container_gone
  wait_for_container_gone-Keeps id =
      Total-bind Inv Read _ _ _ _ (Total-modify _ Read _ _ (λ w p. (p, refl))) λ started_at.
        Total-weaken _ _ _ _ _ _ _ (λ w p. (p.0, let at = p.1 in ground arith)) (λ a w j. j)
          (λ e w j. j) (wait_rounds-Keeps _ id _)
    where
      Read : ℕ → W → Type 0
      Read started_at w = Inv w × (started_at ≡ host.now w)

  gc_removal-Keeps :
      (runtime : ContainerRuntime) (id : ContainerId)
      → Free id
      → Keeps Inv (gc_removal port host runtime id)
  unfolding gc_removal
  gc_removal-Keeps docker id free =
      Keeps-bind _ _ (wait_for_container_gone-Keeps id)
        λ gone. Keeps-if gone _ _ (λ _. Keeps-pure tt) (λ _. Keeps-throw _)
  gc_removal-Keeps macos_container id free =
      Keeps-matched _ _ (λ w. guarded.remove id w free)
        λ r. unless_gone-Keeps _ _ _ r (Keeps-pure tt)

  collect-Keeps :
      (runtime : ContainerRuntime) (c : ManagedContainerInfo)
      → Free c.name
      → Keeps Inv (collect port host runtime c)
  unfolding collect
  collect-Keeps runtime c free =
      Keeps-if c.running _ _
        (λ _.
          Keeps-matched _ _ (λ w. guarded.stop c.name w free)
            λ r. unless_gone-Keeps _ _ _ r (gc_removal-Keeps runtime c.name free))
        (λ _. gc_removal-Keeps runtime c.name free)

  garbage_collect-Keeps :
      (runtime : ContainerRuntime) (cs : List ManagedContainerInfo)
      → All (λ c. Free c.name) cs
      → Keeps Inv (garbage_collect_managed_containers port host runtime cs)
  unfolding garbage_collect_managed_containers
  garbage_collect-Keeps runtime [] free = Keeps-pure tt
  garbage_collect-Keeps runtime (c ∷ cs) free =
      Keeps-bind _ _ (collect-Keeps runtime c free.0) λ _. garbage_collect-Keeps runtime cs free.1

  pub orphans-Keeps :
      (runtime : ContainerRuntime) (role : String) (policy : OrphanContainerPolicy)
      → Keeps Inv
          (maybe_handle_managed_container_orphans port host runtime role policy installation_id)
  unfolding maybe_handle_managed_container_orphans
  orphans-Keeps runtime role policy =
      Keeps-if (checks_for_orphans policy) _ _
        (λ _.
          Keeps-learned (All (λ c. Free c.name)) _ _ (guarded.kept.list_managed_containers _)
            (guarded.listed role)
            λ cs free.
              Keeps-if (is_empty cs) _ _ (λ _. Keeps-pure tt)
                λ _.
                  Keeps-if (gc_containers_enabled policy) _ _
                    (λ _. garbage_collect-Keeps runtime cs free) (λ _. Keeps-throw _))
        (λ _. Keeps-pure tt)
